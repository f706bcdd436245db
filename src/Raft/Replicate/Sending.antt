-- ===== src/Raft/Replicate/Sending.antt =====
-- The calls that SendAppendEntries of src/RaftServer.cpp makes of a peer's stub. What the calls come
-- to, one after the other, is an argument: an answer, or a status that is not OK.
use shard_kv_raft.Base.{
  ℕ, zero, suc, ◌+◌, ◌<◌, ◌≤◌, ◌≡◌, refl, ap, ◌∙◌, ◌⊎◌, inl, inr, List, Option, none, some, ◌>>=◌,
  ℤ, pos, arith, Bool-cases, ltb,
}
use shard_kv_raft.Raft.State.{AppendEntriesResponse, at, put}
use shard_kv_raft.Raft.Replicate.Exchange.{put-at}

-- The call, and up to `retries` more while the status is not OK; the call is number `k`.
unfoldable pub call_peer : ℕ → (ℕ → Option AppendEntriesResponse) → ℕ → Option AppendEntriesResponse
call_peer zero calls k = calls k
call_peer (suc retries) calls k =
    let rest = call_peer retries calls (suc k) in
    elim (calls k) [ none ↦ rest | some answer ↦ some answer ]

-- `retry_times`
abbrev pub retry_times : ℕ
retry_times = 3

-- The peers that are marked dead, and the answer if there is one.
unfoldable pub call_append :
    (ℕ → Option AppendEntriesResponse) → List ℤ → ℤ → Option (List ℤ × Option AppendEntriesResponse)
unfolding call_peer
call_append calls dead peer = elim (call_peer retry_times calls 0) [
  | some answer ↦ some (dead, some answer)
  | none ↦ do marked ← put dead peer (pos 1); some (marked, none)
]

-- What calling comes to: the first answer of the calls from number `k` on, or none.
data Called (calls : ℕ → Option AppendEntriesResponse) (k n : ℕ)
    : Option AppendEntriesResponse → Type 0 where
  answered :
      (i : ℕ) (a : AppendEntriesResponse)
      → k ≤ i
      → i < k + n
      → calls i ≡ some a
      → ((j : ℕ) → k ≤ j → j < i → calls j ≡ none)
      → Called calls k n (some a)
  failed : ((j : ℕ) → k ≤ j → j < k + n → calls j ≡ none) → Called calls k n none

only_here :
    (calls : ℕ → Option AppendEntriesResponse) (k j : ℕ)
    → calls k ≡ none
    → k ≤ j
    → j < suc k
    → calls j ≡ none
only_here calls k j e lo hi = let same : j ≡ k = omega (arith, lo, hi) in ap calls same ∙ e

-- A call at place `k`, and nothing behind it.
here-Called :
    (calls : ℕ → Option AppendEntriesResponse) (k : ℕ) (o : Option AppendEntriesResponse)
    → calls k ≡ o
    → Called calls k 1 o
here-Called calls k none e = failed (λ j lo hi. only_here calls k j e lo (omega (arith, hi)))
here-Called calls k (some a) e =
    answered k a (omega arith) (omega arith) e (λ j lo hi. absurd (omega (arith, lo, hi)))

-- A call that fails before the others.
past :
    (calls : ℕ → Option AppendEntriesResponse) (k j : ℕ)
    → calls k ≡ none
    → (suc k ≤ j → calls j ≡ none)
    → k ≤ j
    → calls j ≡ none
past calls k j e later lo = elim (Bool-cases (ltb k j)) [
  | inl above ↦ later (ground arith)
  | inr here ↦ only_here calls k j e lo (ground arith)
]

before-Called :
    (calls : ℕ → Option AppendEntriesResponse) (k n : ℕ) (o rest : Option AppendEntriesResponse)
    → calls k ≡ o
    → Called calls (suc k) n rest
    → Called calls k (suc n) (elim o [ none ↦ rest | some answer ↦ some answer ])
before-Called calls k n (some a) rest e h =
    answered k a (omega arith) (omega arith) e (λ j lo hi. absurd (omega (arith, lo, hi)))
before-Called calls k n none _ e (answered i a lo hi here before) =
    answered i a (omega (arith, lo)) (omega (arith, hi)) here
      (λ j from to. past calls k j e (λ above. before j above to) from)
before-Called calls k n none _ e (failed all) =
    failed (λ j from to. past calls k j e (λ above. all j above (omega (arith, to))) from)

call_peer-Called :
    (n : ℕ) (calls : ℕ → Option AppendEntriesResponse) (k : ℕ)
    → Called calls k (suc n) (call_peer n calls k)
unfolding call_peer
call_peer-Called zero calls k = here-Called calls k (calls k) refl
call_peer-Called (suc n) calls k =
    before-Called calls k (suc n) (calls k) (call_peer n calls (suc k)) refl
      (call_peer-Called n calls (suc k))

-- What SendAppendEntries has after its calls: the first answer of at most four calls, with no mark
-- changed; or none, when all four have failed, and the peer is marked.
abbrev pub Heard :
    (ℕ → Option AppendEntriesResponse)
    → List ℤ
    → ℤ
    → Option (List ℤ × Option AppendEntriesResponse)
    → Type 0
Heard calls dead peer result =
    ((i : ℕ) × (a : AppendEntriesResponse) × (i < 4)
      × (calls i ≡ some a)
      × ((j : ℕ) → j < i → calls j ≡ none)
      × (result ≡ some (dead, some a)))
    ⊎ (((j : ℕ) → j < 4 → calls j ≡ none)
        × ((marked : List ℤ) × (result ≡ some (marked, none)) × (at marked peer ≡ some (pos 1))))

-- Let the peer have a place among the marks. Then SendAppendEntries takes the first answer of at most
-- four calls and changes no mark; or all four calls fail, it has no answer, and the peer is marked.
pub call_append-Heard :
    (calls : ℕ → Option AppendEntriesResponse) (dead : List ℤ) (peer mark : ℤ)
    → at dead peer ≡ some mark
    → Heard calls dead peer (call_append calls dead peer)
unfolding call_append
call_append-Heard calls dead peer mark has =
    heard (call_peer retry_times calls 0) (call_peer-Called 3 calls 0)
  where
    heard :
        (o : Option AppendEntriesResponse)
        → Called calls 0 4 o
        → Heard calls dead peer (elim o [
          | some answer ↦ some (dead, some answer)
          | none ↦ put dead peer (pos 1) >>= λ marked. some (marked, none)
        ])
    heard _ (answered i a lo hi here before) =
        inl (i, a, hi, here, (λ j to. before j (omega arith) to), refl)
    heard _ (failed all) =
        let (marked, run, mark_at) = put-at dead peer mark (pos 1) has in
        inr ((λ j to. all j (omega arith) to), (marked, rw run refl, mark_at))
