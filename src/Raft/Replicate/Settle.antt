-- ===== src/Raft/Replicate/Settle.antt =====
-- Exchanges after a conflict, between one leader and one follower of src/RaftServer.cpp, come to an
-- end: each lowers the next index until the search has settled.
use shard_kv_raft.Base.{
  ℕ, ◌≤◌, suc, ◌≡◌, ◌≢◌, refl, sym, ap, ◌∙◌, inl, inr, some, ℤ, pos, List, [], ◌∷◌, ◌++◌, minus_one,
  ◌+ℤ◌, ◌-ℤ◌, ◌≤ℤ◌, ◌<ℤ◌, leb_ℤ, int_laws, arith, Bool-cases, length, All,
}
use mathlib.Core.Path.{subst}
use shard_kv_raft.Raft.State.{LogEntry, Raft, Timeval, at}
use shard_kv_raft.Raft.Log.{last_index}
use shard_kv_raft.Raft.Persist.{save_raft_state, serialize}
use shard_kv_raft.Raft.Append.{follow}
use shard_kv_raft.Raft.Append.Entries.{follow_term, follow-SameBase, last_index-follow}
use shard_kv_raft.Raft.Replicate.Request.{Ready, prev}
use shard_kv_raft.Raft.Replicate.Exchange.{exchanges}
use shard_kv_raft.Raft.Replicate.Backing.{moved}
use shard_kv_raft.Raft.Replicate.Stuck.{moved-Ready}
use shard_kv_raft.Raft.Replicate.Facing.{Facing, Settled, snapshot_due, classify, exchange_back}

-- Behind the refusal the two still face each other.
moved-Facing :
    (now : Timeval) (peer : ℤ) (l f : Raft) (ys : List ℤ) (next : ℤ)
    → (h : Facing peer l f) → at ys peer ≡ some next
    → l.last_included_index <ℤ next
    → next ≤ℤ prev peer l h.ready
    → (h' : Facing peer (moved l ys) (follow now f l.cur_term)) × (h'.ready.next ≡ next)
unfolding save_raft_state serialize
moved-Facing now peer l f ys next h here lo hi =
    let (b, at_next) =
      moved-Ready peer l ys next h.ready here lo (omega (int_laws, hi, h.ready.in_log)) in
    (
      record {
        ready = b;
        within =
            subst (λ z. b.next -ℤ pos 1 ≤ℤ z) (sym (last_index-follow now f l.cur_term))
              (subst (λ n. n -ℤ pos 1 ≤ℤ last_index f) (sym at_next)
                (omega (int_laws, hi, h.within)));
        fresh = follow_term now f l.cur_term;
        base = h.base;
        known =
            subst (All (λ (e : LogEntry). e.term ≢ minus_one))
              (sym (follow-SameBase now f l.cur_term).1) h.known;
      },
      at_next,
    )

due_at :
    (peer : ℤ) (l f : Raft) (ys : List ℤ) (next : ℤ)
    → at ys peer ≡ some next
    → next ≤ℤ l.last_included_index
    → Settled peer (moved l ys) f
unfolding save_raft_state serialize
due_at peer l f ys next here due = inl (snapshot_due next here due)

-- What refusals leave alone at the leader.
pub record SameLeader (l l' : Raft) : Type 0 where
  pub logs : l'.logs ≡ l.logs
  pub base : l'.last_included_index ≡ l.last_included_index
  pub base_term : l'.last_include_term ≡ l.last_include_term
  pub id : l'.peer_id ≡ l.peer_id
  pub term : l'.cur_term ≡ l.cur_term
  pub matches : l'.match_index ≡ l.match_index

moved-SameLeader : (l : Raft) (ys : List ℤ) → SameLeader l (moved l ys)
unfolding save_raft_state serialize
moved-SameLeader l ys = record {
  logs = refl;
  base = refl;
  base_term = refl;
  id = refl;
  term = refl;
  matches = refl;
}

SameLeader-trans : {a b c : Raft} → SameLeader a b → SameLeader b c → SameLeader a c
SameLeader-trans h k = record {
  logs = k.logs ∙ h.logs;
  base = k.base ∙ h.base;
  base_term = k.base_term ∙ h.base_term;
  id = k.id ∙ h.id;
  term = k.term ∙ h.term;
  matches = k.matches ∙ h.matches;
}

-- Each exchange uses up one of the rounds.
enough_left :
    (first next base : ℤ) (n slack : ℕ)
    → next ≤ℤ first -ℤ pos 1
    → first +ℤ pos slack ≤ℤ base +ℤ pos (suc n)
    → next +ℤ pos slack ≤ℤ base +ℤ pos n
enough_left first next base n slack low enough = omega int_laws

slack_left :
    (first next base : ℤ) (n slack : ℕ)
    → base <ℤ first
    → first +ℤ pos slack ≤ℤ base +ℤ pos n
    → suc slack ≤ n
slack_left first next base n slack above enough = omega int_laws

-- What some first part of a list of exchanges comes to, with this many left.
abbrev pub Settles : ℕ → List Timeval → ℤ → Raft → Raft → Type 0
Settles slack times peer l f =
    (before after : List Timeval) × (l' : Raft) × (f' : Raft) × (times ≡ before ++ after)
    × (exchanges before peer (l, f) ≡ some (l', f'))
    × Settled peer l' f'
    × (f'.logs ≡ f.logs)
    × SameLeader l l'
    × (slack ≤ length after)

-- With enough exchanges the search ends, in some first part of them.
pub settles :
    (slack : ℕ) (times : List Timeval) (peer : ℤ) (l f : Raft)
    → (h : Facing peer l f)
    → h.ready.next +ℤ pos slack ≤ℤ l.last_included_index +ℤ pos (length times)
    → Settles slack times peer l f
unfolding exchanges
settles slack [] peer l f h enough = absurd (omega (int_laws, h.ready.from_base))
settles slack (now ∷ times) peer l f h enough =
    let base = l.last_included_index in
    let room =
      slack_left h.ready.next base base (suc (length times)) slack h.ready.from_base enough in
    elim (classify peer l f h) [
      | inl done ↦
          let same : SameLeader l l = record {
            logs = refl;
            base = refl;
            base_term = refl;
            id = refl;
            term = refl;
            matches = refl;
          } in
          ([], now ∷ times, l, f, refl, refl, done, refl, same, omega (arith, room))
      | inr (c, same, back) ↦
          let (ys, next, run, here, low) = exchange_back peer l f c now back in
          let behind : next ≤ℤ prev peer l h.ready =
            subst (λ (b : Ready peer l). next ≤ℤ prev peer l b) same low in
          let (_, logs, _) = follow-SameBase now f l.cur_term in
          let f1 = follow now f l.cur_term in
          let stays = moved-SameLeader l ys in
          elim (Bool-cases (leb_ℤ next base)) [
            | inl due ↦ (
              now ∷ [],
              times,
              moved l ys,
              f1,
              refl,
              rw run refl,
              due_at peer l f1 ys next here (ground arith),
              logs,
              stays,
              omega (arith, room),
            )
            | inr sends ↦
                let (h', at_next) =
                  moved-Facing now peer l f ys next h here (ground arith) behind in
                let (before, after, l', f', split, rest, done, logs', stays', left) =
                  settles slack times peer (moved l ys) f1 h' (
                    subst
                      (λ z.
                        z +ℤ pos slack ≤ℤ (moved l ys).last_included_index +ℤ pos (length times))
                      (sym at_next)
                      (subst (λ z. next +ℤ pos slack ≤ℤ z +ℤ pos (length times)) (sym stays.base)
                        (enough_left h.ready.next next base (length times) slack behind enough))) in
                (
                  now ∷ before,
                  after,
                  l',
                  f',
                  ap (λ ts. now ∷ ts) split,
                  rw run rest,
                  done,
                  logs' ∙ logs,
                  SameLeader-trans stays stays',
                  left,
                )
          ]
    ]
