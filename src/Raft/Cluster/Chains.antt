-- ===== src/Raft/Cluster/Chains.antt =====
-- Logs that agree with a history: cut off by a snapshot, sent in a request, and spliced by an
-- append.
use shard_kv_raft.Base.{
  ℕ, zero, suc, ◌≡◌, sym, ap, ◌⊎◌, Bool-cases, inl, inr, List, [], ◌∷◌, some, ℤ, pos, ◌+ℤ◌, ◌-ℤ◌,
  ◌≤ℤ◌, ◌==ℤ◌, ==ℤ→eq, pos_part, neg_part, int_laws, >>=-eq-some, take, drop, get_elem?, All,
}
use mathlib.Core.Path.{subst}
use mathlib.Core.Option.{some-injective}
use shard_kv_raft.Text.{Bytes}
use shard_kv_raft.Raft.State.{LogEntry, Raft, AppendEntriesRequest, at}
use shard_kv_raft.Raft.Log.{back_term, log_at, compress_log_idx}
use shard_kv_raft.Raft.Log.Index.{log_at-some}
use shard_kv_raft.Raft.Wire.{get_cmd_and_term}
use shard_kv_raft.Raft.Wire.Entries.{IsClean, get_cmd_and_term-format_entries}
use shard_kv_raft.Raft.Replicate.{tail_from, prev_term, append_request}
use shard_kv_raft.Raft.Replicate.Request.{All-drop}
use shard_kv_raft.Raft.Cluster.Links.{
  History, Linked, Linked-drop, Linked-get, Extends, Linked-Extends, back_term-take,
}

-- A snapshot's end: nothing is below it, or it is an entry of the history.
abbrev pub IsBased : History → ℤ → ℤ → Type 0
IsBased h i t = (i ≤ℤ pos 0) ⊎ ((x : Bytes × ℤ) × (h i t ≡ some x))

-- Entries behind a snapshot that ends at index `i` with an entry of term `t`.
pub record Chained (h : History) (i t : ℤ) (es : List LogEntry) : Type 0 where
  pub linked : Linked h i t es
  pub clean : All (IsClean b';') es
  pub based : IsBased h i t

abbrev pub IsChained : History → Raft → Type 0
IsChained h r =
    Chained h r.last_included_index r.last_include_term r.logs × (pos 0 ≤ℤ r.last_included_index)

pub IsBased-Extends : {h k : History} (i t : ℤ) → Extends h k → IsBased h i t → IsBased k i t
IsBased-Extends i t more (inl low) = inl low
IsBased-Extends i t more (inr (x, e)) = inr (x, more i t x e)

pub IsChained-Extends : {h k : History} (r : Raft) → Extends h k → IsChained h r → IsChained k r
IsChained-Extends r more (c, low) = (
  record {
    linked = Linked-Extends r.last_included_index r.last_include_term r.logs more c.linked;
    clean = c.clean;
    based = IsBased-Extends r.last_included_index r.last_include_term more c.based;
  },
  low,
)

pub IsChained-same :
    {h : History} (r s : Raft)
    → s.last_included_index ≡ r.last_included_index
    → s.last_include_term ≡ r.last_include_term
    → s.logs ≡ r.logs
    → IsChained h r
    → IsChained h s
IsChained-same {h} r s index term logs (c, low) = (
  subst (λ i. Chained h i s.last_include_term s.logs) (sym index)
      (subst (λ t. Chained h r.last_included_index t s.logs) (sym term)
        (subst (Chained h r.last_included_index r.last_include_term) (sym logs) c)),
  subst (λ z. pos 0 ≤ℤ z) (sym index) low,
)

pub back_term-drop :
    (t : ℤ) (n : ℕ) (es : List LogEntry) (e : LogEntry)
    → get_elem? es n ≡ some e
    → back_term e.term (drop (suc n) es) ≡ back_term t es
unfolding back_term
back_term-drop t n [] e p = cc
back_term-drop t zero (x ∷ es) e p =
    ap (λ (y : LogEntry). back_term y.term es) (some-injective e x (sym p))
back_term-drop t (suc n) (x ∷ es) e p = back_term-drop x.term n es e p

module _ (h : History) where
  -- What is left behind an entry.
  pub Chained-drop :
      (i t : ℤ) (n : ℕ) (es : List LogEntry) (e : LogEntry)
      → get_elem? es n ≡ some e
      → Chained h i t es
      → Chained h (i +ℤ pos (suc n)) e.term (drop (suc n) es)
  Chained-drop i t n es e p c = record {
    linked =
        subst (λ z. Linked h (i +ℤ pos (suc n)) z (drop (suc n) es)) (back_term-take t n es e p)
          (Linked-drop h i t (suc n) es c.linked);
    clean = All-drop (suc n) es c.clean;
    based = inr ((e.cmd, back_term t (take n es)), Linked-get h i t n es e c.linked p);
  }

  -- What a request carries from a log.
  pub record Carries (q : AppendEntriesRequest) : Type 0 where
    pub entries : List LogEntry
    pub parsed : get_cmd_and_term q.send_logs ≡ some entries
    pub linked : Linked h q.prev_log_index q.prev_log_term entries
    pub clean : All (IsClean b';') entries

  -- What stands behind an entry that is read.
  pub log_at-Chained :
      (r : Raft) (index : ℤ) (e : LogEntry)
      → IsChained h r
      → log_at r index ≡ some e
      → Chained h index e.term (tail_from r.logs (compress_log_idx r index +ℤ pos 1))
  unfolding compress_log_idx tail_from
  log_at-Chained r index e c p =
      let (n, place, found) = log_at-some r index e p in
      let from : index -ℤ r.last_included_index -ℤ pos 1 +ℤ pos 1 ≡ pos (suc n) =
        omega (int_laws, ap pos_part place, ap neg_part place) in
      subst (λ z. Chained h index e.term (tail_from r.logs z)) (sym from)
        (subst (λ z. Chained h z e.term (drop (suc n) r.logs)) (sym place)
          (Chained-drop r.last_included_index r.last_include_term n r.logs e found c.0))

  -- What a leader sends behind an index is chained to the term that it sends with it.
  pub sent-Chained :
      (l : Raft) (prev t : ℤ)
      → IsChained h l
      → prev_term l prev ≡ some t
      → Chained h prev t (tail_from l.logs (compress_log_idx l prev +ℤ pos 1))
  unfolding prev_term
  sent-Chained l prev t c e = elim (Bool-cases (prev ==ℤ l.last_included_index)) [
    | inl edge ↦
        at_base (==ℤ→eq prev l.last_included_index edge)
          (some-injective l.last_include_term t (rw edge at e))
    | inr inside ↦
        let (x, found, same) = >>=-eq-some (log_at l prev) _ (rw inside at e) in
        subst (λ z. Chained h prev z (tail_from l.logs (compress_log_idx l prev +ℤ pos 1)))
          (some-injective x.term t same) (log_at-Chained l prev x c found)
  ]
    where
      whole : (z : ℤ) → z ≡ pos 0 → tail_from l.logs z ≡ l.logs
      whole z q = unfold tail_from in ap (tail_from l.logs) q

      at_base :
          prev ≡ l.last_included_index
          → l.last_include_term ≡ t
          → Chained h prev t (tail_from l.logs (compress_log_idx l prev +ℤ pos 1))
      at_base same term =
          let here : compress_log_idx l prev +ℤ pos 1 ≡ pos 0 =
            unfold compress_log_idx in omega (int_laws, ap pos_part same, ap neg_part same) in
          subst (Chained h prev t) (sym (whole _ here)) (
            subst (λ z. Chained h z t l.logs) (sym same)
              (subst (λ z. Chained h l.last_included_index z l.logs) term c.0))

  pub append_request-Carries :
      (l : Raft) (peer : ℤ) (q : AppendEntriesRequest) (size : ℕ)
      → IsChained h l
      → append_request l peer ≡ some (q, size)
      → Carries q × (q.term ≡ l.cur_term)
  unfolding append_request
  append_request-Carries l peer q size c run =
      let (next, _, run') = >>=-eq-some (at l.next_index peer) _ run in
      let (t, term, run'') = >>=-eq-some (prev_term l (next -ℤ pos 1)) _ run' in
      let chained = sent-Chained l (next -ℤ pos 1) t c term in
      let e = some-injective _ _ run'' in
      let same = ap (λ (p : AppendEntriesRequest × ℕ). p.0) e in
      (
        subst Carries same (record {
          entries = tail_from l.logs (compress_log_idx l (next -ℤ pos 1) +ℤ pos 1);
          parsed = get_cmd_and_term-format_entries _ chained.clean;
          linked = chained.linked;
          clean = chained.clean;
        }),
        sym (ap (λ (x : AppendEntriesRequest). x.term) same),
      )
