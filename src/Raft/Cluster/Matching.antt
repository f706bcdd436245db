-- ===== src/Raft/Cluster/Matching.antt =====
-- Log matching in a cluster of nodes of src/RaftServer.cpp.
use shard_kv_raft.Base.{
  ℕ, zero, suc, ◌≡◌, sym, ap, ◌∙◌, some, ℤ, pos, ◌+ℤ◌, ◌-ℤ◌, ◌≤ℤ◌, ◌<ℤ◌, pos_part, neg_part,
  int_laws, int_signs, arith,
}
use mathlib.Core.Option.{some-injective}
use shard_kv_raft.Text.{Bytes}
use shard_kv_raft.Raft.State.{LogEntry, Raft}
use shard_kv_raft.Raft.Log.{log_at}
use shard_kv_raft.Raft.Log.Index.{log_at-in_range, log_at-le}
use shard_kv_raft.Raft.Snapshot.{Codec}
use shard_kv_raft.Raft.Cluster.{Trace}
use shard_kv_raft.Raft.Cluster.Links.{History}
use shard_kv_raft.Raft.Cluster.Chains.{IsChained}
use shard_kv_raft.Raft.Cluster.Unpacking.{log_at-known}
use shard_kv_raft.Raft.Cluster.Invariant.{IsFresh}
use shard_kv_raft.Raft.Cluster.Winners.{runs, ByMajority, trace-Inv}

entry_before :
    (r : Raft) (i : ℤ) (e : LogEntry)
    → log_at r i ≡ some e
    → r.last_included_index <ℤ i -ℤ pos 1
    → (d : LogEntry) × (log_at r (i -ℤ pos 1) ≡ some d)
entry_before r i e found lo =
    log_at-in_range r (i -ℤ pos 1) lo (omega (int_laws, log_at-le r i e found))

-- Entries of one term at one index are the same, and so are the terms of those before them.
same_fact :
    (h : History) (r s : Raft) (i : ℤ) (d e : LogEntry)
    → IsChained h r
    → IsChained h s
    → log_at r i ≡ some d
    → log_at s i ≡ some e
    → d.term ≡ e.term
    → (d ≡ e)
      × ((d' e' : LogEntry)
          → log_at r (i -ℤ pos 1) ≡ some d'
          → log_at s (i -ℤ pos 1) ≡ some e'
          → d'.term ≡ e'.term)
same_fact h r s i d e cr cs fd fe same =
    let (t, link, prev) = log_at-known h r i d cr fd in
    let (u, link', prev') = log_at-known h s i e cs fe in
    let fact = some-injective (d.cmd, t) (e.cmd, u) (sym link ∙ ap (h i) same ∙ link') in
    (
      entry_eq d e (ap (λ (p : Bytes × ℤ). p.0) fact) same,
      λ d' e' fd' fe'. prev d' fd' ∙ ap (λ (p : Bytes × ℤ). p.1) fact ∙ sym (prev' e' fe'),
    )
  where
    entry_eq : (d e : LogEntry) → d.cmd ≡ e.cmd → d.term ≡ e.term → d ≡ e
    entry_eq d e p q = ground arith

-- Two entries of one term at index `i`: the entries `k` before them are the same as well.
same_before :
    {h : History} (r s : Raft) (i : ℤ) (d e : LogEntry)
    → IsChained h r
    → IsChained h s
    → log_at r i ≡ some d
    → log_at s i ≡ some e
    → d.term ≡ e.term
    → (k : ℕ) (j : ℤ) → j +ℤ pos k ≡ i
    → r.last_included_index <ℤ j
    → s.last_included_index <ℤ j
    → log_at r j ≡ log_at s j
same_before {h} r s i d e cr cs fd fe same zero j count lo lo' =
    let here : j ≡ i = omega (int_laws, ap pos_part count, ap neg_part count) in
    let (eq, _) = same_fact h r s i d e cr cs fd fe same in
    ap (log_at r) here ∙ fd ∙ ap some eq ∙ sym fe ∙ ap (log_at s) (sym here)
same_before {h} r s i d e cr cs fd fe same (suc k) j count lo lo' =
    let before : j +ℤ pos k ≡ i -ℤ pos 1 = omega (int_laws, ap pos_part count, ap neg_part count) in
    let (d', fd') =
      entry_before r i d fd (omega (int_laws, lo, ap pos_part count, ap neg_part count)) in
    let (e', fe') =
      entry_before s i e fe (omega (int_laws, lo', ap pos_part count, ap neg_part count)) in
    let (_, prev) = same_fact h r s i d e cr cs fd fe same in
    same_before r s (i -ℤ pos 1) d' e' cr cs fd' fe' (prev d' e' fd' fe') k j before lo lo'

-- Let a cluster begin with followers with empty logs. From moment to moment let a node run a
-- handler, take a command without commas and semicolons, or send an append or a snapshot to any
-- node, or let something that was sent arrive, late, more than once, or never. Let whoever wins an
-- election have the votes of a majority of the nodes: the votes of different nodes, given for that
-- term. Then two logs that have an entry of the same term at one index have the same entry there,
-- and the same entries at all earlier indices that are behind both snapshots.
pub logs_match :
    (codec : Codec) (trace : Trace codec) (n : ℕ)
    → IsFresh (trace.moment 0)
    → ByMajority trace n
    → (k a b : ℕ) (i : ℤ) (x y : LogEntry) → log_at (runs trace a k) i ≡ some x
    → log_at (runs trace b k) i ≡ some y
    → x.term ≡ y.term
    → (x ≡ y)
      × ((j : ℤ)
          → j ≤ℤ i
          → (runs trace a k).last_included_index <ℤ j
          → (runs trace b k).last_included_index <ℤ j
          → log_at (runs trace a k) j ≡ log_at (runs trace b k) j)
logs_match codec trace n fresh majority k a b i x y fx fy same =
    let (h, leader_of, inv) = trace-Inv trace n fresh majority k in
    let r = runs trace a k in
    let s = runs trace b k in
    let cr = inv.nodes a in
    let cs = inv.nodes b in
    (
      (same_fact h r s i x y cr cs fx fy same).0,
      λ j le lo lo'.
          same_before r s i x y cr cs fx fy same (pos_part (i -ℤ j)) j (omega int_signs) lo lo',
    )
