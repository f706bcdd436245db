-- ===== src/Raft/Step/Sizes.antt =====
-- The vectors that a leader keeps have a place for each peer, so ElectionLoop and ProcessEntriesLoop
-- of src/RaftServer.cpp stay inside them.
use shard_kv_raft.Base.{
  ◌≡◌, refl, sym, ap, ◌∙◌, inl, inr, List, [], ◌∷◌, some, ℤ, pos, ◌==ℤ◌, ltb_ℤ, leb_ℤ, arith,
  length, get_elem?-in_range, All, Bool-cases, if◌then◌else◌,
}
use mathlib.Core.Path.{subst}
use shard_kv_raft.Raft.State.{PeersInfo, Raft, Timeval, at}
use shard_kv_raft.Raft.Replicate.{is_leader}
use shard_kv_raft.Raft.Election.{others, after_vote, get_duration, is_candidate, is_majority}
use shard_kv_raft.Raft.Election.Recount.{become_leader_total}
use shard_kv_raft.Raft.Heartbeat.{
  Task, send_install_snapshot, send_append_entries, task_for, tasks_for, heartbeat,
}
use shard_kv_raft.Raft.Heartbeat.Bell.{IsNumbered}
use shard_kv_raft.Raft.Snapshot.{Codec}
use shard_kv_raft.Raft.Step.{Steps, here, next}
use shard_kv_raft.Raft.Step.Terms.{SameSize}
use shard_kv_raft.Raft.Step.Ballot.{Step-Advances}

-- Each peer's number is a place, and the two vectors have as many places as there are peers.
pub record IsSized (r : Raft) : Type 0 where
  pub numbered : All (IsNumbered (length r.peers)) r.peers
  pub next_room : length r.next_index ≡ length r.peers
  pub match_room : length r.match_index ≡ length r.peers

SameSize-IsSized : (r s : Raft) → SameSize r s → IsSized r → IsSized s
SameSize-IsSized r s (peers, nexts, matches) h = record {
  numbered = subst (λ ps. All (IsNumbered (length ps)) ps) (sym peers) h.numbered;
  next_room = nexts ∙ h.next_room ∙ sym (ap (λ ps. length ps) peers);
  match_room = matches ∙ h.match_room ∙ sym (ap (λ ps. length ps) peers);
}

Steps-IsSized : (codec : Codec) {r s : Raft} → Steps codec r s → IsSized r → IsSized s
Steps-IsSized codec here h = h
Steps-IsSized codec {r} (next {s} {t} rs st) h =
    SameSize-IsSized s t (Step-Advances codec st).size (Steps-IsSized codec rs h)

task_total :
    (r : Raft) (p : PeersInfo)
    → length r.next_index ≡ length r.peers
    → IsNumbered (length r.peers) p
    → (t : Task) × (task_for r p.peer_id ≡ some t)
unfolding task_for at
task_total r p room (i, e, lo) =
    let (z, found) = get_elem?-in_range r.next_index i (omega (arith, room, lo)) in
    (
      if leb_ℤ z r.last_included_index
          then send_install_snapshot p.peer_id
          else send_append_entries p.peer_id,
      rw (e, found) refl,
    )

tasks_total :
    (r : Raft) (me : ℤ) (ps : List PeersInfo)
    → length r.next_index ≡ length r.peers
    → All (IsNumbered (length r.peers)) ps
    → (ts : List Task) × (tasks_for r (others me ps) ≡ some ts)
unfolding tasks_for others
tasks_total r me [] room hs = ([], refl)
tasks_total r me (p ∷ ps) room (hp, hs) =
    let (ts, rest) = tasks_total r me ps room hs in
    elim (Bool-cases (p.peer_id ==ℤ me)) [
      | inl same ↦ (ts, rw same rest)
      | inr other ↦
          let (t, first) = task_total r p room hp in (t ∷ ts, rw other (rw first (rw rest refl)))
    ]

heartbeat_total :
    (now : Timeval) (r : Raft) → IsSized r → (out : Raft × List Task) × (heartbeat now r ≡ some out)
unfolding heartbeat
heartbeat_total now r h =
    let r' : Raft = record r { last_broadcast_time = now } in
    let (ts, run) = tasks_total r' r.peer_id r.peers h.next_room h.numbered in
    elim (Bool-cases (is_leader r.state)) [
      | inl leads ↦
          elim (Bool-cases (ltb_ℤ (get_duration now r.last_broadcast_time) (pos 100000))) [
            | inl early ↦ ((r, []), rw leads (rw early refl))
            | inr due ↦ ((r', ts), rw leads (rw due (rw run refl)))
          ]
      | inr not_leading ↦ ((r, []), rw not_leading refl)
    ]

after_vote_total : (now : Timeval) (r : Raft) → IsSized r → (s : Raft) × (after_vote now r ≡ some s)
unfolding after_vote
after_vote_total now r h =
    let (s, won, _, _) =
      become_leader_total now r (omega (arith, h.next_room)) (omega (arith, h.match_room)) in
    elim (Bool-cases (is_candidate r.state)) [
      | inl stands ↦ elim (Bool-cases (is_majority r.recv_votes r.peers)) [
        | inl most ↦ (s, rw won (rw (stands, most) refl))
        | inr few ↦ (r, rw won (rw (stands, few) refl))
      ]
      | inr other ↦ (r, rw won (rw other refl))
    ]

-- The same behind any sequence of steps.
pub Steps-IsSized_total :
    (codec : Codec) (now : Timeval) (r s : Raft)
    → IsSized r
    → Steps codec r s
    → IsSized s
      × ((out : Raft × List Task) × (heartbeat now s ≡ some out))
      × ((t : Raft) × (after_vote now s ≡ some t))
Steps-IsSized_total codec now r s h steps =
    let h' = Steps-IsSized codec steps h in
    (h', heartbeat_total now s h', after_vote_total now s h')
