-- ===== src/Raft/Apply/Beyond.antt =====
-- A node of src/RaftServer.cpp whose log has become shorter than what it has to apply.
use shard_kv_raft.Base.{
  ℕ, zero, suc, ◌<◌, ◌≡◌, sym, ap, ◌∙◌, inl, inr, List, [], none, some, Option-cases, ℤ, pos, ◌+ℤ◌,
  ◌-ℤ◌, ◌≤ℤ◌, ◌<ℤ◌, pos_part, neg_part, int_laws, int_signs, arith, length,
}
use mathlib.Core.Path.{subst}
use shard_kv_raft.Raft.State.{LogEntry, ApplyMsg, Raft, Timeval, AppendEntriesRequest}
use shard_kv_raft.Raft.Log.{last_index, log_at}
use shard_kv_raft.Raft.Log.Index.{log_at-le}
use shard_kv_raft.Raft.Wire.{get_cmd_and_term}
use shard_kv_raft.Raft.Persist.{save_raft_state, serialize}
use shard_kv_raft.Raft.Append.{follow, advance_commit, reply_append}
use shard_kv_raft.Raft.Append.Total.{replaced}
use shard_kv_raft.Raft.Append.Outcome.{HasPrev}
use shard_kv_raft.Raft.Append.Entries.{follow-SameBase}
use shard_kv_raft.Raft.Append.Taking.{taken, reply_taken_as}
use shard_kv_raft.Raft.Apply.{take_committed, apply_round}

take_committed_beyond :
    (n : ℕ) (r : Raft) (msgs : List ApplyMsg)
    → 0 < n
    → last_index r <ℤ r.last_applied +ℤ pos n
    → take_committed n r msgs ≡ none
unfolding take_committed last_index
take_committed_beyond zero r msgs some_left hi = absurd (omega (arith, some_left))
take_committed_beyond (suc n) r msgs some_left hi =
    elim (Option-cases (log_at r (r.last_applied +ℤ pos 1))) [
      | inl e ↦ rw e
      | inr (e, found) ↦ rw found (
          take_committed_beyond n (record r { last_applied = r.last_applied +ℤ pos 1 }) _
            (omega (int_laws, hi, log_at-le r (r.last_applied +ℤ pos 1) e found))
            (omega (int_laws, hi)))
    ]

-- A commit index beyond the log.
pub apply_round_beyond :
    (r : Raft)
    → r.last_applied <ℤ r.commit_index
    → last_index r <ℤ r.commit_index
    → apply_round r ≡ none
unfolding apply_round
apply_round_beyond r more beyond = rw (
    take_committed_beyond (pos_part (r.commit_index -ℤ r.last_applied)) r [] (omega int_signs)
      (omega int_signs))

replaced_commit :
    (r : Raft) (q : AppendEntriesRequest) (recv : List LogEntry)
    → q.leader_commit ≤ℤ r.commit_index
    → (replaced r q recv).commit_index ≡ r.commit_index
unfolding advance_commit save_raft_state serialize last_index
replaced_commit r q recv h = ground arith

follow_commit :
    (now : Timeval) (r : Raft) (t : ℤ)
    → ((follow now r t).commit_index ≡ r.commit_index)
      × ((follow now r t).last_applied ≡ r.last_applied)
follow_commit now r t = let (base, _, commit) = follow-SameBase now r t in (commit, base.2)

replaced_applied :
    (r : Raft) (q : AppendEntriesRequest) (recv : List LogEntry)
    → (replaced r q recv).last_applied ≡ r.last_applied
unfolding advance_commit save_raft_state serialize
replaced_applied r q recv = ground arith

-- Let a node whose term is not above a request's hold the request's previous entry, with entries
-- committed that it has not applied. Let the request, which may have come in late, end before the
-- node's commit index, and let its own commit index be no higher. Then ReplyAppend takes it, drops
-- committed entries, and leaves the commit index behind the end of the log; the next round of
-- ApplyLogLoop reads outside the log.
pub late_append_breaks :
    (now : Timeval) (f : Raft) (p : AppendEntriesRequest) (recv : List LogEntry)
    → get_cmd_and_term p.send_logs ≡ some recv
    → f.cur_term ≤ℤ p.term
    → HasPrev f p
    → f.last_applied <ℤ f.commit_index
    → p.prev_log_index +ℤ pos (length recv) <ℤ f.commit_index
    → p.leader_commit ≤ℤ f.commit_index
    → (g : Raft) × (reply_append now f p ≡ some (g, taken f))
      × (last_index g ≡ p.prev_log_index +ℤ pos (length recv))
      × (g.commit_index ≡ f.commit_index)
      × (apply_round g ≡ none)
late_append_breaks now f p recv parsed fresh has more beyond low =
    let (g, run, s, same) = reply_taken_as now f p recv parsed fresh has in
    let r = follow now f p.term in
    let (commit, applied) = follow_commit now f p.term in
    let at_commit =
      ap (λ (x : Raft). x.commit_index) same
      ∙ replaced_commit r p recv (subst (λ z. p.leader_commit ≤ℤ z) (sym commit) low)
      ∙ commit in
    let at_applied = ap (λ (x : Raft). x.last_applied) same ∙ replaced_applied r p recv ∙ applied in
    (
      g,
      run,
      s.last,
      at_commit,
      apply_round_beyond g
          (omega (
            arith,
            more,
            ap pos_part at_commit,
            ap neg_part at_commit,
            ap pos_part at_applied,
            ap neg_part at_applied,
          ))
          (omega (
            arith,
            beyond,
            ap pos_part at_commit,
            ap neg_part at_commit,
            ap pos_part s.last,
            ap neg_part s.last,
          )),
    )
