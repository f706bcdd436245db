-- ===== src/Raft/Step/Appends.antt =====
-- What the steps of an append, at the follower and at the leader, and of the application do to the
-- term and the vote.
use shard_kv_raft.Base.{
  length, ℕ, zero, suc, ◌≡◌, refl, sym, ◌∙◌, List, [], ◌++◌, some, Ensures, Ensures-some,
  Ensures-if, Ensures-bind, same_run, ℤ, pos, ◌+ℤ◌, ◌-ℤ◌, ◌<ℤ◌, ◌≤ℤ◌, ◌==ℤ◌, ltb_ℤ, eq_of_parts,
  pos_part, arith, if◌then◌else◌,
}
use mathlib.Core.Path.{subst}
use shard_kv_raft.Raft.State.{
  LogEntry, ApplyMsg, Raft, Timeval, AppendEntriesRequest, AppendEntriesResponse, at, put,
}
use shard_kv_raft.Raft.Log.{log_at}
use shard_kv_raft.Raft.Persist.{save_raft_state, serialize}
use shard_kv_raft.Raft.Replicate.{
  advance, matched, conflicted, step_down, on_append_response, next_after_conflict,
}
use shard_kv_raft.Raft.Log.{last_index}
use shard_kv_raft.Raft.Wire.{get_cmd_and_term}
use shard_kv_raft.Raft.Append.{refusal, follow, advance_commit, check_prev, reply_append}
use shard_kv_raft.Raft.Append.Total.{replaced}
use shard_kv_raft.Raft.Append.Outcome.{Answers, check_prev-Answers}
use shard_kv_raft.Raft.Append.Outcome.{Outcome as AppendOutcome}
use shard_kv_raft.Raft.Apply.{take_committed, apply_round}
use shard_kv_raft.Raft.Replicate.Vectors.{put-length}
use shard_kv_raft.Raft.Step.Terms.{
  SameVote-trans, SameVote, Advances, SameVote-Advances, Advances-then,
}

pub advance-SameVote : (r r' : Raft) → advance r ≡ some r' → SameVote r r'
unfolding advance
advance-SameVote r r' h = ground arith

follow-Advances :
    (now : Timeval) (r : Raft) (term : ℤ) → r.cur_term ≤ℤ term → Advances r (follow now r term)
unfolding follow save_raft_state serialize
follow-Advances now r term h = ground (arith, eq_of_parts r.cur_term term)

replaced-SameVote :
    (r : Raft) (q : AppendEntriesRequest) (recv : List LogEntry) → SameVote r (replaced r q recv)
unfolding advance_commit save_raft_state serialize
replaced-SameVote r q recv = ground arith

append_outcome-SameVote :
    (r : Raft) (q : AppendEntriesRequest) (recv : List LogEntry) (a : AppendEntriesResponse)
    {r' : Raft} {a' : AppendEntriesResponse}
    → AppendOutcome r q recv a r' a'
    → SameVote r r'
append_outcome-SameVote r q recv a (AppendOutcome.matched h) = replaced-SameVote r q recv
append_outcome-SameVote r q recv a _ = (refl, refl, refl, refl, (refl, refl, refl))

append-Advances :
    (now : Timeval) (r : Raft) (q : AppendEntriesRequest)
    → Ensures (λ (p : Raft × AppendEntriesResponse). Advances r p.0) (reply_append now r q)
unfolding reply_append
append-Advances now r q = Ensures-bind (get_cmd_and_term q.send_logs) _ λ recv parsed.
    Ensures-if (ltb_ℤ q.term r.cur_term) _ _
      (λ old.
        Ensures-some (r, refusal r)
          (SameVote-Advances (refl, refl, refl, refl, (refl, refl, refl))))
      (λ fresh. record {
        result = λ p run.
            answer recv (ground arith) (check_prev-Answers (follow now r q.term) q recv (refusal r))
              p run;
      })
  where
    answer :
        (recv : List LogEntry)
        → r.cur_term ≤ℤ q.term
        → Answers
            (follow now r q.term)
            q
            recv
            (refusal r)
            (check_prev (follow now r q.term) q recv (refusal r))
        → (p : Raft × AppendEntriesResponse)
        → check_prev (follow now r q.term) q recv (refusal r) ≡ some p
        → Advances r p.0
    answer recv fresh (f, b, e, outcome) p run = subst (Advances r) (sym (same_run run e).0) (
        Advances-then (follow-Advances now r q.term fresh)
          (append_outcome-SameVote (follow now r q.term) q recv (refusal r) outcome))

pub reply_append-Advances :
    (now : Timeval) (r : Raft) (q : AppendEntriesRequest) (r' : Raft) (a : AppendEntriesResponse)
    → reply_append now r q ≡ some (r', a)
    → Advances r r'
reply_append-Advances now r q r' a run = (append-Advances now r q).result (r', a) run

-- Written vectors are as long as before.
pub advanced :
    (r : Raft) (next_index match_index : List ℤ)
    → length next_index ≡ length r.next_index
    → length match_index ≡ length r.match_index
    → Ensures
        (SameVote r)
        (advance (record r { next_index = next_index; match_index = match_index }))
advanced r next_index match_index next_size match_size =
    let s = record r { next_index = next_index; match_index = match_index } in
    record {
      result = λ t run.
          SameVote-trans r s t (refl, refl, refl, refl, (refl, next_size, match_size))
            (advance-SameVote s t run);
    }

matched-SameVote : (r : Raft) (peer : ℤ) (n : ℕ) → Ensures (SameVote r) (matched r peer n)
unfolding matched
matched-SameVote r peer n = Ensures-bind (at r.next_index peer) _ λ next _.
    Ensures-bind (put r.next_index peer (next +ℤ pos n)) _ λ next_index put_next.
      Ensures-bind (put r.match_index peer (next +ℤ pos n -ℤ pos 1)) _ λ match_peer put_peer.
        Ensures-bind (put match_peer r.peer_id (last_index r)) _ λ match_index put_own.
          advanced r next_index match_index (put-length r.next_index next_index peer _ put_next) (
            put-length match_peer match_index r.peer_id _ put_own
            ∙ put-length r.match_index match_peer peer _ put_peer)

conflicted-SameVote :
    (r : Raft) (peer prev : ℤ) (a : AppendEntriesResponse)
    → Ensures (SameVote r) (conflicted r peer prev a)
unfolding conflicted
conflicted-SameVote r peer prev a = Ensures-bind (next_after_conflict r prev a) _ λ next _.
    Ensures-bind (put r.next_index peer next) _ λ next_index put_next.
      Ensures-some (record r { next_index = next_index })
        (
          refl,
          refl,
          refl,
          refl,
          (refl, put-length r.next_index next_index peer next put_next, refl),
        )

step_down-Advances : (r : Raft) (term : ℤ) → r.cur_term <ℤ term → Advances r (step_down r term)
unfolding step_down serialize
step_down-Advances r term h = ground arith

saved-Advances : (r s : Raft) → SameVote r s → Advances r (save_raft_state s)
unfolding save_raft_state serialize
saved-Advances r s h = SameVote-Advances h

response-Advances :
    (r : Raft) (peer : ℤ) (q : AppendEntriesRequest) (n : ℕ) (a : AppendEntriesResponse)
    → Ensures (Advances r) (on_append_response r peer q n a)
unfolding on_append_response
response-Advances r peer q n a =
    Ensures-if (r.cur_term ==ℤ q.term) _ _
      (λ current.
        Ensures-if (ltb_ℤ r.cur_term a.term) _ _
          (λ newer. Ensures-some (step_down r a.term) (step_down-Advances r a.term (ground arith)))
          (λ same.
            Ensures-bind
              (if a.success then matched r peer n else conflicted r peer q.prev_log_index a) _
              λ s run. Ensures-some (save_raft_state s) (
                saved-Advances r s (
                  (Ensures-if a.success _ _ (λ _. matched-SameVote r peer n)
                      (λ _. conflicted-SameVote r peer q.prev_log_index a)).result
                    s run))))
      (λ other. Ensures-some r (SameVote-Advances (refl, refl, refl, refl, (refl, refl, refl))))

pub on_append_response-Advances :
    (r : Raft) (peer : ℤ) (q : AppendEntriesRequest) (n : ℕ) (a : AppendEntriesResponse) (r' : Raft)
    → on_append_response r peer q n a ≡ some r'
    → Advances r r'
on_append_response-Advances r peer q n a r' h = (response-Advances r peer q n a).result r' h

take_committed-SameVote :
    (n : ℕ) (r s : Raft) (msgs : List ApplyMsg)
    → SameVote r s
    → Ensures (λ (p : Raft × List ApplyMsg). SameVote r p.0) (take_committed n s msgs)
unfolding take_committed
take_committed-SameVote zero r s msgs h = Ensures-some (s, msgs) h
take_committed-SameVote (suc n) r s msgs h =
    Ensures-bind (log_at s (s.last_applied +ℤ pos 1)) _
      λ e _. take_committed-SameVote n r (record s { last_applied = s.last_applied +ℤ pos 1 }) _ h

pub apply_round-SameVote : (r : Raft) → Ensures (SameVote r) (apply_round r)
unfolding apply_round
apply_round-SameVote r =
    Ensures-bind (take_committed (pos_part (r.commit_index -ℤ r.last_applied)) r []) _ λ p run.
      Ensures-some (record p.0 { msgs = p.0.msgs ++ p.1 })
        ((take_committed-SameVote _ r r [] (refl, refl, refl, refl, (refl, refl, refl))).result p
          run)
