-- ===== src/Raft/Cluster/Local.antt =====
-- The steps of a node that leave its log alone, and none of which makes a leader.
use shard_kv_raft.Base.{
  ℕ, zero, suc, ◌≡◌, refl, ◌∙◌, List, [], ◌++◌, some, Ensures, Ensures-some, Ensures-if,
  Ensures-bind, ℤ, pos, ◌+ℤ◌, ◌-ℤ◌, ◌==ℤ◌, ltb_ℤ, pos_part, minus_one, arith, if◌then◌else◌,
}
use shard_kv_raft.Raft.State.{
  ApplyMsg, Raft, leader, follower, Timeval, RequestVote, ResponseVote, AppendEntriesRequest,
  AppendEntriesResponse, InstallSnapShotRequest, InstallSnapShotResponse, at, put,
}
use shard_kv_raft.Raft.Log.{last_index, log_at}
use shard_kv_raft.Raft.Persist.{save_raft_state, serialize}
use shard_kv_raft.Raft.Vote.{reply_vote, on_vote_response, adopt_term}
use shard_kv_raft.Raft.Vote.Grants.{Outcome, stale, taken, log_behind, granted, reply_vote-Outcome}
use shard_kv_raft.Raft.Election.{election_round}
use shard_kv_raft.Raft.Replicate.{
  advance, matched, conflicted, step_down, on_append_response, next_after_conflict,
}
use shard_kv_raft.Raft.Snapshot.{Codec, read_snapshot, install_request, on_install_response}
use shard_kv_raft.Raft.Apply.{take_committed, apply_round}

-- The log and the snapshot below it are as they were, and who leads has led before in that term.
pub record Settled (r s : Raft) : Type 0 where
  pub index : s.last_included_index ≡ r.last_included_index
  pub term : s.last_include_term ≡ r.last_include_term
  pub logs : s.logs ≡ r.logs
  pub leads : s.state ≡ leader → (r.state ≡ leader) × (s.cur_term ≡ r.cur_term)

pub Settled-refl : (r : Raft) → Settled r r
Settled-refl r = record { index = refl; term = refl; logs = refl; leads = λ e. (e, refl) }

pub Settled-trans : (r s t : Raft) → Settled r s → Settled s t → Settled r t
Settled-trans r s t a b = record {
  index = b.index ∙ a.index;
  term = b.term ∙ a.term;
  logs = b.logs ∙ a.logs;
  leads = λ e. let (e', t') = b.leads e in let (e'', t'') = a.leads e' in (e'', t' ∙ t'');
}

save-Settled : (r : Raft) → Settled r (save_raft_state r)
unfolding save_raft_state serialize
save-Settled r = record { index = refl; term = refl; logs = refl; leads = λ e. (e, refl) }

adopt-Settled : (r : Raft) (term : ℤ) → Settled r (adopt_term r term)
unfolding adopt_term
adopt-Settled r term = ground arith

outcome-Settled :
    (now : Timeval) (r : Raft) (q : RequestVote) {p : Raft × ResponseVote}
    → Outcome now r q p
    → Settled r p.0
outcome-Settled now r q (stale h) = Settled-refl r
outcome-Settled now r q (taken h other) =
    Settled-trans r (adopt_term r q.term) _ (adopt-Settled r q.term) (save-Settled _)
outcome-Settled now r q (log_behind h may bad) = adopt-Settled r q.term
outcome-Settled now r q (granted h may good) =
    let r' = adopt_term r q.term in
    let r'' = record r' { vote_for = q.candidate_id; last_wake_time = now } in
    Settled-trans r r' (save_raft_state r'') (adopt-Settled r q.term) (
      Settled-trans r' r'' (save_raft_state r'')
        (record { index = refl; term = refl; logs = refl; leads = λ e. (e, refl) })
        (save-Settled r''))

pub reply_vote-Settled :
    (now : Timeval) (r : Raft) (q : RequestVote) → Settled r (reply_vote now r q).0
reply_vote-Settled now r q = outcome-Settled now r q (reply_vote-Outcome now r q)

pub on_vote_response-Settled :
    (now : Timeval) (r : Raft) (a : ResponseVote) → Settled r (on_vote_response now r a)
unfolding on_vote_response
on_vote_response-Settled now r a = ground arith

pub election_round-Settled :
    (now : Timeval) (timeout : ℤ) (r : Raft) → Settled r (election_round now timeout r).0
unfolding election_round save_raft_state serialize
election_round-Settled now timeout r = ground arith

advance-Settled : (r : Raft) → Ensures (Settled r) (advance r)
advance-Settled r = record { result = λ s run. advanced r s run }
  where
    advanced : (r s : Raft) → advance r ≡ some s → Settled r s
    advanced r s run = unfold advance in ground arith

-- Other marks for the peers, and then perhaps another commit index.
marked :
    (r : Raft) (next match : List ℤ)
    → Ensures (Settled r) (advance (record r { next_index = next; match_index = match }))
marked r next match =
    let s = record r { next_index = next; match_index = match } in
    record {
      result = λ t run.
          Settled-trans r s t
            (record { index = refl; term = refl; logs = refl; leads = λ e. (e, refl) })
            ((advance-Settled s).result t run);
    }

matched-Settled : (r : Raft) (peer : ℤ) (n : ℕ) → Ensures (Settled r) (matched r peer n)
unfolding matched
matched-Settled r peer n = Ensures-bind (at r.next_index peer) _ λ next _.
    Ensures-bind (put r.next_index peer (next +ℤ pos n)) _ λ next_index _.
      Ensures-bind (put r.match_index peer (next +ℤ pos n -ℤ pos 1)) _ λ match_peer _.
        Ensures-bind (put match_peer r.peer_id (last_index r)) _
          λ match_index _. marked r next_index match_index

conflicted-Settled :
    (r : Raft) (peer prev : ℤ) (a : AppendEntriesResponse)
    → Ensures (Settled r) (conflicted r peer prev a)
unfolding conflicted
conflicted-Settled r peer prev a = Ensures-bind (next_after_conflict r prev a) _ λ next _.
    Ensures-bind (put r.next_index peer next) _ λ next_index _.
      Ensures-some (record r { next_index = next_index })
        (record { index = refl; term = refl; logs = refl; leads = λ e. (e, refl) })

step_down-Settled : (r : Raft) (term : ℤ) → Settled r (step_down r term)
unfolding step_down serialize
step_down-Settled r term = record { index = refl; term = refl; logs = refl; leads = λ e. cc }

pub on_append_response-Settled :
    (r : Raft) (peer : ℤ) (q : AppendEntriesRequest) (n : ℕ) (a : AppendEntriesResponse)
    → Ensures (Settled r) (on_append_response r peer q n a)
unfolding on_append_response
on_append_response-Settled r peer q n a =
    Ensures-if (r.cur_term ==ℤ q.term) _ _
      (λ _.
        Ensures-if (ltb_ℤ r.cur_term a.term) _ _
          (λ _. Ensures-some (step_down r a.term) (step_down-Settled r a.term))
          (λ _.
            Ensures-bind
              (if a.success then matched r peer n else conflicted r peer q.prev_log_index a) _
              λ s run. Ensures-some (save_raft_state s) (
                Settled-trans r s (save_raft_state s)
                  ((Ensures-if a.success _ _ (λ _. matched-Settled r peer n)
                      (λ _. conflicted-Settled r peer q.prev_log_index a)).result
                    s run)
                  (save-Settled s))))
      (λ _. Ensures-some r (Settled-refl r))

take_committed-Settled :
    (n : ℕ) (r s : Raft) (msgs : List ApplyMsg)
    → Settled r s
    → Ensures (λ (p : Raft × List ApplyMsg). Settled r p.0) (take_committed n s msgs)
unfolding take_committed
take_committed-Settled zero r s msgs h = Ensures-some (s, msgs) h
take_committed-Settled (suc n) r s msgs h =
    Ensures-bind (log_at s (s.last_applied +ℤ pos 1)) _ λ e _.
      take_committed-Settled n r (record s { last_applied = s.last_applied +ℤ pos 1 }) _
        (record { index = h.index; term = h.term; logs = h.logs; leads = h.leads })

pub apply_round-Settled : (r : Raft) → Ensures (Settled r) (apply_round r)
unfolding apply_round
apply_round-Settled r =
    Ensures-bind (take_committed (pos_part (r.commit_index -ℤ r.last_applied)) r []) _ λ p run.
      Ensures-some (record p.0 { msgs = p.0.msgs ++ p.1 })
        (kept p.0 ((take_committed-Settled _ r r [] (Settled-refl r)).result p run))
  where
    kept : (s : Raft) {msgs : List ApplyMsg} → Settled r s → Settled r (record s { msgs = msgs })
    kept s h = record { index = h.index; term = h.term; logs = h.logs; leads = h.leads }

module _ (codec : Codec) where
  read_snapshot-Settled : (r : Raft) → Settled r (read_snapshot codec r).0
  unfolding read_snapshot
  read_snapshot-Settled r = ground arith

  pub install_request-Settled : (r : Raft) → Settled r (install_request codec r).0
  unfolding install_request
  install_request-Settled r = read_snapshot-Settled r

  pub on_install_response-Settled :
      (r : Raft) (peer : ℤ) (q : InstallSnapShotRequest) (a : InstallSnapShotResponse)
      → Ensures (Settled r) (on_install_response codec r peer q a)
  unfolding on_install_response
  on_install_response-Settled r peer q a =
      Ensures-if (r.cur_term ==ℤ a.term) _ _
        (λ _.
          Ensures-if (ltb_ℤ r.cur_term a.term) _ _ (λ _. Ensures-some _ (stepped_down r a.term))
            (λ _. Ensures-bind (put r.next_index peer (last_index r +ℤ pos 1)) _ λ next_index _.
              Ensures-bind (put r.match_index peer q.last_include_index) _ λ match_peer _.
                Ensures-bind (put match_peer r.peer_id (last_index r)) _
                  λ match_index _. marked r next_index match_index))
        (λ _. Ensures-some r (Settled-refl r))
    where
      stepped_down :
          (r : Raft) (term : ℤ)
          → Settled r (
              save_raft_state
                (record r { state = follower; cur_term = term; vote_for = minus_one }))
      stepped_down r term =
          unfold save_raft_state serialize in
          record { index = refl; term = refl; logs = refl; leads = λ e. cc }
