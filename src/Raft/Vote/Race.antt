-- ===== src/Raft/Vote/Race.antt =====
-- ReplyVote lets go of the mutex while the log is checked, and looks at the vote only before.
use shard_kv_raft.Base.{
  ◌≡◌, refl, true, false, ltb_ℤ, ℤ, minus_one, ◌<ℤ◌, ◌≤ℤ◌, ap, ◌∙◌, pos_part, neg_part, int_laws,
  arith,
}
use shard_kv_raft.Raft.State.{Raft, follower, Timeval, RequestVote, ResponseVote}
use shard_kv_raft.Raft.Log.{check_log_uptodate, last_index, last_term}
use shard_kv_raft.Raft.Persist.{save_raft_state, serialize}
use shard_kv_raft.Raft.Vote.{
  checking, adopt_term, may_vote, begin_vote, finish_vote, check_vote, grant_vote,
}
use shard_kv_raft.Raft.Vote.Grants.{UpToDate, refused, check_log_uptodate_iff}

-- The two answers when `p` comes in while the log is checked for `q`.
abbrev pub both : Timeval → Raft → RequestVote → RequestVote → ResponseVote × ResponseVote
both now r q p =
    let (r1, first) = begin_vote r q in
    let (r2, second) = begin_vote r1 p in
    let (r3, a) = finish_vote now q (r2, first) in
    let (r4, b) = finish_vote now p (r3, second) in (a, b)

-- the node that has taken over a newer term
fresh : Raft → ℤ → Raft
fresh r term = record r { state = follower; cur_term = term; vote_for = minus_one }

adopt_newer : (r : Raft) (term : ℤ) → r.cur_term <ℤ term → adopt_term r term ≡ fresh r term
unfolding adopt_term fresh
adopt_newer r term h = rw (below r.cur_term term h)
  where
    below : (a b : ℤ) → a <ℤ b → ltb_ℤ a b ≡ true
    below a b h = ground arith

not_below : (a b : ℤ) → a ≤ℤ b → ltb_ℤ b a ≡ false
not_below a b h = ground arith

adopt_same : (r : Raft) (term : ℤ) → adopt_term (fresh r term) term ≡ fresh r term
unfolding adopt_term fresh
adopt_same r term = rw (not_below term term (omega arith))

fresh_free : (r : Raft) (term c : ℤ) → may_vote (fresh r term) c ≡ true
unfolding may_vote fresh
fresh_free r term c = refl

begin_fresh :
    (r s : Raft) (q : RequestVote) (term : ℤ)
    → r.cur_term ≤ℤ q.term
    → adopt_term r q.term ≡ fresh s term
    → begin_vote r q ≡ (fresh s term, checking (refused r))
unfolding begin_vote
begin_fresh r s q term h e = rw (not_below r.cur_term q.term h, e, fresh_free s term q.candidate_id)

finish_good :
    (now : Timeval) (q : RequestVote) (r : Raft) (a : ResponseVote)
    → check_vote r q ≡ true
    → finish_vote now q (r, checking a) ≡ grant_vote now r q a
unfolding finish_vote
finish_good now q r a h = rw h

check_vote-fresh :
    (r : Raft) (term : ℤ) (q : RequestVote) → check_vote (fresh r term) q ≡ check_vote r q
unfolding check_vote check_log_uptodate fresh last_term last_index
check_vote-fresh r term q = refl

good : (r : Raft) (q : RequestVote) → UpToDate r q → check_vote r q ≡ true
unfolding check_vote
good r q h = (check_log_uptodate_iff r q).1 h

check_vote-grant :
    (now : Timeval) (r : Raft) (q p : RequestVote) (a : ResponseVote)
    → check_vote (grant_vote now r q a).0 p ≡ check_vote r p
unfolding check_vote check_log_uptodate grant_vote save_raft_state serialize last_term last_index
check_vote-grant now r q p a = refl

-- Two requests of one new term, from any two candidates with logs that are not behind, are both
-- granted when the second comes in while the first is checked.
pub two_votes :
    (now : Timeval) (r : Raft) (q p : RequestVote)
    → r.cur_term <ℤ q.term
    → p.term ≡ q.term
    → UpToDate r q
    → UpToDate r p
    → ((both now r q p).0.is_accepted ≡ true) × ((both now r q p).1.is_accepted ≡ true)
two_votes now r q p newer same hq hp =
    let f : Raft = fresh r q.term in
    let first : begin_vote r q ≡ (f, checking (refused r)) =
      begin_fresh r r q q.term (omega arith) (adopt_newer r q.term newer) in
    let second : begin_vote f p ≡ (f, checking (refused f)) =
      begin_fresh f r p q.term (same_le q.term p.term same) (rw same (adopt_same r q.term)) in
    let check_q : check_vote f q ≡ true = check_vote-fresh r q.term q ∙ good r q hq in
    let check_p : check_vote (grant_vote now f q (refused r)).0 p ≡ true =
      check_vote-grant now f q p (refused r) ∙ check_vote-fresh r q.term p ∙ good r p hp in
    rw (first, second)
      (rw (finish_good now q f (refused r) check_q) (
        rw (finish_good now p (grant_vote now f q (refused r)).0 (refused f) check_p)
          (unfold grant_vote in (refl, refl))))
  where
    same_le : (a b : ℤ) → b ≡ a → (fresh r a).cur_term ≤ℤ b
    same_le a b e = unfold fresh in omega (int_laws, ap pos_part e, ap neg_part e)
