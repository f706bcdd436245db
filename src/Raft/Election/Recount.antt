-- ===== src/Raft/Election/Recount.antt =====
-- CallRequestVote and ElectionLoop of src/RaftServer.cpp count answers, not voters.
use shard_kv_raft.Base.{
  ℕ, zero, suc, ◌/◌, ◌≤◌, ◌≡◌, refl, sym, ap, ◌∙◌, true, false, List, [], ◌∷◌, some, ℤ, pos, ◌+ℤ◌,
  ◌≤ℤ◌, ◌<ℤ◌, ltb_ℤ, int_laws, eq_of_parts, arith, length,
}
use mathlib.Core.Path.{subst}
use shard_kv_raft.Raft.State.{PeersInfo, Raft, Timeval, ResponseVote, candidate, leader}
use shard_kv_raft.Raft.Log.{last_index}
use shard_kv_raft.Raft.Vote.{on_vote_response}
use shard_kv_raft.Raft.Election.{fill, become_leader, after_vote, set_bell_time}

-- The same answer, so many times.
unfoldable pub count_again : ℕ → Timeval → ResponseVote → Raft → Raft
count_again zero now a r = r
count_again (suc n) now a r = count_again n now a (on_vote_response now r a)

-- A node's answers so far, with all else as it was.
record Counted (n : ℕ) (r s : Raft) : Type 0 where
  state : s.state ≡ r.state
  term : s.cur_term ≡ r.cur_term
  peers : s.peers ≡ r.peers
  next : s.next_index ≡ r.next_index
  matches : s.match_index ≡ r.match_index
  votes : s.recv_votes ≡ r.recv_votes +ℤ pos n

count_one :
    (now : Timeval) (r : Raft) (a : ResponseVote)
    → a.is_accepted ≡ true
    → a.term ≤ℤ r.cur_term +ℤ pos 1
    → Counted 1 r (on_vote_response now r a)
unfolding on_vote_response
count_one now r a accepted old =
    rw (current a.term (r.cur_term +ℤ pos 1) old, accepted)
      (record {
        state = refl;
        term = refl;
        peers = refl;
        next = refl;
        matches = refl;
        votes = refl;
      })
  where
    current : (t c : ℤ) → t ≤ℤ c → ltb_ℤ c t ≡ false
    current t c h = ground arith

count_again-Counted :
    (n : ℕ) (now : Timeval) (a : ResponseVote) (r : Raft)
    → a.is_accepted ≡ true
    → a.term ≤ℤ r.cur_term +ℤ pos 1
    → Counted n r (count_again n now a r)
unfolding count_again
count_again-Counted zero now a r accepted old = record {
  state = refl;
  term = refl;
  peers = refl;
  next = refl;
  matches = refl;
  votes = omega int_laws;
}
count_again-Counted (suc n) now a r accepted old =
    let c = count_one now r a accepted old in
    let d =
      count_again-Counted n now a (on_vote_response now r a) accepted
        (subst (λ t. a.term ≤ℤ t +ℤ pos 1) (sym c.term) old) in
    record {
      state = d.state ∙ c.state;
      term = d.term ∙ c.term;
      peers = d.peers ∙ c.peers;
      next = d.next ∙ c.next;
      matches = d.matches ∙ c.matches;
      votes = d.votes ∙ ap (λ z. z +ℤ pos n) c.votes ∙ eq_of_parts _ _ (omega int_laws);
    }

fill_total : (n : ℕ) (a : ℤ) (xs : List ℤ) → n ≤ length xs → (ys : List ℤ) × (fill n a xs ≡ some ys)
unfolding fill
fill_total zero a xs h = (xs, refl)
fill_total (suc n) a [] h = absurd (omega (arith, h))
fill_total (suc n) a (x ∷ xs) h =
    let (ys, run) = fill_total n a xs (omega (arith, h)) in (a ∷ ys, rw run refl)

pub become_leader_total :
    (now : Timeval) (r : Raft)
    → length r.peers ≤ length r.next_index
    → length r.peers ≤ length r.match_index
    → (s : Raft) × (become_leader now r ≡ some s)
      × (s.state ≡ leader)
      × (s.cur_term ≡ r.cur_term +ℤ pos 1)
unfolding become_leader set_bell_time
become_leader_total now r next_room match_room =
    let (next, run_next) =
      fill_total (length r.peers) (last_index r +ℤ pos 1) r.next_index next_room in
    let (matches, run_match) = fill_total (length r.peers) (pos 0) r.match_index match_room in
    (
      set_bell_time now (record r {
        state = leader;
        cur_term = r.cur_term +ℤ pos 1;
        next_index = next;
        match_index = matches;
      }),
      rw run_next (rw run_match refl),
      refl,
      refl,
    )

wins_with :
    (now : Timeval) (r s : Raft)
    → r.state ≡ candidate
    → pos (length r.peers / 2) <ℤ r.recv_votes
    → become_leader now r ≡ some s
    → after_vote now r ≡ some s
unfolding after_vote
wins_with now r s stood many run =
    rw (run, stood, enough (pos (length r.peers / 2)) r.recv_votes many) refl
  where
    enough : (a b : ℤ) → a <ℤ b → ltb_ℤ a b ≡ true
    enough a b h = ground arith

-- Let a candidate with places in its vectors for all peers hear one and the same accepting answer of
-- a term that is not above the one it asks for, as often as its votes want to a majority of the peers.
-- Then it becomes the leader of that term, whoever has answered.
pub repeated_answer_elects :
    (now : Timeval) (r : Raft) (a : ResponseVote) (n : ℕ)
    → r.state ≡ candidate
    → a.is_accepted ≡ true
    → a.term ≤ℤ r.cur_term +ℤ pos 1
    → pos (length r.peers / 2) <ℤ r.recv_votes +ℤ pos n
    → length r.peers ≤ length r.next_index
    → length r.peers ≤ length r.match_index
    → (s : Raft) × (after_vote now (count_again n now a r) ≡ some s)
      × (s.state ≡ leader)
      × (s.cur_term ≡ r.cur_term +ℤ pos 1)
repeated_answer_elects now r a n stood accepted old many next_room match_room =
    let c = count_again-Counted n now a r accepted old in
    let size = ap (λ (ps : List PeersInfo). length ps) c.peers in
    let next_size = ap (λ (xs : List ℤ). length xs) c.next in
    let match_size = ap (λ (xs : List ℤ). length xs) c.matches in
    let heard = count_again n now a r in
    let (s, run, leads, term) =
      become_leader_total now heard (omega (arith, next_room, size, next_size))
        (omega (arith, match_room, size, match_size)) in
    let many_heard =
      subst (λ z. pos (length heard.peers / 2) <ℤ z) (sym c.votes)
        (subst (λ k. pos (k / 2) <ℤ r.recv_votes +ℤ pos n) (sym size) many) in
    (
      s,
      wins_with now heard s (c.state ∙ stood) many_heard run,
      leads,
      term ∙ ap (λ z. z +ℤ pos 1) c.term,
    )
