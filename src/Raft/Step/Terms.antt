-- ===== src/Raft/Step/Terms.antt =====
-- What a step does to the term and the vote.
use shard_kv_raft.Base.{
  ap, [], ◌∷◌, Ensures, Ensures-some, Ensures-bind, length, ℕ, zero, suc, ◌≡◌, refl, sym, ◌∙◌, ◌⊎◌,
  inl, inr, List, [], some, Ensures, Ensures-some, Ensures-bind, ℤ, pos, minus_one, ◌+ℤ◌, ◌<ℤ◌,
  ◌≤ℤ◌, +ℤ_parts, arith,
}
use mathlib.Core.Path.{subst}
use shard_kv_raft.Raft.State.{Operation, Raft, Timeval, RequestVote, ResponseVote, candidate}
use shard_kv_raft.Raft.Persist.{save_raft_state, serialize}
use shard_kv_raft.Raft.Vote.{reply_vote, on_vote_response, adopt_term}
use shard_kv_raft.Raft.Vote.Grants.{
  Outcome, stale, taken, log_behind, granted, reply_vote-Outcome, voted,
}
use shard_kv_raft.Raft.Election.{fill, election_round, become_leader, set_bell_time, after_vote}
use shard_kv_raft.Raft.Replicate.{start}
use shard_kv_raft.Raft.Log.{last_index}

-- The peers, and the lengths of the two vectors with a place for each.
abbrev pub SameSize : Raft → Raft → Type 0
SameSize r r' =
    (r'.peers ≡ r.peers)
    × (length r'.next_index ≡ length r.next_index)
    × (length r'.match_index ≡ length r.match_index)

abbrev pub SameVote : Raft → Raft → Type 0
SameVote r r' =
    (r'.peer_id ≡ r.peer_id)
    × (r'.cur_term ≡ r.cur_term)
    × (r'.vote_for ≡ r.vote_for)
    × (r'.state ≡ r.state)
    × SameSize r r'

-- The term grows, or it stays and the vote goes from nobody to somebody, stays, or goes to the
-- node itself. A candidate has its own vote, or it was a candidate and has kept or got its vote.
pub record Advances (r r' : Raft) : Type 0 where
  pub peer : r'.peer_id ≡ r.peer_id
  pub ballot :
      (r.cur_term <ℤ r'.cur_term)
      ⊎ ((r'.cur_term ≡ r.cur_term)
          × ((r'.vote_for ≡ r.vote_for) ⊎ (r'.vote_for ≡ r.peer_id) ⊎ (r.vote_for ≡ minus_one)))
  pub size : SameSize r r'
  pub stands :
      r'.state ≡ candidate
      → (r'.vote_for ≡ r'.peer_id)
        ⊎ ((r.state ≡ candidate) × ((r'.vote_for ≡ r.vote_for) ⊎ (r.vote_for ≡ minus_one)))

pub SameVote-Advances : {r r' : Raft} → SameVote r r' → Advances r r'
SameVote-Advances (p, t, v, s, n) = record {
  peer = p;
  ballot = inr (t, inl v);
  size = n;
  stands = λ e. inr (sym s ∙ e, inl v);
}

pub SameVote-trans : (r s t : Raft) → SameVote r s → SameVote s t → SameVote r t
SameVote-trans r s t (p, c, v, st, n) (p', c', v', st', n') =
    (p' ∙ p, c' ∙ c, v' ∙ v, st' ∙ st, (n'.0 ∙ n.0, n'.1 ∙ n.1, n'.2 ∙ n.2))

pub Advances-then : {r s t : Raft} → Advances r s → SameVote s t → Advances r t
Advances-then {r} {s} {t} a (p, c, v, st, n) = record {
  size = (n.0 ∙ a.size.0, n.1 ∙ a.size.1, n.2 ∙ a.size.2);
  peer = p ∙ a.peer;
  ballot = elim a.ballot [
    | inl more ↦ inl (subst (λ z. r.cur_term <ℤ z) (sym c) more)
    | inr (e, inl x) ↦ inr (c ∙ e, inl (v ∙ x))
    | inr (e, inr (inl x)) ↦ inr (c ∙ e, inr (inl (v ∙ x)))
    | inr (e, inr (inr x)) ↦ inr (c ∙ e, inr (inr x))
  ];
  stands = λ now_stands. elim (a.stands (sym st ∙ now_stands)) [
    | inl own ↦ inl (v ∙ own ∙ sym p)
    | inr (was, inl kept) ↦ inr (was, inl (v ∙ kept))
    | inr (was, inr none) ↦ inr (was, inr none)
  ];
}

adopt-Advances : (r : Raft) (term : ℤ) → Advances r (adopt_term r term)
unfolding adopt_term
adopt-Advances r term = ground arith

save-SameVote : (r : Raft) → SameVote r (save_raft_state r)
unfolding save_raft_state serialize
save-SameVote r = (refl, refl, refl, refl, (refl, refl, refl))

voted-Advances :
    (now : Timeval) (r : Raft) (q : RequestVote)
    → r.cur_term ≤ℤ q.term
    → (r.cur_term <ℤ q.term) ⊎ (r.vote_for ≡ minus_one) ⊎ (r.vote_for ≡ q.candidate_id)
    → Advances r (voted now (adopt_term r q.term) q)
unfolding adopt_term save_raft_state serialize
voted-Advances now r q h may = ground arith

vote-Advances :
    (now : Timeval) (r : Raft) (q : RequestVote) {p : Raft × ResponseVote}
    → Outcome now r q p
    → Advances r p.0
vote-Advances now r q (stale h) = SameVote-Advances (refl, refl, refl, refl, (refl, refl, refl))
vote-Advances now r q (taken h other) =
    Advances-then (adopt-Advances r q.term) (save-SameVote (adopt_term r q.term))
vote-Advances now r q (log_behind h may bad) = adopt-Advances r q.term
vote-Advances now r q (granted h may good) = voted-Advances now r q h may

pub reply_vote-Advances :
    (now : Timeval) (r : Raft) (q : RequestVote) → Advances r (reply_vote now r q).0
reply_vote-Advances now r q = vote-Advances now r q (reply_vote-Outcome now r q)

pub on_vote_response-Advances :
    (now : Timeval) (r : Raft) (a : ResponseVote) → Advances r (on_vote_response now r a)
unfolding on_vote_response
on_vote_response-Advances now r a = ground (arith, +ℤ_parts r.cur_term (pos 1))

pub election_round-Advances :
    (now : Timeval) (timeout : ℤ) (r : Raft) → Advances r (election_round now timeout r).0
unfolding election_round save_raft_state serialize
election_round-Advances now timeout r = ground arith

fill-length : (n : ℕ) (a : ℤ) (xs : List ℤ) → Ensures (λ ys. length ys ≡ length xs) (fill n a xs)
unfolding fill
fill-length zero a xs = Ensures-some xs refl
fill-length (suc n) a [] = record { result = λ ys run. cc }
fill-length (suc n) a (x ∷ xs) =
    Ensures-bind (fill n a xs) _
      λ rest run. Ensures-some (a ∷ rest) (ap suc ((fill-length n a xs).result rest run))

becoming : (now : Timeval) (r : Raft) → Ensures (Advances r) (become_leader now r)
unfolding become_leader set_bell_time
becoming now r =
    Ensures-bind (fill (length r.peers) (last_index r +ℤ pos 1) r.next_index) _ λ next run.
      Ensures-bind (fill (length r.peers) (pos 0) r.match_index) _ λ matches run'.
        Ensures-some _ (record {
          peer = refl;
          ballot = inl (omega (arith, +ℤ_parts r.cur_term (pos 1)));
          size = (
            refl,
            (fill-length (length r.peers) (last_index r +ℤ pos 1) r.next_index).result next run,
            (fill-length (length r.peers) (pos 0) r.match_index).result matches run',
          );
          stands = λ e. cc;
        })

become_leader-Advances :
    (now : Timeval) (r r' : Raft) → become_leader now r ≡ some r' → Advances r r'
become_leader-Advances now r r' h = (becoming now r).result r' h

pub after_vote-Advances : (now : Timeval) (r r' : Raft) → after_vote now r ≡ some r' → Advances r r'
unfolding after_vote
after_vote-Advances now r r' h = ground (arith, become_leader-Advances now r r')

pub start-SameVote : (r : Raft) (op : Operation) → SameVote r (start r op).0
unfolding start
start-SameVote r op = ground arith
