-- ===== src/Raft/Step/Ballot.antt =====
-- One vote for each term, as long as the node's handlers run one after the other.
use shard_kv_raft.Base.{
  ◌≡◌, ◌≢◌, refl, sym, ap, ◌∙◌, ◌⊎◌, inl, inr, true, ℤ, minus_one, ◌<ℤ◌, ◌≤ℤ◌, pos_part, neg_part,
  arith, int_laws,
}
use mathlib.Core.Path.{subst}
use shard_kv_raft.Raft.State.{Raft, Timeval, RequestVote}
use shard_kv_raft.Raft.Vote.{reply_vote}
use shard_kv_raft.Raft.Vote.Grants.{MayVote, reply_vote_grants, reply_vote_saves}
use shard_kv_raft.Raft.Snapshot.{Codec}
use shard_kv_raft.Raft.Step.{
  Step, votes, counts, times_out, elects, submits, follows, leads, applies, compacts, installs,
  sends_snapshot, sent_snapshot, Steps, here, next,
}
use shard_kv_raft.Raft.Step.Appends
use shard_kv_raft.Raft.Step.Terms
use shard_kv_raft.Raft.Step.Terms.{Advances, SameVote-Advances}
use shard_kv_raft.Raft.Step.Snapshots

module _ (codec : Codec) where
  pub Step-Advances : {r r' : Raft} → Step codec r r' → Advances r r'
  Step-Advances {r} (votes now q e) = subst (Advances r) (sym e) (Terms.reply_vote-Advances now r q)
  Step-Advances {r} (counts now a e) =
      subst (Advances r) (sym e) (Terms.on_vote_response-Advances now r a)
  Step-Advances {r} (times_out now timeout e) =
      subst (Advances r) (sym e) (Terms.election_round-Advances now timeout r)
  Step-Advances {r} {r'} (elects now e) = Terms.after_vote-Advances now r r' e
  Step-Advances {r} (submits op e) =
      subst (Advances r) (sym e) (SameVote-Advances (Terms.start-SameVote r op))
  Step-Advances {r} {r'} (follows now q a e) = Appends.reply_append-Advances now r q r' a e
  Step-Advances {r} {r'} (leads peer q n a e) =
      Appends.on_append_response-Advances r peer q n a r' e
  Step-Advances {r} {r'} (applies e) =
      SameVote-Advances ((Appends.apply_round-SameVote r).result r' e)
  Step-Advances {r} {r'} (compacts b i e) =
      SameVote-Advances ((Snapshots.recv_snapshot-SameVote codec r b i).result r' e)
  Step-Advances {r} {r'} (installs now q a e) =
      (Snapshots.reply_install_snap-Advances codec now r q).result (r', a) e
  Step-Advances {r} (sends_snapshot e) =
      subst (Advances r) (sym e) (SameVote-Advances (Snapshots.install_request-SameVote codec r))
  Step-Advances {r} {r'} (sent_snapshot peer q a e) =
      (Snapshots.on_install_response-Advances codec r peer q a).result r' e

  pub Advances-le : {r s : Raft} → Advances r s → r.cur_term ≤ℤ s.cur_term
  Advances-le {r} {s} a = elim a.ballot [
    | inl more ↦ omega arith
    | inr (e, _) ↦ omega (int_laws, ap pos_part e, ap neg_part e)
  ]

  -- No sequence of steps lowers a node's term or changes its number.
  pub Steps-term_le :
      {r s : Raft} → Steps codec r s → (r.cur_term ≤ℤ s.cur_term) × (s.peer_id ≡ r.peer_id)
  Steps-term_le here = (omega arith, refl)
  Steps-term_le (next rs st) =
      let (le, id) = Steps-term_le rs in
      let a = Step-Advances st in (omega (arith, Advances-le a), a.peer ∙ id)

  -- The vote of the term is given: to `c`, or it has been moved to the node itself.
  abbrev pub Given : ℤ → ℤ → Raft → Type 0
  Given t c r =
      (t <ℤ r.cur_term) ⊎ ((r.cur_term ≡ t) × ((r.vote_for ≡ c) ⊎ (r.vote_for ≡ r.peer_id)))

  Advances-Given :
      {r s : Raft} (t c : ℤ)
      → c ≢ minus_one
      → r.peer_id ≢ minus_one
      → Advances r s
      → Given t c r
      → Given t c s
  Advances-Given {r} {s} t c hc hp a g = ground arith

  pub Steps-Given :
      {r s : Raft} (t c : ℤ)
      → c ≢ minus_one
      → r.peer_id ≢ minus_one
      → Given t c r
      → Steps codec r s
      → Given t c s
  Steps-Given t c hc hp g here = g
  Steps-Given t c hc hp g (next rs st) =
      Advances-Given t c hc (λ e. hp (sym (Steps-term_le rs).1 ∙ e)) (Step-Advances st)
        (Steps-Given t c hc hp g rs)

  -- A grant in the given vote's term is to the same candidate.
  pub settle :
      (s : Raft) (t c : ℤ) (p : RequestVote)
      → c ≢ minus_one
      → s.peer_id ≢ minus_one
      → p.candidate_id ≢ s.peer_id
      → s.cur_term ≤ℤ p.term
      → MayVote s p
      → Given t c s
      → p.term ≡ t
      → p.candidate_id ≡ c
  settle s t c p hq hs hp fresh may given same = ground arith

  -- A node that has granted a vote grants no other candidate a vote of the same term, whatever steps,
  -- each run whole, come in between; the second candidate is not the node itself, and neither the
  -- node nor the first candidate has the number -1.
  pub one_vote :
      (now later : Timeval) (r s : Raft) (q p : RequestVote)
      → q.candidate_id ≢ minus_one
      → r.peer_id ≢ minus_one
      → p.candidate_id ≢ r.peer_id
      → (reply_vote now r q).1.is_accepted ≡ true
      → Steps codec (reply_vote now r q).0 s
      → (reply_vote later s p).1.is_accepted ≡ true
      → p.term ≡ q.term
      → p.candidate_id ≡ q.candidate_id
  one_vote now later r s q p hq hr hp first steps second same =
      let (term, vote, _, _, _) = reply_vote_saves now r q first in
      let id = (Terms.reply_vote-Advances now r q).peer in
      let (le, id') = Steps-term_le steps in
      let given =
        Steps-Given q.term q.candidate_id hq (λ e. hr (sym id ∙ e)) (inr (term, inl vote)) steps in
      let (fresh, may, _) = (reply_vote_grants later s p).0 second in
      settle s q.term q.candidate_id p hq (λ e. hr (sym (id' ∙ id) ∙ e)) (λ e. hp (e ∙ id' ∙ id))
        fresh may given same
