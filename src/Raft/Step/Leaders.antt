-- ===== src/Raft/Step/Leaders.antt =====
-- Elections in a cluster of nodes of src/RaftServer.cpp whose handlers interleave in any order.
use shard_kv_raft.Base.{
  ℕ, zero, suc, ◌≤◌, ◌<◌, ◌≡◌, ◌≢◌, sym, ap, ◌∙◌, ◌⊎◌, inl, inr, Bool, true, ℤ, some, pos,
  minus_one, ◌+ℤ◌, ◌<ℤ◌, pos_part, neg_part, int_laws, arith, Bool-cases, ltb, ◌==◌,
}
use mathlib.Core.Path.{subst}
use shard_kv_raft.Raft.State.{Raft, Timeval, RequestVote, candidate, leader}
use shard_kv_raft.Raft.Vote.{reply_vote}
use shard_kv_raft.Raft.Vote.Grants.{reply_vote_grants, reply_vote_saves}
use shard_kv_raft.Raft.Election.{after_vote, become_leader, set_bell_time}
use shard_kv_raft.Raft.Snapshot.{Codec}
use shard_kv_raft.Raft.Step.{Step, Steps, here, next}
use shard_kv_raft.Raft.Step.Terms.{Advances}
use shard_kv_raft.Raft.Step.Ballot.{Step-Advances, Steps-term_le, Given, Steps-Given, settle}
use shard_kv_raft.Raft.Step.Majority.{IsMajority, majorities_meet}

-- A node other than the candidate answers its request with a vote.
pub record Grants (t c : ℤ) (r s : Raft) : Type 0 where
  pub now : Timeval
  pub request : RequestVote
  pub in_term : request.term ≡ t
  pub asks : request.candidate_id ≡ c
  pub of_other : c ≢ r.peer_id
  pub accepted : (reply_vote now r request).1.is_accepted ≡ true
  pub after : s ≡ (reply_vote now r request).0

-- A candidate comes out of its wait for the votes as the leader.
pub record Wins (t c : ℤ) (r s : Raft) : Type 0 where
  pub now : Timeval
  pub in_term : r.cur_term +ℤ pos 1 ≡ t
  pub itself : r.peer_id ≡ c
  pub stood : r.state ≡ candidate
  pub after : after_vote now r ≡ some s
  pub leads : s.state ≡ leader

abbrev Casts : ℤ → ℤ → Raft → Raft → Type 0
Casts t c r s = Grants t c r s ⊎ Wins t c r s

abbrev IsSelfVoter : Raft → Type 0
IsSelfVoter r = r.state ≡ candidate → r.vote_for ≡ r.peer_id

pub won :
    (now : Timeval) (r s : Raft)
    → after_vote now r ≡ some s
    → r.state ≡ candidate
    → s.state ≡ leader
    → (s.cur_term ≡ r.cur_term +ℤ pos 1) × (s.vote_for ≡ r.vote_for)
unfolding after_vote become_leader set_bell_time
won now r s run stood leads = ground arith

Casts-vote :
    {t c : ℤ} {r s : Raft} → IsSelfVoter r → Casts t c r s → (s.cur_term ≡ t) × (s.vote_for ≡ c)
Casts-vote {t} {c} {r} {s} own (inl g) =
    let (term, vote, _, _, _) = reply_vote_saves g.now r g.request g.accepted in
    (
      ap (λ (x : Raft). x.cur_term) g.after ∙ term ∙ g.in_term,
      ap (λ (x : Raft). x.vote_for) g.after ∙ vote ∙ g.asks,
    )
Casts-vote {t} {c} {r} {s} own (inr w) =
    let (term, vote) = won w.now r s w.after w.stood w.leads in
    (term ∙ w.in_term, vote ∙ own w.stood ∙ w.itself)

module _ (codec : Codec) where
  Casts-Given :
      {t c d : ℤ} {r s : Raft}
      → c ≢ minus_one
      → r.peer_id ≢ minus_one
      → Given codec t c r
      → Casts t d r s
      → d ≡ c
  Casts-Given {t} {c} {d} {r} hc hr given (inl g) =
      let (fresh, may, _) = (reply_vote_grants g.now r g.request).0 g.accepted in
      sym g.asks
      ∙ settle codec r t c g.request hc hr (λ e. g.of_other (sym g.asks ∙ e)) fresh may given
          g.in_term
  Casts-Given {t} {c} {d} {r} hc hr given (inr w) = absurd (too_late r.cur_term w.in_term given)
    where
      too_late :
          (z : ℤ)
          → z +ℤ pos 1 ≡ t
          → (t <ℤ z) ⊎ ((z ≡ t) × ((r.vote_for ≡ c) ⊎ (r.vote_for ≡ r.peer_id)))
          → ⊥
      too_late z e (inl more) = omega (int_laws, more, ap pos_part e, ap neg_part e)
      too_late z e (inr (same, _)) =
          omega (int_laws, ap pos_part e, ap neg_part e, ap pos_part same, ap neg_part same)

  -- The states of one node over time: from each to the next a step, or nothing.
  abbrev pub IsRun : (ℕ → Raft) → Type 0
  IsRun run = (k : ℕ) → Step codec (run k) (run (suc k)) ⊎ (run (suc k) ≡ run k)

  module _ (run : ℕ → Raft) (moves : IsRun run) where
    pub Steps-between : (m n : ℕ) → m ≤ n → Steps codec (run m) (run n)
    Steps-between m zero h = subst (λ k. Steps codec (run m) (run k)) (omega (arith, h)) here
    Steps-between m (suc n) h = elim (Bool-cases (ltb n m)) [
      | inl last ↦ subst (λ k. Steps codec (run m) (run k)) (ground arith) here
      | inr before ↦
          let rest = Steps-between m n (ground arith) in
          elim (moves n) [
            | inl st ↦ next rest st
            | inr same ↦ subst (Steps codec (run m)) (sym same) rest
          ]
    ]

    pub Steps-peer : (n : ℕ) → (run n).peer_id ≡ (run 0).peer_id
    Steps-peer n = (Steps-term_le codec (Steps-between 0 n (omega arith))).1

    own_vote : {r s : Raft} → r.peer_id ≢ minus_one → IsSelfVoter r → Advances r s → IsSelfVoter s
    own_vote {r} {s} hr own a stands = elim (a.stands stands) [
      | inl e ↦ e
      | inr (was, inl kept) ↦ kept ∙ own was ∙ sym a.peer
      | inr (was, inr none) ↦ absurd (hr (sym (own was) ∙ none))
    ]

    IsSelfVoter-run :
        (run 0).peer_id ≢ minus_one → IsSelfVoter (run 0) → (n : ℕ) → IsSelfVoter (run n)
    IsSelfVoter-run hr own zero = own
    IsSelfVoter-run hr own (suc n) = elim (moves n) [
      | inl st ↦
          own_vote (λ e. hr (sym (Steps-peer n) ∙ e)) (IsSelfVoter-run hr own n)
            (Step-Advances codec st)
      | inr same ↦ subst IsSelfVoter (sym same) (IsSelfVoter-run hr own n)
    ]

    later_cast :
        {t c d : ℤ}
        → c ≢ minus_one
        → (run 0).peer_id ≢ minus_one
        → IsSelfVoter (run 0)
        → (m n : ℕ) → suc m ≤ n
        → Casts t c (run m) (run (suc m))
        → Casts t d (run n) (run (suc n))
        → d ≡ c
    later_cast {t} {c} {d} hc hr own m n lt first second =
        let (term, vote) = Casts-vote (IsSelfVoter-run hr own m) first in
        Casts-Given hc (λ e. hr (sym (Steps-peer n) ∙ e))
          (Steps-Given codec t c hc (λ e. hr (sym (Steps-peer (suc m)) ∙ e)) (inr (term, inl vote))
            (Steps-between (suc m) n lt))
          second

    one_cast :
        {t c d : ℤ}
        → c ≢ minus_one
        → d ≢ minus_one
        → (run 0).peer_id ≢ minus_one
        → IsSelfVoter (run 0)
        → (m n : ℕ) → Casts t c (run m) (run (suc m))
        → Casts t d (run n) (run (suc n))
        → c ≡ d
    one_cast {t} {c} {d} hc hd hr own m n first second = elim (Bool-cases (ltb m n)) [
      | inl before ↦ sym (later_cast hc hr own m n (ground arith) first second)
      | inr other ↦ elim (Bool-cases (ltb n m)) [
        | inl after ↦ later_cast hd hr own n m (ground arith) second first
        | inr same ↦
            sym ((Casts-vote (IsSelfVoter-run hr own m) first).1)
            ∙ (Casts-vote (IsSelfVoter-run hr own m)
                (subst (λ k. Casts t d (run k) (run (suc k))) (ground arith) second)).1
      ]
    ]

-- Node `c` of a cluster of `n` wins the election of term `t`: the voters are a majority of the
-- nodes, and each of them, the winner apart, has granted its vote.
pub record Elected (runs : ℕ → ℕ → Raft) (n : ℕ) (t : ℤ) (c : ℕ) : Type 0 where
  pub voters : ℕ → Bool
  pub most : IsMajority n voters
  pub wins : (k : ℕ) × Wins t (pos c) (runs c k) (runs c (suc k))
  pub granted :
      (i : ℕ)
      → i < n
      → voters i ≡ true
      → i ≢ c
      → (k : ℕ) × Grants t (pos c) (runs i k) (runs i (suc k))

module _ (codec : Codec) (runs : ℕ → ℕ → Raft) (n : ℕ) where
  cast :
      (t : ℤ) (c : ℕ) (e : Elected runs n t c) (i : ℕ)
      → i < n
      → e.voters i ≡ true
      → (k : ℕ) × Casts t (pos c) (runs i k) (runs i (suc k))
  cast t c e i lo member = elim (Bool-cases (i == c)) [
    | inl same ↦
        let (k, w) = e.wins in
        (k, inr (subst (λ j. Wins t (pos c) (runs j k) (runs j (suc k))) (ground arith) w))
    | inr other ↦ let (k, g) = e.granted i lo member (ground arith) in (k, inl g)
  ]

  -- Let each node of a cluster go, at its own pace, from its number and a state that is no candidate
  -- through whole runs of its handlers, in any order. Let two nodes win an election in the same term,
  -- each with the votes of a majority of the nodes: the votes of different nodes, given for that term.
  -- Then the two are the same node.
  pub one_leader :
      ((i : ℕ) → IsRun codec (runs i))
      → ((i : ℕ) → (runs i 0).peer_id ≡ pos i)
      → ((i : ℕ) → (runs i 0).state ≢ candidate)
      → (t : ℤ) (c d : ℕ) → Elected runs n t c
      → Elected runs n t d
      → c ≡ d
  one_leader moves ids follows t c d first second =
      let (i, lo, in_c, in_d) =
        majorities_meet n first.voters second.voters first.most second.most in
      let (j, a) = cast t c first i lo in_c in
      let (k, b) = cast t d second i lo in_d in
      ap pos_part (
        one_cast codec (runs i) (moves i) (λ e. cc) (λ e. cc)
          (λ e. absurd (number i (sym (ids i) ∙ e))) (λ stands. absurd (follows i stands)) j k a b)
    where
      number : (i : ℕ) → pos i ≢ minus_one
      number i e = cc
