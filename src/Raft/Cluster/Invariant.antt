-- ===== src/Raft/Cluster/Invariant.antt =====
-- What holds in a cluster that has begun with empty logs.
use shard_kv_raft.Base.{
  ℕ, zero, suc, ◌≡◌, ◌≢◌, sym, ap, ◌∙◌, inl, inr, Bool-cases, ◌==◌, List, [], ◌∷◌, Option, none,
  some, ℤ, pos, ◌≤ℤ◌, pos_part, neg_part, int_laws, arith, get_elem?,
}
use mathlib.Core.Path.{subst}
use mathlib.Core.Option.{some-injective}
use shard_kv_raft.Text.{Bytes}
use shard_kv_raft.Raft.State.{Raft, RaftState, leader, follower}
use shard_kv_raft.Raft.Log.{last_index, last_term}
use shard_kv_raft.Raft.Cluster.{Message, append, install, Cluster, replace}
use shard_kv_raft.Raft.Cluster.Links.{History}
use shard_kv_raft.Raft.Cluster.Chains.{IsBased, Chained, IsChained, Carries}
use shard_kv_raft.Raft.Cluster.Unpacking.{IsSteady}
use shard_kv_raft.Raft.Cluster.Keeping.{Keeps}

-- A request that agrees with the history.
abbrev pub Fits : History → Message → Type 0
Fits h (append peer q) = Carries h q
Fits h (install peer q) = IsBased h q.last_include_index q.last_include_term

-- A leader has won its term, and no entry of the term is beyond its log.
abbrev pub LeadsAt : (ℤ → Option ℕ) → History → ℕ → Raft → Type 0
LeadsAt leader_of h i r =
    (leader_of r.cur_term ≡ some i)
    × ((j : ℤ) (x : Bytes × ℤ)
        → h j r.cur_term ≡ some x
        → (j ≤ℤ last_index r) × (last_term r ≡ r.cur_term))

-- One history explains all logs and all requests.
pub record Inv (h : History) (leader_of : ℤ → Option ℕ) (c : Cluster) : Type 0 where
  pub nodes : (i : ℕ) → IsChained h (c.node i)
  pub mail : (k : ℕ) (m : Message) → get_elem? c.network k ≡ some m → Fits h m
  pub led : (i t : ℤ) (x : Bytes × ℤ) → h i t ≡ some x → (l : ℕ) × (leader_of t ≡ some l)
  pub leaders : (i : ℕ) → (c.node i).state ≡ leader → LeadsAt leader_of h i (c.node i)
  pub steady : IsSteady h

-- A cluster of followers with empty logs, before any election.
pub record IsFresh (c : Cluster) : Type 0 where
  pub empty : (i : ℕ) → (c.node i).logs ≡ []
  pub base : (i : ℕ) → (c.node i).last_included_index ≡ pos 0
  pub follows : (i : ℕ) → (c.node i).state ≡ follower
  pub number : (i : ℕ) → (c.node i).peer_id ≡ pos i
  pub no_mail : c.network ≡ []

pub no_winner : ℤ → Option ℕ
no_winner t = none

pub no_winner-none : (t : ℤ) (i : ℕ) → no_winner t ≡ some i → ⊥
unfolding no_winner
no_winner-none t i e = cc

pub no_history : History
no_history i t = none

pub IsFresh-Inv : (c : Cluster) → IsFresh c → Inv no_history no_winner c
unfolding no_history no_winner
IsFresh-Inv c f = record {
  nodes = λ i. (
    subst (λ es. Chained no_history (c.node i).last_included_index (c.node i).last_include_term es)
        (sym (f.empty i)) (record { linked = tt; clean = tt; based = inl (omega (arith, low i)) }),
    omega (arith, low i),
  );
  mail = λ k m e. nothing c.network f.no_mail k m e;
  led = λ i t x e. cc;
  leaders = λ i e. absurd (led_by (c.node i).state (f.follows i) e);
  steady = λ i j t x y e. cc;
}
  where
    low :
        (i : ℕ)
        → ((c.node i).last_included_index ≤ℤ pos 0) × (pos 0 ≤ℤ (c.node i).last_included_index)
    low i = (
      omega (int_laws, ap pos_part (f.base i), ap neg_part (f.base i)),
      omega (int_laws, ap pos_part (f.base i), ap neg_part (f.base i)),
    )

    led_by : (s : RaftState) → s ≡ follower → s ≡ leader → ⊥
    led_by s p q = cc

    nothing :
        (net : List Message)
        → net ≡ []
        → (k : ℕ) (m : Message) → get_elem? net k ≡ some m
        → Fits no_history m
    nothing [] e k m p = cc
    nothing (x ∷ net) e k m p = cc

-- What holds of the new node and of all others holds of all.
pub replace-all :
    (P : ℕ → Raft → Type 0) (node : ℕ → Raft) (i : ℕ) (r : Raft)
    → P i r
    → ((j : ℕ) → j ≢ i → P j (node j))
    → (j : ℕ) → P j (replace node i r j)
replace-all P node i r new old j = elim (Bool-cases (j == i)) [
  | inl here ↦ rw here (subst (λ k. P k r) (ground arith) new)
  | inr other ↦ rw other (old j (ground arith))
]

module _ {h : History} {leader_of : ℤ → Option ℕ} (c : Cluster) (inv : Inv h leader_of c) where
  -- A new state of one node.
  pub replace-Inv :
      (i : ℕ) (s : Raft)
      → IsChained h s
      → (s.state ≡ leader → LeadsAt leader_of h i s)
      → Inv h leader_of (record c { node = replace c.node i s })
  replace-Inv i s chain leads = record {
    nodes = replace-all (λ _ r. IsChained h r) c.node i s chain (λ j _. inv.nodes j);
    mail = inv.mail;
    led = inv.led;
    leaders =
        replace-all (λ j r. r.state ≡ leader → LeadsAt leader_of h j r) c.node i s leads
          (λ j _. inv.leaders j);
    steady = inv.steady;
  }

  -- A new request.
  pub mail-Inv : (m : Message) → Fits h m → Inv h leader_of (record c { network = m ∷ c.network })
  mail-Inv m fits = record {
    nodes = inv.nodes;
    mail = λ k x e. delivered k x e;
    led = inv.led;
    leaders = inv.leaders;
    steady = inv.steady;
  }
    where
      delivered : (k : ℕ) (x : Message) → get_elem? (m ∷ c.network) k ≡ some x → Fits h x
      delivered zero x e = subst (Fits h) (some-injective m x e) fits
      delivered (suc k) x e = inv.mail k x e

  pub Keeps-LeadsAt :
      (i : ℕ) (s : Raft) → Keeps (c.node i) s → s.state ≡ leader → LeadsAt leader_of h i s
  Keeps-LeadsAt i s k e =
      let (was, term) = k.leads e in
      let (own, reach) = inv.leaders i was in
      (
        ap leader_of term ∙ own,
        λ j x known.
            let (le, last) = reach j x (subst (λ t. h j t ≡ some x) term known) in
            (subst (λ z. j ≤ℤ z) (sym k.last) le, k.last_t ∙ last ∙ sym term),
      )
