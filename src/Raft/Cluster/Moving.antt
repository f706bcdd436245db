-- ===== src/Raft/Cluster/Moving.antt =====
-- What a move does to the invariant of a cluster.
use shard_kv_raft.Base.{
  ℕ, ◌≡◌, refl, sym, ap, ◌∙◌, ◌⊎◌, inl, inr, Bool, true, false, ◌∷◌, Option, ℤ, pos, if◌then◌else◌,
}
use mathlib.Core.Path.{subst}
use shard_kv_raft.Text.{Lacks}
use shard_kv_raft.Raft.State.{
  Operation, StartRet, Raft, RaftState, leader, candidate, follower, InstallSnapShotRequest,
}
use shard_kv_raft.Raft.Log.{push_back_log}
use shard_kv_raft.Raft.Wire.{get_cmd}
use shard_kv_raft.Raft.Replicate.{is_leader, start}
use shard_kv_raft.Raft.Snapshot.{Codec, install_request}
use shard_kv_raft.Raft.Cluster.{
  append, install, Cluster, replace, Move, acts, takes, sends, receives, ships, unpacks,
}
use shard_kv_raft.Raft.Cluster.Links.{History}
use shard_kv_raft.Raft.Cluster.Chains.{IsBased, IsChained, append_request-Carries}
use shard_kv_raft.Raft.Cluster.Receiving.{Taken, reply_append-Taken}
use shard_kv_raft.Raft.Cluster.Unpacking.{reply_install_snap-Taken}
use shard_kv_raft.Raft.Cluster.Local.{install_request-Settled}
use shard_kv_raft.Raft.Cluster.Keeping.{Keeps, Won, local-Keeps, Settled-Keeps}
use shard_kv_raft.Raft.Cluster.Invariant.{LeadsAt, Inv, replace-Inv, mail-Inv, Keeps-LeadsAt}
use shard_kv_raft.Raft.Cluster.Leading.{grown_history, takes-Inv}

pub start_cases :
    (r : Raft) (op : Operation)
    → ((r.state ≡ leader)
        × ((start r op).0 ≡ push_back_log (record { cmd = get_cmd op; term = r.cur_term }) r))
      ⊎ ((start r op).0 ≡ r)
unfolding start is_leader
start_cases r op = elim (state_cases r.state) [
  | inl leads ↦ inl (leads, ap (λ (p : Raft × StartRet). p.0) (if_true _ _ (ap is_leader leads)))
  | inr other ↦ inr (ap (λ (p : Raft × StartRet). p.0) (if_false _ _ other))
]
  where
    state_cases : (s : RaftState) → (s ≡ leader) ⊎ (is_leader s ≡ false)
    state_cases leader = inl refl
    state_cases candidate = inr refl
    state_cases follower = inr refl

    if_true : {b : Bool} (x y : Raft × StartRet) → b ≡ true → (if b then x else y) ≡ x
    if_true x y e = rw e

    if_false : {b : Bool} (x y : Raft × StartRet) → b ≡ false → (if b then x else y) ≡ y
    if_false x y e = rw e

module _ {h : History} {leader_of : ℤ → Option ℕ} (c : Cluster) (inv : Inv h leader_of c) where
  keeps-Inv :
      (i : ℕ) (s : Raft)
      → Keeps (c.node i) s
      → Inv h leader_of (record c { node = replace c.node i s })
  keeps-Inv i s k = replace-Inv c inv i s (k.chained h (inv.nodes i)) (Keeps-LeadsAt c inv i s k)

  Taken-Inv :
      (i : ℕ) (s : Raft)
      → Taken h (c.node i) s
      → Inv h leader_of (record c { node = replace c.node i s })
  Taken-Inv i s (inl same) =
      replace-Inv c inv i s (subst (IsChained h) (sym same) (inv.nodes i)) (λ e.
        subst (LeadsAt leader_of h i) (sym same)
          (inv.leaders i (sym (ap (λ (x : Raft). x.state) same) ∙ e)))
  Taken-Inv i s (inr (no_leader, chain)) = replace-Inv c inv i s chain (λ e. absurd (no_leader e))

  start-Inv :
      (i : ℕ) (op : Operation)
      → Lacks b',' (get_cmd op)
      → Lacks b';' (get_cmd op)
      → (k : History) × Inv k leader_of
          (record c { node = replace c.node i (start (c.node i) op).0 })
  start-Inv i op comma semicolon = elim (start_cases (c.node i) op) [
    | inl (leads, e) ↦ (
      grown_history c inv i (get_cmd op) leads (comma, semicolon),
      subst
          (λ s.
            Inv (grown_history c inv i (get_cmd op) leads (comma, semicolon)) leader_of
              (record c { node = replace c.node i s }))
          (sym e) (takes-Inv c inv i (get_cmd op) leads (comma, semicolon)),
    )
    | inr e ↦ (h, Taken-Inv i (start (c.node i) op).0 (inl e))
  ]

  ship-Inv :
      (codec : Codec) (i peer : ℕ)
      → Inv h leader_of (record c {
        node = replace c.node i (install_request codec (c.node i)).0;
        network = install peer (install_request codec (c.node i)).1 ∷ c.network;
      })
  ship-Inv codec i peer =
      mail-Inv (record c { node = replace c.node i (install_request codec (c.node i)).0 })
        (keeps-Inv i _ (Settled-Keeps (install_request-Settled codec (c.node i))))
        (install peer (install_request codec (c.node i)).1) (sent (c.node i) (inv.nodes i))
    where
      sent :
          (r : Raft)
          → IsChained h r
          → IsBased h
              (install_request codec r).1.last_include_index
              (install_request codec r).1.last_include_term
      sent r chain = unfold install_request in chain.0.based

-- The node `i` of `c` wins an election, which is all that happens on the way to `d`.
pub record OneWins (c d : Cluster) : Type 0 where
  pub who : ℕ
  pub after : Raft
  pub won : Won (c.node who) after
  pub result : d ≡ record c { node = replace c.node who after }

-- Each move keeps some history that explains the cluster, or a node wins an election.
pub Move-Inv :
    {codec : Codec} {h : History} {leader_of : ℤ → Option ℕ} {c d : Cluster}
    → Inv h leader_of c
    → Move codec c d
    → ((k : History) × Inv k leader_of d) ⊎ OneWins c d
Move-Inv {codec} {h} {leader_of} {c} inv (acts i s st local e) = elim (local-Keeps codec st local) [
  | inl keeps ↦ inl (h, subst (Inv h leader_of) (sym e) (keeps-Inv c inv i s keeps))
  | inr won ↦ inr (record { who = i; after = s; won = won; result = e })
]
Move-Inv {codec} {h} {leader_of} {c} inv (takes i op comma semicolon e) =
    let (k, kept) = start-Inv c inv i op comma semicolon in
    inl (k, subst (Inv k leader_of) (sym e) kept)
Move-Inv {codec} {h} {leader_of} {c} inv (sends i peer q size run e) =
    let (carries, _) = append_request-Carries h (c.node i) (pos peer) q size (inv.nodes i) run in
    inl (h, subst (Inv h leader_of) (sym e) (mail-Inv c inv (append peer q) carries))
Move-Inv {codec} {h} {leader_of} {c} inv (receives k peer q now s a sent run e) = inl (
  h,
  subst (Inv h leader_of) (sym e) (
      Taken-Inv c inv peer s (
        reply_append-Taken h now (c.node peer) q s a (inv.mail k (append peer q) sent)
          (inv.nodes peer) run)),
)
Move-Inv {codec} {h} {leader_of} {c} inv (ships i peer s q run e) = inl (
  h,
  subst (Inv h leader_of) (sym e) (
      subst
        (λ (p : Raft × InstallSnapShotRequest).
          Inv h leader_of
            (record c { node = replace c.node i p.0; network = install peer p.1 ∷ c.network }))
        run (ship-Inv c inv codec i peer)),
)
Move-Inv {codec} {h} {leader_of} {c} inv (unpacks k peer q now s a sent run e) = inl (
  h,
  subst (Inv h leader_of) (sym e) (
      Taken-Inv c inv peer s (
        (reply_install_snap-Taken h codec inv.steady now (c.node peer) q
            (inv.mail k (install peer q) sent) (inv.nodes peer)).result
          (s, a) run)),
)
