-- ===== src/Raft/Cluster/Leading.antt =====
-- A node that wins an election, and a leader that takes a command: the history grows only by
-- entries that no other node has.
use shard_kv_raft.Base.{
  ℕ, ◌≡◌, ◌≢◌, sym, ap, ◌∙◌, ◌⊎◌, inl, inr, Bool-cases, Option, none, some, ℤ, pos, ◌+ℤ◌, ◌≤ℤ◌,
  ◌<ℤ◌, ◌==ℤ◌, ==ℤ→eq, ==ℤ-refl, pos_part, neg_part, int_laws, arith, Option-cases, if◌then◌else◌,
}
use mathlib.Core.Option.{some-injective}
use shard_kv_raft.Text.{Bytes}
use shard_kv_raft.Raft.State.{LogEntry, Raft, leader, Timeval}
use shard_kv_raft.Raft.Log.{last_index, last_term, push_back_log}
use shard_kv_raft.Raft.Wire.Entries.{IsClean}
use shard_kv_raft.Raft.Election.{after_vote, become_leader, set_bell_time}
use shard_kv_raft.Raft.Cluster.{Message, append, install, Cluster, replace}
use shard_kv_raft.Raft.Cluster.Links.{History, Extends, Linked-Extends}
use shard_kv_raft.Raft.Cluster.Chains.{
  IsBased-Extends, IsChained, IsChained-same, IsChained-Extends,
}
use shard_kv_raft.Raft.Cluster.Growing.{
  extend-cases, extend-Extends, grown, last_index-push, last_term-push, push-IsChained,
}
use shard_kv_raft.Raft.Cluster.Invariant.{Fits, LeadsAt, Inv, replace-all}

elected :
    (now : Timeval) (r s : Raft)
    → after_vote now r ≡ some s
    → (s.last_included_index ≡ r.last_included_index)
      × (s.last_include_term ≡ r.last_include_term)
      × (s.logs ≡ r.logs)
unfolding after_vote become_leader set_bell_time
elected now r s run = ground arith

-- The winners with that of one more term.
pub crown : (ℤ → Option ℕ) → ℤ → ℕ → ℤ → Option ℕ
crown leader_of t i u = if u ==ℤ t then some i else leader_of u

pub crown_cases :
    (leader_of : ℤ → Option ℕ) (t : ℤ) (i : ℕ) (u : ℤ) (l : ℕ)
    → crown leader_of t i u ≡ some l
    → ((u ≡ t) × (l ≡ i)) ⊎ (leader_of u ≡ some l)
unfolding crown
crown_cases leader_of t i u l e = elim (Bool-cases (u ==ℤ t)) [
  | inl new ↦ inl (==ℤ→eq u t new, some-injective l i (sym (rw new at e)))
  | inr old ↦ inr (rw old at e)
]

module _ {h : History} {leader_of : ℤ → Option ℕ} (c : Cluster) (inv : Inv h leader_of c) where
  -- The winner of a term that had none leads it, and no entry of the term is there.
  pub wins-Inv :
      (i : ℕ) (s : Raft) (now : Timeval)
      → after_vote now (c.node i) ≡ some s
      → leader_of s.cur_term ≡ none
      → Inv h (crown leader_of s.cur_term i) (record c { node = replace c.node i s })
  unfolding crown
  wins-Inv i s now run free = record {
    nodes =
        replace-all (λ _ r. IsChained h r) c.node i s
          (let (index, term, logs) = elected now (c.node i) s run in
            IsChained-same (c.node i) s index term logs (inv.nodes i))
          (λ j _. inv.nodes j);
    mail = inv.mail;
    led = λ j t x e. let (l, won) = inv.led j t x e in crowned t l won;
    leaders =
        replace-all (λ j r. r.state ≡ leader → LeadsAt (crown leader_of s.cur_term i) h j r) c.node
          i s (λ _. (rw (==ℤ-refl s.cur_term), λ j x e. absurd (no_entry j x e)))
          (λ j other e. let (own, reach) = inv.leaders j e in (still j own, reach));
    steady = inv.steady;
  }
    where
      no_entry : (j : ℤ) (x : Bytes × ℤ) → h j s.cur_term ≡ some x → ⊥
      no_entry j x e = let (l, won) = inv.led j s.cur_term x e in cc (won, free)

      crowned :
          (t : ℤ) (l : ℕ)
          → leader_of t ≡ some l
          → (k : ℕ) × (crown leader_of s.cur_term i t ≡ some k)
      crowned t l won = elim (Bool-cases (t ==ℤ s.cur_term)) [
        | inl new ↦ (i, rw new)
        | inr old ↦ (l, rw old won)
      ]

      still :
          (j : ℕ)
          → leader_of (c.node j).cur_term ≡ some j
          → crown leader_of s.cur_term i (c.node j).cur_term ≡ some j
      still j own = elim (Bool-cases ((c.node j).cur_term ==ℤ s.cur_term)) [
        | inl same ↦ absurd (clash (ap leader_of (==ℤ→eq (c.node j).cur_term s.cur_term same)))
        | inr other ↦ rw other own
      ]
        where
          clash : leader_of (c.node j).cur_term ≡ leader_of s.cur_term → ⊥
          clash e = cc (e, own, free)

  module _ (i : ℕ) (cmd : Bytes) (leading : (c.node i).state ≡ leader)
      (clean : IsClean b';' (record { cmd = cmd; term = (c.node i).cur_term })) where
    abbrev entry : LogEntry
    entry = record { cmd = cmd; term = (c.node i).cur_term }

    abbrev pub grown_history : History
    grown_history = grown h (c.node i) entry

    free : h (last_index (c.node i) +ℤ pos 1) (c.node i).cur_term ≡ none
    free = elim (Option-cases (h (last_index (c.node i) +ℤ pos 1) (c.node i).cur_term)) [
      | inl e ↦ e
      | inr (x, e) ↦
          let (le, _) = (inv.leaders i leading).1 (last_index (c.node i) +ℤ pos 1) x e in
          absurd (omega (int_laws, le))
    ]

    more : Extends h grown_history
    more =
        extend-Extends h (last_index (c.node i) +ℤ pos 1) (c.node i).cur_term
          (cmd, last_term (c.node i)) free

    abbrev New : ℤ → ℤ → Bytes × ℤ → Type 0
    New j t x =
        ((j ≡ last_index (c.node i) +ℤ pos 1)
          × (t ≡ (c.node i).cur_term)
          × (x ≡ (cmd, last_term (c.node i))))
        ⊎ (h j t ≡ some x)

    grown_cases : (j t : ℤ) (x : Bytes × ℤ) → grown_history j t ≡ some x → New j t x
    grown_cases j t x e =
        extend-cases h (last_index (c.node i) +ℤ pos 1) (c.node i).cur_term
          (cmd, last_term (c.node i)) j t x e

    still_led : (j t : ℤ) (x : Bytes × ℤ) → New j t x → (l : ℕ) × (leader_of t ≡ some l)
    still_led j t x (inl (_, same, _)) = (i, ap leader_of same ∙ (inv.leaders i leading).0)
    still_led j t x (inr old) = inv.led j t x old

    still_steady : (a b t : ℤ) (x y : Bytes × ℤ) → New a t x → New b t y → a <ℤ b → y.1 ≡ t
    still_steady a b t x y (inl (at_a, _, _)) (inl (at_b, _, _)) lt = absurd (
        omega
          (int_laws, lt, ap pos_part at_a, ap neg_part at_a, ap pos_part at_b, ap neg_part at_b))
    still_steady a b t x y (inl (at_a, same, _)) (inr old) lt =
        let (le, _) = (inv.leaders i leading).1 b y (ap (h b) (sym same) ∙ old) in
        absurd (omega (int_laws, lt, le, ap pos_part at_a, ap neg_part at_a))
    still_steady a b t x y (inr old) (inl (at_b, same, is)) lt =
        let (_, last) = (inv.leaders i leading).1 a x (ap (h a) (sym same) ∙ old) in
        ap (λ (z : Bytes × ℤ). z.1) is ∙ last ∙ sym same
    still_steady a b t x y (inr old) (inr old') lt = inv.steady a b t x y old old' lt

    mail-Fits : (m : Message) → Fits h m → Fits grown_history m
    mail-Fits (append peer q) f = record {
      entries = f.entries;
      parsed = f.parsed;
      linked = Linked-Extends q.prev_log_index q.prev_log_term f.entries more f.linked;
      clean = f.clean;
    }
    mail-Fits (install peer q) f = IsBased-Extends q.last_include_index q.last_include_term more f

    its_own :
        (j : ℤ) (x : Bytes × ℤ)
        → New j (c.node i).cur_term x
        → j ≤ℤ last_index (push_back_log entry (c.node i))
    its_own j x (inl (at_j, _, _)) = omega (
      int_laws,
      ap pos_part at_j,
      ap neg_part at_j,
      ap pos_part (last_index-push h (c.node i) entry),
      ap neg_part (last_index-push h (c.node i) entry),
    )
    its_own j x (inr old) =
        let (le, _) = (inv.leaders i leading).1 j x old in
        omega (
          int_laws,
          le,
          ap pos_part (last_index-push h (c.node i) entry),
          ap neg_part (last_index-push h (c.node i) entry),
        )

    anothers :
        (k : ℕ) (j : ℤ) (x : Bytes × ℤ)
        → k ≢ i
        → (c.node k).state ≡ leader
        → New j (c.node k).cur_term x
        → (j ≤ℤ last_index (c.node k)) × (last_term (c.node k) ≡ (c.node k).cur_term)
    anothers k j x other e (inl (_, same, _)) = absurd (
        other (
          some-injective k i
            (sym (inv.leaders k e).0 ∙ ap leader_of same ∙ (inv.leaders i leading).0)))
    anothers k j x other e (inr old) = (inv.leaders k e).1 j x old

    pub takes-Inv :
        Inv grown_history leader_of
          (record c { node = replace c.node i (push_back_log entry (c.node i)) })
    unfolding push_back_log
    takes-Inv = record {
      nodes =
          replace-all (λ _ r. IsChained grown_history r) c.node i _
            (push-IsChained h (c.node i) entry free clean (inv.nodes i))
            (λ j _. IsChained-Extends (c.node j) more (inv.nodes j));
      mail = λ k m e. mail-Fits m (inv.mail k m e);
      led = λ j t x e. still_led j t x (grown_cases j t x e);
      leaders =
          replace-all (λ j r. r.state ≡ leader → LeadsAt leader_of grown_history j r) c.node i
            (push_back_log entry (c.node i))
            (λ _. (
              (inv.leaders i leading).0,
              λ j x e. (
                its_own j x (grown_cases j (c.node i).cur_term x e),
                last_term-push h (c.node i) entry,
              ),
            ))
            (λ k other e. (
              (inv.leaders k e).0,
              λ j x known. anothers k j x other e (grown_cases j (c.node k).cur_term x known),
            ));
      steady =
          λ a b t x y p q lt. still_steady a b t x y (grown_cases a t x p) (grown_cases b t y q) lt;
    }
