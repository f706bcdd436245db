-- ===== src/Raft/Append/Conflict.antt =====
-- The conflict that ReplyAppend reports: the first entry of the term that stands in the way.
use shard_kv_raft.Base.{
  ℕ, zero, suc, ◌≡◌, ◌≢◌, sym, ap, ◌∙◌, ◌⊎◌, inl, inr, true, false, some, ℤ, pos, ◌+ℤ◌, ◌≤ℤ◌, ◌<ℤ◌,
  ◌==ℤ◌, ==ℤ→eq, ==ℤ-refl, pos_part, neg_part, int_laws, arith, Bool-cases, if◌then◌else◌,
}
use mathlib.Core.Path.{subst}
use shard_kv_raft.Raft.State.{LogEntry, Raft}
use shard_kv_raft.Raft.Log.{last_index, log_at}
use shard_kv_raft.Raft.Log.Index.{log_at-in_range}
use shard_kv_raft.Raft.Append.{first_of_term}

-- Entry `index` has the term, and no entry from `start` up to it has.
pub record IsFirst (r : Raft) (start index term : ℤ) : Type 0 where
  pub entry : LogEntry
  pub at_index : log_at r index ≡ some entry
  pub has_term : entry.term ≡ term
  pub is_first :
      (j : ℤ) (e : LogEntry) → start ≤ℤ j → j <ℤ index → log_at r j ≡ some e → e.term ≢ term

differs : (e : LogEntry) (t : ℤ) → (e.term ==ℤ t) ≡ false → e.term ≢ t
differs e t h p = cc (h, subst (λ z. (z ==ℤ t) ≡ true) (sym p) (==ℤ-refl t))

le_split : (a b : ℤ) → a ≤ℤ b → (a ≡ b) ⊎ (a +ℤ pos 1 ≤ℤ b)
le_split a b h = omega int_laws

scan_step :
    (rounds : ℕ) (r : Raft) (start term : ℤ) (d : LogEntry)
    → log_at r start ≡ some d
    → first_of_term (suc rounds) r start term
      ≡ (if d.term ==ℤ term then some start else first_of_term rounds r (start +ℤ pos 1) term)
unfolding first_of_term
scan_step rounds r start term d here = rw here

module _ (r : Raft) (last term : ℤ) (e : LogEntry) (in_log : last ≤ℤ last_index r)
    (found : log_at r last ≡ some e) (same_term : e.term ≡ term) where
  -- The scan reaches an entry with the term, since the last one has it.
  pub first_of_term-IsFirst :
      (rounds : ℕ) (start : ℤ)
      → start +ℤ pos rounds ≡ last +ℤ pos 1
      → r.last_included_index <ℤ start
      → start ≤ℤ last
      → (index : ℤ) × (first_of_term rounds r start term ≡ some index)
        × IsFirst r start index term
        × (start ≤ℤ index)
        × (index ≤ℤ last)
  unfolding first_of_term
  first_of_term-IsFirst zero start count lo hi =
      absurd (omega (int_laws, ap pos_part count, ap neg_part count))
  first_of_term-IsFirst (suc rounds) start count lo hi =
      let (d, here) = log_at-in_range r start lo (omega int_laws) in
      elim (Bool-cases (d.term ==ℤ term)) [
        | inl hit ↦ (
          start,
          scan_step rounds r start term d here ∙ rw hit,
          record {
            entry = d;
            at_index = here;
            has_term = ==ℤ→eq d.term term hit;
            is_first = λ j x a b. absurd (omega arith);
          },
          omega arith,
          hi,
        )
        | inr miss ↦ elim (le_split start last hi) [
          | inl end ↦ absurd (differs d term miss (last_has d start here end))
          | inr more ↦
              let (index, run, first, above, below) =
                first_of_term-IsFirst rounds (start +ℤ pos 1)
                  (omega (int_laws, ap pos_part count, ap neg_part count)) (omega int_laws) more in
              (
                index,
                scan_step rounds r start term d here ∙ rw miss run,
                extend d start index here miss first,
                omega int_laws,
                below,
              )
        ]
      ]
    where
      last_has : (d : LogEntry) (s : ℤ) → log_at r s ≡ some d → s ≡ last → d.term ≡ term
      last_has d s here end = cc (here, end, found, same_term)

      extend :
          (d : LogEntry) (s index : ℤ)
          → log_at r s ≡ some d
          → (d.term ==ℤ term) ≡ false
          → IsFirst r (s +ℤ pos 1) index term
          → IsFirst r s index term
      extend d s index here miss first = record {
        entry = first.entry;
        at_index = first.at_index;
        has_term = first.has_term;
        is_first = λ j x a b p. elim (le_split s j a) [
          | inl eq ↦ subst (λ t. t ≢ term) (same_entry d x s j here p eq) (differs d term miss)
          | inr more ↦ first.is_first j x more b p
        ];
      }
        where
          same_entry :
              (d x : LogEntry) (s j : ℤ)
              → log_at r s ≡ some d
              → log_at r j ≡ some x
              → s ≡ j
              → d.term ≡ x.term
          same_entry d x s j here p eq = cc
