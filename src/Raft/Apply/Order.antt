-- ===== src/Raft/Apply/Order.antt =====
-- ApplyLogLoop in src/RaftServer.cpp: which entries a round hands to the key-value layer.
use shard_kv_raft.Base.{
  ℕ, zero, suc, ◌≡◌, refl, sym, ap, ◌∙◌, List, [], ◌∷◌, ◌++◌, append-nil, append_assoc, some, ℤ,
  pos, ◌+ℤ◌, ◌-ℤ◌, ◌≤ℤ◌, pos_part, neg_part, int_laws, int_signs,
}
use shard_kv_raft.Raft.State.{LogEntry, ApplyMsg, command, Raft}
use shard_kv_raft.Raft.Log.{last_index, log_at}
use shard_kv_raft.Raft.Log.Index.{log_at-in_range}
use shard_kv_raft.Raft.Apply.{take_committed, apply_round}

-- The messages are the entries behind `applied`, in order, up to the commit index.
abbrev pub IsCommitted : Raft → ℤ → List ApplyMsg → Type 0
IsCommitted r applied [] = applied ≡ r.commit_index
IsCommitted r applied (msg ∷ msgs) =
    (e : LogEntry) × (log_at r (applied +ℤ pos 1) ≡ some e)
    × (msg ≡ command e.cmd (applied +ℤ pos 1) e.term)
    × IsCommitted r (applied +ℤ pos 1) msgs

-- The rounds to go, from the last applied index to the commit index.
abbrev Remaining : ℕ → Raft → Type 0
Remaining n r =
    (r.last_applied +ℤ pos n ≡ r.commit_index)
    × (r.last_included_index ≤ℤ r.last_applied)
    × (r.commit_index ≤ℤ last_index r)

Remaining-suc :
    (n : ℕ) (r : Raft)
    → Remaining (suc n) r
    → Remaining n (record r { last_applied = r.last_applied +ℤ pos 1 })
unfolding last_index
Remaining-suc n r (e, lo, hi) = (omega (int_laws, ap pos_part e, ap neg_part e), omega int_laws, hi)

here-in_range :
    (n : ℕ) (r : Raft)
    → Remaining (suc n) r
    → (e : LogEntry) × (log_at r (r.last_applied +ℤ pos 1) ≡ some e)
here-in_range n r (e, lo, hi) =
    log_at-in_range r (r.last_applied +ℤ pos 1) (omega int_laws)
      (omega (int_laws, ap pos_part e, ap neg_part e))

take_committed-IsCommitted :
    (n : ℕ) (r : Raft) (msgs : List ApplyMsg)
    → Remaining n r
    → (new : List ApplyMsg) × (take_committed n r msgs
        ≡ some (record r { last_applied = r.commit_index }, msgs ++ new))
      × IsCommitted r r.last_applied new
unfolding take_committed log_at
take_committed-IsCommitted zero r msgs (e, _, _) =
    let level : r.last_applied ≡ r.commit_index = omega (int_laws, ap pos_part e, ap neg_part e) in
    (
      [],
      ap (λ (p : Raft × List ApplyMsg). some p)
          (ap (λ z. (record r { last_applied = z }, msgs)) level
            ∙ ap (λ ms. (record r { last_applied = r.commit_index }, ms)) (sym (append-nil msgs))),
      level,
    )
take_committed-IsCommitted (suc n) r msgs h =
    let (e, here) = here-in_range n r h in
    let index = r.last_applied +ℤ pos 1 in
    let (new, run, rest) =
      take_committed-IsCommitted n (record r { last_applied = index })
        (msgs ++ command e.cmd index e.term ∷ []) (Remaining-suc n r h) in
    (
      command e.cmd index e.term ∷ new,
      rw here (
          run
          ∙ ap (λ ms. some (record r { last_applied = r.commit_index }, ms))
              (append_assoc msgs _ new)),
      (e, here, refl, rest),
    )

-- Let the snapshot not go beyond the last applied index, that not beyond the commit index, and that not
-- beyond the log. Then a round runs without undefined behaviour, hands on exactly the entries behind
-- the last applied index up to the commit index, in order, with their indices and terms, behind
-- what already waits, and the last applied index is then the commit index.
pub apply_round-IsCommitted :
    (r : Raft)
    → r.last_included_index ≤ℤ r.last_applied
    → r.last_applied ≤ℤ r.commit_index
    → r.commit_index ≤ℤ last_index r
    → (new : List ApplyMsg) × (apply_round r
        ≡ some (record r { last_applied = r.commit_index; msgs = r.msgs ++ new }))
      × IsCommitted r r.last_applied new
unfolding apply_round
apply_round-IsCommitted r lo mid hi =
    let (new, run, all) =
      take_committed-IsCommitted (pos_part (r.commit_index -ℤ r.last_applied)) r []
        (omega int_signs, lo, hi) in
    (new, rw run refl, all)
