-- ===== src/Raft/Append/Outcome.antt =====
-- What ReplyAppend does, case by case.
use shard_kv_raft.Base.{
  ◌≡◌, ◌≢◌, refl, sym, ◌⊎◌, inl, inr, true, false, List, Option, some, ℤ, pos, ◌+ℤ◌, ◌-ℤ◌, ◌≤ℤ◌,
  ◌<ℤ◌, ◌==ℤ◌, ltb_ℤ, ==ℤ→eq, ==ℤ-refl, pos_part, int_laws, int_signs, arith, Bool-cases,
}
use mathlib.Core.Path.{subst}
use shard_kv_raft.Raft.State.{LogEntry, Raft, Timeval, AppendEntriesRequest, AppendEntriesResponse}
use shard_kv_raft.Raft.Log.{last_index, log_at}
use shard_kv_raft.Raft.Log.Index.{log_at-in_range}
use shard_kv_raft.Raft.Wire.{get_cmd_and_term}
use shard_kv_raft.Raft.Append.{refusal, follow, match_prev, check_prev, reply_append}
use shard_kv_raft.Raft.Append.Total.{replaced, replace_logs-replaced}
use shard_kv_raft.Raft.Append.Conflict.{IsFirst, first_of_term-IsFirst}

-- The node holds the request's previous entry: its snapshot ends there, or its log has it.
abbrev pub HasPrev : Raft → AppendEntriesRequest → Type 0
HasPrev r q =
    ((q.prev_log_index ≡ r.last_included_index) × (q.prev_log_term ≡ r.last_include_term))
    ⊎ ((r.last_included_index <ℤ q.prev_log_index)
        × (q.prev_log_index ≤ℤ last_index r)
        × ((e : LogEntry) × (log_at r q.prev_log_index ≡ some e) × (e.term ≡ q.prev_log_term)))

-- The cases of a request whose term is not stale, with what each answers.
pub data Outcome (r : Raft) (q : AppendEntriesRequest) (recv_logs : List LogEntry)
    (a : AppendEntriesResponse) : Raft → AppendEntriesResponse → Type 0 where
  behind :
      q.prev_log_index <ℤ r.last_included_index
      → Outcome r q recv_logs a r (record a { conflict_index = pos 1 })
  other_snapshot :
      q.prev_log_index ≡ r.last_included_index
      → q.prev_log_term ≢ r.last_include_term
      → Outcome r q recv_logs a r (record a { conflict_index = pos 1 })
  short :
      last_index r <ℤ q.prev_log_index
      → Outcome r q recv_logs a r (record a { conflict_index = last_index r +ℤ pos 1 })
  conflict :
      (e : LogEntry) (index : ℤ)
      → log_at r q.prev_log_index ≡ some e
      → e.term ≢ q.prev_log_term
      → IsFirst r (r.last_included_index +ℤ pos 1) index e.term
      → r.last_included_index <ℤ index
      → index ≤ℤ q.prev_log_index
      → Outcome r q recv_logs a r (record a { conflict_term = e.term; conflict_index = index })
  matched :
      HasPrev r q → Outcome r q recv_logs a (replaced r q recv_logs) (record a { success = true })

abbrev pub Answers :
    Raft
    → AppendEntriesRequest
    → List LogEntry
    → AppendEntriesResponse
    → Option (Raft × AppendEntriesResponse)
    → Type 0
Answers r q recv_logs a result =
    (r' : Raft) × (a' : AppendEntriesResponse) × (result ≡ some (r', a'))
    × Outcome r q recv_logs a r' a'

unequal : (a b : ℤ) → (a ==ℤ b) ≡ false → a ≢ b
unequal a b h p = cc (h, subst (λ z. (z ==ℤ b) ≡ true) (sym p) (==ℤ-refl b))

module _ (r : Raft) (q : AppendEntriesRequest) (recv_logs : List LogEntry)
    (a : AppendEntriesResponse) where
  match_prev-Answers :
      r.last_included_index <ℤ q.prev_log_index
      → q.prev_log_index ≤ℤ last_index r
      → Answers r q recv_logs a (match_prev r q recv_logs a)
  unfolding match_prev
  match_prev-Answers lo hi =
      let (e, found) = log_at-in_range r q.prev_log_index lo hi in
      elim (Bool-cases (e.term ==ℤ q.prev_log_term)) [
        | inl hit ↦ (
          replaced r q recv_logs,
          record a { success = true },
          rw found (rw hit (replace_logs-replaced r q recv_logs a (omega arith) hi)),
          matched (inr (lo, hi, (e, found, ==ℤ→eq e.term q.prev_log_term hit))),
        )
        | inr miss ↦
            let (index, run, first, above, below) =
              first_of_term-IsFirst r q.prev_log_index e.term e hi found refl
                (pos_part (q.prev_log_index -ℤ r.last_included_index))
                (r.last_included_index +ℤ pos 1) (omega int_signs) (omega int_laws)
                (omega int_laws) in
            (
              r,
              record a { conflict_term = e.term; conflict_index = index },
              rw found (rw miss (rw run)),
              conflict e index found (unequal e.term q.prev_log_term miss) first (omega int_laws)
                  below,
            )
      ]

  pub check_prev-Answers : Answers r q recv_logs a (check_prev r q recv_logs a)
  unfolding check_prev
  check_prev-Answers = elim (Bool-cases (ltb_ℤ q.prev_log_index r.last_included_index)) [
    | inl early ↦ (r, record a { conflict_index = pos 1 }, rw early, behind (ground arith))
    | inr late ↦ rw late (elim (Bool-cases (q.prev_log_index ==ℤ r.last_included_index)) [
      | inl edge ↦ rw edge (elim (Bool-cases (q.prev_log_term ==ℤ r.last_include_term)) [
        | inl hit ↦ (
          replaced r q recv_logs,
          record a { success = true },
          rw hit (replace_logs-replaced r q recv_logs a (ground arith) (at_edge edge)),
          matched (inl (==ℤ→eq q.prev_log_index _ edge, ==ℤ→eq q.prev_log_term _ hit)),
        )
        | inr miss ↦ (
          r,
          record a { conflict_index = pos 1 },
          rw miss,
          other_snapshot (==ℤ→eq q.prev_log_index _ edge) (unequal q.prev_log_term _ miss),
        )
      ])
      | inr inside ↦ rw inside (elim (Bool-cases (ltb_ℤ (last_index r) q.prev_log_index)) [
        | inl beyond ↦ (
          r,
          record a { conflict_index = last_index r +ℤ pos 1 },
          rw beyond,
          short (ground arith),
        )
        | inr within ↦ rw within (match_prev-Answers (ground arith) (ground arith))
      ])
    ])
  ]
    where
      at_edge :
          (q.prev_log_index ==ℤ r.last_included_index) ≡ true → q.prev_log_index ≤ℤ last_index r
      at_edge edge =
          subst (λ z. z ≤ℤ last_index r) (sym (==ℤ→eq q.prev_log_index _ edge))
            (unfold last_index in omega int_laws)

-- For every node and every request whose entries parse, ReplyAppend returns. It refuses a stale
-- term and changes nothing; at any other term the node follows, and the outcome is one of five.
pub reply_append-Answers :
    (now : Timeval) (r : Raft) (q : AppendEntriesRequest) (recv_logs : List LogEntry)
    → get_cmd_and_term q.send_logs ≡ some recv_logs
    → ((q.term <ℤ r.cur_term) × (reply_append now r q ≡ some (r, refusal r)))
      ⊎ ((r.cur_term ≤ℤ q.term)
          × Answers (follow now r q.term) q recv_logs (refusal r) (reply_append now r q))
unfolding reply_append
reply_append-Answers now r q recv_logs parsed = elim (Bool-cases (ltb_ℤ q.term r.cur_term)) [
  | inl stale ↦ inl (ground arith, rw parsed (rw stale))
  | inr fresh ↦ inr (
    ground arith,
    rw parsed (rw fresh (check_prev-Answers (follow now r q.term) q recv_logs (refusal r))),
  )
]
