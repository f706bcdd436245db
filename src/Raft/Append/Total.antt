-- ===== src/Raft/Append/Total.antt =====
-- ReplyAppend never reads or pops outside the log.
use shard_kv_raft.Base.{
  ℕ, zero, suc, ◌-◌, ◌≤◌, ◌≡◌, refl, sym, ap, ◌∙◌, true, List, [], ◌∷◌, ◌++◌, some, ℤ, ◌-ℤ◌, ◌≤ℤ◌,
  pos_part, int_signs, length, take, arith, append-nil, append_assoc, length-take,
}
use shard_kv_raft.Raft.State.{LogEntry, Raft, AppendEntriesRequest, AppendEntriesResponse}
use shard_kv_raft.Raft.Log.{last_index, push_back_log}
use shard_kv_raft.Raft.Persist.{save_raft_state, push_back_logs}
use shard_kv_raft.Raft.Append.{pop_back, pop_backs, advance_commit, replace_logs}

pop_back-cons :
    (e : LogEntry) (es : List LogEntry) → pop_back (e ∷ es) ≡ some (take (length es) (e ∷ es))
unfolding pop_back
pop_back-cons e [] = refl
pop_back-cons e (d ∷ es) = rw (pop_back-cons d es)

take-take : (n m : ℕ) (es : List LogEntry) → n ≤ m → take n (take m es) ≡ take n es
take-take zero m es h = refl
take-take (suc n) zero es h = absurd (omega arith)
take-take (suc n) (suc m) [] h = refl
take-take (suc n) (suc m) (e ∷ es) h = ap (λ t. e ∷ t) (take-take n m es (omega arith))

take_all : (es : List LogEntry) → take (length es) es ≡ es
take_all [] = refl
take_all (e ∷ es) = ap (λ t. e ∷ t) (take_all es)

-- Popping as many entries as there are, or fewer, leaves the front.
pub pop_backs-take :
    (n : ℕ) (es : List LogEntry) → n ≤ length es → pop_backs n es ≡ some (take (length es - n) es)
unfolding pop_backs
pop_backs-take zero es h = let e : length es - 0 ≡ length es = omega arith in rw (e, take_all es)
pop_backs-take (suc n) [] h = absurd (omega arith)
pop_backs-take (suc n) (e ∷ es) h =
    let front = take (length es) (e ∷ es) in
    let len : length front ≡ length es = length-take (length es) (e ∷ es) (omega arith) in
    rw (pop_back-cons e es) (
      rw (pop_backs-take n front (omega arith), len)
        (rw (take-take (length es - n) (length es) (e ∷ es) (omega arith))
          (ap (λ k. some (take k (e ∷ es))) (omega arith))))

pub push_back_logs-append :
    (es : List LogEntry) (r : Raft) → push_back_logs es r ≡ record r { logs = r.logs ++ es }
unfolding push_back_logs push_back_log
push_back_logs-append [] r = ap (λ l. record r { logs = l }) (sym (append-nil r.logs))
push_back_logs-append (e ∷ es) r =
    push_back_logs-append es (push_back_log e r)
    ∙ ap (λ l. record r { logs = l }) (append_assoc r.logs (e ∷ []) es)

-- The entries up to an index.
abbrev pub kept : Raft → ℤ → List LogEntry
kept r index = take (pos_part (index -ℤ r.last_included_index)) r.logs

-- The node after its entries behind `prev_log_index` are replaced.
abbrev pub replaced : Raft → AppendEntriesRequest → List LogEntry → Raft
replaced r request recv_logs =
    advance_commit
      (save_raft_state (record r { logs = kept r request.prev_log_index ++ recv_logs }))
      request.leader_commit

pub replace_logs-replaced :
    (r : Raft) (request : AppendEntriesRequest) (recv_logs : List LogEntry)
    (response : AppendEntriesResponse)
    → r.last_included_index ≤ℤ request.prev_log_index
    → request.prev_log_index ≤ℤ last_index r
    → replace_logs r request recv_logs response
      ≡ some (replaced r request recv_logs, record response { success = true })
unfolding replace_logs
replace_logs-replaced r request recv_logs response lo hi =
    let surplus = pos_part (last_index r -ℤ request.prev_log_index) in
    rw (pop_backs-take surplus r.logs (bound r request.prev_log_index lo hi)) (
      rw
        (push_back_logs-append recv_logs
          (record r { logs = take (length r.logs - surplus) r.logs }))
        (rw (rest r request.prev_log_index lo hi)))
  where
    bound :
        (r : Raft) (prev : ℤ)
        → r.last_included_index ≤ℤ prev
        → prev ≤ℤ last_index r
        → pos_part (last_index r -ℤ prev) ≤ length r.logs
    bound r prev lo hi = unfold last_index in omega int_signs

    rest :
        (r : Raft) (prev : ℤ)
        → r.last_included_index ≤ℤ prev
        → prev ≤ℤ last_index r
        → length r.logs - pos_part (last_index r -ℤ prev) ≡ pos_part (prev -ℤ r.last_included_index)
    rest r prev lo hi = unfold last_index in omega int_signs
