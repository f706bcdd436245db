-- ===== src/Raft/Vote/Grants.antt =====
-- When ReplyVote grants a vote, and what it leaves behind.
use shard_kv_raft.Base.{
  ◌≡◌, refl, ◌⊎◌, ◌↔◌, inl, inr, Bool, true, false, List, [], ◌∷◌, Option, some, minus_one, ◌≤ℤ◌,
  ◌<ℤ◌, ltb_ℤ, ==ℤ_iff, eq_of_parts, arith, int_laws, Bool-cases, if◌then◌else◌,
}
use shard_kv_raft.Text.{Bytes}
use shard_kv_raft.Raft.State.{LogEntry, Raft, Timeval, RequestVote, ResponseVote}
use shard_kv_raft.Raft.Log.{last_index, last_term, check_log_uptodate, is_empty}
use shard_kv_raft.Raft.Persist.{save_raft_state, serialize, serialized, overwrite}
use shard_kv_raft.Raft.Vote.{
  replied, checking, adopt_term, may_vote, check_vote, finish_vote, reply_vote,
}

-- The candidate's log is not behind the voter's, as the code tests it: an empty vector passes.
abbrev pub UpToDate : Raft → RequestVote → Type 0
UpToDate r q =
    (r.logs ≡ [])
    ⊎ (last_term r <ℤ q.last_log_term)
    ⊎ ((q.last_log_term ≡ last_term r) × (last_index r ≤ℤ q.last_log_index))

-- The voter's vote in the request's term is free, or the candidate's.
abbrev pub MayVote : Raft → RequestVote → Type 0
MayVote r q = (r.cur_term <ℤ q.term) ⊎ (r.vote_for ≡ minus_one) ⊎ (r.vote_for ≡ q.candidate_id)

is_empty_iff : (es : List LogEntry) → (is_empty es ≡ true) ↔ (es ≡ [])
unfolding is_empty
is_empty_iff [] = (λ e. refl, λ e. refl)
is_empty_iff (e ∷ es) = (λ p. cc, λ p. cc)

pub check_log_uptodate_iff :
    (r : Raft) (q : RequestVote)
    → (check_log_uptodate r q.last_log_term q.last_log_index ≡ true) ↔ UpToDate r q
unfolding check_log_uptodate
check_log_uptodate_iff r q = (
  ground (arith, ==ℤ_iff q.last_log_term (last_term r), is_empty_iff r.logs),
  ground (arith, ==ℤ_iff q.last_log_term (last_term r), is_empty_iff r.logs),
)

-- The answer before the vote is decided.
abbrev pub refused : Raft → ResponseVote
refused r = record { term = r.cur_term; is_accepted = false }

-- The node that has given its vote.
abbrev pub voted : Timeval → Raft → RequestVote → Raft
voted now r q = save_raft_state (record r { vote_for = q.candidate_id; last_wake_time = now })

-- The four ends of ReplyVote.
pub data Outcome (now : Timeval) (r : Raft) (q : RequestVote) : Raft × ResponseVote → Type 0 where
  stale : q.term <ℤ r.cur_term → Outcome now r q (r, refused r)
  taken :
      r.cur_term ≤ℤ q.term
      → ¬ MayVote r q
      → Outcome now r q (save_raft_state (adopt_term r q.term), refused r)
  log_behind :
      r.cur_term ≤ℤ q.term
      → MayVote r q
      → ¬ UpToDate r q
      → Outcome now r q (adopt_term r q.term, refused r)
  granted :
      r.cur_term ≤ℤ q.term
      → MayVote r q
      → UpToDate r q
      → Outcome now r q
          (voted now (adopt_term r q.term) q, record { term = r.cur_term; is_accepted = true })

may_vote_iff :
    (r : Raft) (q : RequestVote)
    → r.cur_term ≤ℤ q.term
    → (may_vote (adopt_term r q.term) q.candidate_id ≡ true) ↔ MayVote r q
unfolding may_vote adopt_term
may_vote_iff r q h = (
  ground (arith, ==ℤ_iff r.vote_for q.candidate_id, ==ℤ_iff r.vote_for minus_one),
  ground (arith, ==ℤ_iff r.vote_for q.candidate_id, ==ℤ_iff r.vote_for minus_one),
)

check_vote-adopt_term :
    (r : Raft) (q : RequestVote) → check_vote (adopt_term r q.term) q ≡ check_vote r q
unfolding check_vote check_log_uptodate adopt_term last_term last_index
check_vote-adopt_term r q = ground arith

not_true : {P : Type 0} (b : Bool) → (b ≡ true) ↔ P → b ≡ false → ¬ P
not_true b e h p = cc (e.1 p, h)

pub reply_vote-Outcome :
    (now : Timeval) (r : Raft) (q : RequestVote) → Outcome now r q (reply_vote now r q)
unfolding reply_vote
reply_vote-Outcome now r q = elim (Bool-cases (ltb_ℤ q.term r.cur_term)) [
  | inl early ↦ rw early (stale (ground arith))
  | inr fresh ↦ rw fresh (vote (ground arith))
]
  where
    r' : Raft
    r' = adopt_term r q.term

    vote :
        r.cur_term ≤ℤ q.term
        → Outcome now r q (
            finish_vote now q (
              if may_vote r' q.candidate_id
              then (r', checking (refused r))
              else (save_raft_state r', replied (refused r))))
    vote fresh = elim (Bool-cases (may_vote r' q.candidate_id)) [
      | inr other ↦ rw other (taken fresh (not_true _ (may_vote_iff r q fresh) other))
      | inl free ↦
          let may = (may_vote_iff r q fresh).0 free in
          rw free (
            rw (check_vote-adopt_term r q) (elim (Bool-cases (check_vote r q)) [
              | inl good ↦ rw good (granted fresh may ((check_log_uptodate_iff r q).0 good))
              | inr bad ↦
                  rw bad (log_behind fresh may (not_true _ (check_log_uptodate_iff r q) bad))
            ]))
    ]

grants_iff :
    (now : Timeval) (r : Raft) (q : RequestVote) {p : Raft × ResponseVote}
    → Outcome now r q p
    → (p.1.is_accepted ≡ true) ↔ ((r.cur_term ≤ℤ q.term) × MayVote r q × UpToDate r q)
grants_iff now r q (stale h) = (λ e. cc, λ g. absurd (omega (arith, g.0)))
grants_iff now r q (taken h other) = (λ e. cc, λ g. absurd (other g.1))
grants_iff now r q (log_behind h may bad) = (λ e. cc, λ g. absurd (bad g.2))
grants_iff now r q (granted h may good) = (λ e. (h, may, good), λ g. refl)

-- ReplyVote grants the vote exactly when the request's term is not stale, the vote is free in that
-- term or the candidate's already, and one of three things holds of the logs: the voter has no entry
-- behind its snapshot, whatever the snapshot holds, even if it is newer than the candidate's log; or
-- the candidate's last term is greater; or it is the same and the candidate's last index is not
-- smaller.
pub reply_vote_grants :
    (now : Timeval) (r : Raft) (q : RequestVote)
    → ((reply_vote now r q).1.is_accepted ≡ true)
      ↔ ((r.cur_term ≤ℤ q.term) × MayVote r q × UpToDate r q)
reply_vote_grants now r q = grants_iff now r q (reply_vote-Outcome now r q)

-- The disk holds the state that `save_raft_state` would write for the node.
abbrev pub IsSaved : Raft → Type 0
IsSaved r =
    (r.persister.cur_term ≡ r.cur_term)
    × (r.persister.voted_for ≡ r.vote_for)
    × (r.persister.logs ≡ r.logs)
    × ((old : Option Bytes) × (r.disk.persister_file ≡ some (overwrite old (serialized r))))

save_raft_state-IsSaved : (r : Raft) → IsSaved (save_raft_state r)
unfolding save_raft_state serialize serialized
save_raft_state-IsSaved r = (refl, refl, refl, (r.disk.persister_file, refl))

voted_lem :
    (now : Timeval) (r : Raft) (q : RequestVote)
    → r.cur_term ≤ℤ q.term
    → ((voted now (adopt_term r q.term) q).cur_term ≡ q.term)
      × ((voted now (adopt_term r q.term) q).vote_for ≡ q.candidate_id)
      × ((voted now (adopt_term r q.term) q).last_wake_time ≡ now)
      × ((voted now (adopt_term r q.term) q).logs ≡ r.logs)
unfolding save_raft_state serialize adopt_term
voted_lem now r q h = ground (arith, eq_of_parts r.cur_term q.term)

-- A granted vote is in the node and written to its file, with the request's term, before the
-- answer goes out, and the election timer restarts; the log is untouched.
pub reply_vote_saves :
    (now : Timeval) (r : Raft) (q : RequestVote)
    → (reply_vote now r q).1.is_accepted ≡ true
    → let r' = (reply_vote now r q).0 in
      (r'.cur_term ≡ q.term)
      × (r'.vote_for ≡ q.candidate_id)
      × (r'.last_wake_time ≡ now)
      × (r'.logs ≡ r.logs)
      × IsSaved r'
reply_vote_saves now r q accepted = saves (reply_vote-Outcome now r q) accepted
  where
    saves :
        {p : Raft × ResponseVote}
        → Outcome now r q p
        → p.1.is_accepted ≡ true
        → (p.0.cur_term ≡ q.term)
          × (p.0.vote_for ≡ q.candidate_id)
          × (p.0.last_wake_time ≡ now)
          × (p.0.logs ≡ r.logs)
          × IsSaved p.0
    saves (stale h) e = cc
    saves (taken h other) e = cc
    saves (log_behind h may bad) e = cc
    saves (granted h may good) e =
        let (a, b, c, d) = voted_lem now r q h in (a, b, c, d, save_raft_state-IsSaved _)

pub compacted_voter_grants :
    (now : Timeval) (r : Raft) (q : RequestVote)
    → r.logs ≡ []
    → r.cur_term <ℤ q.term
    → q.last_log_term <ℤ r.last_include_term
    → q.last_log_index <ℤ r.last_included_index
    → ((reply_vote now r q).1.is_accepted ≡ true)
      × (q.last_log_term <ℤ last_term r)
      × (q.last_log_index <ℤ last_index r)
unfolding last_term last_index
compacted_voter_grants now r q empty newer term index = (
  (reply_vote_grants now r q).1 (omega arith, inl newer, inl empty),
  rw empty term,
  rw empty (omega int_laws),
)
