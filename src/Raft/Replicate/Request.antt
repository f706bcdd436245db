-- ===== src/Raft/Replicate/Request.antt =====
-- The first half of SendAppendEntries in src/RaftServer.cpp, when the leader has what it sends.
use shard_kv_raft.Base.{
  ℕ, ◌≡◌, some, List, [], ◌∷◌, ℤ, pos, negsuc, ◌+ℤ◌, ◌-ℤ◌, ◌≤ℤ◌, ◌<ℤ◌, ◌==ℤ◌, Bool-cases, inl, inr,
  int_laws, arith, zero, suc, All, length, drop,
}
use shard_kv_raft.Raft.State.{LogEntry, Raft, AppendEntriesRequest, at}
use shard_kv_raft.Raft.Log.{last_index, compress_log_idx}
use shard_kv_raft.Raft.Log.Index.{log_at-in_range}
use shard_kv_raft.Raft.Wire.{get_cmd_and_term, format_entries}
use shard_kv_raft.Raft.Wire.Entries.{IsClean, get_cmd_and_term-format_entries}
use shard_kv_raft.Raft.Replicate.{tail_from, prev_term, append_request}

-- The leader's next index for the peer stands behind its snapshot and not beyond its log, whose
-- commands hold no separator.
pub record Ready (peer : ℤ) (l : Raft) : Type 0 where
  pub next : ℤ
  pub has_next : at l.next_index peer ≡ some next
  pub from_base : l.last_included_index <ℤ next
  pub in_log : next ≤ℤ last_index l +ℤ pos 1
  pub clean : All (IsClean b';') l.logs

pub All-drop : (n : ℕ) (es : List LogEntry) → All (IsClean b';') es → All (IsClean b';') (drop n es)
All-drop zero es h = h
All-drop (suc n) [] h = tt
All-drop (suc n) (e ∷ es) (he, hes) = All-drop n es hes

pub All-tail_from :
    (z : ℤ) (es : List LogEntry) → All (IsClean b';') es → All (IsClean b';') (tail_from es z)
unfolding tail_from
All-tail_from (pos n) es h = All-drop n es h
All-tail_from (negsuc n) es h = tt

prev_term_total :
    (l : Raft) (prev : ℤ)
    → l.last_included_index ≤ℤ prev
    → prev ≤ℤ last_index l
    → (t : ℤ) × (prev_term l prev ≡ some t)
unfolding prev_term
prev_term_total l prev lo hi = elim (Bool-cases (prev ==ℤ l.last_included_index)) [
  | inl edge ↦ (l.last_include_term, rw edge)
  | inr inside ↦
      let (e, here) = log_at-in_range l prev (ground arith) hi in (e.term, rw inside (rw here))
]

module _ (peer : ℤ) (l : Raft) (b : Ready peer l) where
  abbrev pub prev : ℤ
  prev = b.next -ℤ pos 1

  abbrev pub sent : List LogEntry
  sent = tail_from l.logs (compress_log_idx l prev +ℤ pos 1)

  abbrev pub request : ℤ → AppendEntriesRequest
  request t = record {
    term = l.cur_term;
    leader_id = l.peer_id;
    prev_log_index = prev;
    prev_log_term = t;
    leader_commit = l.commit_index;
    send_logs = format_entries sent;
  }

  pub prev-bounds : (l.last_included_index ≤ℤ prev) × (prev ≤ℤ last_index l)
  prev-bounds = (omega (int_laws, b.from_base), omega (int_laws, b.in_log))

  -- The request is made, with the term that the leader has at its previous index.
  pub request_total :
      (t : ℤ) × (prev_term l prev ≡ some t)
      × (append_request l peer ≡ some (request t, length sent))
  unfolding append_request
  request_total =
      let (t, e) = prev_term_total l prev prev-bounds.0 prev-bounds.1 in
      (t, e, rw b.has_next (rw e))

  pub sent_back : (t : ℤ) → get_cmd_and_term (request t).send_logs ≡ some sent
  sent_back t =
      get_cmd_and_term-format_entries sent
        (All-tail_from (compress_log_idx l prev +ℤ pos 1) l.logs b.clean)
