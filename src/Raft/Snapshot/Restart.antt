-- ===== src/Raft/Snapshot/Restart.antt =====
-- Init of src/RaftServer.cpp on the files of a node: what a node that is started again has.
use shard_kv_raft.Base.{
  ◌≡◌, refl, ap, ◌∙◌, true, false, List, [], ◌∷◌, ◌++◌, some, ℤ, pos, minus_one, ◌+ℤ◌, ◌-ℤ◌,
  int_laws, All, length, replicate,
}
use shard_kv_raft.Raft.State.{
  PeersInfo, SnapShotMessage, Persister, Raft, snap, follower, Timeval, at,
}
use shard_kv_raft.Raft.Log.{log_at}
use shard_kv_raft.Raft.Persist.{serialized, save_raft_state}
use shard_kv_raft.Raft.Persist.Fields.{IsStorable}
use shard_kv_raft.Raft.Persist.Reading.{Covers, stored, read_raft_state-back}
use shard_kv_raft.Raft.Snapshot.{Codec, init, read_snapshot, push_snapshot, install_snapshot}

-- A node started again on the files of another, with its log where it stands then.
pub record IsRestart (r old : Raft) (m : SnapShotMessage) (r' : Raft) : Type 0 where
  pub term : r'.cur_term ≡ r.cur_term
  pub vote : r'.vote_for ≡ r.vote_for
  pub role : r'.state ≡ follower
  pub commit : r'.commit_index ≡ pos 0
  pub included : r'.last_included_index ≡ pos 0
  pub shifted : (j : ℤ) → log_at r' j ≡ log_at r (r.last_included_index +ℤ j)
  pub delivered : r'.msgs ≡ old.msgs ++ snap (m.content) (pos 0) (pos 0) ∷ []

log_at-shifted :
    (r r' : Raft)
    → r'.logs ≡ r.logs
    → r'.last_included_index ≡ pos 0
    → (j : ℤ) → log_at r' j ≡ log_at r (r.last_included_index +ℤ j)
unfolding log_at
log_at-shifted r r' logs base j =
    ap (λ es. at es (j -ℤ r'.last_included_index -ℤ pos 1)) logs
    ∙ ap (λ i. at r.logs (j -ℤ i -ℤ pos 1)) base
    ∙ ap (at r.logs) place
  where
    place : j -ℤ pos 0 -ℤ pos 1 ≡ r.last_included_index +ℤ j -ℤ r.last_included_index -ℤ pos 1
    place = omega int_laws

module _ (codec : Codec) where
  installed :
      (r : Raft) (m : SnapShotMessage)
      → r.disk.snapshot_file ≡ some (codec.serialize m)
      → (p : Persister) × (install_snapshot codec true r ≡ record r {
        persister = p;
        last_applied = r.last_included_index;
        msgs = r.msgs ++ snap (m.content) r.last_included_index r.last_include_term ∷ [];
        wait_apply = true;
      })
  unfolding install_snapshot read_snapshot push_snapshot
  installed r m file = (
    record r.persister {
      snapshot = record {
        content = m.content;
        last_include_index = m.last_include_index;
        last_include_term = m.last_include_term;
        offset = pos 0;
      };
    },
    rw file (rw (codec.parse-serialize m) refl),
  )

  -- Let a node have saved its state, with no comma, period, semicolon or NUL in a command and no longer
  -- file before, and let its snapshot file hold a snapshot. A node that Init starts on these files,
  -- its log empty before and a NUL behind the state in the buffer, is a follower with the saved term
  -- and vote. But its log begins at index 1 whatever the snapshot holds: each entry stands lower by
  -- the index of the saved node's snapshot, and the snapshot goes up with index and term 0.
  pub init_shifts_log :
      (now : Timeval) (peers : List PeersInfo) (id : ℤ) (r old : Raft) (m : SnapShotMessage)
      → All IsStorable r.logs
      → Covers (serialized (stored r)) r.disk.persister_file
      → old.logs ≡ []
      → old.disk.persister_file ≡ (save_raft_state r).disk.persister_file
      → old.disk.snapshot_file ≡ some (codec.serialize m)
      → (r' : Raft) × (init codec now peers id old ≡ some r') × IsRestart r old m r'
  unfolding init
  init_shifts_log now peers id r old m clean covers empty state_file snapshot_file =
      let begun : Raft = record old {
        peers = peers;
        peer_id = id;
        stop = false;
        state = follower;
        cur_term = pos 0;
        leader_id = minus_one;
        vote_for = minus_one;
        last_wake_time = now;
        recv_votes = pos 0;
        finished_vote = pos 0;
        last_applied = pos 0;
        commit_index = pos 0;
        last_included_index = pos 0;
        last_include_term = pos 0;
        next_index = replicate (length peers) (pos 1);
        match_index = replicate (length peers) (pos 0);
      } in
      let (p, read) = read_raft_state-back r begun clean covers empty state_file in
      let r1 : Raft = record begun {
        persister = p;
        cur_term = r.cur_term;
        vote_for = r.vote_for;
        logs = r.logs;
      } in
      let (q, pushed) = installed r1 m snapshot_file in
      let r' : Raft = record r1 {
        persister = q;
        last_applied = pos 0;
        msgs = old.msgs ++ snap (m.content) (pos 0) (pos 0) ∷ [];
        wait_apply = true;
      } in
      (
        r',
        rw read (ap (λ (x : Raft). some x) pushed),
        record {
          term = refl;
          vote = refl;
          role = refl;
          commit = refl;
          included = refl;
          shifted = log_at-shifted r r' refl refl;
          delivered = refl;
        },
      )
