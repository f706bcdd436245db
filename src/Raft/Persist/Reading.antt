-- ===== src/Raft/Persist/Reading.antt =====
-- SaveRaftState and ReadRaftState in src/RaftServer.cpp: what a node reads from its file.
use shard_kv_raft.Base.{
  ℕ, zero, suc, ◌≤◌, ◌≡◌, refl, sym, ap, ◌∙◌, true, List, [], ◌∷◌, ◌++◌, append-nil, append_assoc,
  Option, none, some, length, drop, All, arith,
}
use shard_kv_raft.Text.{Bytes}
use shard_kv_raft.Raft.State.{LogEntry, Persister, Raft}
use shard_kv_raft.Raft.Log.{push_back_log}
use shard_kv_raft.Raft.Persist.{
  serialized, overwrite, serialize, save_raft_state, deserialize, push_back_logs, read_raft_state,
}
use shard_kv_raft.Raft.Persist.Fields.{IsStorable, read_fields-serialized}

drop-all {ℓ} : {A : Type ℓ} (n : ℕ) (xs : List A) → length xs ≤ n → drop n xs ≡ []
drop-all zero [] h = refl
drop-all zero (x ∷ xs) h = absurd (omega arith)
drop-all (suc n) [] h = refl
drop-all (suc n) (x ∷ xs) h = drop-all n xs (omega arith)

push_back_logs-logs :
    (es : List LogEntry) (r : Raft) → push_back_logs es r ≡ record r { logs = r.logs ++ es }
unfolding push_back_logs push_back_log
push_back_logs-logs [] r = ap (λ xs. record r { logs = xs }) (sym (append-nil r.logs))
push_back_logs-logs (e ∷ es) r =
    push_back_logs-logs es (push_back_log e r)
    ∙ ap (λ xs. record r { logs = xs }) (append_assoc r.logs (e ∷ []) es)

-- The file is not longer than the text that is written over it.
abbrev pub Covers : Bytes → Option Bytes → Type 0
Covers new none = Unit {0}
Covers new (some old) = length old ≤ length new

overwrite-Covers : (file : Option Bytes) (new : Bytes) → Covers new file → overwrite file new ≡ new
unfolding overwrite
overwrite-Covers none new h = refl
overwrite-Covers (some old) new h =
    ap (λ rest. new ++ rest) (drop-all (length new) old h) ∙ append-nil new

-- The node with what SaveRaftState stores.
abbrev pub stored : Raft → Raft
stored r = record r {
  persister = record r.persister { cur_term = r.cur_term; voted_for = r.vote_for; logs = r.logs };
}

save_raft_state-file :
    (r : Raft)
    → Covers (serialized (stored r)) r.disk.persister_file
    → (save_raft_state r).disk.persister_file ≡ some (serialized (stored r))
unfolding save_raft_state serialize
save_raft_state-file r h =
    ap (λ (b : Bytes). some b) (overwrite-Covers r.disk.persister_file (serialized (stored r)) h)

read_file :
    (r old : Raft)
    → All IsStorable r.logs
    → old.disk.persister_file ≡ some (serialized (stored r))
    → (p : Persister) × (deserialize old ≡ some (record old { persister = p }, true))
      × (p.logs ≡ r.logs)
      × (p.cur_term ≡ r.cur_term)
      × (p.voted_for ≡ r.vote_for)
unfolding deserialize
read_file r old clean file =
    let p : Persister = record {
      logs = r.logs;
      cur_term = r.cur_term;
      voted_for = r.vote_for;
      snapshot = record old.persister.snapshot {
        last_include_index = r.last_included_index;
        last_include_term = r.last_include_term;
      };
    } in
    (p, rw file (rw (read_fields-serialized (stored r) old.persister clean) refl), refl, refl, refl)

-- What the node reads back, and that it reads nothing else.
pub read_raft_state-back :
    (r old : Raft)
    → All IsStorable r.logs
    → Covers (serialized (stored r)) r.disk.persister_file
    → old.logs ≡ []
    → old.disk.persister_file ≡ (save_raft_state r).disk.persister_file
    → (p : Persister) × (read_raft_state old
        ≡ some (record old {
          persister = p;
          cur_term = r.cur_term;
          vote_for = r.vote_for;
          logs = r.logs;
        }))
unfolding read_raft_state
read_raft_state-back r old clean covers empty file =
    let (p, read, logs, term, vote) =
      read_file r old clean (file ∙ save_raft_state-file r covers) in
    let base = record old { persister = p; cur_term = p.cur_term; vote_for = p.voted_for } in
    (
      p,
      rw read (ap (λ (x : Raft). some x) (push_back_logs-logs p.logs base))
          ∙ ap (λ es. some (record base { logs = es })) (ap (λ xs. xs ++ p.logs) empty ∙ logs)
          ∙ ap
              (λ t.
                some (record old {
                  persister = p;
                  cur_term = t;
                  vote_for = p.voted_for;
                  logs = r.logs;
                }))
              term
          ∙ ap
              (λ v.
                some (record old {
                  persister = p;
                  cur_term = r.cur_term;
                  vote_for = v;
                  logs = r.logs;
                }))
              vote,
    )

-- Let no command in a node's log hold a comma, a period, a semicolon or a NUL, and the node's file not
-- be longer than the text of its state. A node that starts with no log on the file that was then
-- saved, a NUL standing behind the file in the buffer, reads back the first node's term, vote and
-- log; its own snapshot index is not set from it.
pub read_raft_state-save_raft_state :
    (r old : Raft)
    → All IsStorable r.logs
    → Covers (serialized (stored r)) r.disk.persister_file
    → old.logs ≡ []
    → old.disk.persister_file ≡ (save_raft_state r).disk.persister_file
    → (r' : Raft) × (read_raft_state old ≡ some r')
      × (r'.cur_term ≡ r.cur_term)
      × (r'.vote_for ≡ r.vote_for)
      × (r'.logs ≡ r.logs)
      × (r'.last_included_index ≡ old.last_included_index)
read_raft_state-save_raft_state r old clean covers empty file =
    let (p, run) = read_raft_state-back r old clean covers empty file in
    (
      record old { persister = p; cur_term = r.cur_term; vote_for = r.vote_for; logs = r.logs },
      run,
      refl,
      refl,
      refl,
      refl,
    )
