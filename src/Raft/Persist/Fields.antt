-- ===== src/Raft/Persist/Fields.antt =====
-- The text of a node's state in src/RaftServer.cpp, cut into its fields again.
use shard_kv_raft.Base.{
  ℕ, ◌≡◌, ◌≢◌, refl, sym, ap, List, [], ◌∷◌, ◌++◌, map, append-nil, append_assoc, some, ℤ, All,
  All-append, arith,
}
use shard_kv_raft.Text.{Bytes, to_string, cut, Lacks}
use shard_kv_raft.Text.Decimal.{IsDigit, atoi-to_string, to_string-Lacks, to_string-ne-nil}
use shard_kv_raft.Text.Cut.{terminated, cut-terminated, pushes-append}
use shard_kv_raft.Raft.State.{LogEntry, Persister, Raft}
use shard_kv_raft.Raft.Wire.{format_entry, parse_entries}
use shard_kv_raft.Raft.Wire.Entries.{
  IsClean, read_terminated, parse_entries-map, clean_cmds, format_entry-Lacks,
}
use shard_kv_raft.Raft.Persist.{format_logs, serialized, c_string, fields, read_fields}

-- A command without the bytes that the file's format gives a meaning.
abbrev pub IsStorable : LogEntry → Type 0
IsStorable e = Lacks b',' e.cmd × Lacks b'.' e.cmd × Lacks b';' e.cmd × Lacks 0 e.cmd

c_string_lem : (s : Bytes) → Lacks 0 s → c_string s ≡ s
unfolding c_string
c_string_lem [] h = refl
c_string_lem (c ∷ s) (hc, hs) = ground (arith, c_string_lem s hs)

format_logs-terminated :
    (es : List LogEntry) → format_logs es ≡ terminated b'.' (map format_entry es)
unfolding format_logs terminated
format_logs-terminated [] = refl
format_logs-terminated (e ∷ es) = ap (λ t. format_entry e ++ b'.' ∷ t) (format_logs-terminated es)

format_logs-Lacks :
    (sep : ℕ) (es : List LogEntry)
    → sep ≢ b','
    → sep ≢ b'-'
    → sep ≢ b'.'
    → ¬ IsDigit sep
    → All (λ e. Lacks sep e.cmd) es
    → Lacks sep (format_logs es)
unfolding format_logs
format_logs-Lacks sep [] hc hm hp hd h = tt
format_logs-Lacks sep (e ∷ es) hc hm hp hd (he, hes) =
    All-append _ (format_entry e) _ (format_entry-Lacks sep e hc hm hd he)
      (λ p. hp (sym p), format_logs-Lacks sep es hc hm hp hd hes)

-- the four numbers before the log
abbrev numbers : Raft → List Bytes
numbers r =
    to_string r.persister.cur_term
    ∷ to_string r.persister.voted_for
    ∷ to_string r.last_included_index
    ∷ to_string r.last_include_term
    ∷ []

serialized-terminated :
    (r : Raft) → serialized r ≡ terminated b';' (numbers r) ++ format_logs r.persister.logs
unfolding serialized terminated
serialized-terminated r = simp append_assoc refl

number-Lacks : (sep : ℕ) (r : Raft) → sep ≢ b'-' → ¬ IsDigit sep → All (Lacks sep) (numbers r)
number-Lacks sep r hm hd = (
  lacks r.persister.cur_term,
  (lacks r.persister.voted_for, (lacks r.last_included_index, (lacks r.last_include_term, tt))),
)
  where
    lacks : (z : ℤ) → Lacks sep (to_string z)
    lacks z = to_string-Lacks sep z hd hm

terminated-Lacks :
    (sep b : ℕ) (ps : List Bytes) → sep ≢ b → All (Lacks b) ps → Lacks b (terminated sep ps)
unfolding terminated
terminated-Lacks sep b [] ne h = tt
terminated-Lacks sep b (p ∷ ps) ne (hp, hps) =
    All-append _ p _ hp (ne, terminated-Lacks sep b ps ne hps)

stored_cmds :
    (es : List LogEntry)
    → All IsStorable es
    → All (IsClean b'.') es × All (λ e. Lacks b';' e.cmd) es × All (λ e. Lacks 0 e.cmd) es
stored_cmds [] h = (tt, tt, tt)
stored_cmds (e ∷ es) (he, hes) =
    let (dots, semis, nuls) = stored_cmds es hes in
    (((he.0, he.1), dots), (he.2, semis), (he.3, nuls))

serialized-Lacks_nul : (r : Raft) → All IsStorable r.persister.logs → Lacks 0 (serialized r)
serialized-Lacks_nul r h = rw (serialized-terminated r) (
    All-append _ (terminated b';' (numbers r)) _
      (terminated-Lacks b';' 0 (numbers r) (omega arith)
        (number-Lacks 0 r (omega arith) (omega arith)))
      (format_logs-Lacks 0 r.persister.logs (omega arith) (omega arith) (omega arith) (omega arith)
        (stored_cmds r.persister.logs h).2))

fields-serialized :
    (r : Raft)
    → All IsStorable r.persister.logs
    → fields (serialized r) ≡ numbers r ++ format_logs r.persister.logs ∷ []
unfolding fields
fields-serialized r h = rw (serialized-terminated r) (
    rw
      (cut-terminated b';' (numbers r) [] (format_logs r.persister.logs)
        (number-Lacks b';' r (omega arith) (omega arith))
        (format_logs-Lacks b';' r.persister.logs (omega arith) (omega arith) (omega arith)
          (omega arith) (stored_cmds r.persister.logs h).1))
      (rw
        (pushes-append b';' (numbers r) [] (
          to_string-ne-nil r.persister.cur_term,
          (
            to_string-ne-nil r.persister.voted_for,
            (to_string-ne-nil r.last_included_index, (to_string-ne-nil r.last_include_term, tt)),
          ),
        ))
        refl))

logs-serialized :
    (es : List LogEntry)
    → All IsStorable es
    → parse_entries (cut b'.' (format_logs es) [] []).0 ≡ some es
logs-serialized es h =
    let (dots, _, _) = stored_cmds es h in
    rw (format_logs-terminated es) (
      rw (← append-nil (terminated b'.' (map format_entry es))) (
        rw (read_terminated b'.' (omega arith) (omega arith) (omega arith) es [] dots tt)
          (parse_entries-map es (clean_cmds b'.' es dots))))

-- What a node reads from the text of another one's state.
pub read_fields-serialized :
    (r : Raft) (p : Persister)
    → All IsStorable r.persister.logs
    → read_fields p (fields (c_string (serialized r)))
      ≡ some (record {
        logs = r.persister.logs;
        cur_term = r.persister.cur_term;
        voted_for = r.persister.voted_for;
        snapshot = record p.snapshot {
          last_include_index = r.last_included_index;
          last_include_term = r.last_include_term;
        };
      })
unfolding read_fields
read_fields-serialized r p h = rw (c_string_lem (serialized r) (serialized-Lacks_nul r h)) (
    rw (fields-serialized r h) (
      rw (logs-serialized r.persister.logs h) (
        rw
          (
            atoi-to_string r.persister.cur_term,
            atoi-to_string r.persister.voted_for,
            atoi-to_string r.last_included_index,
            atoi-to_string r.last_include_term,
          )
          refl)))
