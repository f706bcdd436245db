-- ===== src/Raft/Wire/Entries.antt =====
-- The entries of an append request come back from their text.
use shard_kv_raft.Base.{
  ℕ, ◌≡◌, ◌≢◌, refl, sym, ap, ◌∙◌, List, [], ◌∷◌, ◌++◌, map, append-nil, some, arith, All,
  All-append,
}
use mathlib.Core.List.{append-ne-nil_of_right_ne-nil, cons-ne-nil}
use shard_kv_raft.Text.{Bytes, to_string, cut, Lacks}
use shard_kv_raft.Text.Decimal.{IsDigit, atoi-to_string, to_string-Lacks}
use shard_kv_raft.Text.Cut.{terminated, cut-terminated, pushes-append, break_at-append}
use shard_kv_raft.Raft.State.{LogEntry}
use shard_kv_raft.Raft.Wire.{
  parse_entry, parse_entries, get_cmd_and_term, format_entry, format_entries,
}

-- An entry whose command holds neither separator of the format.
abbrev pub IsClean : ℕ → LogEntry → Type 0
IsClean sep e = Lacks b',' e.cmd × Lacks sep e.cmd

pub parse_entry-format_entry :
    (e : LogEntry) → Lacks b',' e.cmd → parse_entry (format_entry e) ≡ some e
unfolding parse_entry format_entry
parse_entry-format_entry e h =
    rw (break_at-append b',' e.cmd (to_string e.term) [] h) (rw (atoi-to_string e.term) refl)

pub parse_entries-map :
    (es : List LogEntry)
    → All (λ e. Lacks b',' e.cmd) es
    → parse_entries (map format_entry es) ≡ some es
unfolding parse_entries
parse_entries-map [] h = refl
parse_entries-map (e ∷ es) (he, hes) = rw (parse_entry-format_entry e he, parse_entries-map es hes)

pub format_entry-Lacks :
    (sep : ℕ) (e : LogEntry)
    → sep ≢ b','
    → sep ≢ b'-'
    → ¬ IsDigit sep
    → Lacks sep e.cmd
    → Lacks sep (format_entry e)
unfolding format_entry
format_entry-Lacks sep e hc hm hd h =
    All-append _ e.cmd _ h (λ p. hc (sym p), to_string-Lacks sep e.term hd hm)

pub format_entry-ne-nil : (e : LogEntry) → format_entry e ≢ []
unfolding format_entry
format_entry-ne-nil e = append-ne-nil_of_right_ne-nil e.cmd (cons-ne-nil b',' _)

module _ (sep : ℕ) (hc : sep ≢ b',') (hm : sep ≢ b'-') (hd : ¬ IsDigit sep) where
  -- Cutting the terminated texts of clean entries and reading the parts gives the entries back.
  pub read_terminated :
      (es : List LogEntry) (rest : Bytes)
      → All (IsClean sep) es
      → Lacks sep rest
      → cut sep (terminated sep (map format_entry es) ++ rest) [] [] ≡ (map format_entry es, rest)
  read_terminated es rest h hr =
      cut-terminated sep (map format_entry es) [] rest (lacking es h) hr
      ∙ ap (λ t. (t, rest)) (pushes-append sep (map format_entry es) [] (nonempty es))
    where
      nonempty : (es : List LogEntry) → All (λ p. p ≢ []) (map format_entry es)
      nonempty [] = tt
      nonempty (e ∷ es) = (format_entry-ne-nil e, nonempty es)

      lacking : (es : List LogEntry) → All (IsClean sep) es → All (Lacks sep) (map format_entry es)
      lacking [] h = tt
      lacking (e ∷ es) (he, hes) = (format_entry-Lacks sep e hc hm hd he.1, lacking es hes)

pub clean_cmds :
    (sep : ℕ) (es : List LogEntry) → All (IsClean sep) es → All (λ e. Lacks b',' e.cmd) es
clean_cmds sep [] h = tt
clean_cmds sep (e ∷ es) (he, hes) = (he.0, clean_cmds sep es hes)

format_entries-terminated :
    (es : List LogEntry) → format_entries es ≡ terminated b';' (map format_entry es)
unfolding format_entries terminated
format_entries-terminated [] = refl
format_entries-terminated (e ∷ es) =
    ap (λ t. format_entry e ++ b';' ∷ t) (format_entries-terminated es)

-- What a follower parses from an append request is the list of entries that the leader wrote into
-- it, if no command holds a comma or a semicolon.
pub get_cmd_and_term-format_entries :
    (es : List LogEntry) → All (IsClean b';') es → get_cmd_and_term (format_entries es) ≡ some es
unfolding get_cmd_and_term
get_cmd_and_term-format_entries es h = rw (format_entries-terminated es) (
    rw (← append-nil (terminated b';' (map format_entry es))) (
      rw (read_terminated b';' (omega arith) (omega arith) (omega arith) es [] h tt)
        (parse_entries-map es (clean_cmds b';' es h))))
