-- ===== src/Text/Cut.antt =====
-- What the cutting loop does to a text whose parts hold no separator.
use shard_kv_raft.Base.{
  ℕ, ◌≡◌, ◌≢◌, refl, ◌∙◌, List, [], ◌∷◌, ◌++◌, some, arith, All, ap, append-nil, append_assoc, sym,
}
use shard_kv_raft.Text.{Bytes, push_nonempty, cut, break_at, Lacks}

module _ (sep : ℕ) where
  -- each part with a separator behind it
  unfoldable pub terminated : List Bytes → Bytes
  terminated [] = []
  terminated (p ∷ ps) = p ++ sep ∷ terminated ps

  cut_part :
      (p rest : Bytes) (str : List Bytes) (tmp : Bytes)
      → Lacks sep p
      → cut sep (p ++ rest) str tmp ≡ cut sep rest str (tmp ++ p)
  unfolding cut
  cut_part [] rest str tmp h = ap (cut sep rest str) (sym (append-nil tmp))
  cut_part (c ∷ p) rest str tmp h =
      ground (arith, cut_part p rest str (tmp ++ c ∷ []), append_assoc tmp (c ∷ []) p)

  cut_sep :
      (s : Bytes) (str : List Bytes) (tmp : Bytes)
      → cut sep (sep ∷ s) str tmp ≡ cut sep s (push_nonempty str tmp) []
  unfolding cut
  cut_sep s str tmp = ground arith

  pub push_nonempty-append :
      (str : List Bytes) (p : Bytes) → p ≢ [] → push_nonempty str p ≡ str ++ p ∷ []
  unfolding push_nonempty
  push_nonempty-append str [] h = absurd (h refl)
  push_nonempty-append str (c ∷ s) h = refl

  -- the parts that the loop has collected behind `str`, empty ones dropped
  unfoldable pub pushes : List Bytes → List Bytes → List Bytes
  pushes str [] = str
  pushes str (p ∷ ps) = pushes (push_nonempty str p) ps

  -- The loop returns the terminated parts that are not empty, and what stands behind the last
  -- separator.
  pub cut-terminated :
      (ps str : List Bytes) (rest : Bytes)
      → All (Lacks sep) ps
      → Lacks sep rest
      → cut sep (terminated ps ++ rest) str [] ≡ (pushes str ps, rest)
  unfolding terminated pushes
  cut-terminated [] str rest la lr =
      ap (λ t. cut sep t str []) (sym (append-nil rest))
      ∙ cut_part rest [] str [] lr
      ∙ unfold cut in refl
  cut-terminated (p ∷ ps) str rest (lp, la) lr = rw (append_assoc p (sep ∷ terminated ps) rest) (
      cut_part p (sep ∷ terminated ps ++ rest) str [] lp
      ∙ cut_sep (terminated ps ++ rest) str p
      ∙ cut-terminated ps (push_nonempty str p) rest la lr)

  pub pushes-append : (ps str : List Bytes) → All (λ p. p ≢ []) ps → pushes str ps ≡ str ++ ps
  unfolding pushes
  pushes-append [] str h = sym (append-nil str)
  pushes-append (p ∷ ps) str (hp, hps) =
      rw (push_nonempty-append str p hp, pushes-append ps (str ++ p ∷ []) hps)
        (append_assoc str (p ∷ []) ps)

  pub break_at-append :
      (p s tmp : Bytes) → Lacks sep p → break_at sep (p ++ sep ∷ s) tmp ≡ (tmp ++ p, some s)
  unfolding break_at
  break_at-append [] s tmp h = ground (arith, append-nil tmp)
  break_at-append (c ∷ p) s tmp h =
      ground (arith, break_at-append p s (tmp ++ c ∷ []), append_assoc tmp (c ∷ []) p)
