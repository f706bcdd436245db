-- ===== src/Raft/Cluster/Keeping.antt =====
-- The moves of a node by itself: its log stays, or a snapshot takes its front.
use shard_kv_raft.Base.{
  get_elem?-lt, ℕ, suc, ◌≡◌, ◌⊎◌, inl, inr, refl, sym, ap, ◌∙◌, Option, none, some, ℤ, pos, ◌+ℤ◌,
  ◌-ℤ◌, ◌≤ℤ◌, ◌<ℤ◌, ltb_ℤ, pos_part, neg_part, int_laws, arith, length, length-drop, drop, Ensures,
  Ensures-some, Ensures-if, Ensures-bind,
}
use mathlib.Core.Path.{subst}
use shard_kv_raft.Text.{Bytes}
use shard_kv_raft.Raft.State.{LogEntry, Raft, leader, candidate, Timeval}
use shard_kv_raft.Raft.Log.{last_index, last_term, back_term, log_at, compress_log_idx}
use shard_kv_raft.Raft.Persist.{save_raft_state, serialize}
use shard_kv_raft.Raft.Election.{after_vote, become_leader, set_bell_time, is_candidate}
use shard_kv_raft.Raft.Replicate.{tail_from}
use shard_kv_raft.Raft.Snapshot.{Codec, compact, store_snapshot, save_snapshot, recv_snapshot}
use shard_kv_raft.Raft.Snapshot.Compaction.{cut_at, last_index-cut_at, log_at-cut_at}
use shard_kv_raft.Raft.Step.{
  Step, votes, counts, times_out, elects, submits, follows, leads, applies, compacts, installs,
  sends_snapshot, sent_snapshot,
}
use shard_kv_raft.Raft.Cluster.{IsLocal}
use shard_kv_raft.Raft.Cluster.Links.{History}
use shard_kv_raft.Raft.Log.Index.{log_at-some, log_at-le}
use shard_kv_raft.Raft.Cluster.Chains.{
  Chained, IsChained, IsChained-same, Chained-drop, back_term-drop,
}
use shard_kv_raft.Raft.Cluster.Local
use shard_kv_raft.Raft.Cluster.Local.{Settled}

-- The log reaches as far as before, or further, and the entries that are not in the snapshot are
-- as they were.
pub record Grows (r s : Raft) : Type 0 where
  pub reach : last_index r ≤ℤ last_index s
  pub base : r.last_included_index ≤ℤ s.last_included_index
  pub same : (i : ℤ) → s.last_included_index <ℤ i → i ≤ℤ last_index r → log_at s i ≡ log_at r i

pub Grows-trans : (r s t : Raft) → Grows r s → Grows s t → Grows r t
Grows-trans r s t a b = record {
  reach = omega (arith, a.reach, b.reach);
  base = omega (arith, a.base, b.base);
  same =
      λ i lo hi. b.same i lo (omega (arith, hi, a.reach)) ∙ a.same i (omega (arith, lo, b.base)) hi;
}

-- The log ends as before, agrees with what it agreed with, and who leads has led before.
pub record Keeps (r s : Raft) : Type 0 where
  pub chained : (h : History) → IsChained h r → IsChained h s
  pub last : last_index s ≡ last_index r
  pub last_t : last_term s ≡ last_term r
  pub grows : Grows r s
  pub leads : s.state ≡ leader → (r.state ≡ leader) × (s.cur_term ≡ r.cur_term)

pub Settled-Keeps : {r s : Raft} → Settled r s → Keeps r s
Settled-Keeps {r} {s} a = record {
  chained = λ h. IsChained-same r s a.index a.term a.logs;
  last = same_last r s a.index a.logs;
  last_t = same_term r s a.term a.logs;
  grows = same_log r s a.index a.logs;
  leads = a.leads;
}
  where
    same_last :
        (r s : Raft)
        → s.last_included_index ≡ r.last_included_index
        → s.logs ≡ r.logs
        → last_index s ≡ last_index r
    same_last r s p q = unfold last_index in cc

    same_log :
        (r s : Raft) → s.last_included_index ≡ r.last_included_index → s.logs ≡ r.logs → Grows r s
    same_log r s p q =
        unfold log_at compress_log_idx in
        record {
          reach = let e = same_last r s p q in omega (arith, ap pos_part e, ap neg_part e);
          base = omega (arith, ap pos_part p, ap neg_part p);
          same = λ i _ _. cc (p, q);
        }

    same_term :
        (r s : Raft)
        → s.last_include_term ≡ r.last_include_term
        → s.logs ≡ r.logs
        → last_term s ≡ last_term r
    same_term r s p q = unfold last_term in cc

cut : Raft → ℤ → LogEntry → Raft
cut r index e = record r {
  last_include_term = e.term;
  last_included_index = index;
  logs = tail_from r.logs (index -ℤ r.last_included_index);
}

cut-Grows :
    (r : Raft) (index : ℤ) (e : LogEntry) (n : ℕ)
    → index ≡ r.last_included_index +ℤ pos (suc n)
    → log_at r index ≡ some e
    → Grows r (cut_at r index e.term)
cut-Grows r index e n place found =
    let above : r.last_included_index <ℤ index =
      omega (int_laws, ap pos_part place, ap neg_part place) in
    let last = last_index-cut_at r index e.term above (log_at-le r index e found) in
    record {
      reach = omega (arith, ap pos_part last, ap neg_part last);
      base = omega (arith, above);
      same = λ i lo hi. log_at-cut_at r index e.term i above lo;
    }

cut-Keeps :
    (r : Raft) (index : ℤ) (e : LogEntry) → log_at r index ≡ some e → Keeps r (cut r index e)
unfolding cut last_index last_term
cut-Keeps r index e p =
    let (n, place, found) = log_at-some r index e p in
    let from : index -ℤ r.last_included_index ≡ pos (suc n) =
      omega (int_laws, ap pos_part place, ap neg_part place) in
    let tail : tail_from r.logs (index -ℤ r.last_included_index) ≡ drop (suc n) r.logs =
      unfold tail_from in ap (tail_from r.logs) from in
    let size = length-drop (suc n) r.logs in
    record {
      chained = λ h (c, low). (
        subst (Chained h index e.term) (sym tail) (
            subst (λ z. Chained h z e.term (drop (suc n) r.logs)) (sym place)
              (Chained-drop h r.last_included_index r.last_include_term n r.logs e found c)),
        omega (int_laws, low, ap pos_part place, ap neg_part place),
      );
      last =
          ap (λ l. index +ℤ pos (length l)) tail
          ∙ omega
              (int_laws, size, get_elem?-lt r.logs n e found, ap pos_part place, ap neg_part place);
      last_t = ap (back_term e.term) tail ∙ back_term-drop r.last_include_term n r.logs e found;
      grows = unfold cut in cut-Grows r index e n place p;
      leads = λ q. (q, refl);
    }

-- A candidate comes out of its wait as the leader.
pub record Won (r s : Raft) : Type 0 where
  pub now : Timeval
  pub run : after_vote now r ≡ some s
  pub stood : r.state ≡ candidate
  pub leads : s.state ≡ leader

after_vote_cases :
    (now : Timeval) (r s : Raft)
    → after_vote now r ≡ some s
    → ((r.state ≡ candidate) × (s.state ≡ leader)) ⊎ (s ≡ r)
unfolding after_vote become_leader set_bell_time is_candidate
after_vote_cases now r s run = ground arith

module _ (codec : Codec) where
  stored-Keeps : (b : Bytes) (i : ℤ) (r s : Raft) → Keeps r s → Keeps r (store_snapshot codec b i s)
  unfolding store_snapshot save_snapshot save_raft_state serialize last_index last_term log_at
      compress_log_idx
  stored-Keeps b i r s k = record {
    chained = k.chained;
    last = k.last;
    last_t = k.last_t;
    grows = record { reach = k.grows.reach; base = k.grows.base; same = k.grows.same };
    leads = k.leads;
  }

  Compacted : Raft → Option Raft → Type 0
  Compacted r none = Unit
  Compacted r (some s) = Keeps r s

  compact-Keeps : (r : Raft) (i : ℤ) → Ensures (Compacted r) (compact r i)
  unfolding compact Compacted
  compact-Keeps r i =
      Ensures-if (ltb_ℤ i r.last_included_index) _ _ (λ _. Ensures-some none tt)
        λ _.
          Ensures-bind (log_at r i) _
            λ e found. Ensures-some _ (unfold cut in cut-Keeps r i e found)

  either :
      (b : Bytes) (i : ℤ) (r : Raft) (kept : Option Raft)
      → Compacted r kept
      → Keeps r (elim kept [ none ↦ r | some s ↦ store_snapshot codec b i s ])
  unfolding Compacted
  either b i r none k = Settled-Keeps (Local.Settled-refl r)
  either b i r (some s) k = stored-Keeps b i r s k

  recv_snapshot-Keeps :
      (r : Raft) (b : Bytes) (i : ℤ) → Ensures (Keeps r) (recv_snapshot codec r b i)
  unfolding recv_snapshot
  recv_snapshot-Keeps r b i =
      Ensures-bind (compact r i) _
        λ kept run. Ensures-some _ (either b i r kept ((compact-Keeps r i).result kept run))

  -- A step of a node by itself keeps what the log says, or it wins an election.
  pub local-Keeps : {r s : Raft} (st : Step codec r s) → IsLocal st → Keeps r s ⊎ Won r s
  local-Keeps {r} (votes now q e) l =
      inl (subst (Keeps r) (sym e) (Settled-Keeps (Local.reply_vote-Settled now r q)))
  local-Keeps {r} (counts now a e) l =
      inl (subst (Keeps r) (sym e) (Settled-Keeps (Local.on_vote_response-Settled now r a)))
  local-Keeps {r} (times_out now timeout e) l =
      inl (subst (Keeps r) (sym e) (Settled-Keeps (Local.election_round-Settled now timeout r)))
  local-Keeps {r} {s} (elects now e) l = elim (after_vote_cases now r s e) [
    | inl (stood, first) ↦ inr (record { now = now; run = e; stood = stood; leads = first })
    | inr same ↦ inl (subst (Keeps r) (sym same) (Settled-Keeps (Local.Settled-refl r)))
  ]
  local-Keeps (submits op e) l = absurd l
  local-Keeps (follows now q a e) l = absurd l
  local-Keeps {r} {s} (leads peer q n a e) l =
      inl (Settled-Keeps ((Local.on_append_response-Settled r peer q n a).result s e))
  local-Keeps {r} {s} (applies e) l = inl (Settled-Keeps ((Local.apply_round-Settled r).result s e))
  local-Keeps {r} {s} (compacts b i e) l = inl ((recv_snapshot-Keeps r b i).result s e)
  local-Keeps (installs now q a e) l = absurd l
  local-Keeps {r} (sends_snapshot e) l =
      inl (subst (Keeps r) (sym e) (Settled-Keeps (Local.install_request-Settled codec r)))
  local-Keeps {r} {s} (sent_snapshot peer q a e) l =
      inl (Settled-Keeps ((Local.on_install_response-Settled codec r peer q a).result s e))
