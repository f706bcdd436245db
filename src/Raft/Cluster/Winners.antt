-- ===== src/Raft/Cluster/Winners.antt =====
-- The elections of a cluster over time: with the votes of a majority, a term has one winner.
use shard_kv_raft.Base.{
  ℕ, zero, suc, ◌<◌, ◌≡◌, refl, sym, ap, ◌∙◌, ◌⊎◌, inl, inr, Option, none, some, Option-cases, ℤ,
  pos, ◌+ℤ◌, pos_part, neg_part, int_laws, arith,
}
use mathlib.Core.Path.{subst}
use shard_kv_raft.Raft.State.{Raft, RaftState, candidate, follower, InstallSnapShotRequest}
use shard_kv_raft.Raft.Snapshot.{Codec}
use shard_kv_raft.Raft.Step.{Step, submits, follows, installs, sends_snapshot}
use shard_kv_raft.Raft.Step.Ballot.{Steps-term_le}
use shard_kv_raft.Raft.Step.Leaders
use shard_kv_raft.Raft.Step.Leaders.{IsRun, Wins, Elected, one_leader}
use shard_kv_raft.Raft.Cluster.{
  Cluster, replace, Move, acts, takes, sends, receives, ships, unpacks, Trace,
}
use shard_kv_raft.Raft.Cluster.Links.{History}
use shard_kv_raft.Raft.Cluster.Invariant.{
  Inv, IsFresh, no_history, no_winner, no_winner-none, IsFresh-Inv, replace-all,
}
use shard_kv_raft.Raft.Cluster.Leading.{crown, crown_cases, wins-Inv}
use shard_kv_raft.Raft.Cluster.Moving.{OneWins, Move-Inv}

replace_self : (node : ℕ → Raft) (i : ℕ) (s : Raft) → replace node i s i ≡ s
replace_self node i s = ground arith

abbrev Goes : Codec → Raft → Raft → Type 0
Goes codec r s = Step codec r s ⊎ (s ≡ r)

module _ {codec : Codec} where
  replaced-Goes :
      (c d : Cluster) (i : ℕ) (s : Raft)
      → Step codec (c.node i) s
      → ((j : ℕ) → d.node j ≡ replace c.node i s j)
      → (j : ℕ) → Goes codec (c.node j) (d.node j)
  replaced-Goes c d i s st e j =
      subst (Goes codec (c.node j)) (sym (e j))
        (replace-all (λ k r. Goes codec (c.node k) r) c.node i s (inl st) (λ k _. inr refl) j)

  -- A move is a step of one node.
  Move-Goes : {c d : Cluster} → Move codec c d → (j : ℕ) → Goes codec (c.node j) (d.node j)
  Move-Goes {c} {d} (acts i s st local e) =
      replaced-Goes c d i s st (λ j. ap (λ (x : Cluster). x.node j) e)
  Move-Goes {c} {d} (takes i op comma semicolon e) =
      replaced-Goes c d i _ (submits op refl) (λ j. ap (λ (x : Cluster). x.node j) e)
  Move-Goes {c} {d} (sends i peer q size run e) = λ j. inr (ap (λ (x : Cluster). x.node j) e)
  Move-Goes {c} {d} (receives k peer q now s a sent run e) =
      replaced-Goes c d peer s (follows now q a run) (λ j. ap (λ (x : Cluster). x.node j) e)
  Move-Goes {c} {d} (ships i peer s q run e) =
      replaced-Goes c d i s
        (sends_snapshot (ap (λ (p : Raft × InstallSnapShotRequest). p.0) (sym run)))
        (λ j. ap (λ (x : Cluster). x.node j) e)
  Move-Goes {c} {d} (unpacks k peer q now s a sent run e) =
      replaced-Goes c d peer s (installs now q a run) (λ j. ap (λ (x : Cluster). x.node j) e)

-- The states of each node over time.
abbrev pub runs : {codec : Codec} → Trace codec → ℕ → ℕ → Raft
runs trace i k = (trace.moment k).node i

-- Whoever wins an election has the votes of a majority of the `n` nodes.
abbrev pub ByMajority : {codec : Codec} → Trace codec → ℕ → Type 0
ByMajority trace n =
    (i k : ℕ) (t : ℤ)
    → Wins t (pos i) (runs trace i k) (runs trace i (suc k))
    → Elected (runs trace) n t i

module _ {codec : Codec} (trace : Trace codec) (n : ℕ) (fresh : IsFresh (trace.moment 0))
    (majority : ByMajority trace n) where
  nodes-IsRun : (i : ℕ) → IsRun codec (runs trace i)
  nodes-IsRun i k = elim (trace.moves k) [
    | inl move ↦ Move-Goes move i
    | inr same ↦ inr (ap (λ (x : Cluster). x.node i) same)
  ]

  -- Two wins of one term are the win of one node at one time.
  won_once :
      (i j m k : ℕ) (t : ℤ)
      → m < k
      → Wins t (pos i) (runs trace i m) (runs trace i (suc m))
      → Wins t (pos j) (runs trace j k) (runs trace j (suc k))
      → ⊥
  won_once i j m k t before first second =
      let same : i ≡ j =
        one_leader codec (runs trace) n nodes-IsRun fresh.number
          (λ l e. not_both (runs trace l 0).state (fresh.follows l) e) t i j (majority i m t first)
          (majority j k t second) in
      let (term, _) =
        Leaders.won first.now (runs trace i m) (runs trace i (suc m)) first.after first.stood
          first.leads in
      let (le, _) = Steps-term_le codec (
        Leaders.Steps-between codec (runs trace i) (nodes-IsRun i) (suc m) k
          (omega (arith, before))) in
      let now = subst (λ l. (runs trace l k).cur_term +ℤ pos 1 ≡ t) (sym same) second.in_term in
      let then' = term ∙ first.in_term in
      omega (int_laws, le, ap pos_part now, ap neg_part now, ap pos_part then', ap neg_part then')
    where
      not_both : (s : RaftState) → s ≡ follower → s ≡ candidate → ⊥
      not_both s p q = cc

  -- A history explains the cluster at a time, and the winners up to then are known.
  record Explained (k : ℕ) : Type 0 where
    history : History
    leader_of : ℤ → Option ℕ
    inv : Inv history leader_of (trace.moment k)
    winners :
        (t : ℤ) (i : ℕ)
        → leader_of t ≡ some i
        → (m : ℕ) × (m < k) × Wins t (pos i) (runs trace i m) (runs trace i (suc m))

  peer : (i k : ℕ) → (runs trace i k).peer_id ≡ pos i
  peer i k = Leaders.Steps-peer codec (runs trace i) (nodes-IsRun i) k ∙ fresh.number i

  win_of :
      (k : ℕ) (w : OneWins (trace.moment k) (trace.moment (suc k)))
      → Wins w.after.cur_term (pos w.who) (runs trace w.who k) (runs trace w.who (suc k))
  win_of k w =
      let here : runs trace w.who (suc k) ≡ w.after =
        ap (λ (x : Cluster). x.node w.who) w.result
        ∙ replace_self (trace.moment k).node w.who w.after in
      let (term, _) =
        Leaders.won w.won.now (runs trace w.who k) w.after w.won.run w.won.stood w.won.leads in
      record {
        now = w.won.now;
        in_term = sym term;
        itself = peer w.who k;
        stood = w.won.stood;
        after = w.won.run ∙ ap some (sym here);
        leads = ap (λ (x : Raft). x.state) here ∙ w.won.leads;
      }

  after_win :
      (k : ℕ) (e : Explained k)
      → OneWins (trace.moment k) (trace.moment (suc k))
      → Explained (suc k)
  after_win k e w = record {
    history = e.history;
    leader_of = crown e.leader_of w.after.cur_term w.who;
    inv =
        subst (Inv e.history (crown e.leader_of w.after.cur_term w.who)) (sym w.result)
          (wins-Inv (trace.moment k) e.inv w.who w.after w.won.now w.won.run free);
    winners = known;
  }
    where
      free : e.leader_of w.after.cur_term ≡ none
      free = elim (Option-cases (e.leader_of w.after.cur_term)) [
        | inl nobody ↦ nobody
        | inr (i, won) ↦
            let (m, before, first) = e.winners w.after.cur_term i won in
            absurd (won_once i w.who m k w.after.cur_term before first (win_of k w))
      ]

      known :
          (t : ℤ) (i : ℕ)
          → crown e.leader_of w.after.cur_term w.who t ≡ some i
          → (m : ℕ) × (m < suc k) × Wins t (pos i) (runs trace i m) (runs trace i (suc m))
      known t i won = elim (crown_cases e.leader_of w.after.cur_term w.who t i won) [
        | inl (term, same) ↦ (
          k,
          omega arith,
          subst (λ l. Wins t (pos l) (runs trace l k) (runs trace l (suc k))) (sym same)
              (subst (λ z. Wins z (pos w.who) (runs trace w.who k) (runs trace w.who (suc k)))
                (sym term) (win_of k w)),
        )
        | inr old ↦ let (m, before, first) = e.winners t i old in (m, omega (arith, before), first)
      ]

  -- A time at which nobody wins.
  still :
      (k : ℕ) (e : Explained k) (h : History)
      → Inv h e.leader_of (trace.moment (suc k))
      → Explained (suc k)
  still k e h inv = record {
    history = h;
    leader_of = e.leader_of;
    inv = inv;
    winners =
        λ t i won. let (m, before, first) = e.winners t i won in (m, omega (arith, before), first);
  }

  explained : (k : ℕ) → Explained k
  explained zero = record {
    history = no_history;
    leader_of = no_winner;
    inv = IsFresh-Inv (trace.moment 0) fresh;
    winners = λ t i e. absurd (no_winner-none t i e);
  }
  explained (suc k) =
      let e = explained k in
      elim (trace.moves k) [
        | inl move ↦ elim (Move-Inv e.inv move) [
          | inl (h, inv) ↦ still k e h inv
          | inr w ↦ after_win k e w
        ]
        | inr same ↦ still k e e.history (subst (Inv e.history e.leader_of) (sym same) e.inv)
      ]

  -- At every time one history explains all logs and all requests.
  pub trace-Inv :
      (k : ℕ) → (h : History) × (leader_of : ℤ → Option ℕ) × Inv h leader_of (trace.moment k)
  trace-Inv k = let e = explained k in (e.history, e.leader_of, e.inv)
