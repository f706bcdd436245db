-- ===== src/Tests/Clusters/Matching.antt =====
-- Who wins and what is in the logs in the cluster above.
use shard_kv_raft.Base.{
  ℕ, zero, suc, ◌<◌, ◌≡◌, ◌≢◌, refl, sym, ap, ◌∙◌, true, some, ℤ, pos, ◌+ℤ◌, ◌≤ℤ◌, ◌<ℤ◌, arith, ltb,
}
use mathlib.Core.Path.{subst}
use shard_kv_raft.Raft.State.{LogEntry, Raft, RaftState, candidate, leader, follower}
use shard_kv_raft.Raft.Log.{last_term, last_index, check_log_uptodate, log_at, compress_log_idx}
use shard_kv_raft.Raft.Wire.{get_cmd}
use shard_kv_raft.Raft.Persist.{save_raft_state, serialize}
use shard_kv_raft.Raft.Vote.{reply_vote}
use shard_kv_raft.Raft.Step.Majority.{count}
use shard_kv_raft.Raft.Step.Leaders.{Grants, Wins, Elected}
use shard_kv_raft.Raft.Cluster.{Cluster, replace}
use shard_kv_raft.Raft.Cluster.Invariant.{replace-all}
use shard_kv_raft.Raft.Cluster.Winners.{runs, ByMajority}
use shard_kv_raft.Raft.Cluster.Matching.{logs_match}
use shard_kv_raft.Tests.Nodes.{text_codec}
use shard_kv_raft.Tests.Clusters.{
  one_second, node_at_start, vote_request, operation, standing, voted, counted, leading,
  with_command, appended, fresh_cluster, after_step, asked, led, told, moments, trace, fresh,
  standing_state, voted_state, counted_facts, leading_state, with_command_state, appended_state,
}

-- No other node stands for election.
abbrev OthersFollow : Cluster → Type 0
OthersFollow c = (i : ℕ) → (c.node (suc i)).state ≡ follower

others_stay : (c : Cluster) (r : Raft) → OthersFollow c → OthersFollow (after_step c 0 r)
others_stay c r h i = subst (λ (x : Raft). x.state ≡ follower) (sym (same c.node)) (h i)
  where
    same : (node : ℕ → Raft) → replace node 0 r (suc i) ≡ node (suc i)
    same node = ground arith

one_follows :
    (c : Cluster) (r : Raft) → r.state ≡ follower → OthersFollow c → OthersFollow (after_step c 1 r)
one_follows c r new h i =
    replace-all (λ k x. k ≢ 0 → x.state ≡ follower) c.node 1 r (λ _. new)
      (λ k _ other. nonzero k other) (suc i) (λ e. absurd (omega (arith, e)))
  where
    nonzero : (k : ℕ) → k ≢ 0 → (c.node k).state ≡ follower
    nonzero zero other = absurd (other refl)
    nonzero (suc k) other = h k

asked_follow : OthersFollow asked
asked_follow =
    one_follows (after_step fresh_cluster 0 standing) voted voted_state
      (others_stay fresh_cluster standing (λ i. refl))

counted_follow : OthersFollow (after_step asked 0 counted)
counted_follow = others_stay asked counted asked_follow

led_follow : OthersFollow led
led_follow = others_stay (after_step asked 0 counted) leading counted_follow

told_follow : OthersFollow told
told_follow = others_stay led with_command led_follow

others_follow : (k i : ℕ) → (runs trace (suc i) k).state ≡ follower
unfolding moments
others_follow zero i = refl
others_follow (suc zero) i = others_stay fresh_cluster standing (λ i. refl) i
others_follow (suc (suc zero)) i = asked_follow i
others_follow (suc (suc (suc zero))) i = counted_follow i
others_follow (suc (suc (suc (suc zero)))) i = led_follow i
others_follow (suc (suc (suc (suc (suc zero))))) i = told_follow i
others_follow (suc (suc (suc (suc (suc (suc zero)))))) i = told_follow i
others_follow (suc (suc (suc (suc (suc (suc (suc k))))))) i =
    one_follows told appended appended_state told_follow i

-- The first node wins once, in term 1, and has its own vote and that of the second one.
given : Grants (pos 1) (pos 0) (node_at_start 1) voted
unfolding voted reply_vote check_log_uptodate last_term last_index ◌+ℤ◌ save_raft_state serialize
given = record {
  now = one_second;
  request = vote_request;
  in_term = refl;
  asks = refl;
  of_other = λ e. cc;
  accepted = refl;
  after = refl;
}

votes_of :
    (i : ℕ)
    → i < 3
    → ltb i 2 ≡ true
    → i ≢ 0
    → (k : ℕ) × Grants (pos 1) (pos 0) (runs trace i k) (runs trace i (suc k))
unfolding moments
votes_of zero lo member other = absurd (other refl)
votes_of (suc zero) lo member other = (1, given)
votes_of (suc (suc i)) lo member other = absurd (ground arith)

in_term_one : (t : ℤ) → counted.cur_term +ℤ pos 1 ≡ t → pos 1 ≡ t
unfolding ◌+ℤ◌
in_term_one t e = sym (ap (λ z. z +ℤ pos 1) (counted_facts.1)) ∙ e

not_both : (r : Raft) (a b : RaftState) → r.state ≡ a → r.state ≡ b → a ≡ b
not_both r a b p q = sym p ∙ q

majority_at :
    (k : ℕ) (t : ℤ)
    → Wins t (pos 0) (runs trace 0 k) (runs trace 0 (suc k))
    → Elected (runs trace) 3 t 0
unfolding moments count
majority_at zero t w = cc (not_both (node_at_start 0) follower candidate refl w.stood)
majority_at (suc zero) t w = cc (not_both standing candidate leader standing_state w.leads)
majority_at (suc (suc zero)) t w = cc (not_both counted candidate leader (counted_facts.0) w.leads)
majority_at (suc (suc (suc zero))) t w =
    subst (λ z. Wins z (pos 0) (runs trace 0 3) (runs trace 0 4) → Elected (runs trace) 3 z 0)
      (in_term_one t w.in_term)
      (λ first. record {
        voters = λ i. ltb i 2;
        most = omega arith;
        wins = (3, first);
        granted = votes_of;
      })
      w
majority_at (suc (suc (suc (suc zero)))) t w =
    cc (not_both leading leader candidate leading_state w.stood)
majority_at (suc (suc (suc (suc (suc zero))))) t w =
    cc (not_both with_command leader candidate with_command_state w.stood)
majority_at (suc (suc (suc (suc (suc (suc zero)))))) t w =
    cc (not_both with_command leader candidate with_command_state w.stood)
majority_at (suc (suc (suc (suc (suc (suc (suc k))))))) t w =
    cc (not_both with_command leader candidate with_command_state w.stood)

by_majority : ByMajority trace 3
by_majority zero k t w = majority_at k t w
by_majority (suc i) k t w =
    cc (not_both (runs trace (suc i) k) follower candidate (others_follow k i) w.stood)

abbrev command_entry : LogEntry
command_entry = record { cmd = get_cmd operation; term = pos 1 }

leader_entry : log_at (runs trace 0 7) (pos 1) ≡ some command_entry
unfolding moments with_command log_at compress_log_idx
leader_entry = refl

follower_entry : log_at (runs trace 1 7) (pos 1) ≡ some command_entry
unfolding moments appended log_at compress_log_idx
follower_entry = refl

logs_match_example :
    (command_entry ≡ command_entry)
    × ((j : ℤ)
        → j ≤ℤ pos 1
        → (runs trace 0 7).last_included_index <ℤ j
        → (runs trace 1 7).last_included_index <ℤ j
        → log_at (runs trace 0 7) j ≡ log_at (runs trace 1 7) j)
logs_match_example =
    logs_match text_codec trace 3 fresh by_majority 7 0 1 (pos 1) command_entry command_entry
      leader_entry follower_entry refl
