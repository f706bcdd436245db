-- ===== src/Raft/Step/Starting.antt =====
-- Raft::Init in src/RaftServer.cpp gives each peer a place.
use shard_kv_raft.Base.{
  ℕ, zero, suc, ◌≡◌, refl, Bool, true, false, List, [], ◌∷◌, Option, none, some, ◌>>=◌, Ensures,
  Ensures-some, Ensures-bind, ℤ, pos, length, replicate, All, if◌then◌else◌, arith, ap, sym, ◌∙◌,
}
use mathlib.Core.Path.{subst}
use shard_kv_raft.Text.{Bytes}
use shard_kv_raft.Raft.State.{PeersInfo, LogEntry, Raft, Timeval}
use shard_kv_raft.Raft.Log.{push_back_log}
use shard_kv_raft.Raft.Persist.{
  deserialize, push_back_logs, read_raft_state, read_fields, fields, c_string,
}
use shard_kv_raft.Raft.Heartbeat.Bell.{IsNumbered}
use shard_kv_raft.Raft.Snapshot.{Codec, install_snapshot, read_snapshot, push_snapshot, init}
use shard_kv_raft.Raft.Election.{after_vote}
use shard_kv_raft.Raft.Heartbeat.{Task, heartbeat}
use shard_kv_raft.Raft.Step.{Steps}
use shard_kv_raft.Raft.Step.Terms.{SameSize}
use shard_kv_raft.Raft.Step.Sizes.{IsSized, Steps-IsSized_total}

deserialize-SameSize : (r : Raft) → Ensures (λ (p : Raft × Bool). SameSize r p.0) (deserialize r)
unfolding deserialize
deserialize-SameSize r = by_file r.disk.persister_file
  where
    by_file :
        (o : Option Bytes)
        → Ensures
            (λ (p : Raft × Bool). SameSize r p.0)
            (elim o [
              | none ↦ some (r, false)
              | some content ↦ read_fields r.persister (fields (c_string content)) >>= λ p.
                  some (record r { persister = p }, true)
            ])
    by_file none = Ensures-some (r, false) (refl, refl, refl)
    by_file (some content) =
        Ensures-bind (read_fields r.persister (fields (c_string content))) _
          λ p _. Ensures-some (record r { persister = p }, true) (refl, refl, refl)

push_back_logs-SameSize : (es : List LogEntry) (r : Raft) → SameSize r (push_back_logs es r)
unfolding push_back_logs push_back_log
push_back_logs-SameSize [] r = (refl, refl, refl)
push_back_logs-SameSize (e ∷ es) r = push_back_logs-SameSize es (push_back_log e r)

read_raft_state-SameSize : (r : Raft) → Ensures (SameSize r) (read_raft_state r)
unfolding read_raft_state
read_raft_state-SameSize r =
    Ensures-bind (deserialize r) _
      λ p run. Ensures-some _ (loaded p ((deserialize-SameSize r).result p run))
  where
    loaded :
        (p : Raft × Bool)
        → SameSize r p.0
        → SameSize r (
            if p.1
            then push_back_logs p.0.persister.logs (record p.0 {
              cur_term = p.0.persister.cur_term;
              vote_for = p.0.persister.voted_for;
            })
            else p.0)
    loaded (s, true) (a, b, c) =
        let (a', b', c') =
          push_back_logs-SameSize s.persister.logs
            (record s { cur_term = s.persister.cur_term; vote_for = s.persister.voted_for }) in
        (a' ∙ a, b' ∙ b, c' ∙ c)
    loaded (s, false) h = h

install_snapshot-SameSize : (codec : Codec) (r : Raft) → SameSize r (install_snapshot codec true r)
unfolding install_snapshot read_snapshot push_snapshot
install_snapshot-SameSize codec r = ground arith

length-replicate : {A : Type 0} (n : ℕ) (a : A) → length (replicate n a) ≡ n
length-replicate zero a = refl
length-replicate (suc n) a = ap suc (length-replicate n a)

init-IsSized :
    (codec : Codec) (now : Timeval) (peers : List PeersInfo) (id : ℤ) (old : Raft)
    → All (IsNumbered (length peers)) peers
    → Ensures IsSized (init codec now peers id old)
unfolding init
init-IsSized codec now peers id old numbered = Ensures-bind (read_raft_state _) _ λ r run.
    Ensures-some (install_snapshot codec true r)
      (sized r ((read_raft_state-SameSize _).result r run) (install_snapshot-SameSize codec r))
  where
    sized :
        (r : Raft)
        → (r.peers ≡ peers)
          × (length r.next_index ≡ length (replicate (length peers) (pos 1)))
          × (length r.match_index ≡ length (replicate (length peers) (pos 0)))
        → SameSize r (install_snapshot codec true r)
        → IsSized (install_snapshot codec true r)
    sized r (a, b, c) (a', b', c') =
        let all = a' ∙ a in
        record {
          numbered = subst (λ ps. All (IsNumbered (length ps)) ps) (sym all) numbered;
          next_room =
              b' ∙ b ∙ length-replicate (length peers) (pos 1) ∙ sym (ap (λ ps. length ps) all);
          match_room =
              c' ∙ c ∙ length-replicate (length peers) (pos 0) ∙ sym (ap (λ ps. length ps) all);
        }

-- Let a node come out of Init with peers whose numbers are below how many they are. Then behind any
-- sequence of its steps, each run whole, its two vectors have a place for each peer, and a round of
-- the leader's bell and the end of an election round run without undefined behaviour.
pub init-Steps_total :
    (codec : Codec) (now later : Timeval) (peers : List PeersInfo) (id : ℤ) (old r s : Raft)
    → All (IsNumbered (length peers)) peers
    → init codec now peers id old ≡ some r
    → Steps codec r s
    → IsSized s
      × ((out : Raft × List Task) × (heartbeat later s ≡ some out))
      × ((t : Raft) × (after_vote later s ≡ some t))
init-Steps_total codec now later peers id old r s numbered run steps =
    Steps-IsSized_total codec later r s
      ((init-IsSized codec now peers id old numbered).result r run) steps
