-- ===== src/Client/Attempts.antt =====
-- SendRequest of src/client.cpp, round by round: which server is tried, what becomes of its connection
-- and which one comes next.
use shard_kv_raft.Base.{
  ℕ, zero, suc, ◌+◌, ◌%◌, ◌≡◌, refl, sym, ap, ◌∙◌, Bool, true, false, List, [], ◌∷◌, Option, none,
  some, >>=-eq-some, length, set, get_elem?, Bool-cases, inl, inr, ◌⊎◌, if◌then◌else◌,
}
use mathlib.Core.Path.{subst}
use mathlib.Core.Option.{some-injective}
use shard_kv_raft.Text.{Bytes}
use shard_kv_raft.Raft.State.{Timeval}
use shard_kv_raft.Client.{
  Client, Reply, Round, Progress, again, returned, next_leader, get_change_leader, set_connected,
  change, lose, hear, send_round, send_rounds,
}
use shard_kv_raft.Client.Rounds.{is_late}

-- The server behind the leader, in a circle.
abbrev pub IsNext : Client → ℕ → Type 0
IsNext c k = (n : ℕ) × (length c.servers ≡ suc n) × (k ≡ (c.leader_id + 1) % suc n)

abbrev pub flagged : Client → ℕ → Bool → Client
flagged c cur up = record c { connected = set c.connected cur up }

abbrev pub moved : Client → ℕ → Client
moved c k = record c { leader_id = k }

-- What a round with a server comes to.
pub data Attempt (parse : Bytes → Reply) (c : Client) (cur : ℕ) (s : Bytes) (round : Round)
    : Progress → Type 0 where
  reconnected :
      get_elem? c.connected cur ≡ some false
      → round.reconnects ≡ true
      → Attempt parse c cur s round (again (flagged c cur true) cur s)
  not_reached :
      (k : ℕ)
      → get_elem? c.connected cur ≡ some false
      → round.reconnects ≡ false
      → IsNext c k
      → Attempt parse c cur s round (again (moved c k) k s)
  not_sent :
      (k : ℕ)
      → get_elem? c.connected cur ≡ some true
      → round.sends ≡ false
      → IsNext c k
      → Attempt parse c cur s round (again (moved (flagged c cur false) k) k s)
  not_received :
      (k : ℕ)
      → get_elem? c.connected cur ≡ some true
      → round.sends ≡ true
      → round.received ≡ none
      → IsNext c k
      → Attempt parse c cur s round (again (moved (flagged c cur false) k) k s)
  refused :
      (k : ℕ) (bytes : Bytes)
      → get_elem? c.connected cur ≡ some true
      → round.sends ≡ true
      → round.received ≡ some bytes
      → (parse bytes).is_wrong_leader ≡ true
      → IsNext c k
      → Attempt parse c cur s round (again (moved c k) k (parse bytes).response_msg)
  accepted :
      (bytes : Bytes)
      → get_elem? c.connected cur ≡ some true
      → round.sends ≡ true
      → round.received ≡ some bytes
      → (parse bytes).is_wrong_leader ≡ false
      → Attempt parse c cur s round (returned c true (parse bytes).response_msg)

-- The rounds, one behind the other, each with the server, the flags and the message that the one
-- before has left.
pub data Attempts (parse : Bytes → Reply) (start : Timeval)
    : Client → ℕ → Bytes → List Round → Progress → Type 0 where
  no_more : {c : Client} {cur : ℕ} {s : Bytes} → Attempts parse start c cur s [] (again c cur s)
  too_late :
      {c : Client} {cur : ℕ} {s : Bytes} {round : Round} {rounds : List Round}
      → is_late start round ≡ true
      → Attempts parse start c cur s (round ∷ rounds) (returned c false s)
  ends :
      {c c' : Client} {cur : ℕ} {s s' : Bytes} {ok : Bool} {round : Round} {rounds : List Round}
      → is_late start round ≡ false
      → Attempt parse c cur s round (returned c' ok s')
      → Attempts parse start c cur s (round ∷ rounds) (returned c' ok s')
  goes_on :
      {c c' : Client} {cur cur' : ℕ} {s s' : Bytes} {round : Round} {rounds : List Round}
      {p : Progress}
      → is_late start round ≡ false
      → Attempt parse c cur s round (again c' cur' s')
      → Attempts parse start c' cur' s' rounds p
      → Attempts parse start c cur s (round ∷ rounds) p

next_leader-some :
    (n id k : ℕ) → next_leader n id ≡ some k → (m : ℕ) × (n ≡ suc m) × (k ≡ (id + 1) % suc m)
unfolding next_leader
next_leader-some zero id k e = cc
next_leader-some (suc m) id k e = (m, refl, sym (some-injective _ _ e))

change-some :
    (c : Client) (s : Bytes) (p : Progress)
    → change c s ≡ some p
    → (k : ℕ) × IsNext c k × (again (moved c k) k s ≡ p)
unfolding change get_change_leader
change-some c s p run =
    let ((c', next), moves, last) = >>=-eq-some (get_change_leader c) _ run in
    let (k, found, same) = >>=-eq-some (next_leader (length c.servers) c.leader_id) _ moves in
    let pair = some-injective _ _ same in
    (
      k,
      next_leader-some (length c.servers) c.leader_id k found,
      ap (λ (x : Client × ℕ). again x.0 x.1 s) pair ∙ some-injective _ _ last,
    )

module _ (parse : Bytes → Reply) (c : Client) (cur : ℕ) (s : Bytes) (round : Round)
    (p : Progress) where
  hear-Attempt :
      (o : Option Bytes)
      → round.received ≡ o
      → get_elem? c.connected cur ≡ some true
      → round.sends ≡ true
      → hear parse c cur o s ≡ some p
      → Attempt parse c cur s round p
  unfolding hear lose set_connected
  hear-Attempt none got up sent run =
      let (k, next, same) = change-some (flagged c cur false) s p run in
      subst (Attempt parse c cur s round) same (not_received k up sent got next)
  hear-Attempt (some bytes) got up sent run = elim (Bool-cases (parse bytes).is_wrong_leader) [
    | inl wrong ↦
        let (k, next, same) = change-some c (parse bytes).response_msg p (rw wrong at run) in
        subst (Attempt parse c cur s round) same (refused k bytes up sent got wrong next)
    | inr right ↦
        let same = some-injective _ _ (rw right at run) in
        subst (Attempt parse c cur s round) same (accepted bytes up sent got right)
  ]

  up-Attempt :
      get_elem? c.connected cur ≡ some true
      → (if round.sends then hear parse c cur round.received s else lose c cur s) ≡ some p
      → Attempt parse c cur s round p
  unfolding lose set_connected
  up-Attempt up run = elim (Bool-cases round.sends) [
    | inl sent ↦ hear-Attempt round.received refl up sent (rw sent at run)
    | inr lost ↦
        let (k, next, same) = change-some (flagged c cur false) s p (rw lost at run) in
        subst (Attempt parse c cur s round) same (not_sent k up lost next)
  ]

  down-Attempt :
      get_elem? c.connected cur ≡ some false
      → (if round.reconnects then some (again (set_connected c cur true) cur s) else change c s)
        ≡ some p
      → Attempt parse c cur s round p
  unfolding set_connected
  down-Attempt down run = elim (Bool-cases round.reconnects) [
    | inl reached ↦
        let same = some-injective _ _ (rw reached at run) in
        subst (Attempt parse c cur s round) same (reconnected down reached)
    | inr failed ↦
        let (k, next, same) = change-some c s p (rw failed at run) in
        subst (Attempt parse c cur s round) same (not_reached k down failed next)
  ]

  by_flag :
      (up : Bool)
      → get_elem? c.connected cur ≡ some up
      → (if up
          then (if round.sends then hear parse c cur round.received s else lose c cur s)
          else if round.reconnects
          then some (again (set_connected c cur true) cur s)
          else change c s)
        ≡ some p
      → Attempt parse c cur s round p
  by_flag true e run = up-Attempt e run
  by_flag false e run = down-Attempt e run

  send_round-Attempt :
      (start : Timeval)
      → send_round parse start c cur s round ≡ some p
      → ((is_late start round ≡ true) × (returned c false s ≡ p))
        ⊎ ((is_late start round ≡ false) × Attempt parse c cur s round p)
  unfolding send_round
  send_round-Attempt start run = elim (Bool-cases (is_late start round)) [
    | inl late ↦ inl (late, some-injective _ _ (rw late at run))
    | inr early ↦
        let (up, e, tried) = >>=-eq-some (get_elem? c.connected cur) _ (rw early at run) in
        inr (early, by_flag up e tried)
  ]

module _ (parse : Bytes → Reply) (start : Timeval) where
  -- A round's result, and the rest of the rounds.
  behind :
      (c : Client) (cur : ℕ) (s : Bytes) (round : Round) (rounds : List Round) (step p : Progress)
      → is_late start round ≡ false
      → Attempt parse c cur s round step
      → ((c' : Client) (cur' : ℕ) (s' : Bytes)
          → send_rounds parse start c' cur' s' rounds ≡ some p
          → Attempts parse start c' cur' s' rounds p)
      → elim step [
        | again c' cur' s' ↦ send_rounds parse start c' cur' s' rounds
        | returned c' ok s' ↦ some (returned c' ok s')
      ]
        ≡ some p
      → Attempts parse start c cur s (round ∷ rounds) p
  behind c cur s round rounds (again c' cur' s') p early tried rest run =
      goes_on early tried (rest c' cur' s' run)
  behind c cur s round rounds (returned c' ok s') p early tried rest run =
      subst (Attempts parse start c cur s (round ∷ rounds)) (some-injective _ _ run)
        (ends early tried)

  pub send_rounds-Attempts :
      (rounds : List Round) (c : Client) (cur : ℕ) (s : Bytes) (p : Progress)
      → send_rounds parse start c cur s rounds ≡ some p
      → Attempts parse start c cur s rounds p
  unfolding send_rounds
  send_rounds-Attempts [] c cur s p run =
      subst (Attempts parse start c cur s []) (some-injective _ _ run) no_more
  send_rounds-Attempts (round ∷ rounds) c cur s p run =
      let (step, tried, run') = >>=-eq-some (send_round parse start c cur s round) _ run in
      elim (send_round-Attempt parse c cur s round step start tried) [
        | inl (late, same) ↦
            let whole : some (returned c false s) ≡ some p = rw (sym same) at run' in
            subst (Attempts parse start c cur s (round ∷ rounds)) (some-injective _ _ whole)
              (too_late late)
        | inr (early, attempt) ↦
            behind c cur s round rounds step p early attempt
              (λ c' cur' s' r. send_rounds-Attempts rounds c' cur' s' p r) run'
      ]
