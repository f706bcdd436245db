-- ===== src/Client/Sending.antt =====
-- SendRequest of src/client.cpp: what its result says.
use shard_kv_raft.Base.{
  ℕ, zero, suc, ◌<◌, ◌≡◌, refl, ◌∙◌, Bool, true, false, List, [], ◌∷◌, Option, none, some, length,
  length-set, get_elem?-in_range, arith, Bool-cases, inl, inr, if◌then◌else◌,
}
use shard_kv_raft.Text.{Bytes}
use shard_kv_raft.Raft.State.{Timeval}
use shard_kv_raft.Client.{
  Client, Reply, Round, Progress, again, returned, change, lose, set_connected, hear, send_round,
  send_rounds, send_request,
}
use shard_kv_raft.Client.Rounds.{
  IsWell, is_late, Outcome, waits, answered, timed_out, change-again, lose-again,
}
use shard_kv_raft.Client.Attempts.{Attempts, send_rounds-Attempts}

module _ (parse : Bytes → Reply) (start : Timeval) (first : Client) where
  -- The call returns, with the outcome for these rounds.
  abbrev Gives : Option Progress → List Round → Type 0
  Gives run rounds = (p : Progress) × (run ≡ some p) × Outcome parse start first rounds p

  hear-Outcome :
      (c : Client) (cur : ℕ) (s : Bytes) (round : Round)
      → IsWell first c cur
      → is_late start round ≡ false
      → Gives (hear parse c cur round.received s) (round ∷ [])
  unfolding hear
  hear-Outcome c cur s round well early = by_received round.received refl
    where
      by_received :
          (o : Option Bytes) → round.received ≡ o → Gives (hear parse c cur o s) (round ∷ [])
      by_received none e =
          let (c', k, run, well') = lose-again first c cur s well in
          (again c' k s, run, waits c' k s well' (early, tt))
      by_received (some bytes) e = elim (Bool-cases (parse bytes).is_wrong_leader) [
        | inl wrong ↦
            let msg = (parse bytes).response_msg in
            let (c', k, run, well') = change-again first c msg well.0 well.2 well.3 in
            (again c' k msg, rw wrong run, waits c' k msg well' (early, tt))
        | inr right ↦
            let msg = (parse bytes).response_msg in
            (
              returned c true msg,
              rw right refl,
              answered c msg 0 round refl (bytes, e, right, refl) ((well.0, well.2), well.3),
            )
      ]

  Gives-if :
      (b : Bool) {m n : Option Progress} {rounds : List Round}
      → Gives m rounds
      → Gives n rounds
      → Gives (if b then m else n) rounds
  Gives-if true hm hn = hm
  Gives-if false hm hn = hn

  -- A round that is not late, with the flag of its server.
  try-Outcome :
      (c : Client) (cur : ℕ) (s : Bytes) (round : Round) (up : Bool)
      → IsWell first c cur
      → is_late start round ≡ false
      → Gives
          (if up
            then (if round.sends then hear parse c cur round.received s else lose c cur s)
            else if round.reconnects
            then some (again (set_connected c cur true) cur s)
            else change c s)
          (round ∷ [])
  unfolding set_connected
  try-Outcome c cur s round true well early =
      Gives-if round.sends (hear-Outcome c cur s round well early) (
        let (c', k, run, well') = lose-again first c cur s well in
        (again c' k s, run, waits c' k s well' (early, tt)))
  try-Outcome c cur s round false well early =
      Gives-if round.reconnects
        (
          again (set_connected c cur true) cur s,
          refl,
          waits _ cur s (well.0, well.1, length-set c.connected cur true ∙ well.2, well.3)
              (early, tt),
        )
        (let (c', k, run, well') = change-again first c s well.0 well.2 well.3 in
          (again c' k s, run, waits c' k s well' (early, tt)))

  send_round-Outcome :
      (c : Client) (cur : ℕ) (s : Bytes) (round : Round)
      → IsWell first c cur
      → Gives (send_round parse start c cur s round) (round ∷ [])
  unfolding send_round
  send_round-Outcome c cur s round well = elim (Bool-cases (is_late start round)) [
    | inl late ↦ (
      returned c false s,
      rw late refl,
      timed_out c s 0 round refl late ((well.0, well.2), well.3),
    )
    | inr early ↦
        let (up, e) = get_elem?-in_range c.connected cur (omega (arith, well.1, well.2)) in
        let (p, run, outcome) = try-Outcome c cur s round up well early in
        (p, rw early (rw e run), outcome)
  ]

  -- A round before the others.
  later-Outcome :
      (round : Round) (rounds : List Round) {p : Progress}
      → is_late start round ≡ false
      → Outcome parse start first rounds p
      → Outcome parse start first (round ∷ rounds) p
  later-Outcome round rounds early (waits c cur s well all) = waits c cur s well (early, all)
  later-Outcome round rounds early (answered c s i r e ok fit) = answered c s (suc i) r e ok fit
  later-Outcome round rounds early (timed_out c s i r e late fit) =
      timed_out c s (suc i) r e late fit

  -- What a round comes to, and the rounds behind it if it does not return.
  goes_on-Outcome :
      (round : Round) (rounds : List Round) (p : Progress)
      → ((c : Client) (cur : ℕ) (s : Bytes)
          → IsWell first c cur
          → Gives (send_rounds parse start c cur s rounds) rounds)
      → Outcome parse start first (round ∷ []) p
      → Gives
          (elim p [
            | again c cur s ↦ send_rounds parse start c cur s rounds
            | returned c ok s ↦ some (returned c ok s)
          ])
          (round ∷ rounds)
  goes_on-Outcome round rounds p rest (waits c cur s well (early, _)) =
      let (p', run, outcome) = rest c cur s well in
      (p', run, later-Outcome round rounds early outcome)
  goes_on-Outcome round rounds p rest (answered c s zero r e ok fit) =
      (returned c true s, refl, answered c s 0 r e ok fit)
  goes_on-Outcome round rounds p rest (answered c s (suc i) r e ok fit) = cc
  goes_on-Outcome round rounds p rest (timed_out c s zero r e late fit) =
      (returned c false s, refl, timed_out c s 0 r e late fit)
  goes_on-Outcome round rounds p rest (timed_out c s (suc i) r e late fit) = cc

  send_rounds-Outcome :
      (rounds : List Round) (c : Client) (cur : ℕ) (s : Bytes)
      → IsWell first c cur
      → Gives (send_rounds parse start c cur s rounds) rounds
  unfolding send_rounds
  send_rounds-Outcome [] c cur s well = (again c cur s, refl, waits c cur s well tt)
  send_rounds-Outcome (round ∷ rounds) c cur s well =
      let (p, run, outcome) = send_round-Outcome c cur s round well in
      rw run (goes_on-Outcome round rounds p (send_rounds-Outcome rounds) outcome)

-- Let the client's leader be one of its servers, and every server have a flag. For any answers of
-- the sockets and the clock, SendRequest runs without undefined behaviour, and its rounds are attempts
-- one behind the other, from the leader on. A server that is not connected is reconnected, or the next
-- one is tried; one to which sending or from which receiving fails is not connected from then on, and
-- the next one is tried, as it is behind a reply that the leader is wrong; next is the server behind
-- the leader in a circle. So it still waits, and no round has been late; or it returns true with the
-- message of a round that received bytes, perhaps none, which do not parse as a wrong leader; or it
-- returns false, and some round was late: by GetDuration more than 10000000 microseconds behind the
-- start. The client that it leaves is again of this kind, with the same servers, number and request
-- number.
pub send_request-Outcome :
    (parse : Bytes → Reply) (start : Timeval) (c : Client) (rounds : List Round)
    → c.leader_id < length c.servers
    → length c.connected ≡ length c.servers
    → (p : Progress) × (send_request parse start c rounds ≡ some p)
      × Attempts parse start c c.leader_id [] rounds p
      × Outcome parse start c rounds p
unfolding send_request
send_request-Outcome parse start c rounds small same =
    let (p, run, outcome) =
      send_rounds-Outcome parse start c rounds c c.leader_id []
        (small, small, same, (refl, refl, refl)) in
    (p, run, send_rounds-Attempts parse start rounds c c.leader_id [] p run, outcome)
