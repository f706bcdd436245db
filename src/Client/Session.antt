-- ===== src/Client/Session.antt =====
-- A client of src/client.cpp that makes one request after another.
use shard_kv_raft.Base.{◌≡◌, refl, sym, true, List, [], ◌∷◌, Option, some, ◌>>=◌, ℤ, pos, ◌+ℤ◌}
use mathlib.Core.Path.{subst}
use shard_kv_raft.Text.{Bytes}
use shard_kv_raft.Raft.State.{Operation, Timeval}
use shard_kv_raft.Kv.Requests.{Request, parse_request}
use shard_kv_raft.Client.{
  Client, Reply, Round, Progress, again, returned, get_request_id, put_request, get_request,
  send_request,
}
use shard_kv_raft.Client.Rounds.{IsFit, IsKept, Outcome, waits, answered, timed_out}
use shard_kv_raft.Client.Sending.{send_request-Outcome}
use shard_kv_raft.Client.Asking.{
  Protobuf, Call, put, get, ask, asked, IsCallBack, parse_request-ask,
}

-- A call, when it starts, and what its rounds are answered.
pub record Turn : Type 0 where
  pub call : Call
  pub start : Timeval
  pub rounds : List Round

-- Protobuf parses the messages of the turns back, numbered on from the client's number.
abbrev pub IsReadBack : Protobuf → ℤ → ℤ → List Turn → Type 0
IsReadBack pb client_id id [] = Unit
IsReadBack pb client_id id (turn ∷ turns) =
    IsCallBack pb client_id id turn.call × IsReadBack pb client_id (id +ℤ pos 1) turns

-- One call after another, for as long as they return: the client and the requests sent.
module _ (pb : Protobuf) (parse_reply : Bytes → Reply) where
  unfoldable pub session : Client → List Turn → Option (Client × List Request)
  unfolding ask
  session c [] = some (c, [])
  session c (turn ∷ turns) =
      let (c', request) = ask pb c turn.call in
      do
        p ← send_request parse_reply turn.start c' turn.rounds
        elim p [
          | again c'' cur recv_str ↦ some (c'', request ∷ [])
          | returned c'' ok recv_str ↦ do
            (last, requests) ← session c'' turns
            some (last, request ∷ requests)
        ]

-- The server reads the request as the call.
abbrev pub Reads : Protobuf → ℤ → ℤ → Call → Request → Type 0
Reads pb client_id id call request =
    (fresh : Operation)
    → parse_request pb.parse_outer pb.parse_get pb.parse_put (pb.serialize_outer request) fresh
      ≡ (asked fresh call client_id id, true)

-- The requests of one client are those of its turns, from the first on, numbered on from its own
-- number; the session ends with the turns, or with one that still waits.
pub data Numbered (pb : Protobuf) (client_id : ℤ) : ℤ → List Turn → List Request → Type 0 where
  no_more : {id : ℤ} → Numbered pb client_id id [] []
  last_waits :
      {id : ℤ} {request : Request} {turns : List Turn} (turn : Turn)
      → Reads pb client_id id turn.call request
      → Numbered pb client_id id (turn ∷ turns) (request ∷ [])
  numbered :
      {id : ℤ} {request : Request} {turns : List Turn} {requests : List Request} (turn : Turn)
      → Reads pb client_id id turn.call request
      → Numbered pb client_id (id +ℤ pos 1) turns requests
      → Numbered pb client_id id (turn ∷ turns) (request ∷ requests)

ask-IsFit :
    (pb : Protobuf) (c : Client) (call : Call)
    → IsFit c
    → IsFit (ask pb c call).0
      × ((ask pb c call).0.client_id ≡ c.client_id)
      × ((ask pb c call).0.request_id ≡ c.request_id +ℤ pos 1)
unfolding ask put_request get_request get_request_id
ask-IsFit pb c (put key value) h = (h, refl, refl)
ask-IsFit pb c (get key) h = (h, refl, refl)

module _ (pb : Protobuf) (parse : Bytes → Reply) where
  -- A session of this client runs, and its requests are numbered on.
  abbrev Runs : List Turn → Client → Type 0
  Runs turns c =
      (last : Client) × (requests : List Request) × (session pb parse c turns
        ≡ some (last, requests))
      × Numbered pb c.client_id c.request_id turns requests

  renumber :
      (first c : Client) (turns : List Turn) (requests : List Request)
      → IsKept first c
      → Numbered pb c.client_id c.request_id turns requests
      → Numbered pb first.client_id first.request_id turns requests
  renumber first c turns requests (_, id, request_id) h =
      subst (λ n. Numbered pb n first.request_id turns requests) id
        (subst (λ n. Numbered pb c.client_id n turns requests) request_id h)

  read_on :
      (first c : Client) (turns : List Turn)
      → IsKept first c
      → IsReadBack pb first.client_id first.request_id turns
      → IsReadBack pb c.client_id c.request_id turns
  read_on first c turns (_, id, request_id) h =
      subst (λ n. IsReadBack pb n c.request_id turns) (sym id)
        (subst (λ n. IsReadBack pb first.client_id n turns) (sym request_id) h)

  module _ (first : Client) (turn : Turn) (turns : List Turn) (request : Request) (client_id id : ℤ)
      (rest : (c : Client) → IsFit c → IsReadBack pb c.client_id c.request_id turns → Runs turns c)
      (back : IsReadBack pb first.client_id first.request_id turns)
      (own : first.client_id ≡ client_id) (next : first.request_id ≡ id +ℤ pos 1)
      (reads : Reads pb client_id id turn.call request) where
    -- The turn's request, and those of the turns behind it.
    abbrev GoesOn : Option (Client × List Request) → Type 0
    GoesOn run =
        (last : Client) × (requests : List Request) × (run ≡ some (last, requests))
        × Numbered pb client_id id (turn ∷ turns) requests

    after_return :
        (c : Client)
        → IsFit c
        → IsKept first c
        → GoesOn
            (session pb parse c turns >>= λ (r : Client × List Request). some (r.0, request ∷ r.1))
    after_return c fit kept =
        let (last, requests, run, ids) = rest c fit (read_on first c turns kept back) in
        (
          last,
          request ∷ requests,
          rw run refl,
          numbered turn reads (
              subst (λ n. Numbered pb n (id +ℤ pos 1) turns requests) own
                (subst (λ n. Numbered pb first.client_id n turns requests) next
                  (renumber first c turns requests kept ids))),
        )

    after_send :
        (p : Progress)
        → Outcome parse turn.start first turn.rounds p
        → GoesOn (elim p [
          | again c cur recv_str ↦ some (c, request ∷ [])
          | returned c ok recv_str ↦
              session pb parse c turns >>= λ (r : Client × List Request). some (r.0, request ∷ r.1)
        ])
    after_send p (waits c cur s well early) = (c, request ∷ [], refl, last_waits turn reads)
    after_send p (answered c s i round e ok (fit, kept)) = after_return c fit kept
    after_send p (timed_out c s i round e late (fit, kept)) = after_return c fit kept

  pub session_numbers :
      (turns : List Turn) (c : Client)
      → IsFit c
      → IsReadBack pb c.client_id c.request_id turns
      → (last : Client) × (requests : List Request) × (session pb parse c turns
          ≡ some (last, requests))
        × Numbered pb c.client_id c.request_id turns requests
  unfolding session
  session_numbers [] c fit back = (c, [], refl, no_more)
  session_numbers (turn ∷ turns) c fit (back, backs) =
      let (fit', id, next) = ask-IsFit pb c turn.call fit in
      let (c', request) = ask pb c turn.call in
      let (p, sent, _, outcome) =
        send_request-Outcome parse turn.start c' turn.rounds fit'.0 fit'.1 in
      let on =
        subst (λ n. IsReadBack pb n c'.request_id turns) (sym id)
          (subst (λ n. IsReadBack pb c.client_id n turns) (sym next) backs) in
      let (last, requests, run, ids) =
        after_send c' turn turns request c.client_id c.request_id
          (λ d fit_d back_d. session_numbers turns d fit_d back_d) on id next
          (λ fresh. (parse_request-ask pb c turn.call fresh back).0) p outcome in
      (last, requests, rw sent run, ids)
