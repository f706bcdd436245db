-- ===== src/Tests/Wires.antt =====
-- A format for the messages between a client and a server: numbers as two codes, and each field but
-- the last behind its length.
use shard_kv_raft.Base.{
  ◌≡◌, refl, ap, [], ◌∷◌, ◌++◌, ℤ, pos, pos_part, neg_part, sub_ℕ, length, take, drop, arith,
  eq_of_parts,
}
use shard_kv_raft.Text.{Bytes}
use shard_kv_raft.Kv.Requests.{Request, PutRequest, GetRequest}
use shard_kv_raft.Client.Asking.{Protobuf}

abbrev field : Bytes → Bytes → Bytes
field a rest = length a ∷ (a ++ rest)

abbrev first : Bytes → Bytes
first [] = []
first (n ∷ rest) = take n rest

abbrev behind : Bytes → Bytes
behind [] = []
behind (n ∷ rest) = drop n rest

take-append : (a rest : Bytes) → take (length a) (a ++ rest) ≡ a
take-append [] rest = refl
take-append (x ∷ a) rest = ap (λ t. x ∷ t) (take-append a rest)

drop-append : (a rest : Bytes) → drop (length a) (a ++ rest) ≡ rest
drop-append [] rest = refl
drop-append (x ∷ a) rest = drop-append a rest

abbrev number : ℤ → Bytes → Bytes
number z rest = pos_part z ∷ neg_part z ∷ rest

abbrev numeral : Bytes → ℤ
numeral (p ∷ n ∷ rest) = sub_ℕ p n
numeral rest = pos 0

abbrev behind_number : Bytes → Bytes
behind_number (p ∷ n ∷ rest) = rest
behind_number rest = []

numeral-number : (z : ℤ) → sub_ℕ (pos_part z) (neg_part z) ≡ z
numeral-number z = eq_of_parts _ _ (ground arith)

pub wire_outer : Request → Bytes
wire_outer m = field m.kind m.request_msg

pub read_outer : Bytes → Request
read_outer b = record { kind = first b; request_msg = behind b }

pub read_outer-wire_outer : (m : Request) → read_outer (wire_outer m) ≡ m
unfolding read_outer wire_outer
read_outer-wire_outer m =
    rw (take-append m.kind m.request_msg, drop-append m.kind m.request_msg) refl

pub wire_get : GetRequest → Bytes
wire_get m = number m.client_id (number m.request_id m.key)

pub read_get : Bytes → GetRequest
read_get b = record {
  client_id = numeral b;
  request_id = numeral (behind_number b);
  key = behind_number (behind_number b);
}

pub read_get-wire_get : (m : GetRequest) → read_get (wire_get m) ≡ m
unfolding read_get wire_get
read_get-wire_get m = rw (numeral-number m.client_id, numeral-number m.request_id) refl

pub wire_put : PutRequest → Bytes
wire_put m = number m.client_id (number m.request_id (field m.key (field m.op m.value)))

pub read_put : Bytes → PutRequest
read_put b =
    let rest = behind_number (behind_number b) in
    record {
      client_id = numeral b;
      request_id = numeral (behind_number b);
      key = first rest;
      op = first (behind rest);
      value = behind (behind rest);
    }

pub read_put-wire_put : (m : PutRequest) → read_put (wire_put m) ≡ m
unfolding read_put wire_put
read_put-wire_put m =
    rw (numeral-number m.client_id, numeral-number m.request_id)
      (rw (take-append m.key (field m.op m.value), drop-append m.key (field m.op m.value))
        (rw (take-append m.op m.value, drop-append m.op m.value) refl))

abbrev pub plain : Protobuf
plain = record {
  serialize_outer = wire_outer;
  parse_outer = read_outer;
  serialize_put = wire_put;
  parse_put = read_put;
  serialize_get = wire_get;
  parse_get = read_get;
}
