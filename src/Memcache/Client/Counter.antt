-- ===== src/Memcache/Client/Counter.antt =====
-- `increment`: what it sends, and what it returns for each kind of response.
use libevent_async.Prelude.{
  ℕ, ◌<◌, ◌^◌, ◌≡◌, inl, inr, List, [], ◌∷◌, ◌++◌, arith, append-nil, Bool, Bool-cases, true, false,
  ◌==◌, if◌then◌else◌,
}
use libevent_async.Prelude.Bytes.{be_bytes}
use libevent_async.Prelude.Action.{err, out_of_range}
use libevent_async.Libevent.{EvBuffer, Network}
use libevent_async.Phosg.{Phosg}
use libevent_async.Buffer.Exchange.{Exchange, Exchange-throw}
use libevent_async.Memcache.Header.{CommandHeader}
use libevent_async.Memcache.Header.Wire.{IsHeader, wire}
use libevent_async.Memcache.Client.{
  increment_header, increment_extras, finish_increment, increment_on, increment, key_not_found,
}
use libevent_async.Memcache.Client.Response.{joined, IsResponse, read_response_header-expected}
use libevent_async.Memcache.Client.Operation.{Answers, answered, operation_lem}

-- The request that the protocol asks for; an initial value of all ones stands for the delta.
unfoldable pub increment_request : List ℕ → ℕ → ℕ → ℕ → Bool → List ℕ
increment_request key delta initial_value expiration_secs decrement =
    let initial = if initial_value == 0xFFFFFFFFFFFFFFFF then delta else initial_value in
    wire (increment_header key decrement)
    ++ ((be_bytes 8 delta ++ (be_bytes 8 initial ++ be_bytes 4 expiration_secs)) ++ key)

increment_header-IsHeader :
    (key : List ℕ) (decrement : Bool) → IsHeader (increment_header key decrement)
increment_header-IsHeader key decrement = record {
  magic_fits = omega arith;
  opcode_fits = ground arith;
  key_size_fits = omega arith;
  extras_size_fits = omega arith;
  data_type_fits = omega arith;
  status_fits = omega arith;
  body_size_fits = omega arith;
  opaque_fits = omega arith;
  cas_fits = omega arith;
}

module _ ⦃P : Phosg⦄ where
  increment_parts-joined :
      (key : List ℕ) (delta initial_value expiration_secs : ℕ) (decrement : Bool)
      → delta < 2 ^ 64
      → initial_value < 2 ^ 64
      → expiration_secs < 2 ^ 32
      → wire (increment_header key decrement)
          ++ joined (increment_extras delta initial_value expiration_secs ∷ key ∷ [])
        ≡ increment_request key delta initial_value expiration_secs decrement
  unfolding increment_request
  increment_parts-joined key delta initial_value expiration_secs decrement a b c =
      elim (Bool-cases (initial_value == 0xFFFFFFFFFFFFFFFF)) [
        | inl z ↦ rw (
          z,
          append-nil,
          P.le_bytes-bswap 8 delta (omega arith),
          P.le_bytes-bswap 4 expiration_secs (omega arith),
        )
        | inr z ↦ rw (
          z,
          append-nil,
          P.le_bytes-bswap 8 delta (omega arith),
          P.le_bytes-bswap 8 initial_value (omega arith),
          P.le_bytes-bswap 4 expiration_secs (omega arith),
        )
      ]

module _ ⦃P : Phosg⦄ ⦃E : EvBuffer⦄ ⦃N : Network⦄ where
  open N use {Net, incoming, IsHealthy}

  finish_increment-missing :
      (h : CommandHeader)
      → h.status ≡ key_not_found
      → Exchange (finish_increment h) [] [] [] [] (err (out_of_range "key not found"))
  unfolding finish_increment
  finish_increment-missing h z =
      let t : (h.status == 0) ≡ false = ground arith in rw t (Exchange-throw _ [])

  -- For a key that the server does not have it throws "key not found", and drops the server's message.
  pub increment-missing :
      (key : List ℕ) (delta initial_value expiration_secs : ℕ) (decrement : Bool)
      (h : CommandHeader) (message rest : List ℕ) (s : Net)
      → delta < 2 ^ 64
      → initial_value < 2 ^ 64
      → expiration_secs < 2 ^ 32
      → IsResponse h message
      → h.status ≡ key_not_found
      → IsHealthy s
      → incoming s ≡ (wire h ++ message) ++ rest
      → Answers
          (increment key delta initial_value expiration_secs decrement (true, s))
          (err (out_of_range "key not found"))
          rest
          (increment_request key delta initial_value expiration_secs decrement)
          s
  unfolding increment increment_on
  increment-missing key delta initial_value expiration_secs decrement h message rest s a b c v z g
        i =
      operation_lem _
        (answered key_not_found 0 (increment_header key decrement) h
          (increment_extras delta initial_value expiration_secs ∷ key ∷ []) finish_increment
          (increment_header-IsHeader key decrement)
          (read_response_header-expected key_not_found 0 h _ v (omega arith) (inl z))
          (finish_increment-missing h z))
        (increment_parts-joined key delta initial_value expiration_secs decrement a b c) s rest g i
