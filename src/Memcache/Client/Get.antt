-- ===== src/Memcache/Client/Get.antt =====
-- `get`: what it sends, and what it returns for each kind of response.
use libevent_async.Prelude.{
  ℕ, ◌+◌, ◌<◌, ◌^◌, ◌≡◌, ◌≢◌, ◌%◌, refl, inl, inr, List, [], ◌++◌, arith, length, append-nil,
  Bool-cases, true, false, ◌==◌,
}
use libevent_async.Prelude.Bytes.{be_bytes}
use libevent_async.Prelude.Action.{ok, err, runtime_error}
use libevent_async.Libevent.{EvBuffer, Network}
use libevent_async.Phosg.{Phosg}
use libevent_async.Buffer.Contract.{remove-Reads, remove_be-Reads}
use libevent_async.Buffer.Exchange.{
  Exchange, Exchange-pure, Exchange-bind, Exchange-reads, Exchange-reads_all,
}
use libevent_async.Memcache.Header.{CommandHeader}
use libevent_async.Memcache.Header.Wire.{IsHeader, wire}
use libevent_async.Memcache.Client.{
  get_header, get_parts, finish_get, get_on, get, key_not_found, value_size,
}
use libevent_async.Memcache.Client.Requests.{wire-request_head, get_request}
use libevent_async.Memcache.Client.Response.{
  joined, IsResponse, read_response_header-ok, read_response_header-expected,
  read_response_header-error,
}
use libevent_async.Memcache.Client.Operation.{Answers, answered, refused, operation_lem}

get_header-IsHeader :
    (key : List ℕ) (expiration_secs : ℕ) → IsHeader (get_header key expiration_secs)
get_header-IsHeader key expiration_secs = record {
  magic_fits = omega arith;
  opcode_fits = ground arith;
  key_size_fits = omega arith;
  extras_size_fits = ground arith;
  data_type_fits = omega arith;
  status_fits = omega arith;
  body_size_fits = omega arith;
  opaque_fits = omega arith;
  cas_fits = omega arith;
}

module _ ⦃P : Phosg⦄ where
  get_parts-joined :
      (key : List ℕ) (expiration_secs : ℕ)
      → length key < 2 ^ 16
      → expiration_secs < 2 ^ 32
      → wire (get_header key expiration_secs) ++ joined (get_parts key expiration_secs)
        ≡ get_request key expiration_secs
  unfolding get_request
  get_parts-joined key expiration_secs y h =
      let plain =
        wire-request_head 0x00 (length key) 0 (length key) 0 (omega arith) (omega arith) in
      let timed =
        wire-request_head 0x1D (length key) 4 (4 + length key) 0 (omega arith) (omega arith) in
      let key_size : length key % 2 ^ 16 ≡ length key = omega arith in
      let body : (length key + 0) % 2 ^ 32 ≡ length key = omega arith in
      let timed_body : (length key + 4) % 2 ^ 32 ≡ 4 + length key = omega arith in
      elim (Bool-cases (expiration_secs == 0)) [
        | inl z ↦ rw (z, append-nil, key_size, body, plain) refl
        | inr z ↦
            rw
              (
                z,
                append-nil,
                P.le_bytes-bswap 4 expiration_secs (omega arith),
                key_size,
                timed_body,
                timed,
              )
              refl
      ]

module _ ⦃P : Phosg⦄ ⦃E : EvBuffer⦄ ⦃N : Network⦄ where
  open N use {Net, incoming, IsHealthy}

  finish_get-found :
      (h : CommandHeader) (flags : ℕ) (value : List ℕ)
      → h.status ≡ 0
      → h.extras_size ≡ 4
      → h.body_size ≡ 4 + length value
      → h.body_size < 2 ^ 32
      → flags < 2 ^ 32
      → Exchange
          (finish_get h)
          (be_bytes 4 flags ++ value)
          []
          []
          []
          (ok (record { value = value; cas = h.cas; flags = flags; key_found = true }))
  unfolding finish_get
  finish_get-found h flags value z x b f l =
      let t : (h.status == 0) ≡ true = ground arith in
      let u : (h.extras_size == 4) ≡ true = ground arith in
      let n : length value ≡ value_size h = omega arith in
      rw (t, u)
        (Exchange-bind _ (Exchange-reads _ value (remove_be-Reads 4 flags (omega arith))) (
          Exchange-bind _ (Exchange-reads_all _ (remove-Reads (value_size h) value n))
            (Exchange-pure _ [])))

  -- `get` of a key that the server has: the request, with an expiration time or without, goes out byte
  -- by byte as the protocol has it, and the value comes back with its flags and its version, whatever
  -- stands behind the response. The key has a length that the protocol has room for.
  pub get-found :
      (key : List ℕ) (expiration_secs : ℕ) (h : CommandHeader) (flags : ℕ) (value rest : List ℕ)
      (s : Net)
      → length key < 2 ^ 16
      → expiration_secs < 2 ^ 32
      → IsResponse h (be_bytes 4 flags ++ value)
      → h.status ≡ 0
      → h.extras_size ≡ 4
      → h.body_size ≡ 4 + length value
      → flags < 2 ^ 32
      → IsHealthy s
      → incoming s ≡ (wire h ++ (be_bytes 4 flags ++ value)) ++ rest
      → Answers
          (get key expiration_secs (true, s))
          (ok (record { value = value; cas = h.cas; flags = flags; key_found = true }))
          rest
          (get_request key expiration_secs)
          s
  unfolding get get_on
  get-found key expiration_secs h flags value rest s y k v z x b f g i =
      operation_lem _
        (answered key_not_found 0 (get_header key expiration_secs) h (get_parts key expiration_secs)
          finish_get (get_header-IsHeader key expiration_secs)
          (read_response_header-ok key_not_found 0 h _ v z)
          (finish_get-found h flags value z x b v.header.body_size_fits f))
        (get_parts-joined key expiration_secs y k) s rest g i

  finish_get-missing :
      (h : CommandHeader)
      → h.status ≡ key_not_found
      → Exchange
          (finish_get h)
          []
          []
          []
          []
          (ok (record { value = []; cas = 0; flags = 0; key_found = false }))
  unfolding finish_get
  finish_get-missing h z =
      let t : (h.status == 0) ≡ false = ground arith in rw t (Exchange-pure _ [])

  -- `get` of a key that the server does not have: no exception, and the server's message is dropped.
  pub get-missing :
      (key : List ℕ) (expiration_secs : ℕ) (h : CommandHeader) (message rest : List ℕ) (s : Net)
      → length key < 2 ^ 16
      → expiration_secs < 2 ^ 32
      → IsResponse h message
      → h.status ≡ key_not_found
      → IsHealthy s
      → incoming s ≡ (wire h ++ message) ++ rest
      → Answers
          (get key expiration_secs (true, s))
          (ok (record { value = []; cas = 0; flags = 0; key_found = false }))
          rest
          (get_request key expiration_secs)
          s
  unfolding get get_on
  get-missing key expiration_secs h message rest s y k v z g i =
      operation_lem _
        (answered key_not_found 0 (get_header key expiration_secs) h (get_parts key expiration_secs)
          finish_get (get_header-IsHeader key expiration_secs)
          (read_response_header-expected key_not_found 0 h _ v (omega arith) (inl z))
          (finish_get-missing h z))
        (get_parts-joined key expiration_secs y k) s rest g i

  -- Any other status of `get` is an exception with the server's message, and the connection is ready
  -- for the next request.
  pub get-error :
      (key : List ℕ) (expiration_secs : ℕ) (h : CommandHeader) (message rest : List ℕ) (s : Net)
      → length key < 2 ^ 16
      → expiration_secs < 2 ^ 32
      → IsResponse h message
      → h.status ≢ 0
      → h.status ≢ key_not_found
      → IsHealthy s
      → incoming s ≡ (wire h ++ message) ++ rest
      → Answers
          (get key expiration_secs (true, s))
          (err (runtime_error (P.server_error h.status message)))
          rest
          (get_request key expiration_secs)
          s
  unfolding get get_on
  get-error key expiration_secs h message rest s y k v z n g i =
      operation_lem _
        (refused key_not_found 0 (get_header key expiration_secs) (get_parts key expiration_secs)
          finish_get (get_header-IsHeader key expiration_secs)
          (read_response_header-error key_not_found 0 h _ v z n z))
        (get_parts-joined key expiration_secs y k) s rest g i
