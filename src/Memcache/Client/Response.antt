-- ===== src/Memcache/Client/Response.antt =====
-- Requests as they go out, and what `read_response_header` makes of each kind of response.
use libevent_async.Prelude.{
  ℕ, ◌<◌, ◌≡◌, ◌≢◌, ◌⊎◌, List, [], ◌∷◌, ◌++◌, arith, length, append-nil, append_assoc, true, false,
  not, ◌&&◌, ◌==◌,
}
use libevent_async.Prelude.Action.{Result, ok, err, runtime_error}
use libevent_async.Prelude.Bytes.{le_bytes}
use libevent_async.Libevent.{EvBuffer, Network}
use libevent_async.Phosg.{Phosg}
use libevent_async.Buffer.Contract.{add-Writes, remove-Reads, drain-Reads}
use libevent_async.Buffer.Exchange.{
  Exchange, Exchange-pure, Exchange-throw, Exchange-bind, Exchange-last, Exchange-reads_all,
  Exchange-writes, Exchange-write_all, Exchange-read_to,
}
use libevent_async.Memcache.Header.{CommandHeader, byteswap}
use libevent_async.Memcache.Header.Wire.{
  IsHeader, wire, length-wire, byteswap_twice, add_header-Writes, remove_header-Reads,
}
use libevent_async.Memcache.Client.{
  send, add_parts, check_status, read_body, check_magic, read_response_header,
}

abbrev pub joined : List (List ℕ) → List ℕ
joined [] = []
joined (part ∷ parts) = part ++ joined parts

-- A response of the server with the body `body`.
pub record IsResponse (h : CommandHeader) (body : List ℕ) : Type 0 where
  pub header : IsHeader h
  pub binary : h.magic ≡ 0x81
  pub size : length body ≡ h.body_size

module _ ⦃P : Phosg⦄ ⦃E : EvBuffer⦄ ⦃N : Network⦄ where
  add_parts-Exchange :
      (parts : List (List ℕ)) (have : List ℕ)
      → Exchange (add_parts parts) have [] [] (have ++ joined parts) (ok tt)
  unfolding add_parts
  add_parts-Exchange [] have = rw append-nil (Exchange-pure tt have)
  add_parts-Exchange (part ∷ parts) have = rw (← append_assoc have part (joined parts)) (
      Exchange-bind _ (Exchange-writes have (add-Writes part))
        (add_parts-Exchange parts (have ++ part)))

  wire_pos : (h : CommandHeader) (more : List ℕ) → 0 < length (wire h ++ more)
  unfolding wire le_bytes
  wire_pos h more = omega arith

  pub send-Exchange :
      (h : CommandHeader) (parts : List (List ℕ))
      → IsHeader h
      → Exchange (send h parts) [] [] (wire h ++ joined parts) [] (ok tt)
  unfolding send
  send-Exchange h parts v = Exchange-bind _ (Exchange-writes [] (add_header-Writes h v)) (
      Exchange-bind _ (add_parts-Exchange parts (wire h))
        (Exchange-write_all (wire h ++ joined parts) (wire_pos h (joined parts))))

  check_status-ok :
      (e1 e2 : ℕ) (h : CommandHeader) (body : List ℕ)
      → h.status ≡ 0
      → Exchange (check_status e1 e2 h) body [] [] body (ok h)
  unfolding check_status
  check_status-ok e1 e2 h body z =
      let t : (h.status == 0) ≡ true = ground arith in rw t (Exchange-pure h body)

  check_status-expected :
      (e1 e2 : ℕ) (h : CommandHeader) (body : List ℕ)
      → length body ≡ h.body_size
      → h.status ≢ 0
      → (h.status ≡ e1) ⊎ (h.status ≡ e2)
      → Exchange (check_status e1 e2 h) body [] [] [] (ok h)
  unfolding check_status
  check_status-expected e1 e2 h body l z e =
      let t : (h.status == 0) ≡ false = ground arith in
      let u : (not (h.status == e1) && not (h.status == e2)) ≡ false = ground arith in
      rw (t, u)
        (Exchange-last _ (Exchange-reads_all _ (drain-Reads h.body_size body l))
          (Exchange-pure h []))

  check_status-error :
      (e1 e2 : ℕ) (h : CommandHeader) (body : List ℕ)
      → length body ≡ h.body_size
      → h.status ≢ 0
      → h.status ≢ e1
      → h.status ≢ e2
      → Exchange
          (check_status e1 e2 h)
          body
          []
          []
          []
          (err (runtime_error (P.server_error h.status body)))
  unfolding check_status
  check_status-error e1 e2 h body l z n1 n2 =
      let t : (h.status == 0) ≡ false = ground arith in
      let u : (not (h.status == e1) && not (h.status == e2)) ≡ true = ground arith in
      rw (t, u)
        (Exchange-last _ (Exchange-reads_all _ (remove-Reads h.body_size body l))
          (Exchange-throw _ []))

  -- The header and the body, and then what the status says.
  response :
      (e1 e2 : ℕ) (h : CommandHeader) (body left : List ℕ) (r : Result CommandHeader)
      → IsResponse h body
      → Exchange (check_status e1 e2 h) body [] [] left r
      → Exchange (read_response_header e1 e2) [] (wire h ++ body) [] left r
  unfolding read_response_header check_magic read_body
  response e1 e2 h body left r v x =
      let binary : (h.magic == 0x81) ≡ true = ground (arith, v.binary) in
      let magic_kept : ((byteswap h).magic == 0x81) ≡ true = unfold byteswap in binary in
      let rest : Exchange (check_magic e1 e2 (byteswap h)) [] body [] left r =
        rw (magic_kept, byteswap_twice h v.header)
          (Exchange-last _ (Exchange-read_to h.body_size [] body (omega (arith, v.size))) x) in
      Exchange-bind _ (Exchange-read_to 24 [] (wire h) (omega (arith, length-wire h v.header)))
        (Exchange-bind _ (Exchange-reads_all _ (remove_header-Reads h v.header)) rest)

  pub read_response_header-ok :
      (e1 e2 : ℕ) (h : CommandHeader) (body : List ℕ)
      → IsResponse h body
      → h.status ≡ 0
      → Exchange (read_response_header e1 e2) [] (wire h ++ body) [] body (ok h)
  read_response_header-ok e1 e2 h body v z =
      response e1 e2 h body body (ok h) v (check_status-ok e1 e2 h body z)

  pub read_response_header-expected :
      (e1 e2 : ℕ) (h : CommandHeader) (body : List ℕ)
      → IsResponse h body
      → h.status ≢ 0
      → (h.status ≡ e1) ⊎ (h.status ≡ e2)
      → Exchange (read_response_header e1 e2) [] (wire h ++ body) [] [] (ok h)
  read_response_header-expected e1 e2 h body v z e =
      response e1 e2 h body [] (ok h) v (check_status-expected e1 e2 h body v.size z e)

  pub read_response_header-error :
      (e1 e2 : ℕ) (h : CommandHeader) (body : List ℕ)
      → IsResponse h body
      → h.status ≢ 0
      → h.status ≢ e1
      → h.status ≢ e2
      → Exchange
          (read_response_header e1 e2)
          []
          (wire h ++ body)
          []
          []
          (err (runtime_error (P.server_error h.status body)))
  read_response_header-error e1 e2 h body v z n1 n2 =
      response e1 e2 h body [] _ v (check_status-error e1 e2 h body v.size z n1 n2)
