-- ===== src/Memcache/Client/Store.antt =====
-- `write_key`, which `set`, `add` and `replace` call: what it sends, and what it returns for each kind of response.
use libevent_async.Prelude.{
  ℕ, ◌<◌, ◌^◌, ◌≡◌, ◌≢◌, ◌+◌, ◌%◌, length, refl, sym, ap, ◌∙◌, ◌⊎◌, List, [], ◌∷◌, ◌++◌, arith,
  append-nil, true, false, ◌==◌,
}
use libevent_async.Prelude.Action.{ok}
use libevent_async.Libevent.{EvBuffer, Network}
use libevent_async.Phosg.{Phosg}
use libevent_async.Buffer.Exchange.{Exchange, Exchange-pure}
use libevent_async.Memcache.Header.{CommandHeader}
use libevent_async.Memcache.Header.Wire.{IsHeader, wire}
use libevent_async.Memcache.Client.{
  write_key_header, write_key_extras, finish_write, write_key_on, write_key,
}
use libevent_async.Memcache.Client.Requests.{wire-request_head, write_key_request}
use libevent_async.Memcache.Client.Response.{
  joined, IsResponse, read_response_header-ok, read_response_header-expected,
}
use libevent_async.Memcache.Client.Operation.{Answers, answered, operation_lem}

write_key_header-IsHeader :
    (command : ℕ) (key value : List ℕ) (cas : ℕ)
    → command < 256
    → cas < 2 ^ 64
    → IsHeader (write_key_header command key value cas)
write_key_header-IsHeader command key value cas h k = record {
  magic_fits = omega arith;
  opcode_fits = h;
  key_size_fits = omega arith;
  extras_size_fits = omega arith;
  data_type_fits = omega arith;
  status_fits = omega arith;
  body_size_fits = omega arith;
  opaque_fits = omega arith;
  cas_fits = k;
}

module _ ⦃P : Phosg⦄ where
  write_parts-joined :
      (command : ℕ) (key value : List ℕ) (flags expiration_secs cas : ℕ)
      → command < 256
      → length key < 2 ^ 16
      → 8 + length key + length value < 2 ^ 32
      → flags < 2 ^ 32
      → expiration_secs < 2 ^ 32
      → wire (write_key_header command key value cas)
          ++ joined (write_key_extras flags expiration_secs ∷ key ∷ value ∷ [])
        ≡ write_key_request command key value flags expiration_secs cas
  unfolding write_key_request
  write_parts-joined command key value flags expiration_secs cas c y w h k =
      let head =
        wire-request_head command (length key) 8 (8 + length key + length value) cas c
          (omega arith) in
      let key_size : length key % 2 ^ 16 ≡ length key = omega arith in
      let body : (8 + length key + length value) % 2 ^ 32 ≡ 8 + length key + length value =
        omega arith in
      rw
        (
          append-nil,
          P.le_bytes-bswap 4 flags (omega arith),
          P.le_bytes-bswap 4 expiration_secs (omega arith),
          key_size,
          body,
          head,
        )
        refl

module _ ⦃P : Phosg⦄ ⦃E : EvBuffer⦄ ⦃N : Network⦄ where
  open N use {Net, incoming, IsHealthy}

  finish_write-stored :
      (h : CommandHeader)
      → h.status ≡ 0
      → h.body_size ≡ 0
      → Exchange (finish_write h) [] [] [] [] (ok true)
  unfolding finish_write
  finish_write-stored h z b =
      let t : (h.status == 0) ≡ true = ground arith in
      let n : (h.body_size == 0) ≡ true = ground arith in rw (t, n) (Exchange-pure true [])

  finish_write-refused :
      (h : CommandHeader) → h.status ≢ 0 → Exchange (finish_write h) [] [] [] [] (ok false)
  unfolding finish_write
  finish_write-refused h z =
      let t : (h.status == 0) ≡ false = ground arith in rw t (Exchange-pure false [])

  -- `write_key`, which `set`, `add` and `replace` call, sends the key and the value with the flags, the
  -- expiration time and the version, byte by byte as the protocol has them, and returns true for a
  -- response without a body. The key and the value have the lengths that the protocol has room for.
  pub write_key-stored :
      (command e1 e2 : ℕ) (key value : List ℕ) (flags expiration_secs cas : ℕ) (h : CommandHeader)
      (rest : List ℕ) (s : Net)
      → command < 256
      → length key < 2 ^ 16
      → 8 + length key + length value < 2 ^ 32
      → flags < 2 ^ 32
      → expiration_secs < 2 ^ 32
      → cas < 2 ^ 64
      → IsResponse h []
      → h.status ≡ 0
      → IsHealthy s
      → incoming s ≡ wire h ++ rest
      → Answers
          (write_key command e1 e2 key value flags expiration_secs cas (true, s))
          (ok true)
          rest
          (write_key_request command key value flags expiration_secs cas)
          s
  unfolding write_key write_key_on
  write_key-stored command e1 e2 key value flags expiration_secs cas h rest s c y w f k l v z g i =
      operation_lem _
        (answered e1 e2 (write_key_header command key value cas) h
          (write_key_extras flags expiration_secs ∷ key ∷ value ∷ []) finish_write
          (write_key_header-IsHeader command key value cas c l)
          (read_response_header-ok e1 e2 h [] v z) (finish_write-stored h z (sym v.size)))
        (write_parts-joined command key value flags expiration_secs cas c y w f k) s rest g
        (i ∙ ap (λ (l : List ℕ). l ++ rest) (sym (append-nil (wire h))))

  -- It returns false for the two error codes that it is told to expect, and drops the server's message.
  pub write_key-refused :
      (command e1 e2 : ℕ) (key value : List ℕ) (flags expiration_secs cas : ℕ) (h : CommandHeader)
      (message rest : List ℕ) (s : Net)
      → command < 256
      → length key < 2 ^ 16
      → 8 + length key + length value < 2 ^ 32
      → flags < 2 ^ 32
      → expiration_secs < 2 ^ 32
      → cas < 2 ^ 64
      → IsResponse h message
      → h.status ≢ 0
      → (h.status ≡ e1) ⊎ (h.status ≡ e2)
      → IsHealthy s
      → incoming s ≡ (wire h ++ message) ++ rest
      → Answers
          (write_key command e1 e2 key value flags expiration_secs cas (true, s))
          (ok false)
          rest
          (write_key_request command key value flags expiration_secs cas)
          s
  unfolding write_key write_key_on
  write_key-refused command e1 e2 key value flags expiration_secs cas h message rest s c y w f k l v
        z e g i =
      operation_lem _
        (answered e1 e2 (write_key_header command key value cas) h
          (write_key_extras flags expiration_secs ∷ key ∷ value ∷ []) finish_write
          (write_key_header-IsHeader command key value cas c l)
          (read_response_header-expected e1 e2 h message v z e) (finish_write-refused h z))
        (write_parts-joined command key value flags expiration_secs cas c y w f k) s rest g i
