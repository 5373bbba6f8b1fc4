-- ===== src/Memcache/Client.antt =====
-- src/Protocols/Memcache/Client.cc: the operations of Client on an open connection and on a closed one.
pub mod Requests
pub mod Response
pub mod Operation
pub mod Get
pub mod Store
pub mod Counter
pub mod Closed
use libevent_async.Prelude.{
  ℕ, zero, suc, ◌+◌, ◌-◌, ◌%◌, ◌^◌, List, [], ◌∷◌, ◌++◌, length, Bool, true, false, not, ◌&&◌, ◌==◌,
  if◌then◌else◌,
}
use libevent_async.Prelude.Action.{
  Action, runtime_error, out_of_range, pure, suspend, throw, ◌>>=◌, ◌>>◌,
}
use libevent_async.Libevent.{EvBuffer, Network}
use libevent_async.Phosg.{Phosg}
use libevent_async.Buffer.{add, remove, drain, remove_u32b, remove_u64b}
use libevent_async.Buffer.Awaiters.{Conn, on_buf, read_to}
use libevent_async.Buffer.Sending.{with_buffer, write_all}
use libevent_async.Prelude.Bytes.{le_bytes}
use libevent_async.Memcache.Header.{CommandHeader, new_header, byteswap, add_header, remove_header}

-- src/Protocols/Memcache/Types.hh, ResponseStatus and Command.
abbrev pub key_not_found : ℕ
key_not_found = 1

abbrev pub key_exists : ℕ
key_exists = 2

abbrev pub uint16 : ℕ → ℕ
uint16 n = n % 2 ^ 16

abbrev pub uint32 : ℕ → ℕ
uint32 n = n % 2 ^ 32

pub record GetResult : Type 0 where
  pub value : List ℕ
  pub cas : ℕ
  pub flags : ℕ
  pub key_found : Bool

-- The headers of the requests, in the machine's byte order.
abbrev pub get_header : List ℕ → ℕ → CommandHeader
get_header key expiration_secs =
    let extras = if expiration_secs == 0 then 0 else 4 in
    record (new_header (if expiration_secs == 0 then 0x00 else 0x1D) (uint16 (length key))
      (uint32 (length key + extras))) { extras_size = extras }

abbrev pub write_key_header : ℕ → List ℕ → List ℕ → ℕ → CommandHeader
write_key_header command key value cas =
    record (new_header command (uint16 (length key)) (uint32 (8 + length key + length value))) {
      extras_size = 8;
      cas = cas;
    }

abbrev pub delete_header : List ℕ → ℕ → CommandHeader
delete_header key cas = record (new_header 0x04 (uint16 (length key)) (uint32 (length key))) {
  cas = cas;
}

abbrev pub increment_header : List ℕ → Bool → CommandHeader
increment_header key decrement =
    record (new_header (if decrement then 0x06 else 0x05) (uint16 (length key))
      (uint32 (0x14 + length key))) { extras_size = 0x14 }

abbrev pub append_header : List ℕ → List ℕ → Bool → CommandHeader
append_header key value at_front =
    new_header (if at_front then 0x0F else 0x0E) (uint16 (length key))
      (uint32 (length key + length value))

abbrev pub touch_header : List ℕ → CommandHeader
touch_header key = record (new_header 0x1C (uint16 (length key)) (uint32 (length key + 4))) {
  extras_size = 4;
}

abbrev pub flush_header : CommandHeader
flush_header = record (new_header 0x08 0 4) { extras_size = 4 }

abbrev pub stat_header : List ℕ → CommandHeader
stat_header key = new_header 0x10 (uint16 (length key)) (uint32 (length key))

module _ ⦃P : Phosg⦄ where
  -- The numbers behind a header, swapped.
  abbrev pub get_parts : List ℕ → ℕ → List (List ℕ)
  get_parts key expiration_secs =
      if expiration_secs == 0 then key ∷ [] else le_bytes 4 (P.bswap 4 expiration_secs) ∷ key ∷ []

  abbrev pub write_key_extras : ℕ → ℕ → List ℕ
  write_key_extras flags expiration_secs =
      le_bytes 4 (P.bswap 4 flags) ++ le_bytes 4 (P.bswap 4 expiration_secs)

  abbrev pub increment_extras : ℕ → ℕ → ℕ → List ℕ
  increment_extras delta initial_value expiration_secs =
      let initial = if initial_value == 0xFFFFFFFFFFFFFFFF then delta else initial_value in
      le_bytes 8 (P.bswap 8 delta)
      ++ (le_bytes 8 (P.bswap 8 initial) ++ le_bytes 4 (P.bswap 4 expiration_secs))

  abbrev pub expiration_extras : ℕ → List ℕ
  expiration_extras expiration_secs = le_bytes 4 (P.bswap 4 expiration_secs)

module _ ⦃P : Phosg⦄ ⦃E : EvBuffer⦄ ⦃N : Network⦄ where
  open N use {Net}

  -- What stands behind the header goes into the buffer part by part.
  unfoldable pub add_parts : List (List ℕ) → Action Conn (Unit {0})
  add_parts [] = pure tt
  add_parts (part ∷ parts) = on_buf (add part) >> add_parts parts

  -- A request: the header, swapped, and the parts; then the buffer is written.
  unfoldable pub send : CommandHeader → List (List ℕ) → Action Conn (Unit {0})
  send header parts = do on_buf (add_header (byteswap header)); add_parts parts; write_all

  unfoldable pub check_status : ℕ → ℕ → CommandHeader → Action Conn CommandHeader
  check_status expected_error_code1 expected_error_code2 header =
      if header.status == 0
      then pure header
      else if not (header.status == expected_error_code1)
          && not (header.status == expected_error_code2)
      then (do
        error_str ← on_buf (remove header.body_size)
        throw (runtime_error (P.server_error header.status error_str)))
      else (do on_buf (drain header.body_size); pure header)

  unfoldable pub read_body : ℕ → ℕ → CommandHeader → Action Conn CommandHeader
  read_body expected_error_code1 expected_error_code2 header = do
    read_to header.body_size
    check_status expected_error_code1 expected_error_code2 header

  unfoldable pub check_magic : ℕ → ℕ → CommandHeader → Action Conn CommandHeader
  check_magic expected_error_code1 expected_error_code2 header =
      if not (header.magic == 0x81)
      then throw (runtime_error "server responded to binary command with non-binary response")
      else read_body expected_error_code1 expected_error_code2 (byteswap header)

  unfoldable pub read_response_header : ℕ → ℕ → Action Conn CommandHeader
  read_response_header expected_error_code1 expected_error_code2 = do
    read_to 24
    header ← on_buf remove_header
    check_magic expected_error_code1 expected_error_code2 header

  -- `header.body_size - header.extras_size` in 32 bits.
  abbrev pub value_size : CommandHeader → ℕ
  value_size header = (header.body_size + 2 ^ 32 - header.extras_size) % 2 ^ 32

  unfoldable pub finish_get : CommandHeader → Action Conn GetResult
  finish_get header =
      if not (header.status == 0)
      then pure (record { value = []; cas = 0; flags = 0; key_found = false })
      else if not (header.extras_size == 4)
      then throw (runtime_error "server responded to GET without flags")
      else (do
        flags ← on_buf remove_u32b
        value ← on_buf (remove (value_size header))
        pure (record { value = value; cas = header.cas; flags = flags; key_found = true }))

  unfoldable pub get_on : List ℕ → ℕ → Action Conn GetResult
  get_on key expiration_secs = do
    send (get_header key expiration_secs) (get_parts key expiration_secs)
    header ← read_response_header key_not_found 0
    finish_get header

  unfoldable pub finish_write : CommandHeader → Action Conn Bool
  finish_write header =
      if not (header.status == 0)
      then pure false
      else if not (header.body_size == 0)
      then throw (runtime_error "write command returned response data after header")
      else pure true

  unfoldable pub write_key_on : ℕ → ℕ → ℕ → List ℕ → List ℕ → ℕ → ℕ → ℕ → Action Conn Bool
  write_key_on command expected_error_code1 expected_error_code2 key value flags expiration_secs
        cas =
      do
        send (write_key_header command key value cas)
            (write_key_extras flags expiration_secs ∷ key ∷ value ∷ [])
        header ← read_response_header expected_error_code1 expected_error_code2
        finish_write header

  unfoldable pub finish_delete : CommandHeader → Action Conn Bool
  finish_delete header =
      if not (header.status == 0)
      then pure false
      else if not (header.body_size == 0)
      then throw (runtime_error "delete command returned response data after header")
      else pure true

  unfoldable pub delete_key_on : List ℕ → ℕ → Action Conn Bool
  delete_key_on key cas = do
    send (delete_header key cas) (key ∷ [])
    header ← read_response_header key_exists 0
    finish_delete header

  unfoldable pub finish_increment : CommandHeader → Action Conn ℕ
  finish_increment header =
      if not (header.status == 0)
      then throw (out_of_range "key not found")
      else if not (header.body_size == 8)
      then throw (runtime_error "incr/decr command returned response data after header")
      else on_buf remove_u64b

  unfoldable pub increment_on : List ℕ → ℕ → ℕ → ℕ → Bool → Action Conn ℕ
  increment_on key delta initial_value expiration_secs decrement = do
    send (increment_header key decrement)
        (increment_extras delta initial_value expiration_secs ∷ key ∷ [])
    header ← read_response_header key_not_found 0
    finish_increment header

  -- A command that waits for its response and looks no further.
  abbrev pub acknowledged : CommandHeader → List (List ℕ) → Action Conn (Unit {0})
  acknowledged header parts = do send header parts; response ← read_response_header 0 0; pure tt

  unfoldable pub append_on : List ℕ → List ℕ → Bool → Action Conn (Unit {0})
  append_on key value at_front = acknowledged (append_header key value at_front) (key ∷ value ∷ [])

  unfoldable pub flush_on : ℕ → Action Conn (Unit {0})
  flush_on expiration_secs = acknowledged flush_header (expiration_extras expiration_secs ∷ [])

  unfoldable pub touch_on : List ℕ → ℕ → Action Conn (Unit {0})
  touch_on key expiration_secs =
      acknowledged (touch_header key) (expiration_extras expiration_secs ∷ key ∷ [])

  -- Without the time that it takes.
  unfoldable pub noop_on : Action Conn (Unit {0})
  noop_on = acknowledged (new_header 0x0A 0 0) []

  unfoldable pub version_on : Action Conn (List ℕ)
  version_on = do
    send (new_header 0x0B 0 0) []
    header ← read_response_header 0 0
    on_buf (remove header.body_size)

  -- A connection: whether `fd` is open, and its socket.
  abbrev pub Session : Type 0
  Session = Bool × Net

  unfoldable pub assert_conn_open : Action Session (Unit {0})
  assert_conn_open (true, s) = (pure tt) (true, s)
  assert_conn_open (false, s) =
      throw (runtime_error "cannot execute command on non-open connection") (false, s)

  abbrev pub close : Action Session (Unit {0})
  close (o, s) = (pure tt) (false, s)

  -- The body of an operation, with its own buffer.
  unfoldable pub on_socket : {A : Type 0} → Action Conn A → Action Session A
  on_socket m (o, s) = let (r, s') = with_buffer m s in (r, (o, s'))

  abbrev pub operation : {A : Type 0} → Action Conn A → Action Session A
  operation m = assert_conn_open >> on_socket m

  unfoldable pub quit : Action Session (Unit {0})
  quit (false, s) = (pure tt) (false, s)
  quit (true, s) = (on_socket (send (new_header 0x07 0 0) []) >> close) (true, s)

  unfoldable pub get : List ℕ → ℕ → Action Session GetResult
  get key expiration_secs = operation (get_on key expiration_secs)

  unfoldable pub write_key : ℕ → ℕ → ℕ → List ℕ → List ℕ → ℕ → ℕ → ℕ → Action Session Bool
  write_key command expected_error_code1 expected_error_code2 key value flags expiration_secs cas =
      operation (
        write_key_on command expected_error_code1 expected_error_code2 key value flags
          expiration_secs cas)

  unfoldable pub set : List ℕ → List ℕ → ℕ → ℕ → ℕ → Action Session Bool
  set key value flags expiration_secs cas =
      write_key 0x01 key_exists 0 key value flags expiration_secs cas

  unfoldable pub add_key : List ℕ → List ℕ → ℕ → ℕ → Action Session Bool
  add_key key value flags expiration_secs =
      write_key 0x02 key_exists 0 key value flags expiration_secs 0

  unfoldable pub replace : List ℕ → List ℕ → ℕ → ℕ → ℕ → Action Session Bool
  replace key value flags expiration_secs cas =
      write_key 0x03 key_not_found key_exists key value flags expiration_secs cas

  unfoldable pub delete_key : List ℕ → ℕ → Action Session Bool
  delete_key key cas = operation (delete_key_on key cas)

  unfoldable pub increment : List ℕ → ℕ → ℕ → ℕ → Bool → Action Session ℕ
  increment key delta initial_value expiration_secs decrement =
      operation (increment_on key delta initial_value expiration_secs decrement)

  unfoldable pub append : List ℕ → List ℕ → Bool → Action Session (Unit {0})
  append key value at_front = operation (append_on key value at_front)

  unfoldable pub flush : ℕ → Action Session (Unit {0})
  flush expiration_secs = operation (flush_on expiration_secs)

  unfoldable pub touch : List ℕ → ℕ → Action Session (Unit {0})
  touch key expiration_secs = operation (touch_on key expiration_secs)

  unfoldable pub noop : Action Session (Unit {0})
  noop = operation noop_on

  unfoldable pub version : Action Session (List ℕ)
  version = operation version_on
