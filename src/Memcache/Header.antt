-- ===== src/Memcache/Header.antt =====
-- src/Protocols/Memcache/Types.cc and Types.hh: CommandHeader.
pub mod Wire
use libevent_async.Prelude.{ℕ, ◌+◌, ◌≡◌, ◌<◌, List, ◌++◌, take, drop}
use libevent_async.Prelude.Bytes.{le_bytes, of_le}
use libevent_async.Prelude.Action.{Action, pure, ◌>>=◌}
use libevent_async.Libevent.{EvBuffer}
use libevent_async.Phosg.{Phosg}
use libevent_async.Buffer.{add, remove}

-- `virtual_bucket_id` and `status` are one field.
pub record CommandHeader : Type 0 where
  pub magic : ℕ
  pub opcode : ℕ
  pub key_size : ℕ
  pub extras_size : ℕ
  pub data_type : ℕ
  pub status : ℕ
  pub body_size : ℕ
  pub opaque_id : ℕ
  pub cas : ℕ

-- The constructor, with the fields that every caller sets.
abbrev pub new_header : ℕ → ℕ → ℕ → CommandHeader
new_header opcode key_size body_size = record {
  magic = 0x80;
  opcode = opcode;
  key_size = key_size;
  extras_size = 0;
  data_type = 0;
  status = 0;
  body_size = body_size;
  opaque_id = 0;
  cas = 0;
}

unfoldable pub byteswap : ⦃P : Phosg⦄ → CommandHeader → CommandHeader
byteswap ⦃P⦄ h = record h {
  key_size = P.bswap 2 h.key_size;
  status = P.bswap 2 h.status;
  body_size = P.bswap 4 h.body_size;
  opaque_id = P.bswap 4 h.opaque_id;
  cas = P.bswap 8 h.cas;
}

-- The structure in memory; it is packed.
abbrev pub memory : CommandHeader → List ℕ
memory h =
    le_bytes 1 h.magic
    ++ (le_bytes 1 h.opcode
        ++ (le_bytes 2 h.key_size
            ++ (le_bytes 1 h.extras_size
                ++ (le_bytes 1 h.data_type
                    ++ (le_bytes 2 h.status
                        ++ (le_bytes 4 h.body_size
                            ++ (le_bytes 4 h.opaque_id ++ le_bytes 8 h.cas)))))))

-- A field of `n` bytes, and what is behind it.
unfoldable pub field : ℕ → List ℕ → ℕ × List ℕ
field n bytes = (of_le (take n bytes), drop n bytes)

abbrev pub of_memory : List ℕ → CommandHeader
of_memory bytes =
    let (magic, b1) = field 1 bytes in
    let (opcode, b2) = field 1 b1 in
    let (key_size, b3) = field 2 b2 in
    let (extras_size, b4) = field 1 b3 in
    let (data_type, b5) = field 1 b4 in
    let (status, b6) = field 2 b5 in
    let (body_size, b7) = field 4 b6 in
    let (opaque_id, b8) = field 4 b7 in
    let (cas, b9) = field 8 b8 in
    record {
      magic = magic;
      opcode = opcode;
      key_size = key_size;
      extras_size = extras_size;
      data_type = data_type;
      status = status;
      body_size = body_size;
      opaque_id = opaque_id;
      cas = cas;
    }

module _ ⦃E : EvBuffer⦄ where
  open E use {Buf}

  -- `buf.add_reference(&header, sizeof(header))`.
  unfoldable pub add_header : CommandHeader → Action Buf (Unit {0})
  add_header h = add (memory h)

  -- `buf.remove<CommandHeader>()`.
  unfoldable pub remove_header : Action Buf CommandHeader
  remove_header = do bytes ← remove 24; pure (of_memory bytes)
