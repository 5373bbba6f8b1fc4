-- ===== src/MySql/ProtocolBuffer.antt =====
-- src/Protocols/MySQL/ProtocolBuffer.cc, class ProtocolBuffer: the integer and string types of the
-- protocol, over Buffer. As its header file says, the machine is little-endian.
pub mod Writers
pub mod Readers
pub mod RoundTrips
use libevent_async.Prelude.{
  ℕ, zero, suc, ◌+◌, ◌-◌, List, [], ◌∷◌, ◌++◌, length, ltb, leb, ◌==◌, if◌then◌else◌, bit_and,
}
use libevent_async.Prelude.Bytes.{le_bytes, of_le}
use libevent_async.Prelude.Action.{Action, runtime_error, pure, throw, ◌>>=◌, ◌>>◌}
use libevent_async.Libevent.{EvBuffer}
use libevent_async.Buffer.{
  get_length, add, remove, readln, add_u8, add_u16l, add_u32l, add_u64l, remove_le, remove_u8,
  remove_u16l, remove_u64l,
}

module _ ⦃E : EvBuffer⦄ where
  open E use {Buf}

  -- `this->remove(&v, 3)` into a zeroed `uint32_t`.
  unfoldable pub remove_u24l : Action Buf ℕ
  remove_u24l = do bytes ← remove 3; pure (of_le bytes)

  unfoldable pub remove_u48l : Action Buf ℕ
  remove_u48l = do bytes ← remove 6; pure (of_le bytes)

  unfoldable pub add_u24l : ℕ → Action Buf (Unit {0})
  add_u24l v = add (le_bytes 3 v)

  unfoldable pub add_u48l : ℕ → Action Buf (Unit {0})
  add_u48l v = add (le_bytes 6 v)

  -- The rest of a length-encoded integer, by its first byte.
  unfoldable pub varint_tail : ℕ → Action Buf ℕ
  varint_tail v =
      if ltb v 0xFB
      then pure v
      else if v == 0xFB
      then throw (runtime_error "length-encoded int is invalid (0xFB)")
      else if v == 0xFC
      then remove_u16l
      else if v == 0xFD
      then remove_u24l
      else if v == 0xFE
      then remove_u64l
      else if v == 0xFF
      then throw (runtime_error "length-encoded int is invalid (0xFF)")
      else pure v

  unfoldable pub remove_varint : Action Buf ℕ
  unfolding varint_tail
  remove_varint = do v ← remove_u8; varint_tail v

  unfoldable pub add_varint : ℕ → Action Buf (Unit {0})
  add_varint v =
      if leb v 0xFA
      then add_u8 v
      else if leb v 0xFFFF
      then (do add_u8 0xFC; add_u16l v)
      else if leb v 0xFFFFFF
      then (do add_u8 0xFD; add_u24l v)
      else (do add_u8 0xFE; add_u64l v)

  unfoldable pub remove_string0 : Action Buf (List ℕ)
  remove_string0 = readln

  unfoldable pub remove_var_string : Action Buf (List ℕ)
  remove_var_string = do size ← remove_varint; remove size

  unfoldable pub remove_string_eof : Action Buf (List ℕ)
  remove_string_eof = do size ← get_length; remove size

  -- `c_str()` ends in a NUL.
  unfoldable pub add_string0 : List ℕ → Action Buf (Unit {0})
  add_string0 str = add (str ++ 0 ∷ [])

  unfoldable pub add_var_string : List ℕ → Action Buf (Unit {0})
  add_var_string str = do add_varint (length str); add str

  abbrev pub add_if : ℕ → Action Buf (Unit {0}) → Action Buf (Unit {0})
  add_if bits m = if bits == 0 then pure tt else m

  -- What is left once fewer than eight bytes are to be added.
  unfoldable pub add_last_zeroes : ℕ → Action Buf (Unit {0})
  add_last_zeroes count = do
    add_if (bit_and count 4) (add_u32l 0)
    add_if (bit_and count 2) (add_u16l 0)
    add_if (bit_and count 1) (add_u8 0)

  -- `fuel` bounds the rounds of the loop; each takes eight from `count`.
  unfoldable pub add_zeroes_loop : ℕ → ℕ → Action Buf (Unit {0})
  unfolding add_last_zeroes
  add_zeroes_loop zero count = add_last_zeroes count
  add_zeroes_loop (suc fuel) count =
      let round = add_u64l 0 >> add_zeroes_loop fuel (count - 8) in
      if leb 8 count then round else add_last_zeroes count

  unfoldable pub add_zeroes : ℕ → Action Buf (Unit {0})
  unfolding add_zeroes_loop
  add_zeroes count = add_zeroes_loop count count
