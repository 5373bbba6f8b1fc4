-- ===== src/MySql/ProtocolStringReader.antt =====
-- src/Protocols/MySQL/ProtocolBuffer.cc, class ProtocolStringReader.
pub mod Bitmask
pub mod Readers
use libevent_async.Prelude.{
  ℕ, zero, suc, ◌+◌, ◌-◌, ◌/◌, ◌%◌, ◌^◌, List, [], ◌∷◌, Bool, length, ltb, ◌==◌, if◌then◌else◌,
}
use libevent_async.Prelude.Action.{Action, runtime_error, undefined, pure, throw, ◌>>=◌}
use libevent_async.Phosg.Reader.{StringReader}

-- `data[i]` of a `std::string`, where the character at its end is NUL. `get_bitmask` asks for none
-- behind that.
abbrev pub byte_at : List ℕ → ℕ → ℕ
byte_at [] i = 0
byte_at (b ∷ bs) zero = b
byte_at (b ∷ bs) (suc i) = byte_at bs i

-- `(data[x >> 3] >> (x & 7)) & 1`, and so for `num_bits` bits from `x` on.
unfoldable pub bit_at : List ℕ → ℕ → Bool
bit_at bytes x = byte_at bytes (x / 8) / 2 ^ (x % 8) % 2 == 1

unfoldable pub bits_from : ℕ → ℕ → List ℕ → List Bool
bits_from zero x bytes = []
bits_from (suc num_bits) x bytes = bit_at bytes x ∷ bits_from num_bits (x + 1) bytes

module _ ⦃R : StringReader⦄ where
  open R use {Reader}

  unfoldable pub get_varint_tail : ℕ → Action Reader ℕ
  get_varint_tail v =
      if ltb v 0xFB
      then pure v
      else if v == 0xFB
      then throw (runtime_error "length-encoded int is invalid (0xFB)")
      else if v == 0xFC
      then R.get_le 2
      else if v == 0xFD
      then R.get_le 3
      else if v == 0xFE
      then R.get_le 8
      else if v == 0xFF
      then throw (runtime_error "length-encoded int is invalid (0xFF)")
      else pure v

  unfoldable pub get_varint : Action Reader ℕ
  unfolding get_varint_tail
  get_varint = do v ← R.get_le 1; get_varint_tail v

  unfoldable pub get_var_string : Action Reader (List ℕ)
  get_var_string = do n ← get_varint; R.read n

  unfoldable pub get_string_eof : Action Reader (List ℕ)
  get_string_eof r = R.read (R.size r - R.offset r) r

  -- A string may be shorter than it should; the last byte's index may then be behind its end.
  unfoldable pub get_bitmask : ℕ → Action Reader (List Bool)
  get_bitmask num_bits = do
    bytes ← R.read ((num_bits + 7) / 8)
    (if ltb (length bytes) ((num_bits + 7) / 8 - 1)
        then throw (undefined "std::string::operator[] behind the end")
        else pure (bits_from num_bits 0 bytes))
