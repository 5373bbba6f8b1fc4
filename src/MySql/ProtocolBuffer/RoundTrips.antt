-- ===== src/MySql/ProtocolBuffer/RoundTrips.antt =====
-- What the `add_…` methods of ProtocolBuffer put into a buffer, the `remove_…` methods take off it.
use libevent_async.Prelude.{ℕ, ◌<◌, ◌^◌, ◌≡◌, ◌≢◌, List, [], ◌++◌, replicate, arith, length, All}
use libevent_async.Prelude.Action.{ok}
use libevent_async.Libevent.{EvBuffer}
use libevent_async.Buffer.Contract.{ReadsBack, round_trip, add-Writes}
use libevent_async.MySql.ProtocolBuffer.{
  add_u24l, add_u48l, remove_u24l, remove_u48l, add_varint, remove_varint, add_string0,
  remove_string0, add_var_string, remove_var_string, add_zeroes,
}
use libevent_async.MySql.ProtocolBuffer.Writers.{
  add_varint-Writes, add_string0-Writes, add_var_string-Writes, add_zeroes-Writes,
}
use libevent_async.MySql.ProtocolBuffer.Readers.{
  remove_u24l-Reads, remove_u48l-Reads, remove_varint-Reads, remove_string0-Reads,
  remove_var_string-Reads,
}

module _ ⦃E : EvBuffer⦄ where
  open E use {Buf, content, IsUsable}

  -- A length-encoded integer of 64 bits that `add_varint` puts into an empty buffer is what
  -- `remove_varint` returns, and the bytes added behind it are what is left.
  pub remove_varint-add_varint :
      (v : ℕ) (more : List ℕ) (b : Buf)
      → v < 2 ^ 64
      → IsUsable b
      → content b ≡ []
      → ReadsBack (add_varint v) remove_varint v more b
  remove_varint-add_varint v more b h u e =
      round_trip (add_varint-Writes v) (remove_varint-Reads v h) more b u e

  -- The same of `add_var_string` and `remove_var_string`, for any bytes.
  pub remove_var_string-add_var_string :
      (str more : List ℕ) (b : Buf)
      → length str < 2 ^ 31
      → IsUsable b
      → content b ≡ []
      → ReadsBack (add_var_string str) remove_var_string str more b
  remove_var_string-add_var_string str more b h u e =
      round_trip (add_var_string-Writes str) (remove_var_string-Reads str h) more b u e

  -- The same of `add_string0` and `remove_string0`, for a string without a NUL.
  pub remove_string0-add_string0 :
      (str more : List ℕ) (b : Buf)
      → All (λ c. c ≢ 0) str
      → IsUsable b
      → content b ≡ []
      → ReadsBack (add_string0 str) remove_string0 str more b
  remove_string0-add_string0 str more b h u e =
      round_trip (add_string0-Writes str) (remove_string0-Reads str h) more b u e

  -- The same of `add_u24l` and `remove_u24l`, for 24 bits.
  pub remove_u24l-add_u24l :
      (v : ℕ) (more : List ℕ) (b : Buf)
      → v < 2 ^ 24
      → IsUsable b
      → content b ≡ []
      → ReadsBack (add_u24l v) remove_u24l v more b
  unfolding add_u24l
  remove_u24l-add_u24l v more b h u e =
      round_trip (add-Writes _) (remove_u24l-Reads v (omega arith)) more b u e

  -- The same of `add_u48l` and `remove_u48l`, for 48 bits.
  pub remove_u48l-add_u48l :
      (v : ℕ) (more : List ℕ) (b : Buf)
      → v < 2 ^ 48
      → IsUsable b
      → content b ≡ []
      → ReadsBack (add_u48l v) remove_u48l v more b
  unfolding add_u48l
  remove_u48l-add_u48l v more b h u e =
      round_trip (add-Writes _) (remove_u48l-Reads v (omega arith)) more b u e

  -- `add_zeroes`, whose loop puts eight zeroes at a time and then four, two and one, puts as many as
  -- it was told behind what the buffer holds.
  pub add_zeroes_lem :
      (count : ℕ) (b : Buf)
      → IsUsable b
      → (b' : Buf) × (add_zeroes count b ≡ (ok tt, b'))
        × IsUsable b'
        × (content b' ≡ content b ++ replicate count 0)
  add_zeroes_lem count b u =
      let (a, b', e, u', c) = (add_zeroes-Writes count).apply b u in (b', e, u', c)
