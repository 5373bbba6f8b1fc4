-- ===== src/MySql/ProtocolStringReader/Readers.antt =====
-- What the methods of ProtocolStringReader of src/Protocols/MySQL/ProtocolBuffer.cc take off a string.
use libevent_async.Prelude.{
  ℕ, ◌+◌, ◌-◌, ◌/◌, ◌<◌, ◌^◌, ◌≡◌, inl, inr, refl, sym, ap, List, [], ◌++◌, arith, length, leb, ltb,
  false, Bool, Bool-cases, append-nil,
}
use libevent_async.Prelude.Bytes.{le_bytes, length-le_bytes}
use libevent_async.Prelude.Action.{Action, ok, pure}
use libevent_async.Prelude.Queue.{Reads-bind, Reads-last}
use libevent_async.Phosg.Reader.{StringReader, ReaderReads, read-Reads, get_le-Reads}
use libevent_async.MySql.ProtocolBuffer.Writers.{varint_bytes}
use libevent_async.MySql.ProtocolStringReader.{
  get_varint_tail, get_varint, get_var_string, get_string_eof, get_bitmask,
}
use libevent_async.MySql.ProtocolStringReader.Bitmask.{
  of_bits, bitmask_bytes, bits_from-bitmask_bytes,
}

module _ ⦃R : StringReader⦄ (total : ℕ) where
  open R use {Reader, remaining, size}

  announced :
      (c v : ℕ) (m : Action Reader ℕ) (bytes : List ℕ)
      → c < 256
      → get_varint_tail c ≡ m
      → ReaderReads total m bytes v
      → ReaderReads total get_varint (le_bytes 1 c ++ bytes) v
  unfolding get_varint
  announced c v m bytes h e r =
      Reads-bind get_varint_tail (get_le-Reads total 1 c (omega arith)) (rw e r)

  pub get_varint-Reads : (v : ℕ) → v < 2 ^ 64 → ReaderReads total get_varint (varint_bytes v) v
  unfolding varint_bytes get_varint_tail get_varint
  get_varint-Reads v h = elim (Bool-cases (leb v 0xFA)) [
    | inl a ↦ rw a (Reads-last _ (get_le-Reads total 1 v (ground arith)) (ground arith))
    | inr a ↦ elim (Bool-cases (leb v 0xFFFF)) [
      | inl b ↦
          rw (a, b)
            (announced 0xFC v _ _ (omega arith) refl (get_le-Reads total 2 v (ground arith)))
      | inr b ↦ elim (Bool-cases (leb v 0xFFFFFF)) [
        | inl c ↦
            rw (a, b, c)
              (announced 0xFD v _ _ (omega arith) refl (get_le-Reads total 3 v (ground arith)))
        | inr c ↦
            rw (a, b, c)
              (announced 0xFE v _ _ (omega arith) refl (get_le-Reads total 8 v (omega arith)))
      ]
    ]
  ]

  pub get_var_string-Reads :
      (str : List ℕ)
      → length str < 2 ^ 64
      → ReaderReads total get_var_string (varint_bytes (length str) ++ str) str
  unfolding get_var_string
  get_var_string-Reads str h =
      Reads-bind _ (get_varint-Reads (length str) h) (read-Reads total (length str) str refl)

  pub get_bitmask-Reads :
      (n : ℕ) (bits : List Bool)
      → length bits ≡ n
      → ReaderReads total (get_bitmask n) (bitmask_bytes bits) bits
  unfolding get_bitmask bitmask_bytes
  get_bitmask-Reads n bits h =
      let whole = length-le_bytes ((length bits + 7) / 8) (of_bits bits) in
      let inside : ltb (length (bitmask_bytes bits)) ((length bits + 7) / 8 - 1) ≡ false =
        ground (arith, whole) in
      rw (← h) (
        Reads-last _
          (read-Reads total ((length bits + 7) / 8) (bitmask_bytes bits)
            (length-le_bytes ((length bits + 7) / 8) _))
          (rw inside (ap pure (bits_from-bitmask_bytes bits))))

  -- `get_string_eof` takes all that there is.
  pub get_string_eof_lem :
      (r : Reader)
      → size r ≡ total
      → (r' : Reader) × (get_string_eof r ≡ (ok (remaining r), r'))
        × (size r' ≡ total)
        × (remaining r' ≡ [])
  unfolding get_string_eof
  get_string_eof_lem r u =
      let e : R.size r - R.offset r ≡ length (remaining r) = omega (arith, R.size_lem r) in
      rw (e, get_string_eof)
        ((read-Reads total (length (remaining r)) (remaining r) refl).apply r [] u
          (sym (append-nil (remaining r))))
