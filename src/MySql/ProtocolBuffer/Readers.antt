-- ===== src/MySql/ProtocolBuffer/Readers.antt =====
-- What the `remove_…` methods of ProtocolBuffer take off the buffer.
use libevent_async.Prelude.{
  ℕ, ◌<◌, ◌^◌, ◌≡◌, ◌≢◌, inl, inr, refl, sym, ap, List, [], ◌∷◌, ◌++◌, arith, length, All, leb,
  Bool-cases, append-nil,
}
use libevent_async.Prelude.Bytes.{le_bytes, of_le-le_bytes, length-le_bytes}
use libevent_async.Prelude.Action.{Action, ok, pure, ◌>>=◌}
use libevent_async.Prelude.Queue.{Reads-bind, Reads-last}
use libevent_async.Libevent.{EvBuffer}
use libevent_async.Buffer.Contract.{
  BufReads, remove-Reads, remove_le-Reads, readln-Reads, get_length_lem,
}
use libevent_async.MySql.ProtocolBuffer.{
  remove_u24l, remove_u48l, varint_tail, remove_varint, remove_string0, remove_var_string,
  remove_string_eof,
}
use libevent_async.MySql.ProtocolBuffer.Writers.{varint_bytes}

module _ ⦃E : EvBuffer⦄ where
  open E use {Buf, content, IsUsable}

  pub remove_u24l-Reads : (v : ℕ) → v < 256 ^ 3 → BufReads remove_u24l (le_bytes 3 v) v
  unfolding remove_u24l
  remove_u24l-Reads v h =
      Reads-last _ (remove-Reads 3 (le_bytes 3 v) (length-le_bytes 3 v))
        (ap pure (of_le-le_bytes 3 v h))

  pub remove_u48l-Reads : (v : ℕ) → v < 256 ^ 6 → BufReads remove_u48l (le_bytes 6 v) v
  unfolding remove_u48l
  remove_u48l-Reads v h =
      Reads-last _ (remove-Reads 6 (le_bytes 6 v) (length-le_bytes 6 v))
        (ap pure (of_le-le_bytes 6 v h))

  -- The lead byte is `c`, and what it announces is read by `m`.
  announced :
      (c v : ℕ) (m : Action Buf ℕ) (bytes : List ℕ)
      → c < 256
      → varint_tail c ≡ m
      → BufReads m bytes v
      → BufReads remove_varint (le_bytes 1 c ++ bytes) v
  unfolding remove_varint
  announced c v m bytes h e r = Reads-bind varint_tail (remove_le-Reads 1 c (omega arith)) (rw e r)

  pub remove_varint-Reads : (v : ℕ) → v < 2 ^ 64 → BufReads remove_varint (varint_bytes v) v
  unfolding varint_bytes varint_tail remove_varint
  remove_varint-Reads v h = elim (Bool-cases (leb v 0xFA)) [
    | inl a ↦ rw a (Reads-last _ (remove_le-Reads 1 v (ground arith)) (ground arith))
    | inr a ↦ elim (Bool-cases (leb v 0xFFFF)) [
      | inl b ↦
          rw (a, b) (announced 0xFC v _ _ (omega arith) refl (remove_le-Reads 2 v (ground arith)))
      | inr b ↦ elim (Bool-cases (leb v 0xFFFFFF)) [
        | inl c ↦
            rw (a, b, c)
              (announced 0xFD v _ _ (omega arith) refl (remove_u24l-Reads v (ground arith)))
        | inr c ↦
            rw (a, b, c)
              (announced 0xFE v _ _ (omega arith) refl (remove_le-Reads 8 v (omega arith)))
      ]
    ]
  ]

  pub remove_string0-Reads :
      (str : List ℕ) → All (λ c. c ≢ 0) str → BufReads remove_string0 (str ++ 0 ∷ []) str
  unfolding remove_string0
  remove_string0-Reads str h = readln-Reads str h

  pub remove_var_string-Reads :
      (str : List ℕ)
      → length str < 2 ^ 31
      → BufReads remove_var_string (varint_bytes (length str) ++ str) str
  unfolding remove_var_string
  remove_var_string-Reads str h =
      Reads-bind _ (remove_varint-Reads (length str) (omega arith))
        (remove-Reads (length str) str refl)

  -- `remove_string_eof` takes all that there is.
  pub remove_string_eof_lem :
      (b : Buf)
      → IsUsable b
      → (b' : Buf) × (remove_string_eof b ≡ (ok (content b), b')) × IsUsable b' × (content b' ≡ [])
  unfolding remove_string_eof ◌>>=◌
  remove_string_eof_lem b u =
      let r = remove-Reads (length (content b)) (content b) refl in
      let (b', e, u', c) = r.apply b [] u (sym (append-nil (content b))) in
      (b', rw (get_length_lem b) e, u', c)
