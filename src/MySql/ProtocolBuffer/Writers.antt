-- ===== src/MySql/ProtocolBuffer/Writers.antt =====
-- What the `add_…` methods of ProtocolBuffer put into the buffer.
use libevent_async.Prelude.{
  ℕ, zero, suc, ◌+◌, ◌-◌, ◌*◌, ◌≤◌, ◌<◌, ◌≡◌, ◌⊎◌, inl, inr, refl, sym, ap, ◌∙◌, List, [], ◌∷◌,
  ◌++◌, arith, length, leb, ◌==◌, ==_iff, if◌then◌else◌, Bool-cases, bit_and, replicate,
  replicate-add, ◌||◌, true, false, leb→le,
}
use libevent_async.Prelude.Tables.{passes, passes-at}
use libevent_async.Prelude.Bytes.{le_bytes}
use libevent_async.Prelude.Action.{Action}
use libevent_async.Prelude.Queue.{Writes-bind, Writes-pure}
use libevent_async.Libevent.{EvBuffer}
use libevent_async.Buffer.{add_u8, add_u16l, add_u32l, add_u64l}
use libevent_async.Buffer.Contract.{BufWrites, add-Writes}
use libevent_async.MySql.ProtocolBuffer.{
  add_u24l, add_varint, add_string0, add_var_string, add_if, add_last_zeroes, add_zeroes_loop,
  add_zeroes,
}

-- The wire format of a length-encoded integer.
unfoldable pub varint_bytes : ℕ → List ℕ
varint_bytes v =
    if leb v 0xFA
    then le_bytes 1 v
    else if leb v 0xFFFF
    then le_bytes 1 0xFC ++ le_bytes 2 v
    else if leb v 0xFFFFFF
    then le_bytes 1 0xFD ++ le_bytes 3 v
    else le_bytes 1 0xFE ++ le_bytes 8 v

-- Of the three low bits each is 0 or its value, and they add up.
low_bits : (c : ℕ) → c < 8 → ((bit_and c 4 + (bit_and c 2 + bit_and c 1)) == c) ≡ true
unfolding passes
low_bits c h = passes-at 8 (λ c. (bit_and c 4 + (bit_and c 2 + bit_and c 1)) == c) c refl h

module _ (bit : ℕ)
    (checked : passes 8 (λ c. (bit_and c bit == 0) || (bit_and c bit == bit)) ≡ true) where
  bit_or_none : (c : ℕ) → c < 8 → (bit_and c bit ≡ 0) ⊎ (bit_and c bit ≡ bit)
  bit_or_none c h =
      let e = passes-at 8 (λ c. (bit_and c bit == 0) || (bit_and c bit == bit)) c checked h in
      ground arith

eight_more :
    (count : ℕ) → 8 ≤ count → replicate 8 0 ++ replicate (count - 8) 0 ≡ replicate {A = ℕ} count 0
eight_more count h =
    sym (replicate-add 8 (count - 8) 0) ∙ ap (λ (k : ℕ). replicate k 0) (omega arith)

module _ ⦃E : EvBuffer⦄ where
  open E use {Buf}

  pub add_varint-Writes : (v : ℕ) → BufWrites (add_varint v) (varint_bytes v)
  unfolding add_varint varint_bytes add_u8 add_u16l add_u24l add_u64l
  add_varint-Writes v = elim (Bool-cases (leb v 0xFA)) [
    | inl h ↦ rw h (add-Writes (le_bytes 1 v))
    | inr h ↦ elim (Bool-cases (leb v 0xFFFF)) [
      | inl k ↦ rw (h, k) (Writes-bind _ (add-Writes _) λ _. add-Writes _)
      | inr k ↦ elim (Bool-cases (leb v 0xFFFFFF)) [
        | inl l ↦ rw (h, k, l) (Writes-bind _ (add-Writes _) λ _. add-Writes _)
        | inr l ↦ rw (h, k, l) (Writes-bind _ (add-Writes _) λ _. add-Writes _)
      ]
    ]
  ]

  pub add_string0-Writes : (str : List ℕ) → BufWrites (add_string0 str) (str ++ 0 ∷ [])
  unfolding add_string0
  add_string0-Writes str = add-Writes (str ++ 0 ∷ [])

  pub add_var_string-Writes :
      (str : List ℕ) → BufWrites (add_var_string str) (varint_bytes (length str) ++ str)
  unfolding add_var_string
  add_var_string-Writes str = Writes-bind _ (add_varint-Writes (length str)) λ _. add-Writes str

  add_if-Writes :
      (k : ℕ) (m : Action Buf (Unit {0})) (bits : ℕ)
      → (bits ≡ 0) ⊎ (bits ≡ suc k)
      → BufWrites m (replicate (suc k) 0)
      → BufWrites (add_if bits m) (replicate bits 0)
  add_if-Writes k m bits (inl e) w = rw e (Writes-pure tt)
  add_if-Writes k m bits (inr e) w = let ne : (suc k == 0) ≡ false = ground arith in rw (e, ne) w

  bits_sum :
      (count : ℕ)
      → count < 8
      → replicate (bit_and count 4) 0
          ++ (replicate (bit_and count 2) 0 ++ replicate (bit_and count 1) 0)
        ≡ replicate {A = ℕ} count 0
  bits_sum count h =
      ap (◌++◌ (replicate (bit_and count 4) 0))
        (sym (replicate-add (bit_and count 2) (bit_and count 1) 0))
      ∙ sym (replicate-add (bit_and count 4) (bit_and count 2 + bit_and count 1) 0)
      ∙ ap (λ (k : ℕ). replicate k 0) ((==_iff _ count).0 (low_bits count h))

  add_last_zeroes-Writes :
      (count : ℕ) → count < 8 → BufWrites (add_last_zeroes count) (replicate count 0)
  unfolding add_last_zeroes add_u8 add_u16l add_u32l le_bytes passes
  add_last_zeroes-Writes count h = rw (← bits_sum count h) (
      Writes-bind _ (add_if-Writes 3 _ _ (bit_or_none 4 refl count h) (add-Writes _)) λ _.
        Writes-bind _ (add_if-Writes 1 _ _ (bit_or_none 2 refl count h) (add-Writes _))
          λ _. add_if-Writes 0 _ _ (bit_or_none 1 refl count h) (add-Writes _))

  add_zeroes_loop-Writes :
      (fuel count : ℕ)
      → count < 8 * fuel + 8
      → BufWrites (add_zeroes_loop fuel count) (replicate count 0)
  unfolding add_zeroes_loop add_u64l le_bytes
  add_zeroes_loop-Writes zero count h = add_last_zeroes-Writes count (omega arith)
  add_zeroes_loop-Writes (suc fuel) count h = elim (Bool-cases (leb 8 count)) [
    | inl more ↦ rw more (
        rw (← eight_more count (leb→le 8 count more))
          (Writes-bind _ (add-Writes _) λ _. add_zeroes_loop-Writes fuel (count - 8) (omega arith)))
    | inr few ↦ rw few (add_last_zeroes-Writes count (ground arith))
  ]

  pub add_zeroes-Writes : (count : ℕ) → BufWrites (add_zeroes count) (replicate count 0)
  unfolding add_zeroes
  add_zeroes-Writes count = add_zeroes_loop-Writes count count (omega arith)
