-- ===== src/Http/Websocket/Frames.antt =====
-- The wire format of a frame, and that `read` takes it apart as `write` puts it together.
use libevent_async.Prelude.{
  ℕ, suc, ◌+◌, ◌%◌, ◌<◌, ◌^◌, ◌≡◌, refl, ap, ◌∙◌, inl, inr, List, [], ◌∷◌, ◌++◌, Option, none, some,
  arith, length, length-append, append-nil, All, ltb, ◌==◌, if◌then◌else◌, false, not, Bool-cases,
  bit_and, bit_xor,
}
use libevent_async.Prelude.Tables.{bit_and-0x7f, bit_and-0x80, bit_and-0x0f, bit_or-0x80, xor_twice}
use libevent_async.Prelude.LowBits.{bit_and-3}
use libevent_async.Prelude.Bytes.{IsByte, le_bytes, be_bytes, length-le_bytes, length-be_bytes}
use libevent_async.Prelude.Action.{pure}
use libevent_async.Prelude.Queue.{Reads-bind, Reads-last, Writes-bind}
use libevent_async.Libevent.{EvBuffer, Network}
use libevent_async.Buffer.{add_u8, add_u16b, add_u64b}
use libevent_async.Buffer.Contract.{
  BufWrites, add-Writes, remove-Reads, remove_le-Reads, remove_be-Reads,
}
use libevent_async.Buffer.Talks.{Talks, Talks-bind, Talks-pure, Talks-last, fetch-Talks}
use libevent_async.Http.Websocket.{
  unmask_from, unmask, remove_frame_head, add_frame_size, add_frame_head, read_frame_head,
  read_payload_size, read_mask_key, read_payload, read_frame,
}

-- A frame: its first byte (the FIN bit and the opcode), its masking key, its payload before masking.
pub record Frame : Type 0 where
  pub head : ℕ
  pub key : Option (List ℕ)
  pub payload : List ℕ

abbrev pub IsKey : Option (List ℕ) → Type 0
IsKey none = Unit
IsKey (some key) = (length key ≡ 4) × All IsByte key

pub record IsValid (f : Frame) : Type 0 where
  pub head_byte : f.head < 256
  pub key_valid : IsKey f.key
  pub payload_bytes : All IsByte f.payload
  pub fits : length f.payload < 2 ^ 31

-- The low seven bits of the second byte, and the bytes behind it.
abbrev pub size_code : ℕ → ℕ
size_code n = if ltb 0xFFFF n then 0x7F else if ltb 0x7D n then 0x7E else n

abbrev pub size_bytes : ℕ → List ℕ
size_bytes n = if ltb 0xFFFF n then be_bytes 8 n else if ltb 0x7D n then be_bytes 2 n else []

abbrev pub mask_bit : Option (List ℕ) → ℕ
mask_bit none = 0
mask_bit (some key) = 128

abbrev pub key_bytes : Option (List ℕ) → List ℕ
key_bytes none = []
key_bytes (some key) = key

-- Bytes masked with the four bytes of a key in turn.
abbrev pub in_turn : ℕ → ℕ → ℕ → ℕ → List ℕ → List ℕ
in_turn a b c d [] = []
in_turn a b c d (x ∷ xs) = bit_xor x a ∷ in_turn b c d a xs

abbrev pub masked : Option (List ℕ) → List ℕ → List ℕ
masked (some (a ∷ b ∷ c ∷ d ∷ [])) bytes = in_turn a b c d bytes
masked key bytes = bytes

unfoldable pub frame_bytes : Frame → List ℕ
frame_bytes f =
    (le_bytes 1 f.head ++ le_bytes 1 (mask_bit f.key + size_code (length f.payload)))
    ++ (size_bytes (length f.payload) ++ (key_bytes f.key ++ masked f.key f.payload))

-- The key's byte for an index is the one whose turn it is, whichever byte comes first.
unmask_from-in_turn :
    (a b c d x : ℕ) (bytes : List ℕ)
    → All IsByte (a ∷ b ∷ c ∷ d ∷ [])
    → All IsByte bytes
    → (x % 4 ≡ 0 → unmask_from (a ∷ b ∷ c ∷ d ∷ []) x (in_turn a b c d bytes) ≡ bytes)
      × (x % 4 ≡ 1 → unmask_from (a ∷ b ∷ c ∷ d ∷ []) x (in_turn b c d a bytes) ≡ bytes)
      × (x % 4 ≡ 2 → unmask_from (a ∷ b ∷ c ∷ d ∷ []) x (in_turn c d a b bytes) ≡ bytes)
      × (x % 4 ≡ 3 → unmask_from (a ∷ b ∷ c ∷ d ∷ []) x (in_turn d a b c bytes) ≡ bytes)
unfolding unmask_from
unmask_from-in_turn a b c d x [] hk hb = (λ _. refl, λ _. refl, λ _. refl, λ _. refl)
unmask_from-in_turn a b c d x (y ∷ ys) hk hb =
    let (r0, r1, r2, r3) = unmask_from-in_turn a b c d (x + 1) ys hk hb.1 in
    (
      λ e. rw (bit_and-3 x ∙ e) (cc (xor_twice y a hb.0 hk.0, r1 (omega arith))),
      λ e. rw (bit_and-3 x ∙ e) (cc (xor_twice y b hb.0 hk.1.0, r2 (omega arith))),
      λ e. rw (bit_and-3 x ∙ e) (cc (xor_twice y c hb.0 hk.1.1.0, r3 (omega arith))),
      λ e. rw (bit_and-3 x ∙ e) (cc (xor_twice y d hb.0 hk.1.1.1.0, r0 (omega arith))),
    )

unmask-masked :
    (key : Option (List ℕ)) (bytes : List ℕ)
    → IsKey key
    → All IsByte bytes
    → unmask key (masked key bytes) ≡ bytes
unfolding unmask
unmask-masked none bytes hk hb = refl
unmask-masked (some []) bytes hk hb = absurd (omega (arith, hk.0))
unmask-masked (some (a ∷ [])) bytes hk hb = absurd (omega (arith, hk.0))
unmask-masked (some (a ∷ b ∷ [])) bytes hk hb = absurd (omega (arith, hk.0))
unmask-masked (some (a ∷ b ∷ c ∷ [])) bytes hk hb = absurd (omega (arith, hk.0))
unmask-masked (some (a ∷ b ∷ c ∷ d ∷ [])) bytes hk hb =
    (unmask_from-in_turn a b c d 0 bytes hk.1 hb).0 refl
unmask-masked (some (a ∷ b ∷ c ∷ d ∷ e ∷ key)) bytes hk hb = absurd (omega (arith, hk.0))

length-in_turn : (a b c d : ℕ) (bytes : List ℕ) → length (in_turn a b c d bytes) ≡ length bytes
length-in_turn a b c d [] = refl
length-in_turn a b c d (x ∷ xs) = ap suc (length-in_turn b c d a xs)

length-masked : (key : Option (List ℕ)) (bytes : List ℕ) → length (masked key bytes) ≡ length bytes
length-masked none bytes = refl
length-masked (some []) bytes = refl
length-masked (some (a ∷ [])) bytes = refl
length-masked (some (a ∷ b ∷ [])) bytes = refl
length-masked (some (a ∷ b ∷ c ∷ [])) bytes = refl
length-masked (some (a ∷ b ∷ c ∷ d ∷ [])) bytes = length-in_turn a b c d bytes
length-masked (some (a ∷ b ∷ c ∷ d ∷ e ∷ key)) bytes = refl

module _ ⦃E : EvBuffer⦄ where
  add_frame_size-Writes :
      (n : ℕ) → BufWrites (add_frame_size n) (le_bytes 1 (size_code n) ++ size_bytes n)
  unfolding add_frame_size add_u8 add_u16b add_u64b
  add_frame_size-Writes n = elim (Bool-cases (ltb 0xFFFF n)) [
    | inl h ↦ rw h (Writes-bind _ (add-Writes _) λ _. add-Writes _)
    | inr h ↦ elim (Bool-cases (ltb 0x7D n)) [
      | inl k ↦ rw (h, k) (Writes-bind _ (add-Writes _) λ _. add-Writes _)
      | inr k ↦ rw (h, k, append-nil) (add-Writes _)
    ]
  ]

  -- The header that `write` sends is that of an unmasked frame with the FIN bit.
  pub add_frame_head-Writes :
      (n opcode : ℕ)
      → opcode < 16
      → BufWrites
          (add_frame_head n opcode)
          (le_bytes 1 (128 + opcode) ++ (le_bytes 1 (size_code n) ++ size_bytes n))
  unfolding add_frame_head add_u8
  add_frame_head-Writes n opcode h =
      let low : bit_and opcode 0x0F ≡ opcode = bit_and-0x0f opcode (omega arith) ∙ omega arith in
      rw (low, bit_or-0x80 opcode h) (Writes-bind _ (add-Writes _) λ _. add_frame_size-Writes n)

module _ ⦃E : EvBuffer⦄ ⦃N : Network⦄ where
  read_frame_head-Talks :
      (a b : ℕ) → a < 256 → b < 256 → Talks read_frame_head (le_bytes 1 a ++ le_bytes 1 b) [] (a, b)
  unfolding read_frame_head remove_frame_head
  read_frame_head-Talks a b ha hb =
      fetch-Talks 2 _
        (Reads-bind _ (remove_le-Reads 1 a (omega arith))
          (Reads-last _ (remove_le-Reads 1 b (omega arith)) refl))
        (length-append (le_bytes 1 a) (le_bytes 1 b)
          ∙ omega (arith, length-le_bytes 1 a, length-le_bytes 1 b))

  read_payload_size-Talks :
      (n : ℕ) → n < 2 ^ 64 → Talks (read_payload_size (size_code n)) (size_bytes n) [] n
  unfolding read_payload_size
  read_payload_size-Talks n h = elim (Bool-cases (ltb 0xFFFF n)) [
    | inl a ↦ rw a (fetch-Talks 8 _ (remove_be-Reads 8 n (omega arith)) (length-be_bytes 8 n))
    | inr a ↦ elim (Bool-cases (ltb 0x7D n)) [
      | inl b ↦
          rw (a, b) (fetch-Talks 2 _ (remove_be-Reads 2 n (ground arith)) (length-be_bytes 2 n))
      | inr b ↦
          let x : (n == 0x7F) ≡ false = ground arith in
          let y : (n == 0x7E) ≡ false = ground arith in rw (a, b, x, y) (Talks-pure n)
    ]
  ]

  read_mask_key-Talks :
      (key : Option (List ℕ))
      → IsKey key
      → Talks (read_mask_key (not (mask_bit key == 0))) (key_bytes key) [] key
  unfolding read_mask_key
  read_mask_key-Talks none h = Talks-pure none
  read_mask_key-Talks (some key) h =
      Talks-last _ (fetch-Talks 4 _ (remove-Reads 4 key h.0) h.0) refl

  size_code-lt : (n : ℕ) → size_code n < 128
  size_code-lt n = ground arith

  second_byte :
      (key : Option (List ℕ)) (n : ℕ)
      → (bit_and (mask_bit key + size_code n) 0x7F ≡ size_code n)
        × ((bit_and (mask_bit key + size_code n) 0x80 == 0) ≡ (mask_bit key == 0))
  second_byte none n =
      let k = size_code-lt n in
      (
        bit_and-0x7f (0 + size_code n) (omega arith) ∙ omega arith,
        rw (bit_and-0x80 (0 + size_code n) (omega arith)) (ground arith),
      )
  second_byte (some key) n =
      let k = size_code-lt n in
      (
        bit_and-0x7f (128 + size_code n) (omega arith) ∙ omega arith,
        rw (bit_and-0x80 (128 + size_code n) (omega arith)) (ground arith),
      )

  second_byte-lt : (key : Option (List ℕ)) (n : ℕ) → mask_bit key + size_code n < 256
  second_byte-lt none n = omega (arith, size_code-lt n)
  second_byte-lt (some key) n = omega (arith, size_code-lt n)

  read_payload-Talks :
      (n : ℕ) (bytes : List ℕ) → length bytes ≡ n → Talks (read_payload n) bytes [] bytes
  unfolding read_payload
  read_payload-Talks n bytes h = fetch-Talks n _ (remove-Reads n bytes h) h

  -- `read` takes exactly one frame off the stream, whatever its size and whether it is masked, and
  -- sends nothing.
  pub read_frame-Talks :
      (f : Frame) → IsValid f → Talks read_frame (frame_bytes f) [] (f.head, f.payload)
  unfolding read_frame frame_bytes
  read_frame-Talks f v =
      let n = length f.payload in
      let second = mask_bit f.key + size_code n in
      let (low, high) = second_byte f.key n in
      let size_read : Talks (read_payload_size (bit_and second 0x7F)) (size_bytes n) [] n =
        rw low (read_payload_size-Talks n (omega (arith, v.fits))) in
      let key_read : Talks (read_mask_key (not (bit_and second 0x80 == 0))) (key_bytes f.key) []
          f.key =
        rw high (read_mask_key-Talks f.key v.key_valid) in
      let plain = unmask-masked f.key f.payload v.key_valid v.payload_bytes in
      Talks-bind _ (read_frame_head-Talks f.head second v.head_byte (second_byte-lt f.key n)) (
        Talks-bind _ size_read (
          Talks-bind _ key_read (
            Talks-last _
              (read_payload-Talks n (masked f.key f.payload) (length-masked f.key f.payload))
              (ap (λ (l : List ℕ). pure (f.head, l)) plain))))
