-- ===== src/MySql/ProtocolStringReader/Bitmask.antt =====
-- The bits that `get_bitmask` of src/Protocols/MySQL/ProtocolBuffer.cc reads.
use libevent_async.Prelude.{
  ℕ, zero, suc, ◌+◌, ◌*◌, ◌/◌, ◌%◌, ◌^◌, ◌<◌, ◌≡◌, refl, sym, ap, ◌∙◌, List, [], ◌∷◌, Bool, true,
  false, ◌==◌, if◌then◌else◌, arith, length,
}
use libevent_async.Prelude.Bytes.{le_bytes}
use libevent_async.MySql.ProtocolStringReader.{byte_at, bit_at, bits_from}

abbrev pub bit_value : Bool → ℕ
bit_value b = if b then 1 else 0

-- The number of which these are the bits, lowest first.
unfoldable pub of_bits : List Bool → ℕ
of_bits [] = 0
of_bits (b ∷ bs) = bit_value b + 2 * of_bits bs

unfoldable pub bitmask_bytes : List Bool → List ℕ
unfolding of_bits
bitmask_bytes bits = le_bytes ((length bits + 7) / 8) (of_bits bits)

-- `v >> x`.
shift : ℕ → ℕ → ℕ
shift zero v = v
shift (suc x) v = shift x (v / 2)

shift-byte :
    (x v : ℕ) → shift (suc (suc (suc (suc (suc (suc (suc (suc x)))))))) v ≡ shift x (v / 256)
unfolding shift
shift-byte x v = ap (shift x) (omega arith)

shift-shift : (x y v : ℕ) → shift y (shift x v) ≡ shift (x + y) v
unfolding shift
shift-shift zero y v = let e : y ≡ 0 + y = omega arith in ap (λ (n : ℕ). shift n v) e
shift-shift (suc x) y v =
    let e : suc x + y ≡ suc (x + y) = omega arith in
    shift-shift x y (v / 2) ∙ ap (λ (n : ℕ). shift n v) (sym e)

byte_at-le_bytes : (k v i : ℕ) → i < k → byte_at (le_bytes k v) i ≡ shift (8 * i) v % 256
unfolding le_bytes shift
byte_at-le_bytes zero v i h = absurd (omega arith)
byte_at-le_bytes (suc k) v zero h = refl
byte_at-le_bytes (suc k) v (suc i) h =
    let e : suc (suc (suc (suc (suc (suc (suc (suc (8 * i)))))))) ≡ 8 * suc i = omega arith in
    byte_at-le_bytes k (v / 256) i (omega arith)
    ∙ ap (λ (n : ℕ). n % 256) (sym (shift-byte (8 * i) v) ∙ ap (λ (n : ℕ). shift n v) e)

byte_bit : (r w : ℕ) → r < 8 → w % 256 / 2 ^ r % 2 ≡ shift r w % 2
unfolding shift
byte_bit zero w h = omega arith
byte_bit (suc zero) w h = omega arith
byte_bit (suc (suc zero)) w h = omega arith
byte_bit (suc (suc (suc zero))) w h = omega arith
byte_bit (suc (suc (suc (suc zero)))) w h = omega arith
byte_bit (suc (suc (suc (suc (suc zero))))) w h = omega arith
byte_bit (suc (suc (suc (suc (suc (suc zero)))))) w h = omega arith
byte_bit (suc (suc (suc (suc (suc (suc (suc zero))))))) w h = omega arith
byte_bit (suc (suc (suc (suc (suc (suc (suc (suc r)))))))) w h = absurd (omega arith)

bit_at-le_bytes : (k v x : ℕ) → x < 8 * k → bit_at (le_bytes k v) x ≡ (shift x v % 2 == 1)
unfolding bit_at
bit_at-le_bytes k v x h =
    let e : 8 * (x / 8) + x % 8 ≡ x = omega arith in
    ap (λ (n : ℕ). n == 1)
      (ap (λ (n : ℕ). n / 2 ^ (x % 8) % 2) (byte_at-le_bytes k v (x / 8) (omega arith))
        ∙ byte_bit (x % 8) (shift (8 * (x / 8)) v) (omega arith)
        ∙ ap (λ (n : ℕ). n % 2) (shift-shift (8 * (x / 8)) (x % 8) v)
        ∙ ap (λ (n : ℕ). shift n v % 2) e)

low_bit : (b : Bool) (m : ℕ) → ((bit_value b + 2 * m) % 2 == 1) ≡ b
low_bit true m = ground arith
low_bit false m = ground arith

half : (b : Bool) (m : ℕ) → (bit_value b + 2 * m) / 2 ≡ m
half true m = omega arith
half false m = omega arith

bits_from-of_bits :
    (bits : List Bool) (x : ℕ) (bytes : List ℕ)
    → ((i : ℕ) → i < length bits → bit_at bytes (x + i) ≡ (shift i (of_bits bits) % 2 == 1))
    → bits_from (length bits) x bytes ≡ bits
unfolding bits_from of_bits shift
bits_from-of_bits [] x bytes h = refl
bits_from-of_bits (b ∷ bs) x bytes h =
    let here : x + 0 ≡ x = omega arith in
    let first : bit_at bytes x ≡ b =
      ap (bit_at bytes) (sym here) ∙ h 0 (omega arith) ∙ low_bit b (of_bits bs) in
    let rest : bits_from (length bs) (x + 1) bytes ≡ bs =
      bits_from-of_bits bs (x + 1) bytes (λ i lt.
        let there : (x + 1) + i ≡ x + suc i = omega arith in
        ap (bit_at bytes) there
        ∙ h (suc i) (omega arith)
        ∙ ap (λ (n : ℕ). shift i n % 2 == 1) (half b (of_bits bs))) in
    λ i. first i ∷ rest i

-- The bits that were packed are read.
pub bits_from-bitmask_bytes :
    (bits : List Bool) → bits_from (length bits) 0 (bitmask_bytes bits) ≡ bits
unfolding bitmask_bytes
bits_from-bitmask_bytes bits = bits_from-of_bits bits 0 (bitmask_bytes bits) (λ i lt.
    let there : 0 + i ≡ i = omega arith in
    ap (bit_at (bitmask_bytes bits)) there
    ∙ bit_at-le_bytes ((length bits + 7) / 8) (of_bits bits) i (omega arith))
