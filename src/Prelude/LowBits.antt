-- ===== src/Prelude/LowBits.antt =====
-- `&` with the two lowest bits, and with the fourth, as arithmetic at every width.
use Prim.Native.Nat.{ℕ, zero, suc, ◌+◌, ◌*◌, ◌/◌, ◌%◌, ◌≤◌, min, bit_and, digits, bit_and-bitwise}
use mathlib.Core.Path.{◌≡◌, refl}
use native.Mathlib.Omega.{arith}

-- More fuel than binary digits is as good as any.
enough_fuel :
    (n m a b : ℕ) → a ≤ n → a ≤ m → digits (λ y. zero) min n a b ≡ digits (λ y. zero) min m a b
enough_fuel zero zero a b p q = refl
enough_fuel (suc n) zero zero b p q = refl
enough_fuel (suc n) zero (suc a) b p q = absurd (omega arith)
enough_fuel zero (suc m) zero b p q = refl
enough_fuel zero (suc m) (suc a) b p q = absurd (omega arith)
enough_fuel (suc n) (suc m) zero b p q = refl
enough_fuel (suc n) (suc m) (suc a) b p q =
    rw (enough_fuel n m (suc a / 2) (b / 2) (omega arith) (omega arith))

lowest_bit : (a b : ℕ) → bit_and a b ≡ bit_and (a / 2) (b / 2) * 2 + min (a % 2) (b % 2)
lowest_bit zero b = simp bit_and-bitwise (omega arith)
lowest_bit (suc a) b =
    simp bit_and-bitwise
      (omega (arith, enough_fuel a (suc a / 2) (suc a / 2) (b / 2) (omega arith) (omega arith)))

half_or_less : (n a : ℕ) → a ≤ n → bit_and a 0 ≡ 0
half_or_less n zero h = refl
half_or_less zero (suc a) h = absurd (omega arith)
half_or_less (suc n) (suc a) h =
    omega (arith, lowest_bit (suc a) 0, half_or_less n (suc a / 2) (omega arith))

pub bit_and-3 : (a : ℕ) → bit_and a 3 ≡ a % 4
bit_and-3 a = ground (
  arith,
  lowest_bit a 3,
  lowest_bit (a / 2) 1,
  half_or_less (a / 2 / 2) (a / 2 / 2) (omega arith),
)

pub bit_and-8 : (a : ℕ) → bit_and a 8 ≡ a / 8 % 2 * 8
bit_and-8 a = ground (
  arith,
  lowest_bit a 8,
  lowest_bit (a / 2) 4,
  lowest_bit (a / 2 / 2) 2,
  lowest_bit (a / 2 / 2 / 2) 1,
  half_or_less (a / 2 / 2 / 2 / 2) (a / 2 / 2 / 2 / 2) (omega arith),
)
