-- ===== src/Prelude/Tables.antt =====
-- Facts about a small range of numbers, checked value by value.
use Prim.Native.Nat.{ℕ, zero, suc, ◌+◌, ◌*◌, ◌/◌, ◌%◌, ◌<◌, bit_and, bit_or, bit_xor}
use mathlib.Core.Path.{◌≡◌, refl, subst}
use libevent_async.Prelude.{◌==◌, dec_lt}
use mathlib.Core.Bool.{Bool, true, ◌&&◌}
use native.Mathlib.Omega.{arith}

unfoldable pub passes : ℕ → (ℕ → Bool) → Bool
passes zero test = true
passes (suc k) test = passes k test && test k

pub passes-at : (k : ℕ) (test : ℕ → Bool) (x : ℕ) → passes k test ≡ true → x < k → test x ≡ true
unfolding passes
passes-at zero test x e h = absurd (omega arith)
passes-at (suc k) test x e h = elim (dec_lt x k) [
  | yes below ↦ passes-at k test x (ground arith) below
  | no last ↦ let same : k ≡ x = omega arith in subst (λ n. test n ≡ true) same (ground arith)
]

-- Two functions that agree on the range.
pub table : (f g : ℕ → ℕ) (n : ℕ) → passes n (λ x. f x == g x) ≡ true → (x : ℕ) → x < n → f x ≡ g x
table f g n h x lt = let e = passes-at n (λ x. f x == g x) x h lt in ground arith

pub bit_and-0x7f : (x : ℕ) → x < 256 → bit_and x 0x7F ≡ x % 128
unfolding passes
bit_and-0x7f = table _ _ 256 refl

pub bit_and-0x80 : (x : ℕ) → x < 256 → bit_and x 0x80 ≡ x / 128 * 128
unfolding passes
bit_and-0x80 = table _ _ 256 refl

pub bit_and-0x0f : (x : ℕ) → x < 256 → bit_and x 0x0F ≡ x % 16
unfolding passes
bit_and-0x0f = table _ _ 256 refl

pub bit_and-0x08 : (x : ℕ) → x < 16 → bit_and x 0x08 ≡ x / 8 * 8
unfolding passes
bit_and-0x08 = table _ _ 16 refl

pub bit_or-0x80 : (x : ℕ) → x < 16 → bit_or 0x80 x ≡ 128 + x
unfolding passes
bit_or-0x80 = table _ _ 16 refl

xor_table : passes 256 (λ x. passes 256 (λ y. bit_xor (bit_xor x y) y == x)) ≡ true
unfolding passes
xor_table = refl

-- Masking a byte twice gives it back.
pub xor_twice : (x y : ℕ) → x < 256 → y < 256 → bit_xor (bit_xor x y) y ≡ x
xor_twice x y hx hy =
    let rows = passes-at 256 (λ x. passes 256 (λ y. bit_xor (bit_xor x y) y == x)) x xor_table hx in
    table (λ y. bit_xor (bit_xor x y) y) (λ _. x) 256 rows y hy
