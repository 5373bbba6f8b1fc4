-- ===== src/Prelude/Lists.antt =====
-- Lists measured and indexed by native numbers, under the library's names.
use Prim.Native.Nat.{ℕ, zero, suc, ◌+◌, ◌-◌, ◌≤◌, min}
use mathlib.Core.Path.{◌≡◌, refl, ap, ◌∙◌}
use mathlib.Core.List.{List, [], ◌∷◌, ◌++◌}
use mathlib.Core.Option.{Option, none, some}
use native.Mathlib.Omega.{arith}

module _ {ℓ} {A : Type ℓ} where
  abbrev pub length : List A → ℕ
  length [] = 0
  length (x ∷ xs) = suc (length xs)

  abbrev pub get_elem? : List A → ℕ → Option A
  get_elem? [] i = none
  get_elem? (x ∷ xs) zero = some x
  get_elem? (x ∷ xs) (suc i) = get_elem? xs i

  abbrev pub take : ℕ → List A → List A
  take zero xs = []
  take (suc n) [] = []
  take (suc n) (x ∷ xs) = x ∷ take n xs

  abbrev pub drop : ℕ → List A → List A
  drop zero xs = xs
  drop (suc n) [] = []
  drop (suc n) (x ∷ xs) = drop n xs

  abbrev pub replicate : ℕ → A → List A
  replicate zero a = []
  replicate (suc n) a = a ∷ replicate n a

  abbrev pub All {κ} : (A → Type κ) → List A → Type κ
  All P [] = Unit {κ}
  All P (x ∷ xs) = P x × All P xs

module _ {ℓ} {A : Type ℓ} where
  pub length-append : (xs ys : List A) → length (xs ++ ys) ≡ length xs + length ys
  length-append [] ys = omega arith
  length-append (x ∷ xs) ys = omega (arith, length-append xs ys)

  pub take-append-drop : (n : ℕ) (xs : List A) → take n xs ++ drop n xs ≡ xs
  take-append-drop zero xs = refl
  take-append-drop (suc n) [] = refl
  take-append-drop (suc n) (x ∷ xs) = rw (take-append-drop n xs)

  pub length-take : (n : ℕ) (xs : List A) → length (take n xs) ≡ min n (length xs)
  length-take zero xs = omega arith
  length-take (suc n) [] = omega arith
  length-take (suc n) (x ∷ xs) = omega (arith, length-take n xs)

  pub length-drop : (n : ℕ) (xs : List A) → length (drop n xs) ≡ length xs - n
  length-drop zero xs = omega arith
  length-drop (suc n) [] = omega arith
  length-drop (suc n) (x ∷ xs) = omega (arith, length-drop n xs)

  pub length-replicate : (n : ℕ) (a : A) → length (replicate n a) ≡ n
  length-replicate zero a = refl
  length-replicate (suc n) a = ap suc (length-replicate n a)

  -- Taking and dropping exactly a prefix.
  pub take-append_self : (xs ys : List A) → take (length xs) (xs ++ ys) ≡ xs
  take-append_self [] ys = refl
  take-append_self (x ∷ xs) ys = ap (◌∷◌ x) (take-append_self xs ys)

  pub drop-append_self : (xs ys : List A) → drop (length xs) (xs ++ ys) ≡ ys
  drop-append_self [] ys = refl
  drop-append_self (x ∷ xs) ys = drop-append_self xs ys

  pub take_all : (n : ℕ) (xs : List A) → length xs ≤ n → take n xs ≡ xs
  take_all zero [] h = refl
  take_all zero (x ∷ xs) h = absurd (omega arith)
  take_all (suc n) [] h = refl
  take_all (suc n) (x ∷ xs) h = ap (◌∷◌ x) (take_all n xs (omega arith))

  pub drop_all : (n : ℕ) (xs : List A) → length xs ≤ n → drop n xs ≡ []
  drop_all zero [] h = refl
  drop_all zero (x ∷ xs) h = absurd (omega arith)
  drop_all (suc n) [] h = refl
  drop_all (suc n) (x ∷ xs) h = drop_all n xs (omega arith)

  pub replicate-add : (m n : ℕ) (a : A) → replicate (m + n) a ≡ replicate m a ++ replicate n a
  replicate-add zero n a = ap (λ (k : ℕ). replicate k a) (omega arith)
  replicate-add (suc m) n a = ap (λ (k : ℕ). replicate k a) e ∙ ap (◌∷◌ a) (replicate-add m n a)
    where
      e : suc m + n ≡ suc (m + n)
      e = omega arith

module _ {ℓ} {A : Type ℓ} where
  -- Two pieces in a row.
  pub take-take-drop :
      (k r : ℕ) (xs : List A) → k ≤ r → take k xs ++ take (r - k) (drop k xs) ≡ take r xs
  take-take-drop zero r xs h = ap (λ (n : ℕ). take n xs) (omega arith)
  take-take-drop (suc k) zero xs h = absurd (omega arith)
  take-take-drop (suc k) (suc r) [] h = take_all (suc r - suc k) [] (omega arith)
  take-take-drop (suc k) (suc r) (x ∷ xs) h =
      ap (λ (n : ℕ). x ∷ (take k xs ++ take n (drop k xs))) e
      ∙ ap (◌∷◌ x) (take-take-drop k r xs (omega arith))
    where
      e : suc r - suc k ≡ r - k
      e = omega arith

  pub drop-drop : (k r : ℕ) (xs : List A) → k ≤ r → drop (r - k) (drop k xs) ≡ drop r xs
  drop-drop zero r xs h = ap (λ (n : ℕ). drop n xs) (omega arith)
  drop-drop (suc k) zero xs h = absurd (omega arith)
  drop-drop (suc k) (suc r) [] h = drop_all (suc r - suc k) [] (omega arith)
  drop-drop (suc k) (suc r) (x ∷ xs) h =
      ap (λ (n : ℕ). drop n (drop k xs)) e ∙ drop-drop k r xs (omega arith)
    where
      e : suc r - suc k ≡ r - k
      e = omega arith

  -- A prefix of a list in two pieces, the first of which is long enough to hold it.
  pub prefix-of_first :
      (xs rest have more : List A)
      → have ++ more ≡ xs ++ rest
      → length xs ≤ length have
      → (have ≡ xs ++ drop (length xs) have) × (drop (length xs) have ++ more ≡ rest)
  prefix-of_first [] rest have more e h = (refl, e)
  prefix-of_first (x ∷ xs) rest [] more e h = absurd (omega arith)
  prefix-of_first (x ∷ xs) rest (y ∷ ys) more e h =
      let tails : ys ++ more ≡ xs ++ rest = cc in
      let (p, q) = prefix-of_first xs rest ys more tails (omega arith) in
      let heads : y ≡ x = cc in
      (ap (◌∷◌ y) p ∙ ap (λ (z : A). z ∷ (xs ++ drop (length xs) ys)) heads, q)

pub no_length {ℓ} : {A : Type ℓ} (xs : List A) → length xs ≡ 0 → xs ≡ []
no_length [] h = refl
no_length (x ∷ xs) h = absurd (omega arith)
