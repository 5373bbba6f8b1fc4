-- ===== src/Prelude/Maps.antt =====
-- std::unordered_map with byte strings as keys, as a list of its entries.
use libevent_async.Prelude.{
  ℕ, ◌≡◌, List, [], ◌∷◌, Option, none, some, Bool, true, false, if◌then◌else◌, Bool-cases, inl, inr,
  ap, sym, ◌∙◌, refl, ℕ_discrete, arith, ◌==◌,
}
use libevent_async.Prelude.Bytes.{same_bytes}

same_bytes-equal : (xs ys : List ℕ) → same_bytes xs ys ≡ true → xs ≡ ys
unfolding same_bytes
same_bytes-equal [] [] h = refl
same_bytes-equal [] (y ∷ ys) h = absurd (ground arith)
same_bytes-equal (x ∷ xs) [] h = absurd (ground arith)
same_bytes-equal (x ∷ xs) (y ∷ ys) h = elim (ℕ_discrete x y) [
  | yes e ↦
      let t : (x == y) ≡ true = ground arith in
      let same : same_bytes xs ys ≡ true = ground (arith, t, h) in
      ap (λ n. n ∷ xs) e ∙ ap (◌∷◌ y) (same_bytes-equal xs ys same)
  | no e ↦ let t : (x == y) ≡ false = ground arith in absurd (ground (arith, t, h))
]

module _ {V : Type 0} where
  -- `emplace` leaves a value that the key has.
  abbrev pub emplace : List ℕ → V → List (List ℕ × V) → List (List ℕ × V)
  emplace key value [] = (key, value) ∷ []
  emplace key value ((k, v) ∷ entries) =
      let rest = (k, v) ∷ emplace key value entries in
      if same_bytes k key then (k, v) ∷ entries else rest

  -- The value of a key.
  abbrev pub find : List ℕ → List (List ℕ × V) → Option V
  find key [] = none
  find key ((k, v) ∷ entries) =
      let rest = find key entries in if same_bytes k key then some v else rest

  -- The first value where there is one.
  abbrev pub or_else : Option V → Option V → Option V
  or_else none o = o
  or_else (some v) o = some v

  pub or_else-none : (o : Option V) → or_else o none ≡ o
  or_else-none none = refl
  or_else-none (some v) = refl

  -- In a chain the first value counts.
  pub or_else-first :
      (o : Option V) (test : Bool) (v : V) (last : Option V)
      → or_else (or_else o (if test then some v else none)) last
        ≡ or_else o (if test then some v else last)
  or_else-first none true v last = refl
  or_else-first none false v last = refl
  or_else-first (some w) test v last = refl

  pub find-emplace :
      (key name : List ℕ) (value : V) (entries : List (List ℕ × V))
      → find name (emplace key value entries)
        ≡ or_else (find name entries) (find name ((key, value) ∷ []))
  find-emplace key name value [] = refl
  find-emplace key name value ((k, v) ∷ entries) = elim (Bool-cases (same_bytes k key)) [
    | inl e ↦
        let k_name : same_bytes key name ≡ same_bytes k name =
          ap (λ n. same_bytes n name) (sym (same_bytes-equal k key e)) in
        elim (Bool-cases (same_bytes k name)) [
          | inl f ↦ rw (e, f) refl
          | inr f ↦ rw (e, k_name, f, or_else-none) refl
        ]
    | inr e ↦ elim (Bool-cases (same_bytes k name)) [
      | inl f ↦ rw (e, f) refl
      | inr f ↦ rw (e, f) (find-emplace key name value entries)
    ]
  ]
