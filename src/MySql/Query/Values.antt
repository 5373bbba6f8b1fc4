-- ===== src/MySql/Query/Values.antt =====
-- The values that stand in a text protocol's cells, said apart from `parse_value` of
-- src/Protocols/MySQL/Client.cc, and that it finds them.
use libevent_async.Prelude.{
  ℕ, ◌+◌, ◌-◌, ◌*◌, ◌%◌, ◌^◌, ◌≤◌, ◌<◌, ◌≡◌, ◌⊎◌, inl, inr, refl, sym, ap, subst, ◌∙◌, List, [],
  ◌∷◌, some, length, All, arith, true, false, ◌==◌, leb,
}
use native.Mathlib.Nat.{pow-suc}
use libevent_async.Prelude.Action.{ok}
use libevent_async.MySql.Types.{Value, uint64, int64, float, double, null, date_time, time, string}
use libevent_async.MySql.Types.Texts.{is_digit, is_space, digits, number, stoll, stoull}
use libevent_async.MySql.Query.Cells.{Floats, integer, parse_value}

-- A number of these decimal digits, the first of most weight, and its text.
abbrev pub of_digits : List ℕ → ℕ
of_digits [] = 0
of_digits (d ∷ ds) = d * 10 ^ length ds + of_digits ds

abbrev pub decimal_text : List ℕ → List ℕ
decimal_text [] = []
decimal_text (d ∷ ds) = (48 + d) ∷ decimal_text ds

abbrev pub Among : ℕ → List ℕ → Type 0
Among type [] = ⊥
Among type (t ∷ ts) = (type ≡ t) ⊎ Among type ts

-- The protocol's codes of the types.
abbrev pub integer_types : List ℕ
integer_types = 1 ∷ 2 ∷ 3 ∷ 8 ∷ 9 ∷ 13 ∷ []

abbrev pub text_types : List ℕ
text_types = 0 ∷ 15 ∷ 16 ∷ 246 ∷ 247 ∷ 248 ∷ 249 ∷ 250 ∷ 251 ∷ 252 ∷ 253 ∷ 254 ∷ 255 ∷ []

abbrev pub IsDecimal : List ℕ → List ℕ → Type 0
IsDecimal text ds = (text ≡ decimal_text ds) × (0 < length ds) × All (λ d. d < 10) ds

module _ ⦃F : Floats⦄ where
  -- The value of a text in a column of a type. Dates and times are left out.
  abbrev pub IsValue : ℕ → List ℕ → Value → Type 0
  IsValue type text (uint64 v) =
      Among type integer_types
      × (ds : List ℕ) × IsDecimal text ds
      × (v ≡ of_digits ds)
      × (v < 2 ^ 64)
  IsValue type text (int64 v) =
      Among type integer_types
      × (ds : List ℕ) × (text ≡ 45 ∷ decimal_text ds)
      × (0 < length ds)
      × All (λ d. d < 10) ds
      × (of_digits ds ≤ 2 ^ 63)
      × (v ≡ (2 ^ 64 - of_digits ds) % 2 ^ 64)
  IsValue type text (float bits) = (type ≡ 4) × (F.stof text ≡ ok bits)
  IsValue type text (double bits) = (type ≡ 5) × (F.stod text ≡ ok bits)
  IsValue type text (string bytes) = Among type text_types × (bytes ≡ text)
  IsValue type text null = ⊥
  IsValue type text (date_time v) = ⊥
  IsValue type text (time v) = ⊥

Among-elim : (P : ℕ → Type 0) (type : ℕ) (ts : List ℕ) → All P ts → Among type ts → P type
Among-elim P type [] h m = absurd m
Among-elim P type (t ∷ ts) (h, hs) (inl e) = subst P (sym e) h
Among-elim P type (t ∷ ts) (h, hs) (inr m) = Among-elim P type ts hs m

weights : (n d p r : ℕ) → (n * 10 + d) * p + r ≡ n * (p * 10) + (d * p + r)
weights n d p r = grind arith

digits_lem :
    (n : ℕ) (ds : List ℕ)
    → All (λ d. d < 10) ds
    → digits n (decimal_text ds) ≡ (n * 10 ^ length ds + of_digits ds, [])
unfolding digits
digits_lem n [] h = ap (λ (m : ℕ). (m, [])) (omega arith)
digits_lem n (d ∷ ds) (h, hs) =
    let digit : is_digit (48 + d) ≡ true = ground arith in
    let here : n * 10 + (48 + d - 48) ≡ n * 10 + d = omega arith in
    rw (digit, here)
      (digits_lem (n * 10 + d) ds hs
        ∙ ap (λ (m : ℕ). (m, []))
            (weights n d (10 ^ length ds) (of_digits ds)
              ∙ ap (λ (p : ℕ). n * p + (d * 10 ^ length ds + of_digits ds))
                  (sym (pow-suc 10 (length ds)))))

number_lem :
    (d : ℕ) (ds : List ℕ)
    → All (λ d. d < 10) (d ∷ ds)
    → number (decimal_text (d ∷ ds)) ≡ some ((false, of_digits (d ∷ ds)), [])
unfolding number
number_lem d ds h =
    let digit : is_digit (48 + d) ≡ true = ground (arith, h.0) in
    let no_space : is_space (48 + d) ≡ false = ground (arith, h.0) in
    let no_minus : (48 + d == 0x2D) ≡ false = ground arith in
    let no_plus : (48 + d == 0x2B) ≡ false = ground arith in
    rw (no_space, no_minus, no_plus, digits_lem 0 (d ∷ ds) h, digit)
      (ap (λ (m : ℕ). some ((false, m), [])) (omega arith))

negative_lem :
    (d : ℕ) (ds : List ℕ)
    → All (λ d. d < 10) (d ∷ ds)
    → number (45 ∷ decimal_text (d ∷ ds)) ≡ some ((true, of_digits (d ∷ ds)), [])
unfolding number
negative_lem d ds h =
    let digit : is_digit (48 + d) ≡ true = ground (arith, h.0) in
    rw (digits_lem 0 (d ∷ ds) h, digit) (ap (λ (m : ℕ). some ((true, m), [])) (omega arith))

integer_lem :
    (ds : List ℕ) (text : List ℕ)
    → IsDecimal text ds
    → of_digits ds < 2 ^ 64
    → integer text ≡ ok (uint64 (of_digits ds))
unfolding stoull
integer_lem [] text (e, p, h) l = absurd (omega arith)
integer_lem (d ∷ ds) text (e, p, h) l =
    let no_minus : (48 + d == 0x2D) ≡ false = ground arith in
    let fits : leb (2 ^ 64) (of_digits (d ∷ ds)) ≡ false = ground arith in
    subst (λ t. integer t ≡ ok (uint64 (of_digits (d ∷ ds)))) (sym e)
      (rw (no_minus, number_lem d ds h, fits) refl)

integer-minus :
    (ds : List ℕ)
    → 0 < length ds
    → All (λ d. d < 10) ds
    → of_digits ds ≤ 2 ^ 63
    → integer (45 ∷ decimal_text ds) ≡ ok (int64 ((2 ^ 64 - of_digits ds) % 2 ^ 64))
unfolding stoll
integer-minus [] p h l = absurd (omega arith)
integer-minus (d ∷ ds) p h l =
    let fits : leb (of_digits (d ∷ ds)) (2 ^ 63) ≡ true = ground arith in
    rw (negative_lem d ds h, fits) refl

module _ ⦃F : Floats⦄ where
  integers_lem :
      (type : ℕ) (text : List ℕ) (v : Value)
      → Among type integer_types
      → integer text ≡ ok v
      → parse_value type text ≡ ok v
  unfolding parse_value
  integers_lem type text v m x =
      Among-elim (λ t. parse_value t text ≡ ok v) type integer_types
        (x, (x, (x, (x, (x, (x, tt)))))) m

  texts_lem :
      (type : ℕ) (text : List ℕ) → Among type text_types → parse_value type text ≡ ok (string text)
  unfolding parse_value
  texts_lem type text =
      Among-elim (λ t. parse_value t text ≡ ok (string text)) type text_types
        (
          refl,
          (
            refl,
            (
              refl,
              (refl, (refl, (refl, (refl, (refl, (refl, (refl, (refl, (refl, (refl, tt)))))))))),
            ),
          ),
        )

  -- `parse_value` finds the value that the text stands for.
  pub parse_value_lem :
      (type : ℕ) (text : List ℕ) (v : Value) → IsValue type text v → parse_value type text ≡ ok v
  unfolding parse_value
  parse_value_lem type text (uint64 v) (m, ds, d, e, l) =
      integers_lem type text (uint64 v) m
        (integer_lem ds text d (omega arith) ∙ ap (λ (n : ℕ). ok (uint64 n)) (sym e))
  parse_value_lem type text (int64 v) (m, ds, d, p, h, l, e) =
      integers_lem type text (int64 v) m
        (ap integer d ∙ integer-minus ds p h l ∙ ap (λ (n : ℕ). ok (int64 n)) (sym e))
  parse_value_lem type text (float bits) (t, e) = rw (t, e) refl
  parse_value_lem type text (double bits) (t, e) = rw (t, e) refl
  parse_value_lem type text (string bytes) (m, e) =
      texts_lem type text m ∙ ap (λ t. ok (string t)) (sym e)
  parse_value_lem type text null h = absurd h
  parse_value_lem type text (date_time v) h = absurd h
  parse_value_lem type text (time v) h = absurd h
