-- ===== src/MySql/Types/Texts.antt =====
-- src/Protocols/MySQL/Types.cc: the constructors of DateTimeValue and TimeValue from a string, with
-- what they and `parse_value` use of the C and C++ libraries.
use libevent_async.Prelude.{
  ℕ, ◌+◌, ◌-◌, ◌*◌, ◌%◌, ◌^◌, List, [], ◌∷◌, Option, none, some, Bool, true, false, ◌&&◌, ◌||◌,
  length, get_elem?, drop, leb, ltb, ◌==◌, if◌then◌else◌,
}
use libevent_async.Prelude.Action.{Result, ok, err, out_of_range, invalid_argument}
use libevent_async.MySql.Types.{DateTimeValue, TimeValue}

abbrev pub is_space : ℕ → Bool
is_space c = (c == 0x20) || (leb 0x09 c && leb c 0x0D)

abbrev pub is_digit : ℕ → Bool
is_digit c = leb 0x30 c && leb c 0x39

abbrev skip_spaces : List ℕ → List ℕ
skip_spaces [] = []
skip_spaces (c ∷ cs) = let rest = skip_spaces cs in if is_space c then rest else c ∷ cs

-- The digits that a text begins with, as a number behind `n`, and the text behind them.
unfoldable pub digits : ℕ → List ℕ → ℕ × List ℕ
digits n [] = (n, [])
digits n (c ∷ cs) =
    let rest = digits (n * 10 + (c - 0x30)) cs in if is_digit c then rest else (n, c ∷ cs)

abbrev begins_with_digit : List ℕ → Bool
begins_with_digit [] = false
begins_with_digit (c ∷ cs) = is_digit c

-- A sign, and what is behind it.
abbrev sign : List ℕ → Bool × List ℕ
sign [] = (false, [])
sign (c ∷ cs) = if c == 0x2D then (true, cs) else if c == 0x2B then (false, cs) else (false, c ∷ cs)

-- A decimal number, as `strtoull` and `scanf` find it: white space, a sign, digits.
unfoldable pub number : List ℕ → Option ((Bool × ℕ) × List ℕ)
unfolding digits
number text =
    let (negative, rest) = sign (skip_spaces text) in
    let (n, more) = digits 0 rest in
    if begins_with_digit rest then some ((negative, n), more) else none

abbrev negated : ℕ → ℕ
negated n = (2 ^ 64 - n) % 2 ^ 64

abbrev on_stoll : Option ((Bool × ℕ) × List ℕ) → Result ℕ
on_stoll none = err (invalid_argument "stoll")
on_stoll (some ((true, n), rest)) =
    if leb n (2 ^ 63) then ok (negated n) else err (out_of_range "stoll")
on_stoll (some ((false, n), rest)) = if ltb n (2 ^ 63) then ok n else err (out_of_range "stoll")

abbrev on_stoull : Option ((Bool × ℕ) × List ℕ) → Result ℕ
on_stoull none = err (invalid_argument "stoull")
on_stoull (some ((negative, n), rest)) =
    if leb (2 ^ 64) n then err (out_of_range "stoull") else ok (if negative then negated n else n)

-- The two's complement in 64 bits.
unfoldable pub stoll : List ℕ → Result ℕ
unfolding number
stoll text = on_stoll (number text)

unfoldable pub stoull : List ℕ → Result ℕ
unfolding number
stoull text = on_stoull (number text)

-- What `scanf` stores in an unsigned number of `width` bits.
abbrev stored : ℕ → Bool × ℕ → ℕ
stored width (negative, n) =
    (if leb (2 ^ 64) n then 2 ^ 64 - 1 else if negative then negated n else n) % 2 ^ width

-- The text behind a character of the format. A blank stands for any white space.
abbrev behind : ℕ → List ℕ → Option (List ℕ)
behind separator [] = if separator == 0x20 then some [] else none
behind separator (c ∷ cs) =
    let rest = skip_spaces (c ∷ cs) in
    if separator == 0x20 then some rest else if c == separator then some cs else none

-- The numbers that `sscanf` stores for a format of `%u`, `%hu` or `%hhu` with a character behind each:
-- widths and characters. It ends at the first that it does not find.
unfoldable pub sscanf : List (ℕ × ℕ) → List ℕ → List ℕ
unfolding number
sscanf [] text = []
sscanf ((width, separator) ∷ fs) text = elim (number text) [
  | none ↦ []
  | some (n, rest) ↦
      stored width n ∷ elim (behind separator rest) [ none ↦ [] | some more ↦ sscanf fs more ]
]

abbrev field : List ℕ → ℕ → ℕ
field ns i = elim (get_elem? ns i) [ none ↦ 0 | some n ↦ n ]

-- `usecs *= 10`, so many times.
abbrev scaled : ℕ → ℕ → ℕ
scaled usecs times = (usecs * 10 ^ times) % 2 ^ 32

unfoldable pub date_time_value : List ℕ → DateTimeValue
unfolding sscanf number digits
date_time_value str =
    let ns =
      sscanf ((16, 0x2D) ∷ (8, 0x2D) ∷ (8, 0x20) ∷ (8, 0x3A) ∷ (8, 0x3A) ∷ (8, 0x2E) ∷ (32, 0) ∷ [])
        str in
    record {
      years = field ns 0;
      months = field ns 1;
      days = field ns 2;
      hours = field ns 3;
      minutes = field ns 4;
      seconds = field ns 5;
      usecs = scaled (field ns 6) (26 - length str);
    }

abbrev behind_dot : List ℕ → Option (List ℕ)
behind_dot [] = none
behind_dot (c ∷ cs) = let rest = behind_dot cs in if c == 0x2E then some cs else rest

abbrev begins_with_minus : List ℕ → Bool
begins_with_minus [] = false
begins_with_minus (c ∷ cs) = c == 0x2D

abbrev last_of : ℕ → List ℕ → ℕ
last_of usecs [] = usecs
last_of usecs (n ∷ ns) = n

abbrev time_usecs : ℕ → Option (List ℕ) → ℕ
time_usecs usecs none = usecs
time_usecs usecs (some digits_) =
    scaled (last_of usecs (sscanf ((32, 0) ∷ []) digits_)) (6 - length digits_)

unfoldable pub time_value : List ℕ → TimeValue
unfolding sscanf number digits
time_value str =
    let is_negative = begins_with_minus str in
    let s = if is_negative then drop 1 str else str in
    let ns = sscanf ((32, 0x3A) ∷ (8, 0x3A) ∷ (8, 0x2E) ∷ (32, 0) ∷ []) s in
    record {
      is_negative = is_negative;
      hours = field ns 0;
      minutes = field ns 1;
      seconds = field ns 2;
      usecs = time_usecs (field ns 3) (behind_dot str);
    }
