-- ===== src/Tests/OnUrlParams.antt =====
-- Runs of `parse_url_params` of src/Protocols/HTTP/Request.cc.
use libevent_async.Prelude.{
  ℕ, ◌-◌, ◌<◌, ◌≡◌, refl, ap, ◌∙◌, List, [], ◌∷◌, ◌++◌, none, Option, some, Bool, true, false, not,
  ◌&&◌, ◌==◌, ltb, if◌then◌else◌, arith, All,
}
use libevent_async.Http.UrlParams.{
  hex_char, join, Without, PhosgStrings, decode_value, parse_url_params,
}
use libevent_async.Http.UrlParams.RoundTrip.{format_query, parse_url_params_lem}

abbrev value_of : ℕ → Option ℕ
value_of c =
    if ltb c 48
    then none
    else if ltb c 58
    then some (c - 48)
    else if ltb c 65
    then none
    else if ltb c 71
    then some (c - 55)
    else if ltb c 97
    then none
    else if ltb c 103
    then some (c - 87)
    else none

value_of-hex_char : (d : ℕ) → d < 16 → value_of (hex_char d) ≡ some d
unfolding hex_char
value_of-hex_char d h = ground arith

abbrev in_front : ℕ → List (List ℕ) → List (List ℕ)
in_front c [] = (c ∷ []) ∷ []
in_front c (piece ∷ pieces) = (c ∷ piece) ∷ pieces

unfoldable split_at : List ℕ → ℕ → List (List ℕ)
split_at [] delimiter = [] ∷ []
split_at (c ∷ cs) delimiter =
    let rest = split_at cs delimiter in if c == delimiter then [] ∷ rest else in_front c rest

split_at-one :
    (delimiter : ℕ) (xs : List ℕ) → Without delimiter xs → split_at xs delimiter ≡ xs ∷ []
unfolding split_at
split_at-one delimiter [] h = refl
split_at-one delimiter (x ∷ xs) (n, h) =
    let test : (x == delimiter) ≡ false = ground arith in
    rw (test, split_at-one delimiter xs h) refl

split_at-first :
    (delimiter : ℕ) (xs ys : List ℕ)
    → Without delimiter xs
    → split_at (xs ++ delimiter ∷ ys) delimiter ≡ xs ∷ split_at ys delimiter
unfolding split_at
split_at-first delimiter [] ys h =
    let test : (delimiter == delimiter) ≡ true = ground arith in rw test refl
split_at-first delimiter (x ∷ xs) ys (n, h) =
    let test : (x == delimiter) ≡ false = ground arith in
    rw (test, split_at-first delimiter xs ys h) refl

split_at-join :
    (delimiter : ℕ) (first : List ℕ) (pieces : List (List ℕ))
    → All (Without delimiter) (first ∷ pieces)
    → split_at (join delimiter first pieces) delimiter ≡ first ∷ pieces
unfolding join
split_at-join delimiter first [] (h, _) = split_at-one delimiter first h
split_at-join delimiter first (piece ∷ pieces) (h, hs) =
    split_at-first delimiter first (join delimiter piece pieces) h
    ∙ ap (◌∷◌ first) (split_at-join delimiter piece pieces hs)

instance abbrev strings : PhosgStrings
strings = record {
  value_for_hex_char = value_of;
  split = split_at;
  value_for_hex_char-hex_char = value_of-hex_char;
  split-join = split_at-join;
}

-- "100%" is kept; a `+` is a space; behind an escape it is not, and an `=` that stands where a `+`
-- stood is.
decode_value-runs :
    (decode_value (49 ∷ 48 ∷ 48 ∷ 37 ∷ []) ≡ some (49 ∷ 48 ∷ 48 ∷ 37 ∷ []))
    × (decode_value (97 ∷ 43 ∷ 98 ∷ []) ≡ some (97 ∷ 32 ∷ 98 ∷ []))
    × (decode_value (37 ∷ 51 ∷ 68 ∷ 43 ∷ []) ≡ some (61 ∷ 43 ∷ []))
unfolding decode_value
decode_value-runs = (refl, refl, refl)

-- Only small letters are plain.
abbrev is_lower : ℕ → Bool
is_lower c = not (ltb c 97) && ltb c 123

parse_url_params_lem_example :
    parse_url_params (format_query is_lower (97 ∷ [], 98 ∷ 32 ∷ 38 ∷ []) ((99 ∷ [], 255 ∷ []) ∷ []))
    ≡ some ((97 ∷ [], 98 ∷ 32 ∷ 38 ∷ []) ∷ (99 ∷ [], 255 ∷ []) ∷ [])
parse_url_params_lem_example =
    parse_url_params_lem is_lower refl refl (97 ∷ [], 98 ∷ 32 ∷ 38 ∷ []) ((99 ∷ [], 255 ∷ []) ∷ [])
      refl
      (
        ((omega arith, tt), (omega arith, tt), (omega arith, (omega arith, (omega arith, tt)))),
        (((omega arith, tt), (omega arith, tt), (omega arith, tt)), tt),
      )
