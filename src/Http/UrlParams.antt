-- ===== src/Http/UrlParams.antt =====
-- src/Protocols/HTTP/Request.cc: `parse_url_params`, and the functions of phosg that it calls. The query
-- is what a C string holds, so no list with a NUL in it is an input of the program.
pub mod RoundTrip
use libevent_async.Prelude.{
  ℕ, ◌+◌, ◌*◌, ◌%◌, ◌<◌, ◌≡◌, ◌≢◌, List, [], ◌∷◌, ◌++◌, Option, none, some, Bool, true, false, ltb,
  ◌==◌, if◌then◌else◌, bit_or, All,
}

-- A hexadecimal digit in upper case.
unfoldable pub hex_char : ℕ → ℕ
hex_char d = if ltb d 10 then 48 + d else 55 + d

-- The pieces with the delimiter between them.
unfoldable pub join : ℕ → List ℕ → List (List ℕ) → List ℕ
join delimiter first [] = first
join delimiter first (piece ∷ pieces) = first ++ delimiter ∷ join delimiter piece pieces

abbrev pub Without : ℕ → List ℕ → Type 0
Without c = All λ b. b ≢ c

pub record PhosgStrings : Type 0 where
  -- `none` where it throws.
  pub value_for_hex_char : ℕ → Option ℕ
  pub split : List ℕ → ℕ → List (List ℕ)
  pub value_for_hex_char-hex_char : (d : ℕ) → d < 16 → value_for_hex_char (hex_char d) ≡ some d
  pub split-join :
      (delimiter : ℕ) (first : List ℕ) (pieces : List (List ℕ))
      → All (Without delimiter) (first ∷ pieces)
      → split (join delimiter first pieces) delimiter ≡ first ∷ pieces

-- `value[write_offset] == '+'`.
abbrev pub at_plus : List ℕ → Bool
at_plus [] = false
at_plus (c ∷ cs) = c == 43

abbrev pub next : List ℕ → List ℕ
next [] = []
next (c ∷ cs) = cs

abbrev pub emit : Option ℕ → Option (List ℕ) → Option (List ℕ)
emit none cs = none
emit (some c) none = none
emit (some c) (some cs) = some (c ∷ cs)

-- The byte of two digits, as a char.
abbrev pub of_hex : Option ℕ → Option ℕ → Option ℕ
of_hex none low = none
of_hex (some high) none = none
of_hex (some high) (some low) = some (bit_or (high * 16 % 256) (low % 256))

-- `it.find('=')`: what stands before the first one and behind it.
abbrev pub before : ℕ → Option (List ℕ × List ℕ) → Option (List ℕ × List ℕ)
before c none = none
before c (some (key, value)) = some (c ∷ key, value)

unfoldable pub find_equals : List ℕ → Option (List ℕ × List ℕ)
find_equals [] = none
find_equals (c ∷ cs) =
    let rest = before c (find_equals cs) in if c == 61 then some ([], cs) else rest

module _ ⦃S : PhosgStrings⦄ where
  -- The loop, which writes into the string that it reads: what the string holds from `write_offset`
  -- on and from `read_offset` on. Nothing from `write_offset` on is written yet, so that both are ends
  -- of the string as it came. The test of `+` looks at `write_offset`, as the source does. An escape
  -- needs two characters behind it.
  unfoldable pub decode_from : List ℕ → List ℕ → Option (List ℕ)
  decode_from to [] = some []
  decode_from to (c ∷ []) = some ((if at_plus to then 32 else c) ∷ [])
  decode_from to (c ∷ h ∷ []) =
      emit (some (if at_plus to then 32 else c)) (decode_from (next to) (h ∷ []))
  decode_from to (c ∷ h ∷ l ∷ cs) = elim (c == 37) [
    | true ↦
        emit (of_hex (S.value_for_hex_char h) (S.value_for_hex_char l)) (decode_from (next to) cs)
    | false ↦ emit (some (if at_plus to then 32 else c)) (decode_from (next to) (h ∷ l ∷ cs))
  ]

  -- `value.size() - 2` wraps around for a string of one character: a `%` alone reads behind the
  -- string's end, which is undefined, or throws.
  unfoldable pub decode_value : List ℕ → Option (List ℕ)
  unfolding decode_from
  decode_value [] = decode_from [] []
  decode_value (c ∷ []) = if c == 37 then none else decode_from (c ∷ []) (c ∷ [])
  decode_value (c ∷ d ∷ cs) = decode_from (c ∷ d ∷ cs) (c ∷ d ∷ cs)

  abbrev pub with_value : List ℕ → Option (List ℕ) → Option (List ℕ × List ℕ)
  with_value key none = none
  with_value key (some value) = some (key, value)

  abbrev pub decode_param : List ℕ → Option (List ℕ × List ℕ) → Option (List ℕ × List ℕ)
  decode_param it none = some (it, [])
  decode_param it (some (key, value)) = with_value key (decode_value value)

  abbrev pub emplace :
      Option (List ℕ × List ℕ) → Option (List (List ℕ × List ℕ)) → Option (List (List ℕ × List ℕ))
  emplace none params = none
  emplace (some param) none = none
  emplace (some param) (some params) = some (param ∷ params)

  unfoldable pub parse_params : List (List ℕ) → Option (List (List ℕ × List ℕ))
  parse_params [] = some []
  parse_params (it ∷ its) = emplace (decode_param it (find_equals it)) (parse_params its)

  -- The pairs in the order in which they are put into the map.
  unfoldable pub parse_url_params : List ℕ → Option (List (List ℕ × List ℕ))
  parse_url_params [] = some []
  parse_url_params (c ∷ cs) = parse_params (S.split (c ∷ cs) 38)
