-- ===== src/Http/UrlParams/RoundTrip.antt =====
-- What `parse_url_params` of src/Protocols/HTTP/Request.cc makes of an encoded query.
use libevent_async.Prelude.{
  ℕ, ◌*◌, ◌/◌, ◌%◌, ◌<◌, ◌≡◌, ◌≢◌, refl, ◌∙◌, length, length-append, ap, subst, sym, List, [], ◌∷◌,
  ◌++◌, map, some, Bool, true, false, Bool-cases, if◌then◌else◌, bit_or, ◌==◌, All, arith, inl, inr,
}
use libevent_async.Prelude.Tables.{passes, table}
use libevent_async.Prelude.Bytes.{IsByte}
use libevent_async.Http.UrlParams.{
  hex_char, join, Without, PhosgStrings, at_plus, next, emit, find_equals, decode_from,
  decode_value, parse_params, parse_url_params,
}

-- Each byte as it is or as an escape.
unfoldable pub percent_encode : (ℕ → Bool) → List ℕ → List ℕ
percent_encode plain [] = []
percent_encode plain (b ∷ bs) =
    if plain b
    then b ∷ percent_encode plain bs
    else 37 ∷ hex_char (b / 16) ∷ hex_char (b % 16) ∷ percent_encode plain bs

abbrev pub format_param : (ℕ → Bool) → List ℕ × List ℕ → List ℕ
format_param plain (key, value) = key ++ 61 ∷ percent_encode plain value

unfoldable pub format_query : (ℕ → Bool) → List ℕ × List ℕ → List (List ℕ × List ℕ) → List ℕ
format_query plain param params =
    join 38 (format_param plain param) (map (format_param plain) params)

-- A key has no `=` and no `&`.
abbrev pub IsParam : List ℕ × List ℕ → Type 0
IsParam (key, value) = Without 61 key × Without 38 key × All IsByte value

two_digits : (b : ℕ) → b < 256 → bit_or (b / 16 * 16 % 256) (b % 16 % 256) ≡ b
unfolding passes
two_digits = table _ _ 256 refl

hex_char-large : (d c : ℕ) → c < 48 → hex_char d ≢ c
unfolding hex_char
hex_char-large d c h e = ground arith

plain_differs : (plain : ℕ → Bool) (b c : ℕ) → plain b ≡ true → plain c ≡ false → b ≢ c
plain_differs plain b c e p same =
    let e' : plain b ≡ false = subst (λ x. plain x ≡ false) (sym same) p in ground arith

-- The encoded bytes avoid what is never plain.
percent_encode-Without :
    (plain : ℕ → Bool) (c : ℕ) (bs : List ℕ)
    → plain c ≡ false
    → c < 48
    → c ≢ 37
    → Without c (percent_encode plain bs)
unfolding percent_encode
percent_encode-Without plain c [] p h n = tt
percent_encode-Without plain c (b ∷ bs) p h n =
    let rest = percent_encode-Without plain c bs p h n in
    elim (Bool-cases (plain b)) [
      | inl e ↦ rw e (plain_differs plain b c e p, rest)
      | inr e ↦ rw e (
        (λ same. n (sym same)),
        (hex_char-large (b / 16) c h, (hex_char-large (b % 16) c h, rest)),
      )
    ]

head_or_zero : List ℕ → ℕ
head_or_zero [] = 0
head_or_zero (c ∷ cs) = c

percent_encode-alone :
    (plain : ℕ → Bool) (bs : List ℕ) → plain 37 ≡ false → percent_encode plain bs ≢ 37 ∷ []
unfolding percent_encode head_or_zero
percent_encode-alone plain [] p = λ same. absurd (omega (arith, ap length same))
percent_encode-alone plain (b ∷ bs) p = elim (Bool-cases (plain b)) [
  | inl e ↦ rw e (λ same. plain_differs plain b 37 e p (ap head_or_zero same))
  | inr e ↦ rw e (λ same. absurd (omega (arith, ap length same)))
]

append-Without : (c : ℕ) (xs ys : List ℕ) → Without c xs → Without c ys → Without c (xs ++ ys)
append-Without c [] ys h k = k
append-Without c (x ∷ xs) ys (n, h) k = (n, append-Without c xs ys h k)

join-length :
    (delimiter : ℕ) (first : List ℕ) (pieces : List (List ℕ))
    → 0 < length first
    → 0 < length (join delimiter first pieces)
unfolding join
join-length delimiter first [] h = h
join-length delimiter first (piece ∷ pieces) h =
    omega (arith, length-append first (delimiter ∷ join delimiter piece pieces))

format_query-length :
    (plain : ℕ → Bool) (param : List ℕ × List ℕ) (params : List (List ℕ × List ℕ))
    → 0 < length (format_query plain param params)
unfolding format_query
format_query-length plain (key, value) params =
    join-length 38 (format_param plain (key, value)) (map (format_param plain) params)
      (omega (arith, length-append key (61 ∷ percent_encode plain value)))

next-Without : (to : List ℕ) → Without 43 to → Without 43 (next to)
next-Without [] h = tt
next-Without (c ∷ cs) (n, h) = h

at_plus-Without : (to : List ℕ) → Without 43 to → at_plus to ≡ false
at_plus-Without [] h = refl
at_plus-Without (c ∷ cs) (n, h) = ground arith

module _ ⦃S : PhosgStrings⦄ where
  -- A character that is neither `%` nor replaced.
  plain_step :
      (c : ℕ) (cs to bs : List ℕ)
      → c ≢ 37
      → Without 43 to
      → decode_from (next to) cs ≡ some bs
      → decode_from to (c ∷ cs) ≡ some (c ∷ bs)
  unfolding decode_from
  plain_step c [] to bs n plus e = rw (at_plus-Without to plus) (ap (emit (some c)) e)
  plain_step c (h ∷ []) to bs n plus e = rw (at_plus-Without to plus) (ap (emit (some c)) e)
  plain_step c (h ∷ l ∷ cs) to bs n plus e =
      let test : (c == 37) ≡ false = ground arith in
      rw (decode_from, test, at_plus-Without to plus) (ap (emit (some c)) e)

  escape_step :
      (b : ℕ) (cs to bs : List ℕ)
      → b < 256
      → decode_from (next to) cs ≡ some bs
      → decode_from to (37 ∷ hex_char (b / 16) ∷ hex_char (b % 16) ∷ cs) ≡ some (b ∷ bs)
  unfolding decode_from
  escape_step b cs to bs lt e =
      rw
        (
          S.value_for_hex_char-hex_char (b / 16) (omega arith),
          S.value_for_hex_char-hex_char (b % 16) (omega arith),
        )
        (λ i. emit (some (two_digits b lt i)) (e i))

  decode_from_empty : (to : List ℕ) → decode_from to [] ≡ some []
  unfolding decode_from
  decode_from_empty to = refl

  decode_from-encode :
      (plain : ℕ → Bool) (bs to : List ℕ)
      → plain 37 ≡ false
      → All IsByte bs
      → Without 43 to
      → decode_from to (percent_encode plain bs) ≡ some bs
  unfolding percent_encode
  decode_from-encode plain [] to p ok plus = decode_from_empty to
  decode_from-encode plain (b ∷ bs) to p (lt, ok) plus =
      let rest = decode_from-encode plain bs (next to) p ok (next-Without to plus) in
      elim (Bool-cases (plain b)) [
        | inl e ↦
            rw e (
              plain_step b (percent_encode plain bs) to bs (plain_differs plain b 37 e p) plus rest)
        | inr e ↦ rw e (escape_step b (percent_encode plain bs) to bs lt rest)
      ]

  parse_nonempty :
      (query : List ℕ) → 0 < length query → parse_url_params query ≡ parse_params (S.split query 38)
  unfolding parse_url_params
  parse_nonempty [] h = absurd (omega arith)
  parse_nonempty (c ∷ cs) h = refl

  decode_value-long :
      (value bs : List ℕ)
      → value ≢ 37 ∷ []
      → decode_from value value ≡ some bs
      → decode_value value ≡ some bs
  unfolding decode_value
  decode_value-long [] bs n e = e
  decode_value-long (c ∷ []) bs n e =
      let n' : c ≢ 37 = λ same. n (ap (λ x. x ∷ []) same) in
      let test : (c == 37) ≡ false = ground arith in rw test e
  decode_value-long (c ∷ d ∷ cs) bs n e = e

  -- Decoding gives back every byte, whichever bytes other than `%` and `+` are sent plain.
  pub decode_value-encode :
      (plain : ℕ → Bool) (bs : List ℕ)
      → plain 37 ≡ false
      → plain 43 ≡ false
      → All IsByte bs
      → decode_value (percent_encode plain bs) ≡ some bs
  decode_value-encode plain bs p q ok =
      decode_value-long (percent_encode plain bs) bs (percent_encode-alone plain bs p) (
        decode_from-encode plain bs (percent_encode plain bs) p ok
          (percent_encode-Without plain 43 bs q (omega arith) (omega arith)))

  find_equals-key :
      (key value : List ℕ) → Without 61 key → find_equals (key ++ 61 ∷ value) ≡ some (key, value)
  unfolding find_equals
  find_equals-key [] value h = refl
  find_equals-key (c ∷ cs) value (n, h) =
      let test : (c == 61) ≡ false = ground arith in rw (test, find_equals-key cs value h) refl

  module _ (plain : ℕ → Bool) (p : plain 37 ≡ false) (q : plain 43 ≡ false) where
    parse_params-format :
        (params : List (List ℕ × List ℕ))
        → All IsParam params
        → parse_params (map (format_param plain) params) ≡ some params
    unfolding parse_params
    parse_params-format [] h = refl
    parse_params-format ((key, value) ∷ params) ((n, _, bytes), h) =
        rw
          (
            find_equals-key key (percent_encode plain value) n,
            decode_value-encode plain value p q bytes,
            parse_params-format params h,
          )
          refl

    format-Without :
        (params : List (List ℕ × List ℕ))
        → plain 38 ≡ false
        → All IsParam params
        → All (Without 38) (map (format_param plain) params)
    format-Without [] a h = tt
    format-Without ((key, value) ∷ params) a ((_, n, bytes), h) = (
      append-Without 38 key (61 ∷ percent_encode plain value) n
          (omega arith, percent_encode-Without plain 38 value a (omega arith) (omega arith)),
      format-Without params a h,
    )

    -- A query of one or more parameters `key=value` joined by `&`, the keys without `=` and `&` and the
    -- values encoded byte by byte, plain or as an escape, with `%`, `+` and `&` never plain, is decoded
    -- to the same keys and values in order.
    pub parse_url_params_lem :
        (param : List ℕ × List ℕ) (params : List (List ℕ × List ℕ))
        → plain 38 ≡ false
        → All IsParam (param ∷ params)
        → parse_url_params (format_query plain param params) ≡ some (param ∷ params)
    unfolding format_query
    parse_url_params_lem param params a h =
        parse_nonempty (format_query plain param params) (format_query-length plain param params)
        ∙ ap parse_params (
            S.split-join 38 (format_param plain param) (map (format_param plain) params)
              (format-Without (param ∷ params) a h))
        ∙ parse_params-format (param ∷ params) h
