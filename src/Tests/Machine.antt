-- ===== src/Tests/Machine.antt =====
-- An evbuffer that is a list of bytes, and a socket that takes and brings a few bytes at a time.
use libevent_async.Prelude.{
  ℕ, zero, suc, ◌+◌, ◌*◌, ◌/◌, ◌%◌, ◌^◌, subst, sym, ◌≤◌, ◌<◌, ◌≡◌, ◌≢◌, refl, ap, ◌∙◌, List, [],
  ◌∷◌, ◌++◌, Option, none, some, length, take, drop, All, min, arith,
}
use mathlib.Core.List.{reverse, reverse-reverse, reverse-cons}
use libevent_async.Prelude.Bytes.{
  IsByte, le_bytes, be_bytes, of_le, of_le-le_bytes, le_bytes-IsByte, length-le_bytes,
  length-be_bytes,
}
use libevent_async.Libevent.{EvBuffer, Network}
use libevent_async.Phosg.{Phosg}

abbrev cons_line : ℕ → Option (List ℕ × List ℕ) → Option (List ℕ × List ℕ)
cons_line c none = none
cons_line c (some (line, rest)) = some (c ∷ line, rest)

-- The bytes before the first NUL and those behind it.
unfoldable pub split_line : List ℕ → Option (List ℕ × List ℕ)
split_line [] = none
split_line (zero ∷ cs) = some ([], cs)
split_line (suc k ∷ cs) = cons_line (suc k) (split_line cs)

pub split_line-some :
    (line rest : List ℕ)
    → All (λ c. c ≢ 0) line
    → split_line (line ++ (0 ∷ rest)) ≡ some (line, rest)
unfolding split_line
split_line-some [] rest h = refl
split_line-some (zero ∷ cs) rest h = absurd (h.0 refl)
split_line-some (suc k ∷ cs) rest h = ap (cons_line (suc k)) (split_line-some cs rest h.1)

pub split_line-none : (bytes : List ℕ) → All (λ c. c ≢ 0) bytes → split_line bytes ≡ none
unfolding split_line
split_line-none [] h = refl
split_line-none (zero ∷ cs) h = absurd (h.0 refl)
split_line-none (suc k ∷ cs) h = ap (cons_line (suc k)) (split_line-none cs h.1)

instance abbrev pub list_buffer : EvBuffer
list_buffer = record {
  Buf = List ℕ;
  content = λ b. b;
  IsUsable = λ b. Unit;
  evbuffer_new = some [];
  evbuffer_get_length = length;
  evbuffer_add = λ b d. some (b ++ d);
  evbuffer_prepend = λ b d. some (d ++ b);
  evbuffer_remove = λ b n. some (take n b, drop n b);
  evbuffer_copyout = λ b n. some (take n b);
  evbuffer_drain = λ b n. some (drop n b);
  evbuffer_add_buffer = λ b c. some (b ++ c, []);
  evbuffer_readln = split_line;
  new_lem = ([], refl, tt, refl);
  get_length_lem = λ b. refl;
  add_lem = λ b d u. (b ++ d, refl, tt, refl);
  prepend_lem = λ b d u. (d ++ b, refl, tt, refl);
  remove_lem = λ b n u. (drop n b, refl, tt, refl);
  copyout_lem = λ b n u. refl;
  drain_lem = λ b n u. (drop n b, refl, tt, refl);
  add_buffer_lem = λ b c u v. (b ++ c, [], refl, tt, tt, refl, refl);
  readln_lem = λ b line rest u h e. (rest, ap split_line e ∙ split_line-some line rest h, tt, refl);
  readln_none = λ b u h. split_line-none b h;
}

-- `chunk + 1` bytes at most in a call.
pub record Socket : Type 0 where
  pub to_come : List ℕ
  pub gone : List ℕ
  pub chunk : ℕ

unfoldable pub amount : ℕ → Socket → List ℕ → ℕ
amount n s bytes = min n (min (suc s.chunk) (length bytes))

module _ (n : ℕ) (s : Socket) (bytes : List ℕ) where
  pub amount_bounds : (amount n s bytes ≤ n) × (amount n s bytes ≤ length bytes)
  unfolding amount
  amount_bounds = (omega arith, omega arith)

  pub amount_pos : 0 < n → 0 < length bytes → 0 < amount n s bytes
  unfolding amount
  amount_pos p q = omega arith

-- `evbuffer_write_atmost` answers -1 where it writes nothing.
abbrev pub written : ℕ → List ℕ → Socket → Option ℕ × List ℕ × Socket
written zero b s = (none, b, s)
written (suc k) b s = (some (suc k), drop (suc k) b, record s { gone = s.gone ++ take (suc k) b })

pub written-some :
    (k : ℕ) (b : List ℕ) (s : Socket)
    → 0 < k
    → written k b s ≡ (some k, drop k b, record s { gone = s.gone ++ take k b })
written-some zero b s h = absurd (omega arith)
written-some (suc k) b s h = refl

pub amount_nothing : (n : ℕ) (s : Socket) → amount n s [] ≡ 0
unfolding amount
amount_nothing n s = omega arith

instance abbrev pub chunk_network : Network ⦃E = list_buffer⦄
chunk_network = record {
  Net = Socket;
  incoming = λ s. s.to_come;
  sent = λ s. s.gone;
  IsHealthy = λ s. Unit;
  evbuffer_read = λ b n s.
      let k = amount n s s.to_come in
      (some k, b ++ take k s.to_come, record s { to_come = drop k s.to_come });
  evbuffer_write_atmost = λ b n s. written (amount n s b) b s;
  read_lem = λ b n s u h p.
      let k = amount n s s.to_come in
      let (x, y) = amount_bounds n s s.to_come in
      (
        k,
        b ++ take k s.to_come,
        record s { to_come = drop k s.to_come },
        refl,
        tt,
        tt,
        x,
        y,
        amount_pos n s s.to_come p,
        refl,
        refl,
        refl,
      );
  write_lem = λ b n s u h p q.
      let k = amount n s b in
      let (x, y) = amount_bounds n s b in
      (
        k,
        drop k b,
        record s { gone = s.gone ++ take k b },
        written-some k b s (amount_pos n s b p q),
        tt,
        tt,
        x,
        y,
        amount_pos n s b p q,
        refl,
        refl,
        refl,
      );
  write_nothing = λ b n s u h e. rw (e, amount_nothing n s) refl;
}

-- Byte order, by way of the bytes.
All-append : (xs ys : List ℕ) → All IsByte xs → All IsByte ys → All IsByte (xs ++ ys)
All-append [] ys h k = k
All-append (x ∷ xs) ys h k = (h.0, All-append xs ys h.1 k)

All-reverse : (xs : List ℕ) → All IsByte xs → All IsByte (reverse xs)
All-reverse [] h = tt
All-reverse (x ∷ xs) h =
    subst (All IsByte) (sym (reverse-cons x xs))
      (All-append (reverse xs) (x ∷ []) (All-reverse xs h.1) (h.0, tt))

of_le-lt : (bytes : List ℕ) → All IsByte bytes → of_le bytes < 256 ^ length bytes
unfolding of_le
of_le-lt [] h = omega arith
of_le-lt (b ∷ bs) h =
    let power : 256 ^ suc (length bs) ≡ 256 * 256 ^ length bs = omega arith in
    omega (arith, h.0, of_le-lt bs h.1, power)

le_bytes-of_le : (bytes : List ℕ) → All IsByte bytes → le_bytes (length bytes) (of_le bytes) ≡ bytes
unfolding le_bytes of_le
le_bytes-of_le [] h = refl
le_bytes-of_le (b ∷ bs) h =
    let low : (b + 256 * of_le bs) % 256 ≡ b = omega (arith, h.0) in
    let high : (b + 256 * of_le bs) / 256 ≡ of_le bs = omega (arith, h.0) in
    rw (low, high, le_bytes-of_le bs h.1)

unfoldable pub swap : ℕ → ℕ → ℕ
swap n v = of_le (be_bytes n v)

be_bytes-IsByte : (n v : ℕ) → All IsByte (be_bytes n v)
unfolding be_bytes
be_bytes-IsByte n v = All-reverse (le_bytes n v) (le_bytes-IsByte n v)

pub swap-lt : (n v : ℕ) → v < 256 ^ n → swap n v < 256 ^ n
unfolding swap
swap-lt n v h =
    subst (λ k. of_le (be_bytes n v) < 256 ^ k) (length-be_bytes n v)
      (of_le-lt (be_bytes n v) (be_bytes-IsByte n v))

pub le_bytes-swap : (n v : ℕ) → v < 256 ^ n → le_bytes n (swap n v) ≡ be_bytes n v
unfolding swap
le_bytes-swap n v h =
    ap (λ (k : ℕ). le_bytes k (of_le (be_bytes n v))) (sym (length-be_bytes n v))
    ∙ le_bytes-of_le (be_bytes n v) (be_bytes-IsByte n v)

pub swap_twice : (n v : ℕ) → v < 256 ^ n → swap n (swap n v) ≡ v
unfolding swap be_bytes
swap_twice n v h =
    let e : le_bytes n (swap n v) ≡ reverse (le_bytes n v) =
      unfold be_bytes in le_bytes-swap n v h in
    ap (λ (l : List ℕ). of_le (reverse l)) e
    ∙ ap of_le (reverse-reverse (le_bytes n v))
    ∙ of_le-le_bytes n v h

instance abbrev pub swaps : Phosg
swaps = record {
  bswap = swap;
  -- No digest: 32 bytes of a number.
  sha256 = λ bytes. le_bytes 32 (of_le bytes);
  server_error = λ status message. "server error";
  sql_error = λ code state message. "sql error";
  authentication_error = λ code message. "authentication error";
  bswap-lt = swap-lt;
  bswap_twice = swap_twice;
  le_bytes-bswap = le_bytes-swap;
  length-sha256 = λ bytes. length-le_bytes 32 (of_le bytes);
}
