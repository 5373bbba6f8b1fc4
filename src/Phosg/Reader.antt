-- ===== src/Phosg/Reader.antt =====
-- The class StringReader of the phosg library: a string and the place in it where the next value is
-- read. `remaining` is what stands from there on.
use libevent_async.Prelude.{
  ℕ, ◌+◌, ◌≤◌, ◌<◌, ◌^◌, ◌≡◌, ◌∙◌, List, ◌++◌, length, take, drop, take-append_self,
  drop-append_self, length-append, Bool, ◌==◌, arith,
}
use libevent_async.Prelude.Bytes.{
  le_bytes, be_bytes, of_le, of_be, of_le-le_bytes, length-le_bytes, of_be-be_bytes,
  length-be_bytes,
}
use libevent_async.Prelude.Action.{Action, Error, ok, err}
use libevent_async.Prelude.Queue.{Reads}

pub record StringReader : Type 1 where
  pub Reader : Type 0
  pub new_reader : List ℕ → Reader
  pub remaining : Reader → List ℕ
  pub size : Reader → ℕ
  -- `where()`.
  pub offset : Reader → ℕ
  pub eof : Reader → Bool
  -- `get_u8`, `get_u16l` and so on, by the number of bytes, and those of the other byte order.
  pub get_le : ℕ → Action Reader ℕ
  pub get_be : ℕ → Action Reader ℕ
  pub read : ℕ → Action Reader (List ℕ)
  pub skip : ℕ → Action Reader (Unit {0})
  -- What a `get` behind the string's end throws.
  pub end_of_string : Error
  pub new_lem : (s : List ℕ) → remaining (new_reader s) ≡ s
  pub size_lem : (r : Reader) → size r ≡ offset r + length (remaining r)
  pub eof_lem : (r : Reader) → eof r ≡ (length (remaining r) == 0)
  pub get_le_lem :
      (n : ℕ) (r : Reader)
      → n ≤ length (remaining r)
      → (r' : Reader) × (get_le n r ≡ (ok (of_le (take n (remaining r))), r'))
        × (remaining r' ≡ drop n (remaining r))
        × (size r' ≡ size r)
  pub get_le_short :
      (n : ℕ) (r : Reader) → length (remaining r) < n → get_le n r ≡ (err end_of_string, r)
  pub get_be_lem :
      (n : ℕ) (r : Reader)
      → n ≤ length (remaining r)
      → (r' : Reader) × (get_be n r ≡ (ok (of_be (take n (remaining r))), r'))
        × (remaining r' ≡ drop n (remaining r))
        × (size r' ≡ size r)
  pub get_be_short :
      (n : ℕ) (r : Reader) → length (remaining r) < n → get_be n r ≡ (err end_of_string, r)
  -- As much as there is, up to `n`.
  pub read_lem :
      (n : ℕ) (r : Reader)
      → (r' : Reader) × (read n r ≡ (ok (take n (remaining r)), r'))
        × (remaining r' ≡ drop n (remaining r))
        × (size r' ≡ size r)
  pub skip_lem :
      (n : ℕ) (r : Reader)
      → n ≤ length (remaining r)
      → (r' : Reader) × (skip n r ≡ (ok tt, r'))
        × (remaining r' ≡ drop n (remaining r))
        × (size r' ≡ size r)

module _ ⦃R : StringReader⦄ where
  open R use {Reader, remaining, size}

  -- `total` is the length of the reader's string, which no method changes.
  abbrev pub OfSize : ℕ → Reader → Type 0
  OfSize total r = size r ≡ total

  abbrev pub ReaderReads : {A : Type 0} → ℕ → Action Reader A → List ℕ → A → Type 0
  ReaderReads total = Reads remaining (OfSize total)

  front : (bytes rest : List ℕ) (n : ℕ) → length bytes ≡ n → take n (bytes ++ rest) ≡ bytes
  front bytes rest n h = rw (← h) (take-append_self bytes rest)

  back : (bytes rest : List ℕ) (n : ℕ) → length bytes ≡ n → drop n (bytes ++ rest) ≡ rest
  back bytes rest n h = rw (← h) (drop-append_self bytes rest)

  fits : (bytes rest : List ℕ) (n : ℕ) → length bytes ≡ n → n ≤ length (bytes ++ rest)
  fits bytes rest n h = omega (arith, length-append bytes rest)

  pub read-Reads :
      (total n : ℕ) (bytes : List ℕ) → length bytes ≡ n → ReaderReads total (R.read n) bytes bytes
  read-Reads total n bytes h = record {
    apply = λ s rest u e.
        let (s', r, c, z) = R.read_lem n s in
        (s', rw (r, e, front bytes rest n h), z ∙ u, rw (c, e) (back bytes rest n h));
  }

  pub get_le-Reads : (total n v : ℕ) → v < 256 ^ n → ReaderReads total (R.get_le n) (le_bytes n v) v
  get_le-Reads total n v h = record {
    apply = λ s rest u e.
        let l = length-le_bytes n v in
        let (s', r, c, z) = R.get_le_lem n s (rw e (fits (le_bytes n v) rest n l)) in
        (
          s',
          rw (r, e, front (le_bytes n v) rest n l, of_le-le_bytes n v h),
          z ∙ u,
          rw (c, e) (back (le_bytes n v) rest n l),
        );
  }

  pub get_be-Reads : (total n v : ℕ) → v < 256 ^ n → ReaderReads total (R.get_be n) (be_bytes n v) v
  get_be-Reads total n v h = record {
    apply = λ s rest u e.
        let l = length-be_bytes n v in
        let (s', r, c, z) = R.get_be_lem n s (rw e (fits (be_bytes n v) rest n l)) in
        (
          s',
          rw (r, e, front (be_bytes n v) rest n l, of_be-be_bytes n v h),
          z ∙ u,
          rw (c, e) (back (be_bytes n v) rest n l),
        );
  }

  pub skip-Reads :
      (total n : ℕ) (bytes : List ℕ) → length bytes ≡ n → ReaderReads total (R.skip n) bytes tt
  skip-Reads total n bytes h = record {
    apply = λ s rest u e.
        let (s', r, c, z) = R.skip_lem n s (rw e (fits bytes rest n h)) in
        (s', r, z ∙ u, rw (c, e) (back bytes rest n h));
  }
