-- ===== src/MySql/BinlogProcessor/CellLaws.antt =====
-- `read_cell_data` of src/Protocols/MySQL/BinlogProcessor.cc reads what a server writes for a cell.
use libevent_async.Prelude.{
  ℕ, zero, suc, ◌+◌, ◌-◌, ◌*◌, ◌/◌, ◌%◌, ◌^◌, ◌≤◌, ◌<◌, ◌≡◌, inl, inr, refl, ap, subst, ◌∙◌, List,
  [], ◌∷◌, ◌++◌, arith, length, Bool, true, false, Bool-cases, ltb, ◌==◌, All,
}
use libevent_async.Prelude.Bytes.{le_bytes, be_bytes}
use libevent_async.Prelude.Action.{pure}
use libevent_async.Prelude.Queue.{Reads-bind, Reads-last, Reads-pure}
use libevent_async.Phosg.Reader.{StringReader, ReaderReads, read-Reads, get_le-Reads, get_be-Reads}
use libevent_async.MySql.Types.{DateTimeValue, TimeValue, uint64, date_time, time, string}
use libevent_async.MySql.BinlogProcessor.Cells.{
  any_of, blob_types, datetime_of, time_fields, time_of, read_datetime_fractional_part, read_uint,
  read_sized, read_blob, read_varchar, read_datetime2, read_time2, read_cell_data,
}
use libevent_async.MySql.BinlogProcessor.Encoding.{
  Cell, tinyint, smallint, mediumint, int, bigint, year, single_float, double_float, timestamp,
  blob, varchar, datetime2, time2, cell_column, cell_value, cell_bytes, IsCell, fraction_width,
  fraction_unit, datetime_number, time_number, hms, varchar_width,
}

-- A date with a month is what its number says.
pub datetime_of-number :
    (v : DateTimeValue) (usecs : ℕ)
    → v.years < 10000
    → 0 < v.months
    → v.months < 13
    → v.days < 32
    → v.hours < 32
    → v.minutes < 64
    → v.seconds < 64
    → datetime_of (datetime_number v) usecs ≡ record v { usecs = usecs }
unfolding datetime_of
datetime_of-number v usecs y m0 m d h n s =
    let z = datetime_number v in
    let years : (z / 2 ^ 22 + 2 ^ 64 - 131073) % 2 ^ 64 / 13 % 2 ^ 16 ≡ v.years = omega arith in
    let months : (z / 2 ^ 22 + 7) % 13 ≡ v.months = omega arith in
    let days : z / 2 ^ 17 % 2 ^ 5 ≡ v.days = omega arith in
    let hours : z / 2 ^ 12 % 2 ^ 5 ≡ v.hours = omega arith in
    let minutes : z / 2 ^ 6 % 2 ^ 6 ≡ v.minutes = omega arith in
    let seconds : z % 2 ^ 6 ≡ v.seconds = omega arith in
    λ i. record {
      years = years i;
      months = months i;
      days = days i;
      hours = hours i;
      minutes = minutes i;
      seconds = seconds i;
      usecs = usecs;
    }

-- A date without a month, which MySQL allows, is read with the year before its own.
pub datetime_of_no_month :
    (v : DateTimeValue) (usecs : ℕ)
    → 0 < v.years
    → v.years < 10000
    → v.months ≡ 0
    → v.days < 32
    → v.hours < 32
    → v.minutes < 64
    → v.seconds < 64
    → datetime_of (datetime_number v) usecs ≡ record v { years = v.years - 1; usecs = usecs }
unfolding datetime_of
datetime_of_no_month v usecs y0 y m d h n s =
    let z = datetime_number v in
    let years : (z / 2 ^ 22 + 2 ^ 64 - 131073) % 2 ^ 64 / 13 % 2 ^ 16 ≡ v.years - 1 = omega arith in
    let months : (z / 2 ^ 22 + 7) % 13 ≡ v.months = omega arith in
    let days : z / 2 ^ 17 % 2 ^ 5 ≡ v.days = omega arith in
    let hours : z / 2 ^ 12 % 2 ^ 5 ≡ v.hours = omega arith in
    let minutes : z / 2 ^ 6 % 2 ^ 6 ≡ v.minutes = omega arith in
    let seconds : z % 2 ^ 6 ≡ v.seconds = omega arith in
    λ i. record {
      years = years i;
      months = months i;
      days = days i;
      hours = hours i;
      minutes = minutes i;
      seconds = seconds i;
      usecs = usecs;
    }

fields_of :
    (is_negative : Bool) (z h m s usecs : ℕ)
    → z % 2 ^ 22 ≡ h * 2 ^ 12 + (m * 2 ^ 6 + s)
    → h < 1024
    → m < 64
    → s < 64
    → time_fields is_negative z usecs
      ≡ record { is_negative = is_negative; hours = h; minutes = m; seconds = s; usecs = usecs }
fields_of is_negative z h m s usecs e hl ml sl =
    let hours : z / 2 ^ 12 % 2 ^ 10 ≡ h = omega arith in
    let minutes : z / 2 ^ 6 % 2 ^ 6 ≡ m = omega arith in
    let seconds : z % 2 ^ 6 ≡ s = omega arith in
    λ i. record {
      is_negative = is_negative;
      hours = hours i;
      minutes = minutes i;
      seconds = seconds i;
      usecs = usecs;
    }

time_of-parts :
    (is_negative : Bool) (h m s usecs any : ℕ)
    → h < 1024
    → m < 64
    → s < 64
    → (is_negative ≡ true → 0 < h * 2 ^ 12 + (m * 2 ^ 6 + s))
    → time_of
        (time_number
          (record { is_negative = is_negative; hours = h; minutes = m; seconds = s; usecs = any }))
        usecs
      ≡ record { is_negative = is_negative; hours = h; minutes = m; seconds = s; usecs = usecs }
unfolding time_of
time_of-parts true h m s usecs any hl ml sl n =
    let t = h * 2 ^ 12 + (m * 2 ^ 6 + s) in
    let pos : 0 < t = n refl in
    let test : ((2 ^ 23 - t) / 2 ^ 23 % 2 == 0) ≡ true = ground arith in
    rw test (fields_of true ((2 ^ 32 - (2 ^ 23 - t)) % 2 ^ 32) h m s usecs (omega arith) hl ml sl)
time_of-parts false h m s usecs any hl ml sl n =
    let t = h * 2 ^ 12 + (m * 2 ^ 6 + s) in
    let test : ((2 ^ 23 + t) / 2 ^ 23 % 2 == 0) ≡ false = ground arith in
    rw test (fields_of false (2 ^ 23 + t) h m s usecs (omega arith) hl ml sl)

-- A time is what its number says, also a negative one.
pub time_of-number :
    (v : TimeValue) (usecs : ℕ)
    → v.hours < 1024
    → v.minutes < 64
    → v.seconds < 64
    → (v.is_negative ≡ true → 0 < hms v)
    → time_of (time_number v) usecs ≡ record v { usecs = usecs }
time_of-number v usecs = time_of-parts v.is_negative v.hours v.minutes v.seconds usecs v.usecs

time_number-lt :
    (v : TimeValue) → v.hours < 1024 → v.minutes < 64 → v.seconds < 64 → time_number v < 256 ^ 3
time_number-lt v h m s = elim (Bool-cases v.is_negative) [
  | inl n ↦ ground arith
  | inr n ↦ ground arith
]

-- What holds of each type of a list holds of a type that is among them.
pub any_of-elim {ℓ} :
    (P : ℕ → Type ℓ) (type : ℕ) (types : List ℕ) → All P types → any_of type types ≡ true → P type
any_of-elim P type [] h e = cc
any_of-elim P type (t ∷ ts) (h, hs) e = elim (Bool-cases (type == t)) [
  | inl same ↦ let e' : t ≡ type = ground arith in subst P e' h
  | inr other ↦ any_of-elim P type ts hs (ground arith)
]

module _ ⦃R : StringReader⦄ (total : ℕ) where
  open R use {Reader}

  read_fraction-Reads :
      (precision fraction : ℕ)
      → precision ≤ 6
      → fraction < 256 ^ fraction_width precision
      → ReaderReads total
          (read_datetime_fractional_part precision)
          (be_bytes (fraction_width precision) fraction)
          (fraction * fraction_unit precision)
  unfolding read_datetime_fractional_part be_bytes
  read_fraction-Reads zero f h k =
      let e : 0 ≡ f * 1 = omega arith in
      subst (λ (u : ℕ). ReaderReads total (pure 0) [] u) e (Reads-pure 0)
  read_fraction-Reads (suc zero) f h k = Reads-last _ (get_le-Reads total 1 f (omega arith)) refl
  read_fraction-Reads (suc (suc zero)) f h k =
      Reads-last _ (get_le-Reads total 1 f (omega arith)) refl
  read_fraction-Reads (suc (suc (suc zero))) f h k =
      Reads-last _ (get_be-Reads total 2 f (omega arith)) refl
  read_fraction-Reads (suc (suc (suc (suc zero)))) f h k =
      Reads-last _ (get_be-Reads total 2 f (omega arith)) refl
  read_fraction-Reads (suc (suc (suc (suc (suc zero))))) f h k =
      let e : f ≡ f * 1 = omega arith in
      subst (λ (u : ℕ). ReaderReads total (R.get_be 3) (be_bytes 3 f) u) e
        (get_be-Reads total 3 f (omega arith))
  read_fraction-Reads (suc (suc (suc (suc (suc (suc zero)))))) f h k =
      let e : f ≡ f * 1 = omega arith in
      subst (λ (u : ℕ). ReaderReads total (R.get_be 3) (be_bytes 3 f) u) e
        (get_be-Reads total 3 f (omega arith))
  read_fraction-Reads (suc (suc (suc (suc (suc (suc (suc p))))))) f h k = absurd (omega arith)

  read_uint-Reads :
      (width v : ℕ)
      → v < 256 ^ width
      → ReaderReads total (read_uint width) (le_bytes width v) (uint64 v)
  read_uint-Reads width v h = Reads-last _ (get_le-Reads total width v h) refl

  read_sized-Reads :
      (width : ℕ) (bytes : List ℕ)
      → length bytes < 256 ^ width
      → ReaderReads total (read_sized width) (le_bytes width (length bytes) ++ bytes) (string bytes)
  read_sized-Reads width bytes h =
      Reads-bind _ (get_le-Reads total width (length bytes) h)
        (Reads-last _ (read-Reads total (length bytes) bytes refl) refl)

  read_blob-Reads :
      (width : ℕ) (bytes : List ℕ)
      → 0 < width
      → width ≤ 4
      → length bytes < 256 ^ width
      → ReaderReads total
          (read_blob (width ∷ []))
          (le_bytes width (length bytes) ++ bytes)
          (string bytes)
  unfolding read_blob
  read_blob-Reads zero bytes p h k = absurd (omega arith)
  read_blob-Reads (suc zero) bytes p h k = read_sized-Reads 1 bytes k
  read_blob-Reads (suc (suc zero)) bytes p h k = read_sized-Reads 2 bytes k
  read_blob-Reads (suc (suc (suc zero))) bytes p h k = read_sized-Reads 3 bytes k
  read_blob-Reads (suc (suc (suc (suc zero)))) bytes p h k = read_sized-Reads 4 bytes k
  read_blob-Reads (suc (suc (suc (suc (suc w))))) bytes p h k = absurd (omega arith)

  read_varchar-Reads :
      (limit : ℕ) (bytes : List ℕ)
      → limit < 2 ^ 16
      → length bytes ≤ limit
      → ReaderReads total
          (read_varchar (limit % 256 ∷ limit / 256 ∷ []))
          (le_bytes (varchar_width limit) (length bytes) ++ bytes)
          (string bytes)
  unfolding read_varchar
  read_varchar-Reads limit bytes h k =
      let e : limit % 256 + 256 * (limit / 256) ≡ limit = omega arith in
      rw e (elim (Bool-cases (ltb 255 limit)) [
        | inl wide ↦ rw wide (read_sized-Reads 2 bytes (omega arith))
        | inr narrow ↦ rw narrow (read_sized-Reads 1 bytes (ground arith))
      ])

  read_datetime2-Reads :
      (precision fraction : ℕ) (v : DateTimeValue)
      → IsCell (datetime2 precision fraction v)
      → ReaderReads total
          (read_datetime2 (precision ∷ []))
          (cell_bytes (datetime2 precision fraction v))
          (cell_value (datetime2 precision fraction v))
  unfolding read_datetime2
  read_datetime2-Reads precision fraction v ((p, f), y, m0, m, d, h, n, s) =
      let z = datetime_number v in
      let e : z / 2 ^ 8 * 2 ^ 8 + z % 2 ^ 8 ≡ z = omega arith in
      Reads-bind _ (get_be-Reads total 4 (z / 2 ^ 8) (omega arith)) (
        Reads-bind _ (get_le-Reads total 1 (z % 2 ^ 8) (omega arith)) (
          Reads-last _ (read_fraction-Reads precision fraction p f) (
            ap (λ x. pure (date_time x))
              (ap (λ (k : ℕ). datetime_of k (fraction * fraction_unit precision)) e
                ∙ datetime_of-number v (fraction * fraction_unit precision) y m0 m d h n s))))

  read_time2-Reads :
      (precision fraction : ℕ) (v : TimeValue)
      → IsCell (time2 precision fraction v)
      → ReaderReads total
          (read_time2 (precision ∷ []))
          (cell_bytes (time2 precision fraction v))
          (cell_value (time2 precision fraction v))
  unfolding read_time2
  read_time2-Reads precision fraction v ((p, f), h, m, s, n) =
      Reads-bind _ (get_be-Reads total 3 (time_number v) (time_number-lt v h m s)) (
        Reads-last _ (read_fraction-Reads precision fraction p f) (
          ap (λ x. pure (time x))
            (time_of-number v (fraction * fraction_unit precision) h m s (λ e. (n e).0))))

  blob_type :
      (type : ℕ)
      → any_of type blob_types ≡ true
      → (type_meta : List ℕ) (nullable : Bool)
      → read_cell_data (record { type = type; type_meta = type_meta; nullable = nullable })
        ≡ read_blob type_meta
  unfolding read_cell_data
  blob_type type =
      any_of-elim
        (λ t.
          (type_meta : List ℕ) (nullable : Bool)
          → read_cell_data (record { type = t; type_meta = type_meta; nullable = nullable })
            ≡ read_blob type_meta)
        type blob_types (same, (same, (same, (same, (same, (same, tt))))))
    where
      same : (type_meta : List ℕ) (nullable : Bool) → read_blob type_meta ≡ read_blob type_meta
      same type_meta nullable = refl

  blob-Reads :
      (type width : ℕ) (bytes : List ℕ) (nullable : Bool)
      → any_of type blob_types ≡ true
      → 0 < width
      → width ≤ 4
      → length bytes < 256 ^ width
      → ReaderReads total
          (read_cell_data (record { type = type; type_meta = width ∷ []; nullable = nullable }))
          (le_bytes width (length bytes) ++ bytes)
          (string bytes)
  blob-Reads type width bytes nullable b p w l =
      rw (blob_type type b (width ∷ []) nullable) (read_blob-Reads width bytes p w l)

  pub read_cell_data-Reads :
      (c : Cell) (nullable : Bool)
      → IsCell c
      → ReaderReads total (read_cell_data (cell_column c nullable)) (cell_bytes c) (cell_value c)
  unfolding read_cell_data
  read_cell_data-Reads (tinyint v) nullable h = read_uint-Reads 1 v h
  read_cell_data-Reads (smallint v) nullable h = read_uint-Reads 2 v h
  read_cell_data-Reads (mediumint v) nullable h = read_uint-Reads 3 v h
  read_cell_data-Reads (int v) nullable h = read_uint-Reads 4 v h
  read_cell_data-Reads (bigint v) nullable h = read_uint-Reads 8 v h
  read_cell_data-Reads (year v) nullable h = read_uint-Reads 1 v h
  read_cell_data-Reads (single_float v) nullable h = Reads-last _ (get_le-Reads total 4 v h) refl
  read_cell_data-Reads (double_float v) nullable h = Reads-last _ (get_le-Reads total 8 v h) refl
  read_cell_data-Reads (timestamp v) nullable h = Reads-last _ (get_le-Reads total 4 v h) refl
  read_cell_data-Reads (blob type width bytes) nullable (t, b, p, w, l) =
      blob-Reads type width bytes nullable b p w l
  read_cell_data-Reads (varchar limit bytes) nullable (l, h) = read_varchar-Reads limit bytes l h
  read_cell_data-Reads (datetime2 precision fraction v) nullable h =
      read_datetime2-Reads precision fraction v h
  read_cell_data-Reads (time2 precision fraction v) nullable h =
      read_time2-Reads precision fraction v h
