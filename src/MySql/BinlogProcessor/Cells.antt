-- ===== src/MySql/BinlogProcessor/Cells.antt =====
-- src/Protocols/MySQL/BinlogProcessor.cc: `read_cell_data` and what it calls.
use libevent_async.Prelude.{
  ℕ, ◌+◌, ◌-◌, ◌*◌, ◌/◌, ◌%◌, ◌^◌, List, [], ◌∷◌, Bool, true, false, ◌||◌, ltb, ◌==◌, if◌then◌else◌,
  bit_and, bit_xor,
}
use libevent_async.Prelude.Action.{Action, runtime_error, logic_error, pure, throw, ◌>>=◌}
use libevent_async.Phosg.Reader.{StringReader}
use libevent_async.MySql.Types.{
  DateTimeValue, TimeValue, Value, uint64, float, double, null, date_time, time, string,
}
use libevent_async.MySql.Types.ColumnType.{
  t_tinyint, t_smallint, t_int, t_float, t_double, t_null, t_timestamp, t_bigint, t_mediumint,
  t_year, t_varchar, t_timestamp2, t_datetime2, t_time2, t_json, t_enum, t_set, t_tinyblob,
  t_mediumblob, t_longblob, t_blob, t_string, t_geometry,
}

pub record ColumnInfo : Type 0 where
  pub type : ℕ
  pub type_meta : List ℕ
  pub nullable : Bool

abbrev pub any_of : ℕ → List ℕ → Bool
any_of type [] = false
any_of type (t ∷ ts) = if type == t then true else any_of type ts

-- The types that `read_cell_data` reads as blobs, and as strings of a fixed width.
abbrev pub blob_types : List ℕ
blob_types = t_tinyblob ∷ t_mediumblob ∷ t_longblob ∷ t_blob ∷ t_geometry ∷ t_json ∷ []

abbrev pub string_types : List ℕ
string_types = t_enum ∷ t_set ∷ t_string ∷ []

-- The conversion of a `char` to `size_t`.
abbrev pub size_of_char : ℕ → ℕ
size_of_char c = if ltb c 128 then c else 2 ^ 64 + c - 256

-- `(c + 1) / 2` of a `char`, as a `size_t`.
abbrev pub half_of_char : ℕ → ℕ
half_of_char c = if ltb c 128 then (c + 1) / 2 else (2 ^ 64 - (255 - c) / 2) % 2 ^ 64

-- From the seconds on: `z` has 5, 5, 6 and 6 bits for days, hours, minutes and seconds, below the
-- months.
unfoldable pub datetime_of : ℕ → ℕ → DateTimeValue
datetime_of z usecs = record {
  years = (z / 2 ^ 22 + 2 ^ 64 - 131073) % 2 ^ 64 / 13 % 2 ^ 16;
  months = (z / 2 ^ 22 + 7) % 13;
  days = z / 2 ^ 17 % 2 ^ 5;
  hours = z / 2 ^ 12 % 2 ^ 5;
  minutes = z / 2 ^ 6 % 2 ^ 6;
  seconds = z % 2 ^ 6;
  usecs = usecs;
}

-- `~z + 1` in 32 bits, where the value is negative.
abbrev pub magnitude : Bool → ℕ → ℕ
magnitude is_negative z = if is_negative then (2 ^ 32 - z) % 2 ^ 32 else z

abbrev pub time_fields : Bool → ℕ → ℕ → TimeValue
time_fields is_negative z usecs = record {
  is_negative = is_negative;
  hours = z / 2 ^ 12 % 2 ^ 10;
  minutes = z / 2 ^ 6 % 2 ^ 6;
  seconds = z % 2 ^ 6;
  usecs = usecs;
}

-- The highest of the 24 bits says that the value is not negative.
unfoldable pub time_of : ℕ → ℕ → TimeValue
time_of z usecs =
    let is_negative = z / 2 ^ 23 % 2 == 0 in time_fields is_negative (magnitude is_negative z) usecs

module _ ⦃R : StringReader⦄ where
  open R use {Reader, get_le, get_be, read}

  unfoldable pub read_datetime_fractional_part : ℕ → Action Reader ℕ
  read_datetime_fractional_part precision =
      if precision == 0
      then pure 0
      else if precision == 1
      then (do v ← get_le 1; pure (v * 10000))
      else if precision == 2
      then (do v ← get_le 1; pure (v * 10000))
      else if precision == 3
      then (do v ← get_be 2; pure (v * 100))
      else if precision == 4
      then (do v ← get_be 2; pure (v * 100))
      else if precision == 5
      then get_be 3
      else if precision == 6
      then get_be 3
      else throw (runtime_error "invalid time-like precision specifier")

  abbrev pub read_uint : ℕ → Action Reader Value
  read_uint width = do v ← get_le width; pure (uint64 v)

  -- A string behind its length.
  abbrev pub read_sized : ℕ → Action Reader Value
  read_sized width = do size ← get_le width; bytes ← read size; pure (string bytes)

  unfoldable pub read_blob : List ℕ → Action Reader Value
  read_blob [] = throw (runtime_error "invalid type options")
  read_blob (m ∷ []) =
      if m == 1
      then read_sized 1
      else if m == 2
      then read_sized 2
      else if m == 3
      then read_sized 3
      else if m == 4
      then read_sized 4
      else throw (runtime_error "invalid blob-type meta-length")
  read_blob (m ∷ n ∷ rest) = throw (runtime_error "invalid type options")

  abbrev pub read_string_of : ℕ → Action Reader Value
  read_string_of max_display_width =
      if ltb 255 max_display_width then read_sized 2 else read_sized 1

  unfoldable pub read_string : List ℕ → Action Reader Value
  read_string [] = throw (runtime_error "invalid type options")
  read_string (subtype ∷ []) = throw (runtime_error "invalid type options")
  read_string (subtype ∷ m ∷ []) =
      if subtype == t_set || subtype == t_enum
      then (do bytes ← read (size_of_char m); pure (string bytes))
      else read_string_of (bit_xor (bit_and (subtype * 16) 0x300) 0x300 + m)
  read_string (subtype ∷ m ∷ n ∷ rest) = throw (runtime_error "invalid type options")

  unfoldable pub read_varchar : List ℕ → Action Reader Value
  read_varchar [] = throw (runtime_error "invalid type options")
  read_varchar (m ∷ []) = throw (runtime_error "invalid type options")
  read_varchar (m ∷ n ∷ []) = read_string_of (m + 256 * n)
  read_varchar (m ∷ n ∷ k ∷ rest) = throw (runtime_error "invalid type options")

  -- The fractional part is skipped.
  unfoldable pub read_timestamp2 : List ℕ → Action Reader Value
  read_timestamp2 [] = do ret ← get_le 4; throw (logic_error "invalid type options")
  read_timestamp2 (m ∷ []) = do
    ret ← get_le 4
    if m == 0
        then pure (uint64 ret)
        else (do fractional_part ← read (half_of_char m); pure (uint64 ret))
  read_timestamp2 (m ∷ n ∷ rest) = do ret ← get_le 4; throw (logic_error "invalid type options")

  unfoldable pub read_datetime2 : List ℕ → Action Reader Value
  read_datetime2 [] = throw (logic_error "invalid type options")
  read_datetime2 (precision ∷ []) = do
    high ← get_be 4
    low ← get_le 1
    usecs ← read_datetime_fractional_part precision
    pure (date_time (datetime_of (high * 2 ^ 8 + low) usecs))
  read_datetime2 (precision ∷ n ∷ rest) = throw (logic_error "invalid type options")

  unfoldable pub read_time2 : List ℕ → Action Reader Value
  read_time2 [] = throw (logic_error "invalid type options")
  read_time2 (precision ∷ []) = do
    z ← get_be 3
    usecs ← read_datetime_fractional_part precision
    pure (time (time_of z usecs))
  read_time2 (precision ∷ n ∷ rest) = throw (logic_error "invalid type options")

  unfoldable pub read_cell_data : ColumnInfo → Action Reader Value
  read_cell_data ci =
      if ci.type == t_null
      then pure null
      else if ci.type == t_tinyint
      then read_uint 1
      else if ci.type == t_smallint
      then read_uint 2
      else if ci.type == t_mediumint
      then read_uint 3
      else if ci.type == t_int
      then read_uint 4
      else if ci.type == t_bigint
      then read_uint 8
      else if ci.type == t_float
      then (do v ← get_le 4; pure (float v))
      else if ci.type == t_double
      then (do v ← get_le 8; pure (double v))
      else if any_of ci.type blob_types
      then read_blob ci.type_meta
      else if ci.type == t_year
      then read_uint 1
      else if any_of ci.type string_types
      then read_string ci.type_meta
      else if ci.type == t_varchar
      then read_varchar ci.type_meta
      else if ci.type == t_timestamp
      then (do v ← get_le 4; pure (uint64 (v * 1000000)))
      else if ci.type == t_timestamp2
      then read_timestamp2 ci.type_meta
      else if ci.type == t_datetime2
      then read_datetime2 ci.type_meta
      else if ci.type == t_time2
      then read_time2 ci.type_meta
      else throw (runtime_error "unimplemented or invalid column type")
