-- ===== src/MySql/Query/Cells.antt =====
-- src/Protocols/MySQL/Client.cc, `parse_value`, and what `query_multi` puts the values in (Types.hh,
-- ResultSet).
use libevent_async.Prelude.{ℕ, List, [], ◌∷◌, ◌++◌, Bool, true, false, ◌||◌, ◌==◌, if◌then◌else◌}
use libevent_async.Prelude.Maps.{emplace}
use libevent_async.Prelude.Action.{Result, ok, err, pending, runtime_error, out_of_range}
use libevent_async.MySql.Types.{Value, uint64, int64, float, double, null, date_time, time, string}
use libevent_async.MySql.Types.ColumnType.{
  t_tinyint, t_smallint, t_mediumint, t_int, t_bigint, t_year, t_float, t_double, t_null, t_date,
  t_datetime, t_timestamp, t_time, t_bit, t_string, t_var_string, t_varchar, t_tinyblob, t_blob,
  t_mediumblob, t_longblob, t_decimal, t_newdecimal, t_enum, t_set, t_geometry,
}
use libevent_async.MySql.Types.Texts.{stoll, stoull, date_time_value, time_value}

pub record ColumnDefinition : Type 0 where
  pub catalog_name : List ℕ
  pub database_name : List ℕ
  pub table_name : List ℕ
  pub original_table_name : List ℕ
  pub column_name : List ℕ
  pub original_column_name : List ℕ
  pub charset : ℕ
  pub max_value_length : ℕ
  pub column_type : ℕ
  pub flags : ℕ
  pub decimals : ℕ

pub data Rows : Type 0 where
  vecs : List (List Value) → Rows
  dicts : List (List (List ℕ × Value)) → Rows

pub record ResultSet : Type 0 where
  pub columns : List ColumnDefinition
  pub rows : Rows
  pub affected_rows : ℕ
  pub insert_id : ℕ
  pub status_flags : ℕ
  pub warning_count : ℕ

-- How the C library rounds a decimal text to a binary number, which is held as its bits.
pub record Floats : Type 0 where
  pub stof : List ℕ → Result ℕ
  pub stod : List ℕ → Result ℕ

abbrev pub one_of : ℕ → List ℕ → Bool
one_of type [] = false
one_of type (t ∷ ts) = (type == t) || one_of type ts

abbrev pub made : {A : Type 0} → (A → Value) → Result A → Result Value
made f (ok a) = ok (f a)
made f (err e) = err e
made f pending = pending

abbrev pub integer : List ℕ → Result Value
integer [] = err (out_of_range "basic_string::at")
integer (c ∷ cs) = if c == 0x2D then made int64 (stoll (c ∷ cs)) else made uint64 (stoull (c ∷ cs))

module _ ⦃F : Floats⦄ where
  unfoldable pub parse_value : ℕ → List ℕ → Result Value
  parse_value type value =
      if one_of type (t_tinyint ∷ t_smallint ∷ t_mediumint ∷ t_int ∷ t_bigint ∷ t_year ∷ [])
      then integer value
      else if type == t_float
      then made float (F.stof value)
      else if type == t_double
      then made double (F.stod value)
      else if type == t_null
      then ok null
      else if one_of type (t_date ∷ t_datetime ∷ t_timestamp ∷ [])
      then ok (date_time (date_time_value value))
      else if type == t_time
      then ok (time (time_value value))
      else if one_of type (
          t_bit ∷ t_string ∷ t_var_string ∷ t_varchar ∷ t_tinyblob ∷ t_blob ∷ t_mediumblob
          ∷ t_longblob ∷ t_decimal ∷ t_newdecimal ∷ t_enum ∷ t_set ∷ t_geometry ∷ [])
      then ok (string value)
      else err (runtime_error "invalid value type")

abbrev pub dict : List ColumnDefinition → List Value → List (List ℕ × Value) → List (List ℕ × Value)
dict (d ∷ ds) (v ∷ vs) row = dict ds vs (emplace d.column_name v row)
dict _ _ row = row

abbrev pub no_rows : Bool → Rows
no_rows true = dicts []
no_rows false = vecs []

abbrev pub emplace_row : List ColumnDefinition → List Value → Rows → Rows
emplace_row columns vs (vecs rows) = vecs (rows ++ vs ∷ [])
emplace_row columns vs (dicts rows) = dicts (rows ++ dict columns vs [] ∷ [])
