-- ===== src/MySql/Types/ColumnType.antt =====
-- src/Protocols/MySQL/Types.hh, ColumnType, and `name_for_column_type` of Types.cc.
use libevent_async.Prelude.{
  ℕ, ◌-◌, List, [], ◌∷◌, Option, none, some, String, get_elem?, leb, if◌then◌else◌,
}
use libevent_async.Prelude.Action.{Result, Error, ok, err}

abbrev pub t_decimal : ℕ
t_decimal = 0x00

abbrev pub t_tinyint : ℕ
t_tinyint = 0x01

abbrev pub t_smallint : ℕ
t_smallint = 0x02

abbrev pub t_int : ℕ
t_int = 0x03

abbrev pub t_float : ℕ
t_float = 0x04

abbrev pub t_double : ℕ
t_double = 0x05

abbrev pub t_null : ℕ
t_null = 0x06

abbrev pub t_timestamp : ℕ
t_timestamp = 0x07

abbrev pub t_bigint : ℕ
t_bigint = 0x08

abbrev pub t_mediumint : ℕ
t_mediumint = 0x09

abbrev pub t_date : ℕ
t_date = 0x0A

abbrev pub t_time : ℕ
t_time = 0x0B

abbrev pub t_datetime : ℕ
t_datetime = 0x0C

abbrev pub t_year : ℕ
t_year = 0x0D

abbrev pub t_newdate : ℕ
t_newdate = 0x0E

abbrev pub t_varchar : ℕ
t_varchar = 0x0F

abbrev pub t_bit : ℕ
t_bit = 0x10

abbrev pub t_timestamp2 : ℕ
t_timestamp2 = 0x11

abbrev pub t_datetime2 : ℕ
t_datetime2 = 0x12

abbrev pub t_time2 : ℕ
t_time2 = 0x13

abbrev pub t_bool : ℕ
t_bool = 0xF4

abbrev pub t_json : ℕ
t_json = 0xF5

abbrev pub t_newdecimal : ℕ
t_newdecimal = 0xF6

abbrev pub t_enum : ℕ
t_enum = 0xF7

abbrev pub t_set : ℕ
t_set = 0xF8

abbrev pub t_tinyblob : ℕ
t_tinyblob = 0xF9

abbrev pub t_mediumblob : ℕ
t_mediumblob = 0xFA

abbrev pub t_longblob : ℕ
t_longblob = 0xFB

abbrev pub t_blob : ℕ
t_blob = 0xFC

abbrev pub t_var_string : ℕ
t_var_string = 0xFD

abbrev pub t_string : ℕ
t_string = 0xFE

abbrev pub t_geometry : ℕ
t_geometry = 0xFF

abbrev low_types : List String
low_types =
    "T_DECIMAL" ∷ "T_TINYINT" ∷ "T_SMALLINT" ∷ "T_INT" ∷ "T_FLOAT" ∷ "T_DOUBLE" ∷ "T_NULL"
    ∷ "T_TIMESTAMP" ∷ "T_BIGINT" ∷ "T_MEDIUMINT" ∷ "T_DATE" ∷ "T_TIME" ∷ "T_DATETIME" ∷ "T_YEAR"
    ∷ "T_NEWDATE" ∷ "T_VARCHAR" ∷ "T_BIT" ∷ "T_TIMESTAMP2" ∷ "T_DATETIME2" ∷ "T_TIME2" ∷ []

abbrev high_types : List String
high_types =
    "T_BOOL" ∷ "T_JSON" ∷ "T_NEWDECIMAL" ∷ "T_ENUM" ∷ "T_SET" ∷ "T_TINYBLOB" ∷ "T_MEDIUMBLOB"
    ∷ "T_LONGBLOB" ∷ "T_BLOB" ∷ "T_VAR_STRING" ∷ "T_STRING" ∷ "T_GEOMETRY" ∷ []

abbrev name_or : Error → Option String → Result String
name_or e none = err e
name_or e (some name) = ok name

-- `invalid` is what is thrown for a type without a name: a runtime_error with the type in hexadecimal.
unfoldable pub name_for_column_type : (ℕ → Error) → ℕ → Result String
name_for_column_type invalid type =
    name_or (invalid type)
      (if leb 0xF4 type then get_elem? high_types (type - 0xF4) else get_elem? low_types type)
