-- ===== src/MySql/BinlogProcessor/Encoding.antt =====
-- The bytes of binlog events, as a server writes them: what src/Protocols/MySQL/BinlogProcessor.cc
-- is to parse.
use libevent_async.Prelude.{
  ℕ, zero, suc, ◌+◌, ◌-◌, ◌*◌, ◌/◌, ◌%◌, ◌^◌, ◌≤◌, ◌<◌, ◌≡◌, List, [], ◌∷◌, ◌++◌, map, length, All,
  Bool, true, false, if◌then◌else◌, ◌&&◌, ◌||◌, ◌==◌, ltb, replicate,
}
use libevent_async.Prelude.Bytes.{le_bytes, be_bytes}
use libevent_async.MySql.Types.{
  DateTimeValue, TimeValue, Value, uint64, float, double, null, date_time, time, string,
}
use libevent_async.MySql.ProtocolBuffer.Writers.{varint_bytes}
use libevent_async.MySql.ProtocolStringReader.Bitmask.{bitmask_bytes}
use libevent_async.MySql.BinlogProcessor.Cells.{ColumnInfo, any_of}
use libevent_async.MySql.BinlogProcessor.Rows.{
  BinlogTableInfo, WriteType, insert, update, delete, RowChange,
}
use libevent_async.MySql.BinlogProcessor.Events.{
  BinlogEventHeader, BinlogQueryEvent, BinlogRotateEvent, BinlogXidEvent,
}

abbrev pub header_bytes : BinlogEventHeader → List ℕ
header_bytes h =
    le_bytes 4 h.timestamp
    ++ (le_bytes 1 h.type
        ++ (le_bytes 4 h.server_id
            ++ (le_bytes 4 h.length ++ (le_bytes 4 h.end_position ++ le_bytes 2 h.flags))))

pub record IsHeader (h : BinlogEventHeader) : Type 0 where
  pub timestamp : h.timestamp < 256 ^ 4
  pub type : h.type < 256 ^ 1
  pub server_id : h.server_id < 256 ^ 4
  pub length : h.length < 256 ^ 4
  pub end_position : h.end_position < 256 ^ 4
  pub flags : h.flags < 256 ^ 2

abbrev pub name_bytes : List ℕ → List ℕ
name_bytes name = le_bytes 1 (length name) ++ (name ++ 0 ∷ [])

unfoldable pub types_bytes : List ColumnInfo → List ℕ
types_bytes [] = []
types_bytes (ci ∷ cis) = le_bytes 1 ci.type ++ types_bytes cis

unfoldable pub metas_bytes : List ColumnInfo → List ℕ
metas_bytes [] = []
metas_bytes (ci ∷ cis) = ci.type_meta ++ metas_bytes cis

abbrev pub types_of : List ColumnInfo → List ℕ
types_of [] = []
types_of (ci ∷ cis) = ci.type ∷ types_of cis

abbrev pub nullables : List ColumnInfo → List Bool
nullables [] = []
nullables (ci ∷ cis) = ci.nullable ∷ nullables cis

-- Column types by their codes in the protocol, each with how many bytes of metadata it has.
abbrev pub metadata_lengths : List (ℕ × ℕ)
metadata_lengths =
    (0, 2)
    ∷ (1, 0)
    ∷ (2, 0)
    ∷ (3, 0)
    ∷ (4, 1)
    ∷ (5, 1)
    ∷ (7, 0)
    ∷ (8, 0)
    ∷ (9, 0)
    ∷ (10, 0)
    ∷ (11, 0)
    ∷ (12, 0)
    ∷ (13, 0)
    ∷ (14, 0)
    ∷ (15, 2)
    ∷ (16, 2)
    ∷ (17, 1)
    ∷ (18, 1)
    ∷ (19, 1)
    ∷ (244, 0)
    ∷ (245, 1)
    ∷ (246, 2)
    ∷ (247, 2)
    ∷ (248, 2)
    ∷ (249, 1)
    ∷ (250, 1)
    ∷ (251, 1)
    ∷ (252, 1)
    ∷ (253, 0)
    ∷ (254, 2)
    ∷ (255, 1)
    ∷ []

abbrev pub is_listed : ℕ → ℕ → List (ℕ × ℕ) → Bool
is_listed type n [] = false
is_listed type n ((t, m) ∷ lengths) = (type == t && n == m) || is_listed type n lengths

-- The metadata of a column has the length that goes with its type.
abbrev pub HasMeta : ℕ → ℕ → Type 0
HasMeta type n = is_listed type n metadata_lengths ≡ true

abbrev pub IsColumn : ColumnInfo → Type 0
IsColumn ci = (ci.type < 256) × HasMeta ci.type (length ci.type_meta)

abbrev pub table_info_bytes : BinlogTableInfo → List ℕ
table_info_bytes ti =
    name_bytes ti.database_name
    ++ (name_bytes ti.table_name
        ++ (varint_bytes (length ti.columns)
            ++ (types_bytes ti.columns
                ++ ((varint_bytes (length (metas_bytes ti.columns)) ++ metas_bytes ti.columns)
                    ++ bitmask_bytes (nullables ti.columns)))))

abbrev pub table_map_bytes : BinlogEventHeader → ℕ → ℕ → BinlogTableInfo → List ℕ
table_map_bytes h table_id flags ti =
    header_bytes h ++ (le_bytes 6 table_id ++ (le_bytes 2 flags ++ table_info_bytes ti))

pub record IsTable (ti : BinlogTableInfo) : Type 0 where
  pub database_name : length ti.database_name < 256
  pub table_name : length ti.table_name < 256
  pub num_columns : length ti.columns < 2 ^ 64
  pub metas : length (metas_bytes ti.columns) < 2 ^ 64
  pub columns : All IsColumn ti.columns

-- A cell of a row, with what its column's metadata says: how many bytes a blob's size has, the length
-- that a varchar may have, the digits of a time's fraction. A fraction is held as it is stored.
pub data Cell : Type 0 where
  tinyint smallint mediumint int bigint year single_float double_float timestamp : ℕ → Cell
  blob : ℕ → ℕ → List ℕ → Cell
  varchar : ℕ → List ℕ → Cell
  datetime2 : ℕ → ℕ → DateTimeValue → Cell
  time2 : ℕ → ℕ → TimeValue → Cell

-- The protocol's codes of the types.
abbrev pub cell_type : Cell → ℕ
cell_type (tinyint v) = 1
cell_type (smallint v) = 2
cell_type (mediumint v) = 9
cell_type (int v) = 3
cell_type (bigint v) = 8
cell_type (year v) = 13
cell_type (single_float v) = 4
cell_type (double_float v) = 5
cell_type (timestamp v) = 7
cell_type (blob type width bytes) = type
cell_type (varchar limit bytes) = 15
cell_type (datetime2 precision fraction v) = 18
cell_type (time2 precision fraction v) = 19

abbrev pub cell_meta : Cell → List ℕ
cell_meta (tinyint v) = []
cell_meta (smallint v) = []
cell_meta (mediumint v) = []
cell_meta (int v) = []
cell_meta (bigint v) = []
cell_meta (year v) = []
cell_meta (single_float v) = 4 ∷ []
cell_meta (double_float v) = 8 ∷ []
cell_meta (timestamp v) = []
cell_meta (blob type width bytes) = width ∷ []
cell_meta (varchar limit bytes) = limit % 256 ∷ limit / 256 ∷ []
cell_meta (datetime2 precision fraction v) = precision ∷ []
cell_meta (time2 precision fraction v) = precision ∷ []

abbrev pub cell_column : Cell → Bool → ColumnInfo
cell_column c nullable = record { type = cell_type c; type_meta = cell_meta c; nullable = nullable }

-- A fraction of up to six digits takes half as many bytes.
abbrev pub fraction_width : ℕ → ℕ
fraction_width precision = (precision + 1) / 2

-- Microseconds in a unit of the fraction, which has two digits for each byte.
abbrev pub fraction_unit : ℕ → ℕ
fraction_unit zero = 1
fraction_unit (suc zero) = 10000
fraction_unit (suc (suc zero)) = 10000
fraction_unit (suc (suc (suc zero))) = 100
fraction_unit (suc (suc (suc (suc zero)))) = 100
fraction_unit (suc (suc (suc (suc (suc p))))) = 1

abbrev pub datetime_number : DateTimeValue → ℕ
datetime_number v =
    (131072 + 13 * v.years + v.months) * 2 ^ 22
    + (v.days * 2 ^ 17 + (v.hours * 2 ^ 12 + (v.minutes * 2 ^ 6 + v.seconds)))

abbrev pub hms : TimeValue → ℕ
hms v = v.hours * 2 ^ 12 + (v.minutes * 2 ^ 6 + v.seconds)

-- A value that is not negative stands above 2 ^ 23, any other below.
abbrev pub time_number : TimeValue → ℕ
time_number v = if v.is_negative then 2 ^ 23 - hms v else 2 ^ 23 + hms v

abbrev pub cell_value : Cell → Value
cell_value (tinyint v) = uint64 v
cell_value (smallint v) = uint64 v
cell_value (mediumint v) = uint64 v
cell_value (int v) = uint64 v
cell_value (bigint v) = uint64 v
cell_value (year v) = uint64 v
cell_value (single_float v) = float v
cell_value (double_float v) = double v
cell_value (timestamp v) = uint64 (v * 1000000)
cell_value (blob type width bytes) = string bytes
cell_value (varchar limit bytes) = string bytes
cell_value (datetime2 precision fraction v) =
    date_time (record v { usecs = fraction * fraction_unit precision })
cell_value (time2 precision fraction v) =
    time (record v { usecs = fraction * fraction_unit precision })

abbrev pub varchar_width : ℕ → ℕ
varchar_width limit = if ltb 255 limit then 2 else 1

abbrev pub cell_bytes : Cell → List ℕ
cell_bytes (tinyint v) = le_bytes 1 v
cell_bytes (smallint v) = le_bytes 2 v
cell_bytes (mediumint v) = le_bytes 3 v
cell_bytes (int v) = le_bytes 4 v
cell_bytes (bigint v) = le_bytes 8 v
cell_bytes (year v) = le_bytes 1 v
cell_bytes (single_float v) = le_bytes 4 v
cell_bytes (double_float v) = le_bytes 8 v
cell_bytes (timestamp v) = le_bytes 4 v
cell_bytes (blob type width bytes) = le_bytes width (length bytes) ++ bytes
cell_bytes (varchar limit bytes) = le_bytes (varchar_width limit) (length bytes) ++ bytes
cell_bytes (datetime2 precision fraction v) =
    be_bytes 4 (datetime_number v / 2 ^ 8)
    ++ (le_bytes 1 (datetime_number v % 2 ^ 8) ++ be_bytes (fraction_width precision) fraction)
cell_bytes (time2 precision fraction v) =
    be_bytes 3 (time_number v) ++ be_bytes (fraction_width precision) fraction

abbrev pub IsFraction : ℕ → ℕ → Type 0
IsFraction precision fraction = (precision ≤ 6) × (fraction < 256 ^ fraction_width precision)

-- What a column can hold. A date has a month. A negative time has no fraction: one that has is stored
-- as the negation of the whole, the fraction with it.
abbrev pub IsCell : Cell → Type 0
IsCell (tinyint v) = v < 256 ^ 1
IsCell (smallint v) = v < 256 ^ 2
IsCell (mediumint v) = v < 256 ^ 3
IsCell (int v) = v < 256 ^ 4
IsCell (bigint v) = v < 256 ^ 8
IsCell (year v) = v < 256 ^ 1
IsCell (single_float v) = v < 256 ^ 4
IsCell (double_float v) = v < 256 ^ 8
IsCell (timestamp v) = v < 256 ^ 4
IsCell (blob type width bytes) =
    (type < 256)
    × (any_of type (249 ∷ 250 ∷ 251 ∷ 252 ∷ 255 ∷ 245 ∷ []) ≡ true)
    × (0 < width)
    × (width ≤ 4)
    × (length bytes < 256 ^ width)
IsCell (varchar limit bytes) = (limit < 2 ^ 16) × (length bytes ≤ limit)
IsCell (datetime2 precision fraction v) =
    IsFraction precision fraction
    × (v.years < 10000)
    × (0 < v.months)
    × (v.months < 13)
    × (v.days < 32)
    × (v.hours < 32)
    × (v.minutes < 64)
    × (v.seconds < 64)
IsCell (time2 precision fraction v) =
    IsFraction precision fraction
    × (v.hours < 1024)
    × (v.minutes < 64)
    × (v.seconds < 64)
    × (v.is_negative ≡ true → (0 < hms v) × (fraction ≡ 0))

-- A field of a row: a cell, in a column that may allow NULL, or NULL in a column of any kind that does.
pub data Field : Type 0 where
  filled : Bool → Cell → Field
  missing : ColumnInfo → Field

abbrev pub field_column : Field → ColumnInfo
field_column (filled nullable c) = cell_column c nullable
field_column (missing ci) = ci

abbrev pub is_missing : Field → Bool
is_missing (filled nullable c) = false
is_missing (missing ci) = true

abbrev pub field_value : Field → Value
field_value (filled nullable c) = cell_value c
field_value (missing ci) = null

abbrev pub field_bytes : Field → List ℕ
field_bytes (filled nullable c) = cell_bytes c
field_bytes (missing ci) = []

abbrev pub IsField : Field → Type 0
IsField (filled nullable c) = IsCell c
IsField (missing ci) = ci.nullable ≡ true

unfoldable pub fields_bytes : List Field → List ℕ
fields_bytes [] = []
fields_bytes (f ∷ fs) = field_bytes f ++ fields_bytes fs

-- A row: which fields are NULL, and the others.
abbrev pub row_bytes : List Field → List ℕ
row_bytes fields = bitmask_bytes (map is_missing fields) ++ fields_bytes fields

pub record Change : Type 0 where
  pub before : List Field
  pub after : List Field

-- Of an insertion there is the new row only, of a deletion the old one; of an update both, or in the
-- oldest version the new one.
abbrev pub change_bytes : WriteType → Bool → Change → List ℕ
change_bytes insert preimage c = row_bytes c.after
change_bytes update true c = row_bytes c.before ++ row_bytes c.after
change_bytes update false c = row_bytes c.after
change_bytes delete preimage c = row_bytes c.before

abbrev pub measure : List Field → List Value × ℕ
measure fields = (map field_value fields, length (row_bytes fields))

abbrev pub only_after : Change → RowChange
only_after c = record {
  pre_bytes = 0;
  post_bytes = length (row_bytes c.after);
  pre = [];
  post = map field_value c.after;
}

abbrev pub change_value : WriteType → Bool → Change → RowChange
change_value insert preimage c = only_after c
change_value update true c = record {
  pre_bytes = length (row_bytes c.before);
  post_bytes = length (row_bytes c.after);
  pre = map field_value c.before;
  post = map field_value c.after;
}
change_value update false c = only_after c
change_value delete preimage c = record {
  pre_bytes = length (row_bytes c.before);
  post_bytes = 0;
  pre = map field_value c.before;
  post = [];
}

abbrev pub IsRow : List ColumnInfo → List Field → Type 0
IsRow columns fields = (map field_column fields ≡ columns) × All IsField fields

abbrev pub IsChange : List ColumnInfo → WriteType → Bool → Change → Type 0
IsChange columns insert preimage c = IsRow columns c.after
IsChange columns update true c = IsRow columns c.before × IsRow columns c.after
IsChange columns update false c = IsRow columns c.after
IsChange columns delete preimage c = IsRow columns c.before

unfoldable pub changes_bytes : WriteType → Bool → List Change → List ℕ
changes_bytes w preimage [] = []
changes_bytes w preimage (c ∷ cs) = change_bytes w preimage c ++ changes_bytes w preimage cs

-- The versions of the three events of rows, and the events' types.
pub data Version : Type 0 where
  v0 v1 v2 : Version

abbrev pub event_type : WriteType → Version → ℕ
event_type insert v0 = 20
event_type update v0 = 21
event_type delete v0 = 22
event_type insert v1 = 23
event_type update v1 = 24
event_type delete v1 = 25
event_type insert v2 = 30
event_type update v2 = 31
event_type delete v2 = 32

abbrev pub has_extra : Version → Bool
has_extra v0 = false
has_extra v1 = false
has_extra v2 = true

-- An update of a later version than the oldest has the old rows too.
abbrev pub has_old_row : WriteType → Version → Bool
has_old_row insert version = false
has_old_row update v0 = false
has_old_row update v1 = true
has_old_row update v2 = true
has_old_row delete version = false

-- Version 2 of an event has data of any kind behind a length that counts its own two bytes.
abbrev pub extra_bytes : Bool → List ℕ → List ℕ
extra_bytes false extra = []
extra_bytes true extra = le_bytes 2 (length extra + 2) ++ extra

abbrev pub extra_value : Bool → List ℕ → List ℕ
extra_value false extra = []
extra_value true extra = extra

-- Every column is present, in the old row and in the new one.
abbrev pub present_bytes : Bool → ℕ → List ℕ
present_bytes false n = bitmask_bytes (replicate n true)
present_bytes true n = bitmask_bytes (replicate n true) ++ bitmask_bytes (replicate n true)

abbrev pub rows_fields_bytes :
    Bool → Bool → WriteType → ℕ → List ℕ → List ColumnInfo → List Change → List ℕ
rows_fields_bytes extended preimage w flags extra columns changes =
    le_bytes 2 flags
    ++ (extra_bytes extended extra
        ++ (varint_bytes (length columns)
            ++ (present_bytes preimage (length columns) ++ changes_bytes w preimage changes)))

abbrev pub rows_bytes :
    BinlogEventHeader
    → WriteType
    → Version
    → ℕ
    → ℕ
    → List ℕ
    → List ColumnInfo
    → List Change
    → List ℕ
rows_bytes h w version table_id flags extra columns changes =
    header_bytes h
    ++ (le_bytes 6 table_id
        ++ rows_fields_bytes (has_extra version) (has_old_row w version) w flags extra columns
            changes)

abbrev pub query_bytes : BinlogQueryEvent → List ℕ
query_bytes ev =
    header_bytes ev.header
    ++ (le_bytes 4 ev.conn_id
        ++ (le_bytes 4 ev.exec_time_secs
            ++ (le_bytes 1 (length ev.database_name)
                ++ (le_bytes 2 ev.error_code
                    ++ (le_bytes 2 (length ev.status_vars)
                        ++ (ev.status_vars ++ (ev.database_name ++ (0 ∷ [] ++ ev.query))))))))

pub record IsQuery (ev : BinlogQueryEvent) : Type 0 where
  pub header : IsHeader ev.header
  pub type : ev.header.type ≡ 2
  pub conn_id : ev.conn_id < 256 ^ 4
  pub exec_time_secs : ev.exec_time_secs < 256 ^ 4
  pub database_name : length ev.database_name < 256 ^ 1
  pub error_code : ev.error_code < 256 ^ 2
  pub status_vars : length ev.status_vars < 256 ^ 2

abbrev pub rotate_bytes : BinlogRotateEvent → List ℕ
rotate_bytes ev = header_bytes ev.header ++ (le_bytes 8 ev.next_position ++ ev.next_filename)

abbrev pub xid_bytes : BinlogXidEvent → List ℕ
xid_bytes ev = header_bytes ev.header ++ le_bytes 8 ev.xid
