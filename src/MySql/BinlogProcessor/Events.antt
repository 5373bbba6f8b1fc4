-- ===== src/MySql/BinlogProcessor/Events.antt =====
-- src/Protocols/MySQL/BinlogProcessor.hh: the structs of the events; and what the parsers of
-- BinlogProcessor.cc compute with no reader.
use libevent_async.Prelude.{
  ℕ, zero, suc, List, [], ◌∷◌, Bool, true, false, ◌||◌, length, ◌==◌, if◌then◌else◌, String, Option,
  none, some, get_elem?,
}
use libevent_async.Prelude.Bytes.{same_bytes}
use libevent_async.Prelude.Action.{
  Action, Result, ok, err, pending, runtime_error, logic_error, out_of_range, pure, throw,
}
use libevent_async.Prelude.{take}
use libevent_async.MySql.Types.ColumnType.{
  t_decimal, t_tinyint, t_smallint, t_int, t_float, t_double, t_null, t_timestamp, t_bigint,
  t_mediumint, t_date, t_time, t_datetime, t_year, t_newdate, t_varchar, t_bit, t_timestamp2,
  t_datetime2, t_time2, t_bool, t_json, t_newdecimal, t_enum, t_set, t_tinyblob, t_mediumblob,
  t_longblob, t_blob, t_var_string, t_string, t_geometry,
}
use libevent_async.MySql.BinlogProcessor.Cells.{any_of}
use libevent_async.MySql.BinlogProcessor.Rows.{
  BinlogTableInfo, WriteType, insert, update, delete, RowChange,
}

pub record BinlogEventHeader : Type 0 where
  pub timestamp : ℕ
  pub type : ℕ
  pub server_id : ℕ
  pub length : ℕ
  pub end_position : ℕ
  pub flags : ℕ

-- The source never sets the member `ti`.
pub record BinlogTableMapEvent : Type 0 where
  pub header : BinlogEventHeader
  pub table_id : ℕ
  pub flags : ℕ

pub record BinlogRowsEvent : Type 0 where
  pub header : BinlogEventHeader
  pub write_type : WriteType
  pub table_id : ℕ
  pub ti : BinlogTableInfo
  pub flags : ℕ
  pub extra_data : List ℕ
  pub rows : List RowChange

pub record BinlogQueryEvent : Type 0 where
  pub header : BinlogEventHeader
  pub conn_id : ℕ
  pub exec_time_secs : ℕ
  pub database_name : List ℕ
  pub error_code : ℕ
  pub status_vars : List ℕ
  pub query : List ℕ

pub record BinlogRotateEvent : Type 0 where
  pub header : BinlogEventHeader
  pub next_filename : List ℕ
  pub next_position : ℕ

pub record BinlogXidEvent : Type 0 where
  pub header : BinlogEventHeader
  pub xid : ℕ

pub record BinlogFormatDescriptionEvent : Type 0 where
  pub header : BinlogEventHeader
  pub version : ℕ
  pub server_version : List ℕ
  pub timestamp : ℕ
  pub header_length : ℕ
  pub event_header_lengths : List ℕ

pub record BinlogProcessor : Type 0 where
  pub filename : List ℕ
  pub position : ℕ
  pub table_map : List (ℕ × BinlogTableInfo)

-- `table_map.at`, which throws where there is none.
unfoldable pub find_table : ℕ → List (ℕ × BinlogTableInfo) → Result BinlogTableInfo
find_table table_id [] = err (out_of_range "unordered_map::at")
find_table table_id ((i, ti) ∷ m) = if i == table_id then ok ti else find_table table_id m

-- `table_map[table_id] = ti`.
unfoldable pub set_table :
    ℕ → BinlogTableInfo → List (ℕ × BinlogTableInfo) → List (ℕ × BinlogTableInfo)
set_table table_id ti [] = (table_id, ti) ∷ []
set_table table_id ti ((i, ti') ∷ m) =
    if i == table_id then (table_id, ti) ∷ m else (i, ti') ∷ set_table table_id ti m

-- Types whose metadata in a table map has no byte, one, or two.
abbrev pub no_metadata : List ℕ
no_metadata =
    t_date ∷ t_datetime ∷ t_time ∷ t_timestamp ∷ t_tinyint ∷ t_smallint ∷ t_mediumint ∷ t_int
    ∷ t_bigint ∷ t_year ∷ t_bool ∷ t_var_string ∷ t_newdate ∷ []

abbrev pub one_byte : List ℕ
one_byte =
    t_tinyblob ∷ t_blob ∷ t_mediumblob ∷ t_longblob ∷ t_float ∷ t_double ∷ t_geometry ∷ t_json
    ∷ t_timestamp2 ∷ t_time2 ∷ t_datetime2 ∷ []

abbrev pub two_bytes : List ℕ
two_bytes = t_string ∷ t_varchar ∷ t_decimal ∷ t_newdecimal ∷ t_enum ∷ t_set ∷ t_bit ∷ []

unfoldable pub metadata_bytes_for_column_type : {S : Type 0} → ℕ → Action S ℕ
metadata_bytes_for_column_type type =
    if type == t_null
    then throw (logic_error "T_NULL cannot be specified in a place where metadata is needed")
    else if any_of type no_metadata
    then pure 0
    else if any_of type one_byte
    then pure 1
    else if any_of type two_bytes
    then pure 2
    else throw (runtime_error "unimplemented or invalid column type")

-- Up to the first NUL.
unfoldable pub before_nul : List ℕ → List ℕ
before_nul [] = []
before_nul (zero ∷ cs) = []
before_nul (suc c ∷ cs) = suc c ∷ before_nul cs

abbrev pub expected_header_lengths : List ℕ
expected_header_lengths =
    0x00 ∷ 0x0D ∷ 0x00 ∷ 0x08 ∷ 0x00 ∷ 0x00 ∷ 0x00 ∷ 0x00 ∷ 0x04 ∷ 0x00 ∷ 0x04 ∷ 0x00 ∷ 0x00 ∷ 0x00
    ∷ 0x61 ∷ 0x00 ∷ 0x04 ∷ 0x1A ∷ 0x08 ∷ 0x00 ∷ 0x00 ∷ 0x00 ∷ 0x08 ∷ 0x08 ∷ 0x08 ∷ 0x02 ∷ 0x00
    ∷ 0x00 ∷ 0x00 ∷ 0x0A ∷ 0x0A ∷ 0x0A ∷ 0x2A ∷ 0x2A ∷ 0x00 ∷ 0x12 ∷ 0x34 ∷ 0x00 ∷ 0x0A ∷ 0x28 ∷ []

-- `memcmp` over the length of the shorter.
unfoldable pub agree : List ℕ → List ℕ → Bool
agree xs ys = same_bytes (take (length ys) xs) (take (length xs) ys)

abbrev pub is_insert : ℕ → Bool
is_insert type = type == 20 || type == 23 || type == 30

abbrev pub is_update : ℕ → Bool
is_update type = type == 21 || type == 24 || type == 31

abbrev pub is_delete : ℕ → Bool
is_delete type = type == 22 || type == 25 || type == 32

abbrev pub is_v2 : ℕ → Bool
is_v2 type = type == 30 || type == 31 || type == 32

abbrev pub has_preimage : ℕ → Bool
has_preimage type = type == 24 || type == 31

unfoldable pub write_type_of : {S : Type 0} → ℕ → Action S WriteType
write_type_of type =
    if is_insert type
    then pure insert
    else if is_update type
    then pure update
    else if is_delete type
    then pure delete
    else throw (logic_error "event is not a rows event")

abbrev pub all_true : List Bool → Bool
all_true [] = true
all_true (b ∷ bs) = if b then all_true bs else false

-- An exception leaves the processor as it was.
abbrev pub with_event :
    {A B : Type 0}
    → (B → A)
    → (B → BinlogProcessor → BinlogProcessor)
    → BinlogProcessor
    → Result B
    → Result A × BinlogProcessor
with_event event change p (ok b) = (ok (event b), change b p)
with_event event change p (err e) = (err e, p)
with_event event change p pending = (pending, p)

abbrev event_names : List String
event_names =
    "UNKNOWN_EVENT" ∷ "START_EVENT_V3" ∷ "QUERY_EVENT" ∷ "STOP_EVENT" ∷ "ROTATE_EVENT"
    ∷ "INTVAR_EVENT" ∷ "LOAD_EVENT" ∷ "SLAVE_EVENT" ∷ "CREATE_FILE_EVENT" ∷ "APPEND_BLOCK_EVENT"
    ∷ "EXEC_LOAD_EVENT" ∷ "DELETE_FILE_EVENT" ∷ "NEW_LOAD_EVENT" ∷ "RAND_EVENT" ∷ "USER_VAR_EVENT"
    ∷ "FORMAT_DESCRIPTION_EVENT" ∷ "XID_EVENT" ∷ "BEGIN_LOAD_QUERY_EVENT"
    ∷ "EXECUTE_LOAD_QUERY_EVENT" ∷ "TABLE_MAP_EVENT" ∷ "WRITE_ROWS_EVENTv0" ∷ "UPDATE_ROWS_EVENTv0"
    ∷ "DELETE_ROWS_EVENTv0" ∷ "WRITE_ROWS_EVENTv1" ∷ "UPDATE_ROWS_EVENTv1" ∷ "DELETE_ROWS_EVENTv1"
    ∷ "INCIDENT_EVENT" ∷ "HEARTBEAT_EVENT" ∷ "IGNORABLE_EVENT" ∷ "ROWS_QUERY_EVENT"
    ∷ "WRITE_ROWS_EVENTv2" ∷ "UPDATE_ROWS_EVENTv2" ∷ "DELETE_ROWS_EVENTv2" ∷ "GTID_EVENT"
    ∷ "ANONYMOUS_GTID_EVENT" ∷ "PREVIOUS_GTIDS_EVENT" ∷ "TRANSACTION_CONTEXT_EVENT"
    ∷ "VIEW_CHANGE_EVENT" ∷ "XA_PREPARE_LOG_EVENT" ∷ "PARTIAL_UPDATE_ROWS_EVENT"
    ∷ "TRANSACTION_PAYLOAD_EVENT" ∷ []

abbrev name_or_invalid : Option String → String
name_or_invalid none = "<INVALID_EVENT_TYPE>"
name_or_invalid (some name) = name

unfoldable pub name_for_binlog_event_type : ℕ → String
name_for_binlog_event_type type = name_or_invalid (get_elem? event_names type)
