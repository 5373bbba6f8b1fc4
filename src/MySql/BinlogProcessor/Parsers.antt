-- ===== src/MySql/BinlogProcessor/Parsers.antt =====
-- src/Protocols/MySQL/BinlogProcessor.cc: the methods of BinlogProcessor, one for each kind of event.
use libevent_async.Prelude.{
  ℕ, zero, suc, ◌+◌, ◌-◌, ◌^◌, List, [], ◌∷◌, Bool, true, false, not, length, ltb, ◌==◌,
  if◌then◌else◌, String,
}
use libevent_async.Prelude.Action.{
  Action, Result, err, runtime_error, logic_error, pure, throw, ◌>>=◌, ◌>>◌,
}
use libevent_async.Phosg.Reader.{StringReader}
use libevent_async.MySql.ProtocolStringReader.{
  get_varint, get_var_string, get_string_eof, get_bitmask,
}
use libevent_async.MySql.BinlogProcessor.Cells.{ColumnInfo}
use libevent_async.MySql.BinlogProcessor.Rows.{
  BinlogTableInfo, WriteType, read_change, read_changes,
}
use libevent_async.MySql.BinlogProcessor.Events.{
  BinlogEventHeader, BinlogTableMapEvent, BinlogRowsEvent, BinlogQueryEvent, BinlogRotateEvent,
  BinlogXidEvent, BinlogFormatDescriptionEvent, BinlogProcessor, find_table, set_table,
  metadata_bytes_for_column_type, before_nul, expected_header_lengths, agree, is_v2, has_preimage,
  write_type_of, all_true, with_event,
}

module _ ⦃R : StringReader⦄ where
  open R use {Reader, get_le, read, skip, eof}

  -- `r.get<BinlogEventHeader>()`: the struct is packed.
  unfoldable pub get_header : Action Reader BinlogEventHeader
  get_header = do
    timestamp ← get_le 4
    type ← get_le 1
    server_id ← get_le 4
    length ← get_le 4
    end_position ← get_le 4
    flags ← get_le 2
    pure (record {
      timestamp = timestamp;
      type = type;
      server_id = server_id;
      length = length;
      end_position = end_position;
      flags = flags;
    })

  abbrev pub check_type : Bool → {A : Type 0} → Action Reader A → String → Action Reader A
  check_type matches m message = if not matches then throw (logic_error message) else m

  -- A string is parsed to the result, by a reader of its own.
  abbrev pub run : {A : Type 0} → Action Reader A → List ℕ → Result A
  run m s = (m (R.new_reader s)).0

  -- One string within another: `type_meta_r`.
  abbrev pub within : {A : Type 0} → Action Reader A → List ℕ → Action Reader A
  within m s r = (run m s, r)

  unfoldable pub get_types : ℕ → Action Reader (List ℕ)
  get_types zero = pure []
  get_types (suc num_columns) = do
    type ← get_le 1
    types ← get_types num_columns
    pure (type ∷ types)

  unfoldable pub read_columns : List ℕ → List Bool → Action Reader (List ColumnInfo)
  read_columns [] nullables = pure []
  read_columns (type ∷ types) [] = pure []
  read_columns (type ∷ types) (nullable ∷ nullables) = do
    n ← metadata_bytes_for_column_type type
    type_meta ← read n
    columns ← read_columns types nullables
    pure (record { type = type; type_meta = type_meta; nullable = nullable } ∷ columns)

  abbrev pub at_eof : List ColumnInfo → Action Reader (List ColumnInfo)
  at_eof columns r =
      (if not (eof r)
          then throw (runtime_error "not all column type_meta was parsed")
          else pure columns)
        r

  unfoldable pub read_column_infos : List ℕ → List Bool → Action Reader (List ColumnInfo)
  read_column_infos types nullables = do columns ← read_columns types nullables; at_eof columns

  -- A name behind its length, and a byte that is not used.
  unfoldable pub read_name : Action Reader (List ℕ)
  read_name = do n ← get_le 1; name ← read n; skip 1; pure name

  unfoldable pub read_table_info : Action Reader BinlogTableInfo
  read_table_info = do
    database_name ← read_name
    table_name ← read_name
    num_columns ← get_varint
    column_types ← get_types num_columns
    column_type_metas ← get_var_string
    columns_nullable ← get_bitmask num_columns
    columns ← within (read_column_infos column_types columns_nullable) column_type_metas
    pure (record { database_name = database_name; table_name = table_name; columns = columns })

  unfoldable pub table_map_fields :
      BinlogEventHeader → Action Reader (BinlogTableMapEvent × BinlogTableInfo)
  table_map_fields header = do
    table_id ← get_le 6
    flags ← get_le 2
    ti ← read_table_info
    pure (record { header = header; table_id = table_id; flags = flags }, ti)

  unfoldable pub table_map_on : Action Reader (BinlogTableMapEvent × BinlogTableInfo)
  table_map_on = do
    header ← get_header
    check_type (header.type == 19) (table_map_fields header) "event is not a table map event"

  unfoldable pub parse_table_map_event : List ℕ → Action BinlogProcessor BinlogTableMapEvent
  parse_table_map_event bytes p =
      with_event (λ (x : BinlogTableMapEvent × BinlogTableInfo). x.0)
        (λ (x : BinlogTableMapEvent × BinlogTableInfo) p. record p {
          table_map = set_table x.0.table_id x.1 p.table_map;
          position = x.0.header.end_position;
        })
        p (run table_map_on bytes)

  abbrev pub from_result : {A : Type 0} → Result A → Action Reader A
  from_result result r = (result, r)

  -- `r.read(r.get_u16l() - 2)`: the difference is an `int`, and is then a `size_t`.
  unfoldable pub get_extra_data : Bool → Action Reader (List ℕ)
  get_extra_data false = pure []
  get_extra_data true = do n ← get_le 2; if ltb n 2 then read (2 ^ 64 + n - 2) else read (n - 2)

  unfoldable pub check_present : List Bool → Action Reader (Unit {0})
  check_present present =
      if all_true present
      then pure tt
      else throw (runtime_error "one or more columns not present in row event")

  unfoldable pub get_present : Bool → ℕ → Action Reader (Unit {0})
  get_present false num_columns = do present ← get_bitmask num_columns; check_present present
  get_present true num_columns = do
    present ← get_bitmask num_columns
    check_present present
    present' ← get_bitmask num_columns
    check_present present'

  unfoldable pub check_num_columns : BinlogTableInfo → ℕ → Action Reader (Unit {0})
  check_num_columns ti num_columns =
      if not (num_columns == length ti.columns)
      then throw (runtime_error "row event column count does not match table info from table map")
      else pure tt

  abbrev pub check_table_id : ℕ → Action Reader (Unit {0})
  check_table_id table_id =
      if table_id == 0x000000FFFFFF
      then throw (logic_error "table map free during row events not supported")
      else pure tt

  -- What follows the table's id, for a table that is known.
  unfoldable pub rows_fields :
      ℕ → BinlogEventHeader → WriteType → ℕ → BinlogTableInfo → Action Reader BinlogRowsEvent
  rows_fields rounds header write_type table_id ti = do
    flags ← get_le 2
    extra_data ← get_extra_data (is_v2 header.type)
    num_columns ← get_varint
    check_num_columns ti num_columns
    get_present (has_preimage header.type) num_columns
    rows ← read_changes rounds (read_change write_type (has_preimage header.type) ti.columns)
    pure (record {
      header = header;
      write_type = write_type;
      table_id = table_id;
      ti = ti;
      flags = flags;
      extra_data = extra_data;
      rows = rows;
    })

  -- `rounds` bounds the rounds of the loop over the rows.
  unfoldable pub rows_on : ℕ → List (ℕ × BinlogTableInfo) → Action Reader BinlogRowsEvent
  rows_on rounds table_map = do
    header ← get_header
    write_type ← write_type_of header.type
    table_id ← get_le 6
    check_table_id table_id
    ti ← from_result (find_table table_id table_map)
    rows_fields rounds header write_type table_id ti

  -- Each round takes a byte at least where the table has a column, so that as many rounds as the event
  -- has bytes are enough.
  unfoldable pub parse_rows_event : List ℕ → Action BinlogProcessor BinlogRowsEvent
  parse_rows_event bytes p =
      with_event (λ ev. ev)
        (λ (ev : BinlogRowsEvent) p. record p { position = ev.header.end_position }) p
        (run (rows_on (length bytes) p.table_map) bytes)

  unfoldable pub query_fields : BinlogEventHeader → Action Reader BinlogQueryEvent
  query_fields header = do
    conn_id ← get_le 4
    exec_time_secs ← get_le 4
    database_name_length ← get_le 1
    error_code ← get_le 2
    n ← get_le 2
    status_vars ← read n
    database_name ← read database_name_length
    skip 1
    query ← get_string_eof
    pure (record {
      header = header;
      conn_id = conn_id;
      exec_time_secs = exec_time_secs;
      database_name = database_name;
      error_code = error_code;
      status_vars = status_vars;
      query = query;
    })

  unfoldable pub query_on : Action Reader BinlogQueryEvent
  query_on = do
    header ← get_header
    check_type (header.type == 2) (query_fields header) "event is not a query event"

  unfoldable pub parse_query_event : List ℕ → Action BinlogProcessor BinlogQueryEvent
  parse_query_event bytes p =
      with_event (λ ev. ev)
        (λ (ev : BinlogQueryEvent) p. record p { position = ev.header.end_position }) p
        (run query_on bytes)

  unfoldable pub rotate_fields : BinlogEventHeader → Action Reader BinlogRotateEvent
  rotate_fields header = do
    next_position ← get_le 8
    next_filename ← get_string_eof
    pure (record { header = header; next_filename = next_filename; next_position = next_position })

  unfoldable pub rotate_on : Action Reader BinlogRotateEvent
  rotate_on = do
    header ← get_header
    check_type (header.type == 4) (rotate_fields header) "event is not a rotate event"

  unfoldable pub parse_rotate_event : List ℕ → Action BinlogProcessor BinlogRotateEvent
  parse_rotate_event bytes p =
      with_event (λ ev. ev)
        (λ (ev : BinlogRotateEvent) p. record p {
          filename = ev.next_filename;
          position = ev.next_position;
        })
        p (run rotate_on bytes)

  unfoldable pub xid_fields : BinlogEventHeader → Action Reader BinlogXidEvent
  xid_fields header = do xid ← get_le 8; pure (record { header = header; xid = xid })

  unfoldable pub xid_on : Action Reader BinlogXidEvent
  xid_on = do
    header ← get_header
    check_type (header.type == 16) (xid_fields header) "event is not an xid event"

  unfoldable pub parse_xid_event : List ℕ → Action BinlogProcessor BinlogXidEvent
  parse_xid_event bytes p =
      with_event (λ ev. ev)
        (λ (ev : BinlogXidEvent) p. record p { position = ev.header.end_position }) p
        (run xid_on bytes)

  abbrev pub check_version : ℕ → Action Reader (Unit {0})
  check_version version =
      if not (version == 4) then throw (runtime_error "binlog version is not 4") else pure tt

  abbrev pub check_header_length : ℕ → Action Reader (Unit {0})
  check_header_length header_length =
      if not (header_length == 0x13)
      then throw (runtime_error "incorrect header length for FORMAT_DESCRIPTION_EVENT")
      else pure tt

  abbrev pub check_lengths : List ℕ → Action Reader (Unit {0})
  check_lengths lengths =
      if not (agree expected_header_lengths lengths)
      then throw
          (runtime_error "header lengths in FORMAT_DESCRIPTION_EVENT do not match expectations")
      else pure tt

  -- The event's type is not looked at.
  unfoldable pub format_description_on : Action Reader BinlogFormatDescriptionEvent
  format_description_on = do
    header ← get_header
    version ← get_le 2
    check_version version
    server_version ← read 50
    timestamp ← get_le 4
    header_length ← get_le 1
    check_header_length header_length
    event_header_lengths ← get_string_eof
    check_lengths event_header_lengths
    pure (record {
      header = header;
      version = version;
      server_version = before_nul server_version;
      timestamp = timestamp;
      header_length = header_length;
      event_header_lengths = event_header_lengths;
    })

  unfoldable pub parse_format_description_event :
      List ℕ → Action BinlogProcessor BinlogFormatDescriptionEvent
  parse_format_description_event bytes p =
      with_event (λ ev. ev)
        (λ (ev : BinlogFormatDescriptionEvent) p. record p { position = ev.header.end_position }) p
        (run format_description_on bytes)

  -- The header is read in place.
  unfoldable pub get_event_header : List ℕ → Result BinlogEventHeader
  get_event_header bytes =
      if ltb (length bytes) 19
      then err (runtime_error "binlog event too small for header")
      else run get_header bytes

  unfoldable pub parse_unknown_event : List ℕ → Action BinlogProcessor BinlogEventHeader
  parse_unknown_event bytes p =
      with_event (λ ev. ev) (λ (ev : BinlogEventHeader) p. record p { position = ev.end_position })
        p (get_event_header bytes)
