-- ===== src/Tests/OnBinlog.antt =====
-- Runs of src/Protocols/MySQL/BinlogProcessor.cc on a reader that is a list of bytes and an offset.
use libevent_async.Prelude.{
  ℕ, ◌+◌, ◌-◌, ◌/◌, ◌%◌, ◌^◌, ◌≤◌, ◌<◌, ◌≡◌, refl, List, [], ◌∷◌, length, length-drop, take, drop,
  ◌==◌, arith, All, leb, if◌then◌else◌, true, false, min,
}
use libevent_async.Prelude.Bytes.{of_le, of_be}
use libevent_async.Prelude.Action.{Action, ok, err, pending, out_of_range, ◌>>=◌}
use libevent_async.Phosg.Reader.{StringReader}
use libevent_async.MySql.Types.{DateTimeValue}
use libevent_async.MySql.Types.ColumnType.{t_varchar, t_datetime2, t_geometry, name_for_column_type}
use libevent_async.MySql.BinlogProcessor.Cells.{ColumnInfo, datetime_of}
use libevent_async.MySql.BinlogProcessor.CellLaws.{datetime_of_no_month}
use libevent_async.MySql.BinlogProcessor.Rows.{
  BinlogTableInfo, insert, update, read_change, read_changes,
}
use libevent_async.MySql.BinlogProcessor.Events.{
  BinlogEventHeader, BinlogQueryEvent, BinlogRotateEvent, BinlogProcessor, set_table,
  name_for_binlog_event_type,
}
use libevent_async.MySql.BinlogProcessor.Parsers.{
  parse_table_map_event, parse_rows_event, parse_query_event, parse_rotate_event,
}
use libevent_async.MySql.BinlogProcessor.Encoding.{
  metas_bytes, IsHeader, IsTable, table_map_bytes, rows_bytes, query_bytes, rotate_bytes, tinyint,
  varchar, datetime2, filled, missing, Change, IsChange, IsCell, cell_column, datetime_number, v2,
}
use libevent_async.MySql.BinlogProcessor.Processing.{
  rows_event, parse_rows-parse_table_map, parse_query_event_lem, parse_rotate_event_lem,
}
use libevent_async.MySql.BinlogProcessor.Steady.{Ends}
use libevent_async.MySql.BinlogProcessor.Ending.{parse_rows_event-Ends, no_columns_loop}

abbrev Place : Type 0
Place = List ℕ × ℕ

abbrev get : (List ℕ → ℕ) → ℕ → Action Place ℕ
get value n (bytes, k) =
    if leb n (length bytes)
    then (ok (value (take n bytes)), (drop n bytes, k + n))
    else (err (out_of_range "end of string"), (bytes, k))

abbrev read_up_to : ℕ → Action Place (List ℕ)
read_up_to n (bytes, k) = (ok (take n bytes), (drop n bytes, k + min n (length bytes)))

abbrev skip_over : ℕ → Action Place (Unit {0})
skip_over n (bytes, k) = (ok tt, (drop n bytes, k + n))

get_lem :
    (value : List ℕ → ℕ) (n : ℕ) (r : Place)
    → n ≤ length r.0
    → (r' : Place) × (get value n r ≡ (ok (value (take n r.0)), r'))
      × (r'.0 ≡ drop n r.0)
      × (r'.1 + length r'.0 ≡ r.1 + length r.0)
get_lem value n (bytes, k) h =
    let e : leb n (length bytes) ≡ true = ground arith in
    ((drop n bytes, k + n), rw e refl, refl, omega (arith, length-drop n bytes))

get_short :
    (value : List ℕ → ℕ) (n : ℕ) (r : Place)
    → length r.0 < n
    → get value n r ≡ (err (out_of_range "end of string"), r)
get_short value n (bytes, k) h = let e : leb n (length bytes) ≡ false = ground arith in rw e refl

read_sizes :
    (n : ℕ) (r : Place) → (r.1 + min n (length r.0)) + length (drop n r.0) ≡ r.1 + length r.0
read_sizes n (bytes, k) = omega (arith, length-drop n bytes)

skip_sizes :
    (n : ℕ) (r : Place) → n ≤ length r.0 → (r.1 + n) + length (drop n r.0) ≡ r.1 + length r.0
skip_sizes n (bytes, k) h = omega (arith, length-drop n bytes)

instance abbrev list_reader : StringReader
list_reader = record {
  Reader = Place;
  new_reader = λ s. (s, 0);
  remaining = λ r. r.0;
  size = λ r. r.1 + length r.0;
  offset = λ r. r.1;
  eof = λ r. length r.0 == 0;
  get_le = get of_le;
  get_be = get of_be;
  read = read_up_to;
  skip = skip_over;
  end_of_string = out_of_range "end of string";
  new_lem = λ s. refl;
  size_lem = λ r. refl;
  eof_lem = λ r. refl;
  get_le_lem = get_lem of_le;
  get_le_short = get_short of_le;
  get_be_lem = get_lem of_be;
  get_be_short = get_short of_be;
  read_lem = λ n r. ((drop n r.0, r.1 + min n (length r.0)), refl, refl, read_sizes n r);
  skip_lem = λ n r h. ((drop n r.0, r.1 + n), refl, refl, skip_sizes n r h);
}

abbrev header : ℕ → ℕ → BinlogEventHeader
header type end = record {
  timestamp = 5;
  type = type;
  server_id = 1;
  length = 40;
  end_position = end;
  flags = 0;
}

-- A table of a number, a string of up to 300 bytes that may be NULL, a date, and a column of a type that
-- no cell is of.
abbrev columns : List ColumnInfo
columns =
    cell_column (tinyint 0) false
    ∷ record { type = t_varchar; type_meta = 44 ∷ 1 ∷ []; nullable = true }
    ∷ record { type = t_datetime2; type_meta = 3 ∷ []; nullable = false }
    ∷ record { type = t_geometry; type_meta = 2 ∷ []; nullable = true }
    ∷ []

abbrev table : BinlogTableInfo
table = record { database_name = 100 ∷ []; table_name = 116 ∷ 49 ∷ []; columns = columns }

abbrev day : DateTimeValue
day = record {
  years = 2024;
  months = 12;
  days = 31;
  hours = 23;
  minutes = 59;
  seconds = 58;
  usecs = 0;
}

abbrev changes : List Change
changes =
    record {
      before =
          filled false (tinyint 7)
          ∷ missing (record { type = t_varchar; type_meta = 44 ∷ 1 ∷ []; nullable = true })
          ∷ filled false (datetime2 3 1234 day)
          ∷ missing (record { type = t_geometry; type_meta = 2 ∷ []; nullable = true })
          ∷ [];
      after =
          filled false (tinyint 8)
          ∷ filled true (varchar 300 (104 ∷ 105 ∷ []))
          ∷ filled false (datetime2 3 0 day)
          ∷ missing (record { type = t_geometry; type_meta = 2 ∷ []; nullable = true })
          ∷ [];
    }
    ∷ []

abbrev processor : BinlogProcessor
processor = record { filename = []; position = 4; table_map = [] }

header-IsHeader : (type end : ℕ) → type < 256 → end < 2 ^ 32 → IsHeader (header type end)
header-IsHeader type end h k = record {
  timestamp = omega arith;
  type = omega arith;
  server_id = omega arith;
  length = omega arith;
  end_position = omega arith;
  flags = omega arith;
}

table-IsTable : IsTable table
unfolding metas_bytes
table-IsTable = record {
  database_name = omega arith;
  table_name = omega arith;
  num_columns = omega arith;
  metas = omega arith;
  columns = (
    (omega arith, refl),
    ((omega arith, refl), ((omega arith, refl), ((omega arith, refl), tt))),
  );
}

changes-IsChange : All (IsChange columns update true) changes
changes-IsChange = (
  (
    (refl, (omega arith, (refl, (date 1234 (omega arith), (refl, tt))))),
    (refl, (omega arith, ((omega arith, omega arith), (date 0 (omega arith), (refl, tt))))),
  ),
  tt,
)
  where
    date : (fraction : ℕ) → fraction < 2 ^ 16 → IsCell (datetime2 3 fraction day)
    date fraction h = (
      (omega arith, omega arith),
      omega arith,
      omega arith,
      omega arith,
      omega arith,
      omega arith,
      omega arith,
      omega arith,
    )

-- An update, version 2.
parse_rows-parse_table_map_example :
    (parse_table_map_event (table_map_bytes (header 19 100) 42 1 table) >>= λ map_event.
    parse_rows_event (rows_bytes (header 31 200) update v2 42 1 (9 ∷ []) columns changes))
      processor
    ≡ (
      ok (rows_event (header 31 200) update v2 42 1 (9 ∷ []) table changes),
      record processor { table_map = set_table 42 table []; position = 200 },
    )
parse_rows-parse_table_map_example =
    parse_rows-parse_table_map (header 19 100) (header 31 200) update v2 42 1 1 (9 ∷ []) table
      changes processor (header-IsHeader 19 100 (omega arith) (omega arith)) refl
      (header-IsHeader 31 200 (omega arith) (omega arith)) refl (omega arith) (omega arith)
      (omega arith) (omega arith) (omega arith) table-IsTable (omega arith) changes-IsChange

abbrev query : BinlogQueryEvent
query = record {
  header = header 2 300;
  conn_id = 9;
  exec_time_secs = 1;
  database_name = 100 ∷ [];
  error_code = 0;
  status_vars = 1 ∷ 2 ∷ [];
  query = 66 ∷ 69 ∷ 71 ∷ 73 ∷ 78 ∷ [];
}

parse_query_event_lem_example :
    parse_query_event (query_bytes query) processor
    ≡ (ok query, record processor { position = 300 })
parse_query_event_lem_example = parse_query_event_lem query processor (record {
  header = header-IsHeader 2 300 (omega arith) (omega arith);
  type = refl;
  conn_id = omega arith;
  exec_time_secs = omega arith;
  database_name = omega arith;
  error_code = omega arith;
  status_vars = omega arith;
})

abbrev rotation : BinlogRotateEvent
rotation = record { header = header 4 0; next_filename = 98 ∷ 50 ∷ []; next_position = 4 }

parse_rotate_event_lem_example :
    parse_rotate_event (rotate_bytes rotation) processor
    ≡ (ok rotation, record processor { filename = 98 ∷ 50 ∷ []; position = 4 })
parse_rotate_event_lem_example =
    parse_rotate_event_lem rotation processor (header-IsHeader 4 0 (omega arith) (omega arith)) refl
      (omega arith)

parse_rows_event-Ends_example :
    Ends (parse_rows_event (1 ∷ 2 ∷ 3 ∷ []) (record processor { table_map = (42, table) ∷ [] })).0
parse_rows_event-Ends_example =
    parse_rows_event-Ends (1 ∷ 2 ∷ 3 ∷ []) (record processor { table_map = (42, table) ∷ [] })
      (omega arith, tt)

no_columns_loop_example : (read_changes 1000 (read_change insert false []) (7 ∷ [], 30)).0 ≡ pending
no_columns_loop_example = no_columns_loop 1000 (7 ∷ [], 30) (omega arith)

datetime_of_no_month_example :
    datetime_of (datetime_number (record day { months = 0 })) 0
    ≡ record day { years = 2023; months = 0 }
datetime_of_no_month_example =
    datetime_of_no_month (record day { months = 0 }) 0 (omega arith) (omega arith) refl
      (omega arith) (omega arith) (omega arith) (omega arith)

-- The date that has neither year, month nor day.
zero_date : (datetime_of 0x8000000000 0).years ≡ (2 ^ 64 - 1) / 13 % 2 ^ 16
unfolding datetime_of
zero_date = refl

event_names_runs :
    (name_for_binlog_event_type 19 ≡ "TABLE_MAP_EVENT")
    × (name_for_binlog_event_type 32 ≡ "DELETE_ROWS_EVENTv2")
    × (name_for_binlog_event_type 41 ≡ "<INVALID_EVENT_TYPE>")
unfolding name_for_binlog_event_type
event_names_runs = (refl, refl, refl)

column_names_runs :
    (name_for_column_type (λ type. out_of_range "") t_geometry ≡ ok "T_GEOMETRY")
    × (name_for_column_type (λ type. out_of_range "") t_datetime2 ≡ ok "T_DATETIME2")
    × (name_for_column_type (λ type. out_of_range "") 0x14 ≡ err (out_of_range ""))
unfolding name_for_column_type
column_names_runs = (refl, refl, refl)
