-- ===== src/Tests/OnQuery.antt =====
-- Runs of `query` of src/Protocols/MySQL/Client.cc.
use libevent_async.Prelude.{ℕ, ◌≡◌, refl, ◌^◌, List, [], ◌∷◌, ◌++◌, ◌-◌, none, some, arith, true}
use libevent_async.Prelude.Bytes.{le_bytes}
use libevent_async.Prelude.Action.{ok, err, runtime_error}
use libevent_async.MySql.Command.{frame}
use libevent_async.MySql.ProtocolBuffer.Writers.{varint_bytes}
use libevent_async.MySql.Types.{uint64, null, string}
use libevent_async.MySql.Types.ColumnType.{t_int, t_string}
use libevent_async.MySql.Types.Texts.{stoll, date_time_value, time_value}
use libevent_async.MySql.Client.{reading_first_event}
use libevent_async.MySql.Client.Database.{numbered}
use libevent_async.MySql.Query.{query}
use libevent_async.MySql.Query.Cells.{ColumnDefinition, Floats}
use libevent_async.MySql.Query.Reading.{Row}
use libevent_async.MySql.Query.Errors.{error_body, query-error}
use libevent_async.MySql.Binlog.Start.{
  read_binlogs, read_binlogs_lem, ok_packet, set_checksum, dump_bytes,
}
use libevent_async.Tests.Machine.{list_buffer, chunk_network, swaps, Socket}
use libevent_async.Tests.OnMySqlClient.{idle, socket}

instance no_floats : Floats
no_floats = record { stof = λ value. ok 0; stod = λ value. ok 0 }

-- -42
stoll_negative : stoll (45 ∷ 52 ∷ 50 ∷ []) ≡ ok (2 ^ 64 - 42)
unfolding stoll
stoll_negative = refl

-- 2024-03-01 12:34:56.5, whose fraction has one digit.
date_time_with_fraction :
    (date_time_value (
      50 ∷ 48 ∷ 50 ∷ 52 ∷ 45 ∷ 48 ∷ 51 ∷ 45 ∷ 48 ∷ 49 ∷ 32 ∷ 49 ∷ 50 ∷ 58 ∷ 51 ∷ 52 ∷ 58 ∷ 53 ∷ 54
      ∷ 46 ∷ 53 ∷ [])).usecs
    ≡ 500000
unfolding date_time_value
date_time_with_fraction = refl

-- -12:34:56
time_negative :
    time_value (45 ∷ 49 ∷ 50 ∷ 58 ∷ 51 ∷ 52 ∷ 58 ∷ 53 ∷ 54 ∷ [])
    ≡ record { is_negative = true; hours = 12; minutes = 34; seconds = 56; usecs = 0 }
unfolding time_value
time_negative = refl

abbrev column : List ℕ → ℕ → ColumnDefinition
column name type = record {
  catalog_name = 100 ∷ 101 ∷ 102 ∷ [];
  database_name = [];
  table_name = [];
  original_table_name = [];
  column_name = name;
  original_column_name = [];
  charset = 63;
  max_value_length = 11;
  column_type = type;
  flags = 1;
  decimals = 0;
}

abbrev columns : List ColumnDefinition
columns = column (110 ∷ []) t_int ∷ column (115 ∷ []) t_string ∷ []

abbrev rows : List Row
rows =
    ((some (52 ∷ 50 ∷ []) ∷ some (104 ∷ 105 ∷ []) ∷ []), (uint64 42 ∷ string (104 ∷ 105 ∷ []) ∷ []))
    ∷ ((none ∷ none ∷ []), (null ∷ null ∷ []))
    ∷ []

abbrev error_answer : Socket
error_answer =
    socket (frame 1 (0xFF ∷ error_body 1146 (35 ∷ 52 ∷ 50 ∷ 83 ∷ 48 ∷ []) (50 ∷ 33 ∷ [])) ++ [])

query-error_example :
    (s' : Socket) × (query 1 3 (83 ∷ []) true (idle, error_answer)
      ≡ (err (runtime_error "sql error"), (numbered 2 idle, s')))
    × Unit {0}
    × (s'.to_come ≡ [])
    × (s'.gone ≡ [] ++ frame 0 (le_bytes 1 0x03 ++ (83 ∷ [])))
unfolding le_bytes
query-error_example =
    query-error (83 ∷ []) true 0 3 1146 (35 ∷ 52 ∷ 50 ∷ 83 ∷ 48 ∷ []) (50 ∷ 33 ∷ []) idle
      error_answer [] refl refl (omega arith) tt refl

read_binlogs_lem_example :
    (s' : Socket) × (read_binlogs 1 0 9
        (102 ∷ [])
        4
        0
        true
        (idle, socket (frame 1 (ok_packet 0 0 2 0 (33 ∷ [])) ++ []))
      ≡ (
        ok tt,
        (
          record (numbered 1 idle) {
            binlog_read_state = reading_first_event;
            expected_binlog_seq = 1;
          },
          s',
        ),
      ))
    × Unit {0}
    × (s'.to_come ≡ [])
    × (s'.gone
        ≡ []
          ++ (frame 0 (le_bytes 1 0x03 ++ set_checksum)
              ++ frame 0 (dump_bytes (102 ∷ []) 4 9 true)))
unfolding varint_bytes le_bytes
read_binlogs_lem_example =
    read_binlogs_lem (102 ∷ []) 4 0 9 true 0 0 0 0 2 0 (33 ∷ []) idle _ [] refl (omega arith)
      (omega arith) (omega arith) (omega arith) refl (omega arith) tt refl
