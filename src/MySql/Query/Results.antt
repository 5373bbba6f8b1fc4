-- ===== src/MySql/Query/Results.antt =====
-- What `query` returns for a result set and for an error.
use libevent_async.Prelude.{
  ℕ, ◌/◌, ◌%◌, ◌<◌, ◌^◌, ◌≡◌, List, [], ◌++◌, map, length, All, true, Bool,
}
use libevent_async.Prelude.Bytes.{le_bytes}
use libevent_async.Prelude.Action.{Action, Result}
use libevent_async.Libevent.{EvBuffer, Network}
use libevent_async.Phosg.{Phosg}
use libevent_async.Buffer.{add_u8}
use libevent_async.Buffer.Contract.{add-Writes}
use libevent_async.MySql.Command.{frame}
use libevent_async.MySql.ProtocolBuffer.Writers.{varint_bytes}
use libevent_async.MySql.Client.{Client}
use libevent_async.MySql.Client.Dialog.{
  Dialog, Call, Dialog-writes, Dialog-bind, Call-buffer, Call-operation,
}
use libevent_async.MySql.Client.Sequence.{advanced, write_command-Dialog}
use libevent_async.MySql.Client.Database.{numbered}
use libevent_async.MySql.Query.{query_loop, query_on, query_multi}
use libevent_async.MySql.Query.Cells.{ColumnDefinition, Floats, Rows, ResultSet}
use libevent_async.MySql.Query.Packets.{column_bytes, IsColumn}
use libevent_async.MySql.Query.Reading.{frames, passed, Fits, Row, IsRowOf, rows_packets}

-- The result set of these columns and rows.
abbrev pub result_of_rows : List ColumnDefinition → Rows → ℕ → ℕ → ResultSet
result_of_rows ds rows warning_count status_flags = record {
  columns = ds;
  rows = rows;
  affected_rows = 0;
  insert_id = 0;
  status_flags = status_flags;
  warning_count = warning_count;
}

abbrev pub after_columns : Client → List ColumnDefinition → Client
after_columns c ds = passed (map column_bytes ds) (advanced c)

-- The server's answer: how many columns, the columns, the rows, the end.
abbrev pub answer : Client → List ColumnDefinition → List Row → ℕ → ℕ → List ℕ
answer c ds rs warning_count status_flags =
    frame c.next_seq (varint_bytes (length ds))
    ++ (frames (advanced c).next_seq (map column_bytes ds)
        ++ frames (after_columns c ds).next_seq (rows_packets rs warning_count status_flags))

abbrev pub after_answer : Client → List ColumnDefinition → List Row → ℕ → ℕ → Client
after_answer c ds rs warning_count status_flags =
    passed (rows_packets rs warning_count status_flags) (after_columns c ds)

module _ ⦃F : Floats⦄ where
  -- What is known of the columns, the rows and the end.
  pub record IsAnswer (ds : List ColumnDefinition) (rs : List Row)
      (rounds warning_count status_flags : ℕ) : Type 0 where
    pub columns : All IsColumn ds
    pub fit : All (λ d. Fits (column_bytes d)) ds
    pub some_column : 0 < length ds
    pub not_many : length ds < 2 ^ 24
    pub rows : All (IsRowOf ds) rs
    pub enough : length rs < rounds
    pub warnings : warning_count < 2 ^ 16
    pub flags : status_flags < 2 ^ 16
    pub last : status_flags / 8 % 2 ≡ 0

module _ ⦃E : EvBuffer⦄ ⦃N : Network⦄ ⦃F : Floats⦄ ⦃P : Phosg⦄ where
  open N use {Net, incoming, sent, IsHealthy}

  -- A query is sent as command 0; `got` answers it as the commands from 1.
  pub asked-Call :
      (c : Client) (results rounds : ℕ) (sql : List ℕ) (rows_as_dicts : Bool) {got : List ℕ}
      {c' : Client} {left : List ℕ} {r : Result (List ResultSet)}
      → c.is_open ≡ true
      → Dialog (query_loop results rounds rows_as_dicts []) (numbered 1 c) [] got [] left c' r
      → Call
          (query_multi results rounds sql rows_as_dicts)
          c
          got
          (frame 0 (le_bytes 1 0x03 ++ sql) ++ [])
          c'
          r
  unfolding query_multi query_on add_u8
  asked-Call c results rounds sql as_dicts h x = Call-operation {c = c} h (
      Call-buffer (
        Dialog-bind _ (Dialog-writes (numbered 0 c) [] (add-Writes (le_bytes 1 0x03))) (
          Dialog-bind _ (Dialog-writes (numbered 0 c) (le_bytes 1 0x03) (add-Writes sql))
            (Dialog-bind _ (write_command-Dialog (numbered 0 c) (le_bytes 1 0x03 ++ sql)) x))))
