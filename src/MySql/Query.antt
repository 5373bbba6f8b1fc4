-- ===== src/MySql/Query.antt =====
-- src/Protocols/MySQL/Client.cc, `query`, `query_multi` and `parse_value`.
pub mod Cells
pub mod Packets
pub mod Values
pub mod Found
pub mod Reading
pub mod Results
pub mod Errors
use libevent_async.Prelude.{
  ℕ, zero, suc, ◌+◌, ◌-◌, List, [], ◌∷◌, ◌++◌, map, length, Bool, true, false, not, ◌&&◌, ◌||◌,
  ◌==◌, bit_and, if◌then◌else◌,
}
use libevent_async.Prelude.Bytes.{same_bytes}
use libevent_async.Prelude.Action.{
  Action, Result, ok, err, pending, runtime_error, logic_error, out_of_range, pure, throw, suspend,
  ◌>>=◌, ◌>>◌,
}
use libevent_async.Libevent.{EvBuffer, Network}
use libevent_async.Phosg.{Phosg}
use libevent_async.Buffer.{add, add_u8, remove_u8, remove_u16l, remove_u32l, copyout_u8, drain_all}
use libevent_async.Buffer.Sending.{with_buffer}
use libevent_async.MySql.ProtocolBuffer.{remove_varint, remove_var_string}
use libevent_async.MySql.Types.{Value, uint64, int64, float, double, null, date_time, time, string}
use libevent_async.MySql.Types.ColumnType.{
  t_tinyint, t_smallint, t_mediumint, t_int, t_bigint, t_year, t_float, t_double, t_null, t_date,
  t_datetime, t_timestamp, t_time, t_bit, t_string, t_var_string, t_varchar, t_tinyblob, t_blob,
  t_mediumblob, t_longblob, t_decimal, t_newdecimal, t_enum, t_set, t_geometry,
}
use libevent_async.MySql.Types.Texts.{stoll, stoull, date_time_value, time_value}
use libevent_async.MySql.Query.Cells.{
  ColumnDefinition, Rows, vecs, dicts, ResultSet, Floats, one_of, made, integer, parse_value, dict,
  no_rows, emplace_row,
}
use libevent_async.MySql.Client.{
  Session, Talk, on_bytes, read_command, write_command, assert_conn_open, reset_seq,
  parse_error_body,
}

abbrev pub more_results_exist : ℕ → Bool
more_results_exist status_flags = not (bit_and status_flags 0x0008 == 0)

module _ ⦃E : EvBuffer⦄ ⦃N : Network⦄ where
  -- A column's name parts, and what comes behind the fixed-length header.
  unfoldable pub read_column : Action Talk ColumnDefinition
  read_column = do
    catalog_name ← on_bytes remove_var_string
    database_name ← on_bytes remove_var_string
    table_name ← on_bytes remove_var_string
    original_table_name ← on_bytes remove_var_string
    column_name ← on_bytes remove_var_string
    original_column_name ← on_bytes remove_var_string
    header ← on_bytes remove_varint
    (if header == 0x0C
        then pure tt
        else throw (runtime_error "column metadata has incorrect fixed-length header"))
    charset ← on_bytes remove_u16l
    max_value_length ← on_bytes remove_u32l
    type ← on_bytes remove_u8
    flags ← on_bytes remove_u16l
    decimals ← on_bytes remove_u8
    unused ← on_bytes remove_u16l
    pure record {
      catalog_name = catalog_name;
      database_name = database_name;
      table_name = table_name;
      original_table_name = original_table_name;
      column_name = column_name;
      original_column_name = original_column_name;
      charset = charset;
      max_value_length = max_value_length;
      column_type = type;
      flags = flags;
      decimals = decimals;
    }

  -- The loop over the columns that are missing.
  unfoldable pub read_columns : ℕ → Action Talk (List ColumnDefinition)
  read_columns zero = pure []
  read_columns (suc missing) = do
    read_command
    def ← read_column
    defs ← read_columns missing
    pure (def ∷ defs)

  abbrev pub result_of : {A : Type 0} → Result A → Action Talk A
  result_of r s = (r, s)

  module _ ⦃F : Floats⦄ where
    abbrev pub on_cell : ℕ → ℕ → Action Talk Value
    on_cell type first =
        if first == 0xFB
        then (do on_bytes remove_u8; pure null)
        else (do value ← on_bytes remove_var_string; result_of (parse_value type value))

    unfoldable pub read_cell : ℕ → Action Talk Value
    read_cell type = do first ← on_bytes copyout_u8; on_cell type first

    unfoldable pub read_row : List ColumnDefinition → Action Talk (List Value)
    read_row [] = pure []
    read_row (d ∷ ds) = do v ← read_cell d.column_type; vs ← read_row ds; pure (v ∷ vs)

    unfoldable pub finish_rows : List ColumnDefinition → Rows → Action Talk ResultSet
    finish_rows columns rows = do
      on_bytes remove_u8
      warning_count ← on_bytes remove_u16l
      status_flags ← on_bytes remove_u16l
      pure record {
        columns = columns;
        rows = rows;
        affected_rows = 0;
        insert_id = 0;
        status_flags = status_flags;
        warning_count = warning_count;
      }

    abbrev pub on_row :
        (Rows → Action Talk ResultSet) → List ColumnDefinition → Rows → ℕ → Action Talk ResultSet
    on_row again columns rows first =
        if first == 0xFE
        then finish_rows columns rows
        else (do vs ← read_row columns; again (emplace_row columns vs rows))

    -- The loop over the rows, of `rounds` commands at most.
    unfoldable pub read_rows : ℕ → List ColumnDefinition → Rows → Action Talk ResultSet
    read_rows zero columns rows = suspend
    read_rows (suc rounds) columns rows = do
      read_command
      first ← on_bytes copyout_u8
      on_row (read_rows rounds columns) columns rows first

    -- What follows the first command of a result set.
    unfoldable pub result_set : ℕ → Bool → Action Talk ResultSet
    result_set rounds rows_as_dicts = do
      column_count ← on_bytes remove_varint
      columns ← read_columns column_count
      read_rows rounds columns (no_rows rows_as_dicts)

    unfoldable pub ok_result : Action Talk ResultSet
    ok_result = do
      on_bytes remove_u8
      affected_rows ← on_bytes remove_varint
      insert_id ← on_bytes remove_varint
      status_flags ← on_bytes remove_u16l
      warning_count ← on_bytes remove_u16l
      pure record {
        columns = [];
        rows = vecs [];
        affected_rows = affected_rows;
        insert_id = insert_id;
        status_flags = status_flags;
        warning_count = warning_count;
      }

    -- After a result comes the next, or the end.
    abbrev pub after_result :
        Action Talk (Unit {0})
        → (List ResultSet → Action Talk (List ResultSet))
        → List ResultSet
        → ResultSet
        → Action Talk (List ResultSet)
    after_result before_next again ret res =
        if more_results_exist res.status_flags
        then (do before_next; again (ret ++ res ∷ []))
        else pure (ret ++ res ∷ [])

    module _ ⦃P : Phosg⦄ where
      abbrev pub refuse : ℕ → Action Talk (Unit {0})
      refuse response_command =
          if response_command == 0xFF
          then parse_error_body
          else if response_command == 0xFB
          then throw (runtime_error "LOCAL INFILE requests are not implemented")
          else pure tt

      unfoldable pub on_query_response :
          ℕ
          → Bool
          → (List ResultSet → Action Talk (List ResultSet))
          → List ResultSet
          → ℕ
          → Action Talk (List ResultSet)
      on_query_response rounds rows_as_dicts again ret response_command =
          if response_command == 0x00
          then (do res ← ok_result; after_result (pure tt) again ret res)
          else (do
            refuse response_command
            res ← result_set rounds rows_as_dicts
            after_result (on_bytes drain_all) again ret res)

      -- The outer loop, of `results` results at most, each of `rounds` rows and its end at most.
      unfoldable pub query_loop : ℕ → ℕ → Bool → List ResultSet → Action Talk (List ResultSet)
      query_loop zero rounds rows_as_dicts ret = suspend
      query_loop (suc results) rounds rows_as_dicts ret = do
        read_command
        response_command ← on_bytes copyout_u8
        on_query_response rounds rows_as_dicts (query_loop results rounds rows_as_dicts) ret
            response_command

      unfoldable pub query_on : ℕ → ℕ → List ℕ → Bool → Action Talk (List ResultSet)
      query_on results rounds sql rows_as_dicts = do
        on_bytes (add_u8 0x03)
        on_bytes (add sql)
        write_command
        query_loop results rounds rows_as_dicts []

      unfoldable pub query_multi : ℕ → ℕ → List ℕ → Bool → Action Session (List ResultSet)
      query_multi results rounds sql rows_as_dicts = do
        assert_conn_open
        reset_seq
        with_buffer (query_on results rounds sql rows_as_dicts)

      abbrev pub only : List ResultSet → Action Session ResultSet
      only (res ∷ []) = pure res
      only _ = throw (logic_error "query returned multiple result sets; use query_multi instead")

      unfoldable pub query : ℕ → ℕ → List ℕ → Bool → Action Session ResultSet
      query results rounds sql rows_as_dicts = do
        ret ← query_multi results rounds sql rows_as_dicts
        only ret
