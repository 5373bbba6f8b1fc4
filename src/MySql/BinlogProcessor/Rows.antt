-- ===== src/MySql/BinlogProcessor/Rows.antt =====
-- src/Protocols/MySQL/BinlogProcessor.cc: `read_row_data` and the loop of `parse_rows_event`.
use libevent_async.Prelude.{
  ℕ, zero, suc, ◌-◌, List, [], ◌∷◌, Bool, true, false, not, length, ◌==◌, if◌then◌else◌,
}
use libevent_async.Prelude.Action.{Action, runtime_error, pure, suspend, throw, ◌>>=◌}
use libevent_async.Phosg.Reader.{StringReader}
use libevent_async.MySql.Types.{Value, null}
use libevent_async.MySql.ProtocolStringReader.{get_bitmask}
use libevent_async.MySql.BinlogProcessor.Cells.{ColumnInfo, read_cell_data}

pub record BinlogTableInfo : Type 0 where
  pub database_name : List ℕ
  pub table_name : List ℕ
  pub columns : List ColumnInfo

pub data WriteType : Type 0 where
  insert update delete : WriteType

-- The fields that the source leaves alone are zero and empty.
pub record RowChange : Type 0 where
  pub pre_bytes : ℕ
  pub post_bytes : ℕ
  pub pre : List Value
  pub post : List Value

abbrev pub inserted : List Value × ℕ → RowChange
inserted (row, bytes) = record { pre_bytes = 0; post_bytes = bytes; pre = []; post = row }

abbrev pub deleted : List Value × ℕ → RowChange
deleted (row, bytes) = record { pre_bytes = bytes; post_bytes = 0; pre = row; post = [] }

abbrev pub updated : List Value × ℕ → List Value × ℕ → RowChange
updated (row, bytes) (row', bytes') = record {
  pre_bytes = bytes;
  post_bytes = bytes';
  pre = row;
  post = row';
}

module _ ⦃R : StringReader⦄ where
  open R use {Reader, offset, eof}

  unfoldable pub read_cell : Bool → ColumnInfo → Action Reader Value
  read_cell is_null ci =
      if is_null
      then (if not ci.nullable
          then throw (runtime_error "found null value in non-nullable column")
          else pure null)
      else read_cell_data ci

  -- `columns_null` has a bit for each column.
  unfoldable pub read_cells : List Bool → List ColumnInfo → Action Reader (List Value)
  read_cells columns_null [] = pure []
  read_cells [] (ci ∷ columns) = do
    cell ← read_cell false ci
    row ← read_cells [] columns
    pure (cell ∷ row)
  read_cells (is_null ∷ columns_null) (ci ∷ columns) = do
    cell ← read_cell is_null ci
    row ← read_cells columns_null columns
    pure (cell ∷ row)

  unfoldable pub check_row : ℕ → List Value → Action Reader (List Value)
  check_row num_columns row =
      if length row == num_columns
      then pure row
      else throw (runtime_error "row1 length does not match column count")

  unfoldable pub read_row_data : List ColumnInfo → Action Reader (List Value)
  read_row_data columns = do
    columns_null ← get_bitmask (length columns)
    row ← read_cells columns_null columns
    check_row (length columns) row

  abbrev pub here : Action Reader ℕ
  here r = (pure (offset r)) r

  -- A row, and how many bytes it takes.
  unfoldable pub measured_row : List ColumnInfo → Action Reader (List Value × ℕ)
  measured_row columns = do
    start_offset ← here
    row ← read_row_data columns
    end_offset ← here
    pure (row, end_offset - start_offset)

  unfoldable pub read_change : WriteType → Bool → List ColumnInfo → Action Reader RowChange
  read_change insert has_preimage columns = do row ← measured_row columns; pure (inserted row)
  read_change update true columns = do
    pre ← measured_row columns
    post ← measured_row columns
    pure (updated pre post)
  read_change update false columns = do row ← measured_row columns; pure (inserted row)
  read_change delete has_preimage columns = do row ← measured_row columns; pure (deleted row)

  -- `while (!r.eof())`, over `rounds` rounds at most.
  unfoldable pub read_changes : ℕ → Action Reader RowChange → Action Reader (List RowChange)
  read_changes zero change r = elim (eof r) [ true ↦ (pure []) r | false ↦ suspend r ]
  read_changes (suc rounds) change r = elim (eof r) [
    | true ↦ (pure []) r
    | false ↦ (do rc ← change; rows ← read_changes rounds change; pure (rc ∷ rows)) r
  ]
