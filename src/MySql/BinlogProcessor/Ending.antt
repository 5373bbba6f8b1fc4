-- ===== src/MySql/BinlogProcessor/Ending.antt =====
-- When `parse_rows_event` of src/Protocols/MySQL/BinlogProcessor.cc comes to an end.
use libevent_async.Prelude.{
  ℕ, zero, suc, ◌-◌, ◌<◌, ◌≡◌, inl, inr, refl, ap, ◌∙◌, List, [], ◌∷◌, arith, length, All, Bool,
  true, false, Bool-cases, not, ◌==◌, ltb,
}
use libevent_async.Prelude.Action.{Action, Result, ok, err, pending, pure, proceed, ◌>>=◌}
use libevent_async.Phosg.Reader.{StringReader}
use libevent_async.MySql.ProtocolStringReader.{get_varint_tail, get_varint, get_bitmask}
use libevent_async.MySql.BinlogProcessor.Cells.{ColumnInfo}
use libevent_async.MySql.BinlogProcessor.RowLaws.{read_changes-more}
use libevent_async.MySql.BinlogProcessor.Rows.{
  inserted, BinlogTableInfo, WriteType, insert, RowChange, read_change, read_changes, measured_row,
  read_row_data, read_cells, check_row,
}
use libevent_async.MySql.BinlogProcessor.Steady.{
  Ends, Steady, Steady-pure, Steady-throw, Steady-if, Steady-bind, read-Steady, get_le-Steady,
}
use libevent_async.MySql.BinlogProcessor.Termination.{
  EndsWithin, EndsWithin-bind, get_bitmask-Steady, read_change-Strict, read_changes-Ends,
}
use libevent_async.MySql.BinlogProcessor.Events.{
  BinlogEventHeader, BinlogRowsEvent, BinlogProcessor, find_table, write_type_of, is_insert,
  is_update, is_delete, is_v2, has_preimage, all_true, with_event,
}
use libevent_async.MySql.BinlogProcessor.Parsers.{
  get_header, run, from_result, get_extra_data, check_present, get_present, check_num_columns,
  rows_fields, rows_on, parse_rows_event,
}

abbrev pub HasColumns : List (ℕ × BinlogTableInfo) → Type 0
HasColumns = All (λ x. 0 < length x.1.columns)

-- A table that was found has a column, and the search comes to an end.
abbrev IsFound : Result BinlogTableInfo → Type 0
IsFound (ok ti) = 0 < length ti.columns
IsFound (err e) = Unit
IsFound pending = ⊥

find_table-IsFound :
    (table_id : ℕ) (m : List (ℕ × BinlogTableInfo)) → HasColumns m → IsFound (find_table table_id m)
unfolding find_table
find_table-IsFound table_id [] h = tt
find_table-IsFound table_id ((i, ti) ∷ m) (h, hs) = elim (Bool-cases (i == table_id)) [
  | inl this ↦ rw this h
  | inr other ↦ rw other (find_table-IsFound table_id m hs)
]

module _ ⦃R : StringReader⦄ where
  open R use {Reader, remaining}

  get_header-Steady : Steady get_header
  unfolding get_header
  get_header-Steady = Steady-bind _ (get_le-Steady 4) (λ a. Steady-bind _ (get_le-Steady 1) (λ b.
      Steady-bind _ (get_le-Steady 4) (λ c. Steady-bind _ (get_le-Steady 4) (λ d.
        Steady-bind _ (get_le-Steady 4)
          (λ e. Steady-bind _ (get_le-Steady 2) (λ f. Steady-pure _))))))

  write_type_of-Steady : (type : ℕ) → Steady (write_type_of type)
  unfolding write_type_of
  write_type_of-Steady type = Steady-if (is_insert type) (Steady-pure _) (
      Steady-if (is_update type) (Steady-pure _)
        (Steady-if (is_delete type) (Steady-pure _) (Steady-throw _)))

  get_varint-Steady : Steady get_varint
  unfolding get_varint get_varint_tail
  get_varint-Steady = Steady-bind _ (get_le-Steady 1) (λ v. Steady-if (ltb v 0xFB) (Steady-pure v) (
      Steady-if (v == 0xFB) (Steady-throw _) (
        Steady-if (v == 0xFC) (get_le-Steady 2) (
          Steady-if (v == 0xFD) (get_le-Steady 3) (
            Steady-if (v == 0xFE) (get_le-Steady 8)
              (Steady-if (v == 0xFF) (Steady-throw _) (Steady-pure v)))))))

  get_extra_data-Steady : (v2 : Bool) → Steady (get_extra_data v2)
  unfolding get_extra_data
  get_extra_data-Steady false = Steady-pure []
  get_extra_data-Steady true =
      Steady-bind _ (get_le-Steady 2)
        (λ n. Steady-if (ltb n 2) (read-Steady _) (read-Steady (n - 2)))

  check_present-Steady : (present : List Bool) → Steady (check_present present)
  unfolding check_present
  check_present-Steady present = Steady-if (all_true present) (Steady-pure tt) (Steady-throw _)

  get_present-Steady : (preimage : Bool) (n : ℕ) → Steady (get_present preimage n)
  unfolding get_present
  get_present-Steady false n = Steady-bind _ (get_bitmask-Steady n) check_present-Steady
  get_present-Steady true n = Steady-bind _ (get_bitmask-Steady n) (λ present.
      Steady-bind _ (check_present-Steady present)
        (λ _. Steady-bind _ (get_bitmask-Steady n) check_present-Steady))

  check_num_columns-Steady : (ti : BinlogTableInfo) (n : ℕ) → Steady (check_num_columns ti n)
  unfolding check_num_columns
  check_num_columns-Steady ti n =
      Steady-if (not (n == length ti.columns)) (Steady-throw _) (Steady-pure tt)

  last-EndsWithin :
      {A B : Type 0} (n : ℕ) {m : Action Reader A} (f : A → Action Reader B)
      → EndsWithin n m
      → ((a : A) (r : Reader) → Ends (f a r).0)
      → EndsWithin n (m >>= f)
  unfolding ◌>>=◌
  last-EndsWithin {A} n {m} f h k = record { apply = λ r l. kept (m r) (h.apply r l) }
    where
      kept : (p : Result A × Reader) → Ends p.0 → Ends (proceed p f).0
      kept (ok a, r) e = k a r
      kept (err x, r) e = tt
      kept (pending, r) e = e

  rows-EndsWithin :
      (rounds : ℕ) (w : WriteType) (preimage : Bool) (columns : List ColumnInfo)
      → 0 < length columns
      → EndsWithin rounds (read_changes rounds (read_change w preimage columns))
  rows-EndsWithin rounds w preimage columns p = record {
    apply = λ r l.
        read_changes-Ends rounds (read_change w preimage columns) r
          (read_change-Strict w preimage columns p) l;
  }

  found-EndsWithin :
      {B : Type 0} (n : ℕ) (found : Result BinlogTableInfo) (f : BinlogTableInfo → Action Reader B)
      → IsFound found
      → ((ti : BinlogTableInfo) → 0 < length ti.columns → EndsWithin n (f ti))
      → EndsWithin n (from_result found >>= f)
  unfolding ◌>>=◌
  found-EndsWithin n (ok ti) f h k = record { apply = λ r l. (k ti h).apply r l }
  found-EndsWithin n (err e) f h k = record { apply = λ r l. tt }
  found-EndsWithin n pending f h k = absurd h

  rows_fields-EndsWithin :
      (rounds : ℕ) (h : BinlogEventHeader) (w : WriteType) (table_id : ℕ) (ti : BinlogTableInfo)
      → 0 < length ti.columns
      → EndsWithin rounds (rows_fields rounds h w table_id ti)
  unfolding rows_fields
  rows_fields-EndsWithin rounds h w table_id ti p =
      EndsWithin-bind rounds _ (get_le-Steady 2) (λ flags.
        EndsWithin-bind rounds _ (get_extra_data-Steady (is_v2 h.type)) (λ extra.
          EndsWithin-bind rounds _ get_varint-Steady (λ n.
            EndsWithin-bind rounds _ (check_num_columns-Steady ti n) (λ _.
              EndsWithin-bind rounds _ (get_present-Steady (has_preimage h.type) n) (λ _.
                last-EndsWithin rounds _
                  (rows-EndsWithin rounds w (has_preimage h.type) ti.columns p) (λ rows r. tt))))))

  rows_on-EndsWithin :
      (rounds : ℕ) (m : List (ℕ × BinlogTableInfo))
      → HasColumns m
      → EndsWithin rounds (rows_on rounds m)
  unfolding rows_on
  rows_on-EndsWithin rounds m c = EndsWithin-bind rounds _ get_header-Steady (λ h.
      EndsWithin-bind rounds _ (write_type_of-Steady h.type) (λ w.
        EndsWithin-bind rounds _ (get_le-Steady 6) (λ table_id.
          EndsWithin-bind rounds _
            (Steady-if (table_id == 0xFFFFFF) (Steady-throw _) (Steady-pure tt))
            (λ _.
              found-EndsWithin rounds (find_table table_id m) (rows_fields rounds h w table_id)
                (find_table-IsFound table_id m c) (rows_fields-EndsWithin rounds h w table_id)))))

  event-Ends :
      {A B : Type 0} (event : B → A) (change : B → BinlogProcessor → BinlogProcessor)
      (p : BinlogProcessor) (result : Result B)
      → Ends result
      → Ends (with_event event change p result).0
  event-Ends event change p (ok b) h = tt
  event-Ends event change p (err e) h = tt
  event-Ends event change p pending h = h

  -- On any bytes `parse_rows_event` comes to an end where the tables in the map have columns: with an
  -- event, an exception, or the error `undefined`, when a bitmask that is cut short is read behind its
  -- end. The loop over the rows needs no more rounds than the event has bytes.
  pub parse_rows_event-Ends :
      (bytes : List ℕ) (p : BinlogProcessor)
      → HasColumns p.table_map
      → Ends (parse_rows_event bytes p).0
  unfolding parse_rows_event
  parse_rows_event-Ends bytes p h =
      event-Ends (λ ev. ev)
        (λ (ev : BinlogRowsEvent) p. record p { position = ev.header.end_position }) p
        (run (rows_on (length bytes) p.table_map) bytes)
        ((rows_on-EndsWithin (length bytes) p.table_map h).apply (R.new_reader bytes)
          (omega (arith, ap length (R.new_lem bytes))))

  -- One round for a table without columns takes nothing.
  empty_row :
      (r : Reader)
      → (r' : Reader) × (rc : RowChange) × (read_change insert false [] r ≡ (ok rc, r'))
        × (remaining r' ≡ remaining r)
  unfolding read_change measured_row read_row_data get_bitmask read_cells check_row ◌>>=◌
  empty_row r =
      let (r', e, c, z) = R.read_lem 0 r in
      (r', inserted ([], R.offset r' - R.offset r), rw e refl, c)

  read_changes-none :
      (change : Action Reader RowChange) (r : Reader)
      → R.eof r ≡ false
      → read_changes 0 change r ≡ (pending, r)
  unfolding read_changes
  read_changes-none change r e = rw (e, read_changes) refl

  -- For a table without columns the loop over inserted rows does not end once a byte is left: however
  -- many rounds it is given, it is not done. The source then adds empty rows without end.
  pub no_columns_loop :
      (rounds : ℕ) (r : Reader)
      → 0 < length (remaining r)
      → (read_changes rounds (read_change insert false []) r).0 ≡ pending
  unfolding ◌>>=◌
  no_columns_loop zero r h =
      let more : (length (remaining r) == 0) ≡ false = ground arith in
      ap (λ p. p.0) (read_changes-none (read_change insert false []) r (R.eof_lem r ∙ more))
  no_columns_loop (suc rounds) r h =
      let change = read_change insert false [] in
      let more : (length (remaining r) == 0) ≡ false = ground arith in
      let (r', rc, e, c) = empty_row r in
      let rest = no_columns_loop rounds r' (omega (arith, ap length c)) in
      ap (λ p. p.0) (read_changes-more change rounds r (R.eof_lem r ∙ more))
      ∙ ap (λ p. (proceed p (λ rc. read_changes rounds change >>= λ rows. pure (rc ∷ rows))).0) e
      ∙ stuck rc (read_changes rounds change r') rest
    where
      stuck :
          (rc : RowChange) (p : Result (List RowChange) × Reader)
          → p.0 ≡ pending
          → (proceed p (λ rows. pure (rc ∷ rows))).0 ≡ pending
      stuck rc (ok rows, r) e = cc
      stuck rc (err x, r) e = cc
      stuck rc (pending, r) e = refl
