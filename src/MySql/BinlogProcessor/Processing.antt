-- ===== src/MySql/BinlogProcessor/Processing.antt =====
-- What a BinlogProcessor of src/Protocols/MySQL/BinlogProcessor.cc makes of a stream of events.
use libevent_async.Prelude.{
  ℕ, ◌+◌, ◌≤◌, ◌<◌, ◌^◌, ◌≡◌, ◌≢◌, refl, ap, ◌∙◌, List, [], ◌∷◌, ◌++◌, map, arith, length,
  length-append, All, Bool, true, ◌==◌,
}
use libevent_async.Prelude.Bytes.{le_bytes}
use libevent_async.Prelude.Action.{Action, ok, proceed, ◌>>=◌}
use libevent_async.Prelude.Queue.{ReadsAll, ReadsAll-bind, ReadsAll-last}
use libevent_async.Phosg.Reader.{StringReader, OfSize, read-Reads, get_le-Reads, skip-Reads}
use libevent_async.MySql.ProtocolStringReader.{get_string_eof}
use libevent_async.MySql.ProtocolStringReader.Readers.{get_string_eof_lem}
use libevent_async.MySql.BinlogProcessor.Cells.{ColumnInfo}
use libevent_async.MySql.BinlogProcessor.Rows.{BinlogTableInfo, WriteType}
use libevent_async.MySql.BinlogProcessor.RowsEvents.{change-pos, rows_on-ReadsAll}
use libevent_async.MySql.BinlogProcessor.TableMap.{get_header-Reads, parse_table_map_event_set}
use libevent_async.MySql.BinlogProcessor.Events.{
  BinlogEventHeader, BinlogRowsEvent, BinlogQueryEvent, BinlogRotateEvent, BinlogProcessor,
  find_table, set_table,
}
use libevent_async.MySql.BinlogProcessor.Parsers.{
  run, rows_on, parse_rows_event, parse_table_map_event, query_on, query_fields, parse_query_event,
  rotate_on, rotate_fields, parse_rotate_event,
}
use libevent_async.MySql.BinlogProcessor.Encoding.{
  header_bytes, IsHeader, Change, change_bytes, change_value, IsChange, changes_bytes, extra_bytes,
  extra_value, present_bytes, rows_bytes, Version, event_type, has_extra, has_old_row, IsTable,
  table_map_bytes, query_bytes, IsQuery, rotate_bytes,
}

find_table-set_table :
    (table_id : ℕ) (ti : BinlogTableInfo) (m : List (ℕ × BinlogTableInfo))
    → find_table table_id (set_table table_id ti m) ≡ ok ti
unfolding find_table set_table
find_table-set_table table_id ti [] =
    let same : (table_id == table_id) ≡ true = ground arith in rw same refl
find_table-set_table table_id ti ((i, ti') ∷ m) = ground (arith, find_table-set_table table_id ti m)

le_behind : (n : ℕ) (xs ys : List ℕ) → n ≤ length ys → n ≤ length (xs ++ ys)
le_behind n xs ys h = omega (arith, length-append xs ys)

length-le-changes_bytes :
    (columns : List ColumnInfo) (w : WriteType) (preimage : Bool) (cs : List Change)
    → 0 < length columns
    → All (IsChange columns w preimage) cs
    → length cs ≤ length (changes_bytes w preimage cs)
unfolding changes_bytes
length-le-changes_bytes columns w preimage [] p h = omega arith
length-le-changes_bytes columns w preimage (c ∷ cs) p (h, hs) = omega (
  arith,
  change-pos columns w preimage c p h,
  length-le-changes_bytes columns w preimage cs p hs,
  length-append (change_bytes w preimage c) (changes_bytes w preimage cs),
)

module _ ⦃R : StringReader⦄ where
  open R use {Reader, remaining, size}

  run-ReadsAll :
      {A : Type 0} (m : Action Reader A) (bytes : List ℕ) (a : A)
      → ((total : ℕ) → ReadsAll remaining (OfSize total) m bytes a)
      → run m bytes ≡ ok a
  run-ReadsAll m bytes a h =
      let (r', e, u, c) =
        (h (size (R.new_reader bytes))).apply (R.new_reader bytes) refl (R.new_lem bytes) in
      ap (λ p. p.0) e

  abbrev pub rows_event :
      BinlogEventHeader
      → WriteType
      → Version
      → ℕ
      → ℕ
      → List ℕ
      → BinlogTableInfo
      → List Change
      → BinlogRowsEvent
  rows_event h w version table_id flags extra ti cs = record {
    header = h;
    write_type = w;
    table_id = table_id;
    ti = ti;
    flags = flags;
    extra_data = extra_value (has_extra version) extra;
    rows = map (change_value w (has_old_row w version)) cs;
  }

  parse_rows_event_known :
      (h : BinlogEventHeader) (w : WriteType) (version : Version) (table_id flags : ℕ)
      (extra : List ℕ) (ti : BinlogTableInfo) (cs : List Change) (p : BinlogProcessor)
      → IsHeader h
      → h.type ≡ event_type w version
      → table_id < 256 ^ 6
      → table_id ≢ 0xFFFFFF
      → find_table table_id p.table_map ≡ ok ti
      → flags < 256 ^ 2
      → length extra + 2 < 256 ^ 2
      → 0 < length ti.columns
      → length ti.columns < 2 ^ 64
      → All (IsChange ti.columns w (has_old_row w version)) cs
      → parse_rows_event (rows_bytes h w version table_id flags extra ti.columns cs) p ≡ (
        ok (rows_event h w version table_id flags extra ti cs),
        record p { position = h.end_position },
      )
  unfolding parse_rows_event
  parse_rows_event_known h w version table_id flags extra ti cs p k t i d e f x n b c =
      let bytes = rows_bytes h w version table_id flags extra ti.columns cs in
      let rounds : length cs ≤ length bytes = le_behind _ (header_bytes h) _ (
        le_behind _ (le_bytes 6 table_id) _ (
          le_behind _ (le_bytes 2 flags) _ (
            le_behind _ (extra_bytes (has_extra version) extra) _ (
              le_behind _ _ _ (
                le_behind _ (present_bytes (has_old_row w version) (length ti.columns)) _
                  (length-le-changes_bytes ti.columns w (has_old_row w version) cs n c)))))) in
      rw
        (run-ReadsAll (rows_on (length bytes) p.table_map) bytes
          (rows_event h w version table_id flags extra ti cs)
          (λ total.
            rows_on-ReadsAll total h w version table_id flags extra ti cs (length bytes) p.table_map
              k t i d e f x n b c rounds))
        refl

  -- A processor that is given the map of a table and then a rows event of that table returns the
  -- inserted, updated or deleted rows, each cell with its value or NULL, and with each row how many
  -- bytes it takes; the position is the end of the second event. The event's type and version are any of
  -- the nine. The table has a column; every column is present in the event; the cells are of the types
  -- of `Cell`, a negative time without a fraction.
  pub parse_rows-parse_table_map :
      (g h : BinlogEventHeader) (w : WriteType) (version : Version) (table_id map_flags flags : ℕ)
      (extra : List ℕ) (ti : BinlogTableInfo) (cs : List Change) (p : BinlogProcessor)
      → IsHeader g
      → g.type ≡ 19
      → IsHeader h
      → h.type ≡ event_type w version
      → table_id < 256 ^ 6
      → table_id ≢ 0xFFFFFF
      → map_flags < 256 ^ 2
      → flags < 256 ^ 2
      → length extra + 2 < 256 ^ 2
      → IsTable ti
      → 0 < length ti.columns
      → All (IsChange ti.columns w (has_old_row w version)) cs
      → (parse_table_map_event (table_map_bytes g table_id map_flags ti) >>= λ map_event.
            parse_rows_event (rows_bytes h w version table_id flags extra ti.columns cs))
          p
        ≡ (
          ok (rows_event h w version table_id flags extra ti cs),
          record p { table_map = set_table table_id ti p.table_map; position = h.end_position },
        )
  unfolding ◌>>=◌
  parse_rows-parse_table_map g h w version table_id map_flags flags extra ti cs p kg tg k t i d mf f
        x j n c =
      ap
        (λ r. proceed r (λ map_event.
          parse_rows_event (rows_bytes h w version table_id flags extra ti.columns cs)))
        (parse_table_map_event_set g table_id map_flags ti p kg tg i mf j)
      ∙ parse_rows_event_known h w version table_id flags extra ti cs
          (record p { table_map = set_table table_id ti p.table_map; position = g.end_position }) k
          t i d (find_table-set_table table_id ti p.table_map) f x n j.num_columns c

  get_string_eof-ReadsAll :
      (total : ℕ) (bytes : List ℕ) → ReadsAll remaining (OfSize total) get_string_eof bytes bytes
  get_string_eof-ReadsAll total bytes = record {
    apply = λ s u e.
        let (s', r, u', c) = get_string_eof_lem total s u in
        (s', r ∙ ap (λ (l : List ℕ). (ok l, s')) e, u', c);
  }

  query_on-ReadsAll :
      (total : ℕ) (ev : BinlogQueryEvent)
      → IsQuery ev
      → ReadsAll remaining (OfSize total) query_on (query_bytes ev) ev
  unfolding query_on query_fields
  query_on-ReadsAll total ev k =
      let test : (ev.header.type == 2) ≡ true = ground (arith, k.type) in
      ReadsAll-bind _ (get_header-Reads total ev.header k.header) (
        rw test (
          ReadsAll-bind _ (get_le-Reads total 4 ev.conn_id k.conn_id) (
            ReadsAll-bind _ (get_le-Reads total 4 ev.exec_time_secs k.exec_time_secs) (
              ReadsAll-bind _ (get_le-Reads total 1 (length ev.database_name) k.database_name) (
                ReadsAll-bind _ (get_le-Reads total 2 ev.error_code k.error_code) (
                  ReadsAll-bind _ (get_le-Reads total 2 (length ev.status_vars) k.status_vars) (
                    ReadsAll-bind _ (read-Reads total (length ev.status_vars) ev.status_vars refl) (
                      ReadsAll-bind _
                        (read-Reads total (length ev.database_name) ev.database_name refl)
                        (ReadsAll-bind _ (skip-Reads total 1 (0 ∷ []) refl)
                          (ReadsAll-last _ (get_string_eof-ReadsAll total ev.query) refl))))))))))

  -- A query event is parsed to what the server wrote, for any bytes in its status variables, its
  -- database's name and its query; the position is the event's end.
  pub parse_query_event_lem :
      (ev : BinlogQueryEvent) (p : BinlogProcessor)
      → IsQuery ev
      → parse_query_event (query_bytes ev) p
        ≡ (ok ev, record p { position = ev.header.end_position })
  unfolding parse_query_event
  parse_query_event_lem ev p k =
      rw (run-ReadsAll query_on (query_bytes ev) ev (λ total. query_on-ReadsAll total ev k)) refl

  rotate_on-ReadsAll :
      (total : ℕ) (ev : BinlogRotateEvent)
      → IsHeader ev.header
      → ev.header.type ≡ 4
      → ev.next_position < 256 ^ 8
      → ReadsAll remaining (OfSize total) rotate_on (rotate_bytes ev) ev
  unfolding rotate_on rotate_fields
  rotate_on-ReadsAll total ev k t n =
      let test : (ev.header.type == 4) ≡ true = ground arith in
      ReadsAll-bind _ (get_header-Reads total ev.header k) (
        rw test (
          ReadsAll-bind _ (get_le-Reads total 8 ev.next_position n)
            (ReadsAll-last _ (get_string_eof-ReadsAll total ev.next_filename) refl)))

  -- A rotate event is parsed to what the server wrote, and moves the processor to the position and the
  -- file that it names, not to the event's end.
  pub parse_rotate_event_lem :
      (ev : BinlogRotateEvent) (p : BinlogProcessor)
      → IsHeader ev.header
      → ev.header.type ≡ 4
      → ev.next_position < 256 ^ 8
      → parse_rotate_event (rotate_bytes ev) p
        ≡ (ok ev, record p { filename = ev.next_filename; position = ev.next_position })
  unfolding parse_rotate_event
  parse_rotate_event_lem ev p k t n =
      rw (run-ReadsAll rotate_on (rotate_bytes ev) ev (λ total. rotate_on-ReadsAll total ev k t n))
        refl
