-- ===== src/MySql/BinlogProcessor/RowsEvents.antt =====
-- `parse_rows_event` of src/Protocols/MySQL/BinlogProcessor.cc reads what a server writes.
use libevent_async.Prelude.{
  ℕ, zero, suc, ◌+◌, ◌-◌, ◌≤◌, ◌<◌, ◌^◌, ◌≡◌, ◌≢◌, refl, ap, ◌∙◌, subst, List, [], ◌∷◌, ◌++◌, map,
  arith, length, length-append, length-replicate, replicate, All, Bool, true, false, ◌==◌, ltb,
}
use libevent_async.Prelude.Action.{Result, ok, pure}
use libevent_async.Prelude.Queue.{
  Reads-bind, Reads-last, Reads-pure, ReadsAll, ReadsAll-bind, ReadsAll-last,
}
use libevent_async.Phosg.Reader.{StringReader, OfSize, ReaderReads, read-Reads, get_le-Reads}
use libevent_async.MySql.ProtocolStringReader.{get_bitmask}
use libevent_async.MySql.ProtocolStringReader.Readers.{get_bitmask-Reads, get_varint-Reads}
use libevent_async.MySql.ProtocolStringReader.Bitmask.{bitmask_bytes}
use libevent_async.MySql.BinlogProcessor.Cells.{ColumnInfo}
use libevent_async.MySql.BinlogProcessor.Rows.{
  BinlogTableInfo, WriteType, insert, update, delete, RowChange, measured_row, read_change,
  read_changes,
}
use libevent_async.MySql.BinlogProcessor.RowLaws.{
  joined, measured_row-Reads, read_changes-ReadsAll, row-pos,
}
use libevent_async.MySql.BinlogProcessor.TableMap.{get_header-Reads}
use libevent_async.MySql.BinlogProcessor.Events.{
  BinlogEventHeader, find_table, is_v2, has_preimage, write_type_of, all_true,
}
use libevent_async.MySql.BinlogProcessor.Parsers.{
  from_result, get_extra_data, check_present, get_present, check_num_columns, check_table_id,
  rows_fields, rows_on,
}
use libevent_async.MySql.BinlogProcessor.Encoding.{
  IsHeader, Field, field_column, row_bytes, Change, change_bytes, change_value, measure, IsRow,
  IsChange, changes_bytes, extra_bytes, extra_value, present_bytes, rows_fields_bytes, rows_bytes,
  Version, v0, v1, v2, event_type, has_extra, has_old_row,
}

write_type_of_lem :
    {S : Type 0} (w : WriteType) (version : Version)
    → write_type_of {S = S} (event_type w version) ≡ pure w
unfolding write_type_of
write_type_of_lem insert v0 = refl
write_type_of_lem insert v1 = refl
write_type_of_lem insert v2 = refl
write_type_of_lem update v0 = refl
write_type_of_lem update v1 = refl
write_type_of_lem update v2 = refl
write_type_of_lem delete v0 = refl
write_type_of_lem delete v1 = refl
write_type_of_lem delete v2 = refl

-- What the source tells from an event's type.
type_lem :
    (w : WriteType) (version : Version)
    → (is_v2 (event_type w version) ≡ has_extra version)
      × (has_preimage (event_type w version) ≡ has_old_row w version)
type_lem insert v0 = (refl, refl)
type_lem insert v1 = (refl, refl)
type_lem insert v2 = (refl, refl)
type_lem update v0 = (refl, refl)
type_lem update v1 = (refl, refl)
type_lem update v2 = (refl, refl)
type_lem delete v0 = (refl, refl)
type_lem delete v1 = (refl, refl)
type_lem delete v2 = (refl, refl)

all_true-replicate : (n : ℕ) → all_true (replicate n true) ≡ true
all_true-replicate zero = refl
all_true-replicate (suc n) = all_true-replicate n

row-pos_of :
    (columns : List ColumnInfo) (fields : List Field)
    → map field_column fields ≡ columns
    → 0 < length columns
    → 0 < length (row_bytes fields)
row-pos_of columns [] e p = absurd (omega (arith, ap length e))
row-pos_of columns (f ∷ fs) e p = row-pos f fs

pub change-pos :
    (columns : List ColumnInfo) (w : WriteType) (preimage : Bool) (c : Change)
    → 0 < length columns
    → IsChange columns w preimage c
    → 0 < length (change_bytes w preimage c)
change-pos columns insert b c p (e, h) = row-pos_of columns c.after e p
change-pos columns update true c p ((e, h), k) =
    omega (
      arith,
      row-pos_of columns c.before e p,
      length-append (row_bytes c.before) (row_bytes c.after),
    )
change-pos columns update false c p (e, h) = row-pos_of columns c.after e p
change-pos columns delete b c p (e, h) = row-pos_of columns c.before e p

module _ ⦃R : StringReader⦄ (total : ℕ) where
  open R use {Reader, remaining, offset, size}

  measured-Reads :
      (columns : List ColumnInfo) (fields : List Field)
      → IsRow columns fields
      → ReaderReads total (measured_row columns) (row_bytes fields) (measure fields)
  measured-Reads columns fields (e, h) =
      subst (λ cs. ReaderReads total (measured_row cs) (row_bytes fields) (measure fields)) e
        (measured_row-Reads total fields h)

  read_change-Reads :
      (columns : List ColumnInfo) (w : WriteType) (preimage : Bool) (c : Change)
      → IsChange columns w preimage c
      → ReaderReads total
          (read_change w preimage columns)
          (change_bytes w preimage c)
          (change_value w preimage c)
  unfolding read_change
  read_change-Reads columns insert b c h = Reads-last _ (measured-Reads columns c.after h) refl
  read_change-Reads columns update true c (h, k) =
      Reads-bind _ (measured-Reads columns c.before h)
        (Reads-last _ (measured-Reads columns c.after k) refl)
  read_change-Reads columns update false c h = Reads-last _ (measured-Reads columns c.after h) refl
  read_change-Reads columns delete b c h = Reads-last _ (measured-Reads columns c.before h) refl

  get_extra_data-Reads :
      (v2 : Bool) (extra : List ℕ)
      → length extra + 2 < 256 ^ 2
      → ReaderReads total (get_extra_data v2) (extra_bytes v2 extra) (extra_value v2 extra)
  unfolding get_extra_data
  get_extra_data-Reads false extra h = Reads-pure []
  get_extra_data-Reads true extra h =
      let enough : ltb (length extra + 2) 2 ≡ false = ground arith in
      let back : length extra + 2 - 2 ≡ length extra = omega arith in
      Reads-bind _ (get_le-Reads total 2 (length extra + 2) h)
        (rw enough (rw back (read-Reads total (length extra) extra refl)))

  check_present-pure : (n : ℕ) → check_present (replicate n true) ≡ pure tt
  unfolding check_present
  check_present-pure n = rw (all_true-replicate n) refl

  mask-Reads :
      (n : ℕ)
      → ReaderReads total (get_bitmask n) (bitmask_bytes (replicate n true)) (replicate n true)
  mask-Reads n = get_bitmask-Reads total n (replicate n true) (length-replicate n true)

  present-Reads : (n : ℕ) → ReaderReads total (check_present (replicate n true)) [] tt
  present-Reads n = rw (check_present-pure n) (Reads-pure tt)

  get_present-Reads :
      (preimage : Bool) (n : ℕ)
      → ReaderReads total (get_present preimage n) (present_bytes preimage n) tt
  unfolding get_present
  get_present-Reads false n = Reads-last _ (mask-Reads n) (check_present-pure n)
  get_present-Reads true n =
      Reads-bind _ (mask-Reads n)
        (Reads-bind _ (present-Reads n) (Reads-last _ (mask-Reads n) (check_present-pure n)))

  check_num_columns-pure :
      (ti : BinlogTableInfo) → check_num_columns ti (length ti.columns) ≡ pure tt
  unfolding check_num_columns
  check_num_columns-pure ti =
      let same : (length ti.columns == length ti.columns) ≡ true = ground arith in rw same refl

  pieces_of : WriteType → Bool → List Change → List (List ℕ × RowChange)
  pieces_of w preimage [] = []
  pieces_of w preimage (c ∷ cs) =
      (change_bytes w preimage c, change_value w preimage c) ∷ pieces_of w preimage cs

  num_columns-Reads :
      (ti : BinlogTableInfo) → ReaderReads total (check_num_columns ti (length ti.columns)) [] tt
  num_columns-Reads ti = rw (check_num_columns-pure ti) (Reads-pure tt)

  write_type-Reads :
      (w : WriteType) (version : Version) (type : ℕ)
      → type ≡ event_type w version
      → ReaderReads total (write_type_of type) [] w
  write_type-Reads w version type e =
      rw (e, write_type_of_lem {S = Reader} w version) (Reads-pure w)

  table_id-Reads :
      (table_id : ℕ)
      → (table_id == 0xFFFFFF) ≡ false
      → ReaderReads total (check_table_id table_id) [] tt
  table_id-Reads table_id e = rw e (Reads-pure tt)

  found-Reads :
      (found : Result BinlogTableInfo) (ti : BinlogTableInfo)
      → found ≡ ok ti
      → ReaderReads total (from_result found) [] ti
  found-Reads found ti e = rw e (Reads-pure ti)

  joined-pieces_of :
      (w : WriteType) (preimage : Bool) (cs : List Change)
      → joined (pieces_of w preimage cs) ≡ changes_bytes w preimage cs
  unfolding pieces_of changes_bytes
  joined-pieces_of w preimage [] = refl
  joined-pieces_of w preimage (c ∷ cs) =
      ap (◌++◌ (change_bytes w preimage c)) (joined-pieces_of w preimage cs)

  values-pieces_of :
      (w : WriteType) (preimage : Bool) (cs : List Change)
      → map (λ x. x.1) (pieces_of w preimage cs) ≡ map (change_value w preimage) cs
  unfolding pieces_of
  values-pieces_of w preimage [] = refl
  values-pieces_of w preimage (c ∷ cs) =
      ap (◌∷◌ (change_value w preimage c)) (values-pieces_of w preimage cs)

  length-pieces_of :
      (w : WriteType) (preimage : Bool) (cs : List Change)
      → length (pieces_of w preimage cs) ≡ length cs
  unfolding pieces_of
  length-pieces_of w preimage [] = refl
  length-pieces_of w preimage (c ∷ cs) = ap suc (length-pieces_of w preimage cs)

  pieces-Reads :
      (columns : List ColumnInfo) (w : WriteType) (preimage : Bool) (cs : List Change)
      → 0 < length columns
      → All (IsChange columns w preimage) cs
      → All
          (λ x. ReaderReads total (read_change w preimage columns) x.0 x.1 × (0 < length x.0))
          (pieces_of w preimage cs)
  unfolding pieces_of
  pieces-Reads columns w preimage [] p h = tt
  pieces-Reads columns w preimage (c ∷ cs) p (h, hs) = (
    (read_change-Reads columns w preimage c h, change-pos columns w preimage c p h),
    pieces-Reads columns w preimage cs p hs,
  )

  rows-ReadsAll :
      (columns : List ColumnInfo) (w : WriteType) (preimage : Bool) (cs : List Change) (rounds : ℕ)
      → 0 < length columns
      → All (IsChange columns w preimage) cs
      → length cs ≤ rounds
      → ReadsAll remaining
          (OfSize total)
          (read_changes rounds (read_change w preimage columns))
          (changes_bytes w preimage cs)
          (map (change_value w preimage) cs)
  rows-ReadsAll columns w preimage cs rounds p h l =
      let m = read_changes rounds (read_change w preimage columns) in
      let all =
        read_changes-ReadsAll total (read_change w preimage columns) rounds
          (pieces_of w preimage cs) (pieces-Reads columns w preimage cs p h)
          (omega (arith, length-pieces_of w preimage cs)) in
      subst (λ bytes. ReadsAll remaining (OfSize total) m bytes (map (change_value w preimage) cs))
        (joined-pieces_of w preimage cs)
        (subst (λ rows. ReadsAll remaining (OfSize total) m (joined (pieces_of w preimage cs)) rows)
          (values-pieces_of w preimage cs) all)

  rows_fields-ReadsAll :
      (h : BinlogEventHeader) (w : WriteType) (table_id flags : ℕ) (extra : List ℕ)
      (ti : BinlogTableInfo) (cs : List Change) (rounds : ℕ) (extended preimage : Bool)
      → is_v2 h.type ≡ extended
      → has_preimage h.type ≡ preimage
      → flags < 256 ^ 2
      → length extra + 2 < 256 ^ 2
      → 0 < length ti.columns
      → length ti.columns < 2 ^ 64
      → All (IsChange ti.columns w preimage) cs
      → length cs ≤ rounds
      → ReadsAll remaining
          (OfSize total)
          (rows_fields rounds h w table_id ti)
          (rows_fields_bytes extended preimage w flags extra ti.columns cs)
          (record {
            header = h;
            write_type = w;
            table_id = table_id;
            ti = ti;
            flags = flags;
            extra_data = extra_value extended extra;
            rows = map (change_value w preimage) cs;
          })
  unfolding rows_fields
  rows_fields-ReadsAll h w table_id flags extra ti cs rounds extended preimage v o f x p n k l =
      rw (v, o)
        (ReadsAll-bind _ (get_le-Reads total 2 flags f) (
          ReadsAll-bind _ (get_extra_data-Reads extended extra x) (
            ReadsAll-bind _ (get_varint-Reads total (length ti.columns) n) (
              ReadsAll-bind _ (num_columns-Reads ti) (
                ReadsAll-bind _ (get_present-Reads preimage (length ti.columns))
                  (ReadsAll-last _ (rows-ReadsAll ti.columns w preimage cs rounds p k l) refl))))))

  pub rows_on-ReadsAll :
      (h : BinlogEventHeader) (w : WriteType) (version : Version) (table_id flags : ℕ)
      (extra : List ℕ) (ti : BinlogTableInfo) (cs : List Change) (rounds : ℕ)
      (table_map : List (ℕ × BinlogTableInfo))
      → IsHeader h
      → h.type ≡ event_type w version
      → table_id < 256 ^ 6
      → table_id ≢ 0xFFFFFF
      → find_table table_id table_map ≡ ok ti
      → flags < 256 ^ 2
      → length extra + 2 < 256 ^ 2
      → 0 < length ti.columns
      → length ti.columns < 2 ^ 64
      → All (IsChange ti.columns w (has_old_row w version)) cs
      → length cs ≤ rounds
      → ReadsAll remaining
          (OfSize total)
          (rows_on rounds table_map)
          (rows_bytes h w version table_id flags extra ti.columns cs)
          (record {
            header = h;
            write_type = w;
            table_id = table_id;
            ti = ti;
            flags = flags;
            extra_data = extra_value (has_extra version) extra;
            rows = map (change_value w (has_old_row w version)) cs;
          })
  unfolding rows_on
  rows_on-ReadsAll h w version table_id flags extra ti cs rounds table_map k t i d e f x p n c l =
      let free : (table_id == 0xFFFFFF) ≡ false = ground arith in
      ReadsAll-bind _ (get_header-Reads total h k) (
        ReadsAll-bind _ (write_type-Reads w version h.type t) (
          ReadsAll-bind _ (get_le-Reads total 6 table_id i) (
            ReadsAll-bind _ (table_id-Reads table_id free) (
              ReadsAll-bind _ (found-Reads _ ti e) (
                rows_fields-ReadsAll h w table_id flags extra ti cs rounds (has_extra version)
                  (has_old_row w version) (ap is_v2 t ∙ (type_lem w version).0)
                  (ap has_preimage t ∙ (type_lem w version).1) f x p n c l)))))
