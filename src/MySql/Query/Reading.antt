-- ===== src/MySql/Query/Reading.antt =====
-- The loops of `query_multi` over the packets of a result set.
use libevent_async.Prelude.{
  ℕ, zero, suc, ◌<◌, ◌^◌, ◌≡◌, ◌≢◌, refl, sym, ap, subst, List, [], ◌∷◌, ◌++◌, map, Option, none,
  some, arith, length, All, false, ◌==◌,
}
use libevent_async.Prelude.Bytes.{le_bytes}
use libevent_async.Prelude.Action.{ok}
use libevent_async.Libevent.{EvBuffer, Network}
use libevent_async.Buffer.{copyout_u8}
use libevent_async.Buffer.Contract.{remove_le-Reads}
use libevent_async.MySql.Command.{frame}
use libevent_async.MySql.Types.{Value}
use libevent_async.MySql.Client.{Client, next_uint8, on_bytes}
use libevent_async.MySql.Client.Dialog.{
  Dialog, Dialog-reads_all, Dialog-pure, Dialog-bind, Dialog-last,
}
use libevent_async.MySql.Client.Sequence.{advanced, read_command-Dialog}
use libevent_async.MySql.Query.{read_columns, read_rows, on_row, finish_rows}
use libevent_async.MySql.Query.Cells.{ColumnDefinition, Floats, Rows, emplace_row}
use libevent_async.MySql.Query.Packets.{
  column_bytes, row_bytes, IsColumn, IsRow, varint-Lead, peek-Dialog, number-Dialog, column-Dialog,
  row-Dialog,
}

-- The server's packets in frames, numbered from `seq`.
abbrev pub frames : ℕ → List (List ℕ) → List ℕ
frames seq [] = []
frames seq (p ∷ ps) = frame seq p ++ frames (next_uint8 seq) ps

-- The client when it has read so many packets.
abbrev pub passed : List (List ℕ) → Client → Client
passed [] c = c
passed (p ∷ ps) c = passed ps (advanced c)

pub next_seq-passed :
    (ps : List (List ℕ)) (c : Client) → c.next_seq < 256 → (passed ps c).next_seq < 256
next_seq-passed [] c h = h
next_seq-passed (p ∷ ps) c h = next_seq-passed ps (advanced c) (omega arith)

abbrev pub Fits : List ℕ → Type 0
Fits payload = length payload < 2 ^ 24

abbrev pub Row : Type 0
Row = List (Option (List ℕ)) × List Value

abbrev pub row_packet : Row → List ℕ
row_packet (cells, vs) = row_bytes cells

abbrev pub emplaced : List ColumnDefinition → List Row → Rows → Rows
emplaced ds [] rows = rows
emplaced ds ((cells, vs) ∷ rs) rows = emplaced ds rs (emplace_row ds vs rows)

abbrev pub eof_packet : ℕ → ℕ → List ℕ
eof_packet warning_count status_flags =
    le_bytes 1 0xFE ++ (le_bytes 2 warning_count ++ le_bytes 2 status_flags)

-- The packets of the rows and their end.
abbrev pub rows_packets : List Row → ℕ → ℕ → List (List ℕ)
rows_packets rs warning_count status_flags =
    map row_packet rs ++ eof_packet warning_count status_flags ∷ []

eof-Fits : (w st : ℕ) → Fits (eof_packet w st)
unfolding le_bytes
eof-Fits w st = omega arith

module _ ⦃F : Floats⦄ where
  abbrev pub IsRowOf : List ColumnDefinition → Row → Type 0
  IsRowOf ds (cells, vs) = IsRow ds cells vs × Fits (row_bytes cells)

  -- A row is not taken for the end.
  row-first :
      (d : ColumnDefinition) (ds : List ColumnDefinition) (cells : List (Option (List ℕ)))
      (vs : List Value)
      → IsRow (d ∷ ds) cells vs
      → (x : ℕ) × (xs : List ℕ) × (row_bytes cells ≡ x ∷ xs) × (x ≢ 0xFE)
  row-first d ds [] vs r = absurd r
  row-first d ds (cell ∷ cells) [] r = absurd r
  row-first d ds (none ∷ cells) (v ∷ vs) r = (0xFB, row_bytes cells, refl, omega arith)
  row-first d ds (some value ∷ cells) (v ∷ vs) ((h, e), rs) =
      let (x, xs, lead, _, not_eof, _, _) = varint-Lead (length value) h in
      (
        x,
        (xs ++ value) ++ row_bytes cells,
        ap (λ (bytes : List ℕ). (bytes ++ value) ++ row_bytes cells) lead,
        not_eof,
      )

module _ ⦃E : EvBuffer⦄ ⦃N : Network⦄ where
  pub columns-Dialog :
      (c : Client) (ds : List ColumnDefinition)
      → All IsColumn ds
      → All (λ d. Fits (column_bytes d)) ds
      → c.next_seq < 256
      → Dialog
          (read_columns (length ds))
          c
          []
          (frames c.next_seq (map column_bytes ds))
          []
          []
          (passed (map column_bytes ds) c)
          (ok ds)
  unfolding read_columns
  columns-Dialog c [] v f h = Dialog-pure [] c []
  columns-Dialog c (d ∷ ds) (v, vs) (f, fs) h =
      Dialog-bind _ (read_command-Dialog c (column_bytes d) f h) (
        Dialog-bind _ (column-Dialog (advanced c) d v) (
          Dialog-last _ (columns-Dialog (advanced c) ds vs fs (omega arith))
            (Dialog-pure (d ∷ ds) _ [])))

  module _ ⦃F : Floats⦄ where
    finish-Dialog :
        (c : Client) (ds : List ColumnDefinition) (rows : Rows) (warning_count status_flags : ℕ)
        → warning_count < 2 ^ 16
        → status_flags < 2 ^ 16
        → Dialog (finish_rows ds rows) c (eof_packet warning_count status_flags) [] [] [] c (
            ok record {
              columns = ds;
              rows = rows;
              affected_rows = 0;
              insert_id = 0;
              status_flags = status_flags;
              warning_count = warning_count;
            })
    unfolding finish_rows
    finish-Dialog c ds rows w st hw hs = Dialog-last _ (number-Dialog c 1 0xFE _ (omega arith)) (
        Dialog-last _ (number-Dialog c 2 w _ (omega arith)) (
          Dialog-last _ (Dialog-reads_all _ c (remove_le-Reads 2 st (omega arith)))
            (Dialog-pure _ c [])))

    pub rows-Dialog :
        (c : Client) (rounds : ℕ) (d : ColumnDefinition) (ds : List ColumnDefinition)
        (rs : List Row) (rows : Rows) (warning_count status_flags : ℕ)
        → length rs < rounds
        → All (IsRowOf (d ∷ ds)) rs
        → warning_count < 2 ^ 16
        → status_flags < 2 ^ 16
        → c.next_seq < 256
        → Dialog
            (read_rows rounds (d ∷ ds) rows)
            c
            []
            (frames c.next_seq (rows_packets rs warning_count status_flags))
            []
            []
            (passed (rows_packets rs warning_count status_flags) c)
            (ok record {
              columns = d ∷ ds;
              rows = emplaced (d ∷ ds) rs rows;
              affected_rows = 0;
              insert_id = 0;
              status_flags = status_flags;
              warning_count = warning_count;
            })
    unfolding read_rows finish_rows le_bytes
    rows-Dialog c zero d ds rs rows w st l v hw hs h = absurd (omega arith)
    rows-Dialog c (suc rounds) d ds [] rows w st l v hw hs h =
        Dialog-bind _ (read_command-Dialog c (eof_packet w st) (eof-Fits w st) h) (
          Dialog-last (on_row (read_rows rounds (d ∷ ds)) (d ∷ ds) rows)
            (peek-Dialog (advanced c) 0xFE _) (finish-Dialog (advanced c) (d ∷ ds) rows w st hw hs))
    rows-Dialog c (suc rounds) d ds ((cells, vs) ∷ rs) rows w st l ((r, f), v) hw hs h =
        let (x, xs, e, not_eof) = row-first d ds cells vs r in
        let other : (x == 0xFE) ≡ false = ground arith in
        Dialog-bind _ (read_command-Dialog c (row_bytes cells) f h) (
          Dialog-bind (on_row (read_rows rounds (d ∷ ds)) (d ∷ ds) rows)
            (subst
              (λ bytes.
                Dialog (on_bytes copyout_u8) (advanced c) bytes [] [] bytes (advanced c) (ok x))
              (sym e) (peek-Dialog (advanced c) x xs))
            (rw other (
              Dialog-bind _ (row-Dialog (advanced c) (d ∷ ds) cells vs r) (
                rows-Dialog (advanced c) rounds d ds rs (emplace_row (d ∷ ds) vs rows) w st
                  (omega arith) v hw hs (omega arith)))))
