-- ===== src/MySql/BinlogProcessor/RowLaws.antt =====
-- The rows that `parse_rows_event` of src/Protocols/MySQL/BinlogProcessor.cc reads.
use libevent_async.Prelude.{
  ℕ, zero, suc, ◌+◌, ◌-◌, ◌/◌, ◌≤◌, ◌<◌, ◌≡◌, refl, sym, ap, ◌∙◌, List, [], ◌∷◌, ◌++◌, map, arith,
  length, length-append, All, true, false, ◌==◌,
}
use libevent_async.Prelude.Bytes.{le_bytes, length-le_bytes}
use libevent_async.Prelude.Action.{Action, ok, pure, proceed, ◌>>=◌}
use libevent_async.Prelude.Queue.{
  Reads-bind, Reads-last, Reads-pure, ReadsAll, ReadsAll-bind, ReadsAll-last,
}
use libevent_async.Phosg.Reader.{StringReader, OfSize, ReaderReads}
use libevent_async.MySql.Types.{Value}
use libevent_async.MySql.ProtocolStringReader.Readers.{get_bitmask-Reads}
use libevent_async.MySql.ProtocolStringReader.Bitmask.{bitmask_bytes, of_bits}
use libevent_async.MySql.BinlogProcessor.CellLaws.{read_cell_data-Reads}
use libevent_async.MySql.BinlogProcessor.Rows.{
  RowChange, read_cell, read_cells, check_row, read_row_data, here, measured_row, read_changes,
}
use libevent_async.MySql.BinlogProcessor.Encoding.{
  Field, filled, missing, field_column, is_missing, field_value, field_bytes, IsField, fields_bytes,
  row_bytes,
}

pub length-map {ℓ κ} :
    {A : Type ℓ} {B : Type κ} (f : A → B) (xs : List A) → length (map f xs) ≡ length xs
length-map f [] = refl
length-map f (x ∷ xs) = ap suc (length-map f xs)

pub row-pos : (f : Field) (fs : List Field) → 0 < length (row_bytes (f ∷ fs))
unfolding bitmask_bytes
row-pos f fs =
    let n = length (map is_missing (f ∷ fs)) in
    omega (
      arith,
      length-append (le_bytes ((n + 7) / 8) (of_bits (map is_missing (f ∷ fs))))
          (fields_bytes (f ∷ fs)),
      length-le_bytes ((n + 7) / 8) (of_bits (map is_missing (f ∷ fs))),
    )

abbrev pub joined : List (List ℕ × RowChange) → List ℕ
joined [] = []
joined (x ∷ xs) = x.0 ++ joined xs

module _ ⦃R : StringReader⦄ where
  open R use {Reader}

  pub read_changes-end :
      (change : Action Reader RowChange) (rounds : ℕ) (r : Reader)
      → R.eof r ≡ true
      → read_changes rounds change r ≡ (ok [], r)
  unfolding read_changes
  read_changes-end change zero r e = rw (e, read_changes) refl
  read_changes-end change (suc rounds) r e = rw (e, read_changes) refl

  pub read_changes-more :
      (change : Action Reader RowChange) (rounds : ℕ) (r : Reader)
      → R.eof r ≡ false
      → read_changes (suc rounds) change r
        ≡ (change >>= λ rc. read_changes rounds change >>= λ rows. pure (rc ∷ rows)) r
  unfolding read_changes
  read_changes-more change rounds r e = rw (e, read_changes) refl

module _ ⦃R : StringReader⦄ (total : ℕ) where
  open R use {Reader, remaining, offset, size}

  read_cell-Reads :
      (f : Field)
      → IsField f
      → ReaderReads total
          (read_cell (is_missing f) (field_column f))
          (field_bytes f)
          (field_value f)
  unfolding read_cell
  read_cell-Reads (filled nullable c) h = read_cell_data-Reads total c nullable h
  read_cell-Reads (missing ci) h = rw h (Reads-pure _)

  read_cells-Reads :
      (fs : List Field)
      → All IsField fs
      → ReaderReads total
          (read_cells (map is_missing fs) (map field_column fs))
          (fields_bytes fs)
          (map field_value fs)
  unfolding read_cells fields_bytes
  read_cells-Reads [] h = Reads-pure []
  read_cells-Reads (f ∷ fs) (h, hs) =
      Reads-bind _ (read_cell-Reads f h) (Reads-last _ (read_cells-Reads fs hs) refl)

  check_row-pure : (n : ℕ) (row : List Value) → length row ≡ n → check_row n row ≡ pure row
  unfolding check_row
  check_row-pure n row h = ground arith

  read_row_data-Reads :
      (fs : List Field)
      → All IsField fs
      → ReaderReads total (read_row_data (map field_column fs)) (row_bytes fs) (map field_value fs)
  unfolding read_row_data
  read_row_data-Reads fs h =
      Reads-bind _
        (get_bitmask-Reads total (length (map field_column fs)) (map is_missing fs)
          (length-map is_missing fs ∙ sym (length-map field_column fs)))
        (Reads-last _ (read_cells-Reads fs h)
          (check_row-pure _ _ (length-map field_value fs ∙ sym (length-map field_column fs))))

  -- The offsets before and after differ by what was taken.
  taken_bytes :
      (s s1 : Reader) (bytes rest : List ℕ)
      → size s ≡ total
      → size s1 ≡ total
      → remaining s ≡ bytes ++ rest
      → remaining s1 ≡ rest
      → offset s1 - offset s ≡ length bytes
  taken_bytes s s1 bytes rest u u1 e c =
      omega (arith, R.size_lem s, R.size_lem s1, ap length e, ap length c, length-append bytes rest)

  pub measured_row-Reads :
      (fs : List Field)
      → All IsField fs
      → ReaderReads total
          (measured_row (map field_column fs))
          (row_bytes fs)
          (map field_value fs, length (row_bytes fs))
  unfolding measured_row ◌>>=◌
  measured_row-Reads fs h = record {
    apply = λ s rest u e.
        let (s1, e1, u1, c1) = (read_row_data-Reads fs h).apply s rest u e in
        (
          s1,
          ap (λ p. proceed p (λ row. here >>= λ end_offset. pure (row, end_offset - offset s))) e1
              ∙ ap (λ (n : ℕ). (ok (map field_value fs, n), s1))
                  (taken_bytes s s1 (row_bytes fs) rest u u1 e c1),
          u1,
          c1,
        );
  }

  -- Changes one after the other, to the end of the string. Each takes a byte at least.
  pub read_changes-ReadsAll :
      (change : Action Reader RowChange) (rounds : ℕ) (pieces : List (List ℕ × RowChange))
      → All (λ x. ReaderReads total change x.0 x.1 × (0 < length x.0)) pieces
      → length pieces ≤ rounds
      → ReadsAll remaining
          (OfSize total)
          (read_changes rounds change)
          (joined pieces)
          (map (λ x. x.1) pieces)
  read_changes-ReadsAll change rounds [] h l = record {
    apply = λ s u e.
        let done : R.eof s ≡ true = R.eof_lem s ∙ ap (λ (k : List ℕ). length k == 0) e in
        (s, read_changes-end change rounds s done, u, e);
  }
  read_changes-ReadsAll change zero (x ∷ xs) h l = absurd (omega arith)
  read_changes-ReadsAll change (suc rounds) (x ∷ xs) ((r, p), h) l = record {
    apply = λ s u e.
        let all : ReadsAll remaining (OfSize total) _ (x.0 ++ joined xs) (x.1 ∷ map (λ y. y.1) xs) =
          ReadsAll-bind (λ rc. read_changes rounds change >>= λ rows. pure (rc ∷ rows)) r
            (ReadsAll-last (λ rows. pure (x.1 ∷ rows))
              (read_changes-ReadsAll change rounds xs h (omega arith)) refl) in
        let (s', e', u', c') = all.apply s u e in
        let some : length (remaining s) ≡ length x.0 + length (joined xs) =
          ap length e ∙ length-append x.0 (joined xs) in
        let more : (length (remaining s) == 0) ≡ false = ground arith in
        (s', read_changes-more change rounds s (R.eof_lem s ∙ more) ∙ e', u', c');
  }
