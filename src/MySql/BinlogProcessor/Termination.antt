-- ===== src/MySql/BinlogProcessor/Termination.antt =====
-- The loop over the rows in `parse_rows_event` of src/Protocols/MySQL/BinlogProcessor.cc: it ends where
-- the table has a column, and does not where it has none.
use libevent_async.Prelude.{
  ℕ, zero, suc, ◌+◌, ◌-◌, ◌/◌, ◌≤◌, ◌<◌, ◌≡◌, inl, inr, ap, ◌∙◌, List, ◌∷◌, arith, length,
  length-drop, Bool, true, false, Bool-cases, ◌==◌,
}
use libevent_async.Prelude.Action.{Action, Result, ok, err, pending, pure, proceed, ◌>>=◌}
use libevent_async.Phosg.Reader.{StringReader}
use libevent_async.MySql.Types.{Value}
use libevent_async.MySql.ProtocolStringReader.{get_bitmask}
use libevent_async.MySql.BinlogProcessor.Cells.{ColumnInfo}
use libevent_async.MySql.BinlogProcessor.RowLaws.{read_changes-end, read_changes-more}
use libevent_async.MySql.BinlogProcessor.Rows.{
  WriteType, insert, update, delete, RowChange, check_row, read_row_data, here, measured_row,
  read_change, read_changes,
}
use libevent_async.MySql.BinlogProcessor.Steady.{
  Ends, left, Steady, Steady-pure, Steady-throw, Steady-if, Steady-bind, read-Steady,
  read_cells-Steady,
}

module _ ⦃R : StringReader⦄ where
  open R use {Reader, remaining, read}

  -- An action that takes a byte at least where there is one.
  pub record Strict {A : Type 0} (m : Action Reader A) : Type 0 where
    pub apply : (r : Reader) → 0 < left r → (left (m r).1 < left r) × Ends (m r).0

  proceed-Strict :
      {A B : Type 0} (f : A → Action Reader B) (n : ℕ) (p : Result A × Reader)
      → (left p.1 < n) × Ends p.0
      → ((a : A) → Steady (f a))
      → (left (proceed p f).1 < n) × Ends (proceed p f).0
  proceed-Strict f n (ok a, r) (h, e) k = let (h', e') = (k a).apply r in (omega arith, e')
  proceed-Strict f n (err e, r) (h, _) k = (h, tt)
  proceed-Strict f n (pending, r) (h, e) k = absurd e

  Strict-bind :
      {A B : Type 0} {m : Action Reader A} (f : A → Action Reader B)
      → Strict m
      → ((a : A) → Steady (f a))
      → Strict (m >>= f)
  unfolding ◌>>=◌
  Strict-bind {m} f h k = record { apply = λ r p. proceed-Strict f (left r) (m r) (h.apply r p) k }

  pub get_bitmask-Steady : (n : ℕ) → Steady (get_bitmask n)
  unfolding get_bitmask
  get_bitmask-Steady n =
      Steady-bind _ (read-Steady _) (λ bytes. Steady-if _ (Steady-throw _) (Steady-pure _))

  get_bitmask-Strict : (n : ℕ) → 0 < n → Strict (get_bitmask n)
  unfolding get_bitmask
  get_bitmask-Strict n p =
      Strict-bind _ some (λ bytes. Steady-if _ (Steady-throw _) (Steady-pure _))
    where
      some : Strict (read ((n + 7) / 8))
      some = record {
        apply = λ r q.
            let (r', e, c, z) = R.read_lem ((n + 7) / 8) r in
            rw e (omega (arith, ap length c, length-drop ((n + 7) / 8) (remaining r)), tt);
      }

  read_row_data-Strict :
      (columns : List ColumnInfo) → 0 < length columns → Strict (read_row_data columns)
  unfolding read_row_data check_row
  read_row_data-Strict columns p =
      Strict-bind _ (get_bitmask-Strict (length columns) p) (λ columns_null.
        Steady-bind _ (read_cells-Steady columns_null columns)
          (λ row. Steady-if (length row == length columns) (Steady-pure _) (Steady-throw _)))

  read_row_data-Steady : (columns : List ColumnInfo) → Steady (read_row_data columns)
  unfolding read_row_data check_row
  read_row_data-Steady columns =
      Steady-bind _ (get_bitmask-Steady (length columns)) (λ columns_null.
        Steady-bind _ (read_cells-Steady columns_null columns)
          (λ row. Steady-if (length row == length columns) (Steady-pure _) (Steady-throw _)))

  -- What `measured_row` does from the offset `start` on.
  abbrev measured_from : ℕ → List ColumnInfo → Action Reader (List Value × ℕ)
  measured_from start columns =
      read_row_data columns >>= λ row. here >>= λ end_offset. pure (row, end_offset - start)

  measure-Steady :
      (start : ℕ) (row : List Value)
      → Steady {A = List Value × ℕ} (here >>= λ end_offset. pure (row, end_offset - start))
  unfolding ◌>>=◌
  measure-Steady start row = record { apply = λ r. (omega arith, tt) }

  measured_row-Steady : (columns : List ColumnInfo) → Steady (measured_row columns)
  unfolding measured_row ◌>>=◌
  measured_row-Steady columns = record {
    apply = λ r.
        (Steady-bind {m = read_row_data columns}
            (λ row. here >>= λ end_offset. pure (row, end_offset - R.offset r))
            (read_row_data-Steady columns) (measure-Steady (R.offset r))).apply
          r;
  }

  measured_row-Strict :
      (columns : List ColumnInfo) → 0 < length columns → Strict (measured_row columns)
  unfolding measured_row ◌>>=◌
  measured_row-Strict columns p = record {
    apply = λ r q.
        (Strict-bind {m = read_row_data columns}
            (λ row. here >>= λ end_offset. pure (row, end_offset - R.offset r))
            (read_row_data-Strict columns p) (measure-Steady (R.offset r))).apply
          r q;
  }

  pub read_change-Strict :
      (w : WriteType) (preimage : Bool) (columns : List ColumnInfo)
      → 0 < length columns
      → Strict (read_change w preimage columns)
  unfolding read_change
  read_change-Strict insert preimage columns p =
      Strict-bind _ (measured_row-Strict columns p) (λ row. Steady-pure _)
  read_change-Strict update true columns p =
      Strict-bind _ (measured_row-Strict columns p)
        (λ pre. Steady-bind _ (measured_row-Steady columns) (λ post. Steady-pure _))
  read_change-Strict update false columns p =
      Strict-bind _ (measured_row-Strict columns p) (λ row. Steady-pure _)
  read_change-Strict delete preimage columns p =
      Strict-bind _ (measured_row-Strict columns p) (λ row. Steady-pure _)

  collect-Ends :
      (rounds : ℕ) (change : Action Reader RowChange) (n : ℕ) (p : Result RowChange × Reader)
      → (left p.1 < suc n) × Ends p.0
      → ((r : Reader) → left r ≤ n → Ends (read_changes rounds change r).0)
      → Ends (proceed p (λ rc. read_changes rounds change >>= λ rows. pure (rc ∷ rows))).0
  unfolding ◌>>=◌
  collect-Ends rounds change n (ok rc, r) (h, _) k =
      kept (read_changes rounds change r) (k r (omega arith))
    where
      kept :
          (p : Result (List RowChange) × Reader)
          → Ends p.0
          → Ends (proceed p (λ rows. pure (rc ∷ rows))).0
      kept (ok rows, r') e = tt
      kept (err x, r') e = tt
      kept (pending, r') e = e
  collect-Ends rounds change n (err e, r) (h, _) k = tt
  collect-Ends rounds change n (pending, r) (h, e) k = e

  pub read_changes-Ends :
      (rounds : ℕ) (change : Action Reader RowChange) (r : Reader)
      → Strict change
      → left r ≤ rounds
      → Ends (read_changes rounds change r).0
  unfolding ◌>>=◌
  read_changes-Ends zero change r h l =
      let none : (left r == 0) ≡ true = ground arith in
      rw (read_changes-end change 0 r (R.eof_lem r ∙ none)) tt
  read_changes-Ends (suc rounds) change r h l = elim (Bool-cases (left r == 0)) [
    | inl none ↦ rw (read_changes-end change (suc rounds) r (R.eof_lem r ∙ none)) tt
    | inr some ↦
        let (smaller, e) = h.apply r (ground arith) in
        rw (read_changes-more change rounds r (R.eof_lem r ∙ some)) (
          collect-Ends rounds change rounds (change r) (omega arith, e)
            (λ r' l'. read_changes-Ends rounds change r' h l'))
  ]

  -- An action that comes to an end on a string of `n` bytes at most.
  pub record EndsWithin {A : Type 0} (n : ℕ) (m : Action Reader A) : Type 0 where
    pub apply : (r : Reader) → left r ≤ n → Ends (m r).0

  proceed-Ends :
      {A B : Type 0} (f : A → Action Reader B) (n : ℕ) (p : Result A × Reader)
      → (left p.1 ≤ n) × Ends p.0
      → ((a : A) → EndsWithin n (f a))
      → Ends (proceed p f).0
  proceed-Ends f n (ok a, r) (h, e) k = (k a).apply r h
  proceed-Ends f n (err e, r) h k = tt
  proceed-Ends f n (pending, r) (h, e) k = e

  pub EndsWithin-bind :
      {A B : Type 0} (n : ℕ) {m : Action Reader A} (f : A → Action Reader B)
      → Steady m
      → ((a : A) → EndsWithin n (f a))
      → EndsWithin n (m >>= f)
  unfolding ◌>>=◌
  EndsWithin-bind n {m} f h k = record {
    apply = λ r l. let (smaller, e) = h.apply r in proceed-Ends f n (m r) (omega arith, e) k;
  }
