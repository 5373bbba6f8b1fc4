-- ===== src/MySql/BinlogProcessor/Steady.antt =====
-- The parts of `read_row_data` of src/Protocols/MySQL/BinlogProcessor.cc come to an end, on any bytes.
use libevent_async.Prelude.{
  ℕ, ◌+◌, ◌*◌, ◌≤◌, ap, List, [], ◌∷◌, arith, length, length-drop, Bool, true, false, not, ◌||◌,
  ltb, ◌==◌, if◌then◌else◌, dec_lt, bit_and, bit_xor,
}
use libevent_async.Prelude.Action.{
  Action, Result, Error, ok, err, pending, pure, throw, proceed, ◌>>=◌,
}
use libevent_async.Phosg.Reader.{StringReader}
use libevent_async.MySql.Types.{string}
use libevent_async.MySql.Types.ColumnType.{
  t_tinyint, t_smallint, t_int, t_float, t_double, t_null, t_timestamp, t_bigint, t_mediumint,
  t_year, t_varchar, t_timestamp2, t_datetime2, t_time2, t_enum, t_set,
}
use libevent_async.MySql.BinlogProcessor.Cells.{
  ColumnInfo, any_of, blob_types, string_types, size_of_char, read_datetime_fractional_part,
  read_uint, read_sized, read_blob, read_string_of, read_string, read_varchar, read_timestamp2,
  read_datetime2, read_time2, read_cell_data,
}
use libevent_async.MySql.BinlogProcessor.Rows.{read_cell, read_cells}

abbrev pub Ends : {A : Type 0} → Result A → Type 0
Ends (ok a) = Unit
Ends (err e) = Unit
Ends pending = ⊥

module _ ⦃R : StringReader⦄ where
  open R use {Reader, remaining, read, get_le, get_be}

  abbrev pub left : Reader → ℕ
  left r = length (remaining r)

  -- An action that comes to an end and puts nothing back.
  pub record Steady {A : Type 0} (m : Action Reader A) : Type 0 where
    pub apply : (r : Reader) → (left (m r).1 ≤ left r) × Ends (m r).0

  pub Steady-pure : {A : Type 0} (a : A) → Steady (pure a)
  Steady-pure a = record { apply = λ r. (omega arith, tt) }

  pub Steady-throw : {A : Type 0} (e : Error) → Steady {A = A} (throw e)
  Steady-throw e = record { apply = λ r. (omega arith, tt) }

  pub Steady-if :
      {A : Type 0} (b : Bool) {m n : Action Reader A}
      → Steady m
      → Steady n
      → Steady (if b then m else n)
  Steady-if true h k = h
  Steady-if false h k = k

  proceed-Steady :
      {A B : Type 0} (f : A → Action Reader B) (n : ℕ) (p : Result A × Reader)
      → (left p.1 ≤ n) × Ends p.0
      → ((a : A) → Steady (f a))
      → (left (proceed p f).1 ≤ n) × Ends (proceed p f).0
  proceed-Steady f n (ok a, r) (h, e) k = let (h', e') = (k a).apply r in (omega arith, e')
  proceed-Steady f n (err e, r) (h, _) k = (h, tt)
  proceed-Steady f n (pending, r) (h, e) k = absurd e

  pub Steady-bind :
      {A B : Type 0} {m : Action Reader A} (f : A → Action Reader B)
      → Steady m
      → ((a : A) → Steady (f a))
      → Steady (m >>= f)
  unfolding ◌>>=◌
  Steady-bind {m} f h k = record { apply = λ r. proceed-Steady f (left r) (m r) (h.apply r) k }

  pub read-Steady : (n : ℕ) → Steady (read n)
  read-Steady n = record {
    apply = λ r.
        let (r', e, c, z) = R.read_lem n r in
        rw e (omega (arith, ap length c, length-drop n (remaining r)), tt);
  }

  pub get_le-Steady : (n : ℕ) → Steady (get_le n)
  get_le-Steady n = record {
    apply = λ r. elim (dec_lt (left r) n) [
      | yes short ↦ rw (R.get_le_short n r short) (omega arith, tt)
      | no enough ↦
          let (r', e, c, z) = R.get_le_lem n r (omega arith) in
          rw e (omega (arith, ap length c, length-drop n (remaining r)), tt)
    ];
  }

  get_be-Steady : (n : ℕ) → Steady (get_be n)
  get_be-Steady n = record {
    apply = λ r. elim (dec_lt (left r) n) [
      | yes short ↦ rw (R.get_be_short n r short) (omega arith, tt)
      | no enough ↦
          let (r', e, c, z) = R.get_be_lem n r (omega arith) in
          rw e (omega (arith, ap length c, length-drop n (remaining r)), tt)
    ];
  }

  read_uint-Steady : (width : ℕ) → Steady (read_uint width)
  read_uint-Steady width = Steady-bind _ (get_le-Steady width) (λ v. Steady-pure _)

  read_sized-Steady : (width : ℕ) → Steady (read_sized width)
  read_sized-Steady width =
      Steady-bind _ (get_le-Steady width)
        (λ n. Steady-bind _ (read-Steady n) (λ bytes. Steady-pure _))

  fraction-Steady : (precision : ℕ) → Steady (read_datetime_fractional_part precision)
  unfolding read_datetime_fractional_part
  fraction-Steady precision = Steady-if (precision == 0) (Steady-pure 0) (
      Steady-if (precision == 1) one (
        Steady-if (precision == 2) one (
          Steady-if (precision == 3) two (
            Steady-if (precision == 4) two (
              Steady-if (precision == 5) (get_be-Steady 3)
                (Steady-if (precision == 6) (get_be-Steady 3) (Steady-throw _)))))))
    where
      one : Steady (get_le 1 >>= λ v. pure (v * 10000))
      one = Steady-bind _ (get_le-Steady 1) (λ v. Steady-pure _)

      two : Steady (get_be 2 >>= λ v. pure (v * 100))
      two = Steady-bind _ (get_be-Steady 2) (λ v. Steady-pure _)

  read_blob-Steady : (type_meta : List ℕ) → Steady (read_blob type_meta)
  unfolding read_blob
  read_blob-Steady [] = Steady-throw _
  read_blob-Steady (m ∷ []) = Steady-if (m == 1) (read_sized-Steady 1) (
      Steady-if (m == 2) (read_sized-Steady 2) (
        Steady-if (m == 3) (read_sized-Steady 3)
          (Steady-if (m == 4) (read_sized-Steady 4) (Steady-throw _))))
  read_blob-Steady (m ∷ n ∷ rest) = Steady-throw _

  read_string_of-Steady : (width : ℕ) → Steady (read_string_of width)
  read_string_of-Steady width =
      Steady-if (ltb 255 width) (read_sized-Steady 2) (read_sized-Steady 1)

  read_string-Steady : (type_meta : List ℕ) → Steady (read_string type_meta)
  unfolding read_string
  read_string-Steady [] = Steady-throw _
  read_string-Steady (subtype ∷ []) = Steady-throw _
  read_string-Steady (subtype ∷ m ∷ []) =
      Steady-if (subtype == t_set || subtype == t_enum)
        (Steady-bind _ (read-Steady (size_of_char m)) (λ bytes. Steady-pure (string bytes)))
        (read_string_of-Steady (bit_xor (bit_and (subtype * 16) 0x300) 0x300 + m))
  read_string-Steady (subtype ∷ m ∷ n ∷ rest) = Steady-throw _

  read_varchar-Steady : (type_meta : List ℕ) → Steady (read_varchar type_meta)
  unfolding read_varchar
  read_varchar-Steady [] = Steady-throw _
  read_varchar-Steady (m ∷ []) = Steady-throw _
  read_varchar-Steady (m ∷ n ∷ []) = read_string_of-Steady _
  read_varchar-Steady (m ∷ n ∷ k ∷ rest) = Steady-throw _

  read_timestamp2-Steady : (type_meta : List ℕ) → Steady (read_timestamp2 type_meta)
  unfolding read_timestamp2
  read_timestamp2-Steady [] = Steady-bind _ (get_le-Steady 4) (λ ret. Steady-throw _)
  read_timestamp2-Steady (m ∷ []) = Steady-bind _ (get_le-Steady 4) (λ ret.
      Steady-if (m == 0) (Steady-pure _)
        (Steady-bind _ (read-Steady _) (λ fractional_part. Steady-pure _)))
  read_timestamp2-Steady (m ∷ n ∷ rest) = Steady-bind _ (get_le-Steady 4) (λ ret. Steady-throw _)

  read_datetime2-Steady : (type_meta : List ℕ) → Steady (read_datetime2 type_meta)
  unfolding read_datetime2
  read_datetime2-Steady [] = Steady-throw _
  read_datetime2-Steady (precision ∷ []) = Steady-bind _ (get_be-Steady 4) (λ high.
      Steady-bind _ (get_le-Steady 1)
        (λ low. Steady-bind _ (fraction-Steady precision) (λ usecs. Steady-pure _)))
  read_datetime2-Steady (precision ∷ n ∷ rest) = Steady-throw _

  read_time2-Steady : (type_meta : List ℕ) → Steady (read_time2 type_meta)
  unfolding read_time2
  read_time2-Steady [] = Steady-throw _
  read_time2-Steady (precision ∷ []) =
      Steady-bind _ (get_be-Steady 3)
        (λ z. Steady-bind _ (fraction-Steady precision) (λ usecs. Steady-pure _))
  read_time2-Steady (precision ∷ n ∷ rest) = Steady-throw _

  read_cell_data-Steady : (ci : ColumnInfo) → Steady (read_cell_data ci)
  unfolding read_cell_data
  read_cell_data-Steady ci = Steady-if (ci.type == t_null) (Steady-pure _) (
      Steady-if (ci.type == t_tinyint) (read_uint-Steady 1) (
        Steady-if (ci.type == t_smallint) (read_uint-Steady 2) (
          Steady-if (ci.type == t_mediumint) (read_uint-Steady 3) (
            Steady-if (ci.type == t_int) (read_uint-Steady 4) (
              Steady-if (ci.type == t_bigint) (read_uint-Steady 8) (
                Steady-if (ci.type == t_float)
                  (Steady-bind _ (get_le-Steady 4) (λ v. Steady-pure _))
                  (Steady-if (ci.type == t_double)
                    (Steady-bind _ (get_le-Steady 8) (λ v. Steady-pure _))
                    (Steady-if (any_of ci.type blob_types) (read_blob-Steady ci.type_meta) (
                      Steady-if (ci.type == t_year) (read_uint-Steady 1) (
                        Steady-if (any_of ci.type string_types) (read_string-Steady ci.type_meta) (
                          Steady-if (ci.type == t_varchar) (read_varchar-Steady ci.type_meta) (
                            Steady-if (ci.type == t_timestamp)
                              (Steady-bind _ (get_le-Steady 4) (λ v. Steady-pure _))
                              (Steady-if (ci.type == t_timestamp2)
                                (read_timestamp2-Steady ci.type_meta)
                                (Steady-if (ci.type == t_datetime2)
                                  (read_datetime2-Steady ci.type_meta)
                                  (Steady-if (ci.type == t_time2) (read_time2-Steady ci.type_meta)
                                    (Steady-throw _))))))))))))))))

  read_cell-Steady : (is_null : Bool) (ci : ColumnInfo) → Steady (read_cell is_null ci)
  unfolding read_cell
  read_cell-Steady is_null ci =
      Steady-if is_null (Steady-if (not ci.nullable) (Steady-throw _) (Steady-pure _))
        (read_cell_data-Steady ci)

  pub read_cells-Steady :
      (columns_null : List Bool) (columns : List ColumnInfo)
      → Steady (read_cells columns_null columns)
  unfolding read_cells
  read_cells-Steady columns_null [] = Steady-pure []
  read_cells-Steady [] (ci ∷ columns) =
      Steady-bind _ (read_cell-Steady false ci)
        (λ cell. Steady-bind _ (read_cells-Steady [] columns) (λ row. Steady-pure _))
  read_cells-Steady (is_null ∷ columns_null) (ci ∷ columns) =
      Steady-bind _ (read_cell-Steady is_null ci)
        (λ cell. Steady-bind _ (read_cells-Steady columns_null columns) (λ row. Steady-pure _))
