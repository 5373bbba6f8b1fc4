-- ===== src/MySql/Query/Packets.antt =====
-- The packets that a server answers a query with, and what `query_multi` makes of the parts of one.
use libevent_async.Prelude.{
  ℕ, ◌<◌, ◌^◌, ◌%◌, ◌≡◌, ◌≢◌, refl, sym, ap, subst, List, [], ◌∷◌, ◌++◌, append-nil, Option, none,
  some, arith, length, true, false, leb, ◌==◌, inl, inr, Bool-cases,
}
use libevent_async.Prelude.Bytes.{le_bytes, of_le}
use libevent_async.Prelude.Action.{ok, ◌>>=◌}
use libevent_async.Libevent.{EvBuffer, Network}
use libevent_async.Buffer.{copyout_u8, copyout_le, remove_le}
use libevent_async.Buffer.Contract.{copyout_lem, remove_le-Reads}
use libevent_async.Buffer.Awaiters.{on_buf}
use libevent_async.MySql.ProtocolBuffer.{remove_var_string}
use libevent_async.MySql.ProtocolBuffer.Writers.{varint_bytes}
use libevent_async.MySql.ProtocolBuffer.Readers.{remove_varint-Reads, remove_var_string-Reads}
use libevent_async.MySql.Types.{Value, null}
use libevent_async.MySql.Client.{Client, on_bytes}
use libevent_async.MySql.Client.Dialog.{
  Dialog, Dialog-conn, Dialog-reads, Dialog-reads_all, Dialog-pure, Dialog-last,
}
use libevent_async.MySql.Query.{read_column, read_cell, read_row, on_cell}
use libevent_async.MySql.Query.Values.{IsValue, parse_value_lem}
use libevent_async.MySql.Query.Cells.{ColumnDefinition, Floats}

abbrev pub text : List ℕ → List ℕ
text str = varint_bytes (length str) ++ str

abbrev pub column_bytes : ColumnDefinition → List ℕ
column_bytes d =
    text d.catalog_name
    ++ (text d.database_name
        ++ (text d.table_name
            ++ (text d.original_table_name
                ++ (text d.column_name
                    ++ (text d.original_column_name
                        ++ (varint_bytes 0x0C
                            ++ (le_bytes 2 d.charset
                                ++ (le_bytes 4 d.max_value_length
                                    ++ (le_bytes 1 d.column_type
                                        ++ (le_bytes 2 d.flags
                                            ++ (le_bytes 1 d.decimals ++ le_bytes 2 0)))))))))))

pub record IsColumn (d : ColumnDefinition) : Type 0 where
  pub catalog_name : length d.catalog_name < 2 ^ 31
  pub database_name : length d.database_name < 2 ^ 31
  pub table_name : length d.table_name < 2 ^ 31
  pub original_table_name : length d.original_table_name < 2 ^ 31
  pub column_name : length d.column_name < 2 ^ 31
  pub original_column_name : length d.original_column_name < 2 ^ 31
  pub charset : d.charset < 2 ^ 16
  pub max_value_length : d.max_value_length < 2 ^ 32
  pub column_type : d.column_type < 2 ^ 8
  pub flags : d.flags < 2 ^ 16
  pub decimals : d.decimals < 2 ^ 8

-- A cell is NULL or a text.
abbrev pub cell_bytes : Option (List ℕ) → List ℕ
cell_bytes none = 0xFB ∷ []
cell_bytes (some value) = text value

abbrev pub row_bytes : List (Option (List ℕ)) → List ℕ
row_bytes [] = []
row_bytes (cell ∷ cells) = cell_bytes cell ++ row_bytes cells

module _ ⦃F : Floats⦄ where
  abbrev pub IsCell : ColumnDefinition → Option (List ℕ) → Value → Type 0
  IsCell d none v = v ≡ null
  IsCell d (some value) v = (length value < 2 ^ 24) × IsValue d.column_type value v

  -- The values are those of the cells, one for each column.
  abbrev pub IsRow : List ColumnDefinition → List (Option (List ℕ)) → List Value → Type 0
  IsRow [] [] [] = Unit {0}
  IsRow (d ∷ ds) (cell ∷ cells) (v ∷ vs) = IsCell d cell v × IsRow ds cells vs
  IsRow _ _ _ = ⊥

-- The first byte of a length tells it from NULL and from the packets EOF and ERR.
abbrev pub Lead : ℕ → List ℕ → Type 0
Lead n bytes =
    (x : ℕ) × (xs : List ℕ) × (bytes ≡ x ∷ xs)
    × (x ≢ 0xFB)
    × (x ≢ 0xFE)
    × (x ≢ 0xFF)
    × (0 < n → x ≢ 0)

pub varint-Lead : (n : ℕ) → n < 2 ^ 24 → Lead n (varint_bytes n)
unfolding varint_bytes le_bytes
varint-Lead n h = elim (Bool-cases (leb n 0xFA)) [
  | inl a ↦ rw a (n % 256, [], refl, ground arith, ground arith, ground arith, λ p. ground arith)
  | inr a ↦ elim (Bool-cases (leb n 0xFFFF)) [
    | inl b ↦ rw (a, b) (0xFC, _, refl, omega arith, omega arith, omega arith, λ p. omega arith)
    | inr b ↦
        let c : leb n 0xFFFFFF ≡ true = ground arith in
        rw (a, b, c) (0xFD, _, refl, omega arith, omega arith, omega arith, λ p. omega arith)
  ]
]

module _ ⦃E : EvBuffer⦄ ⦃N : Network⦄ where
  -- A look at the first byte.
  pub peek-Dialog :
      (c : Client) (x : ℕ) (xs : List ℕ)
      → Dialog (on_bytes copyout_u8) c (x ∷ xs) [] [] (x ∷ xs) c (ok x)
  unfolding on_bytes on_buf copyout_le ◌>>=◌ of_le
  peek-Dialog c x xs = Dialog-conn c (record {
    apply = λ b s rest u g h i. (
      b,
      s,
      rw (copyout_lem 1 (x ∷ []) xs b u h refl) (ap (λ (n : ℕ). (ok n, (b, s))) (omega arith)),
      u,
      g,
      h,
      i,
      sym (append-nil (N.sent s)),
    );
  })

  pub text-Dialog :
      (c : Client) (str more : List ℕ)
      → length str < 2 ^ 31
      → Dialog (on_bytes remove_var_string) c (text str ++ more) [] [] more c (ok str)
  text-Dialog c str more h = Dialog-reads _ c more (remove_var_string-Reads str h)

  pub number-Dialog :
      (c : Client) (n v : ℕ) (more : List ℕ)
      → v < 256 ^ n
      → Dialog (on_bytes (remove_le n)) c (le_bytes n v ++ more) [] [] more c (ok v)
  number-Dialog c n v more h = Dialog-reads _ c more (remove_le-Reads n v h)

  pub column-Dialog :
      (c : Client) (d : ColumnDefinition)
      → IsColumn d
      → Dialog read_column c (column_bytes d) [] [] [] c (ok d)
  unfolding read_column
  column-Dialog c d v = Dialog-last _ (text-Dialog c d.catalog_name _ v.catalog_name) (
      Dialog-last _ (text-Dialog c d.database_name _ v.database_name) (
        Dialog-last _ (text-Dialog c d.table_name _ v.table_name) (
          Dialog-last _ (text-Dialog c d.original_table_name _ v.original_table_name) (
            Dialog-last _ (text-Dialog c d.column_name _ v.column_name) (
              Dialog-last _ (text-Dialog c d.original_column_name _ v.original_column_name) (
                Dialog-last _ (Dialog-reads _ c _ (remove_varint-Reads 0x0C (omega arith))) (
                  Dialog-last _ (Dialog-pure tt c _) (
                    Dialog-last _ (number-Dialog c 2 d.charset _ v.charset) (
                      Dialog-last _ (number-Dialog c 4 d.max_value_length _ v.max_value_length) (
                        Dialog-last _ (number-Dialog c 1 d.column_type _ v.column_type) (
                          Dialog-last _ (number-Dialog c 2 d.flags _ v.flags) (
                            Dialog-last _ (number-Dialog c 1 d.decimals _ v.decimals) (
                              Dialog-last _
                                (Dialog-reads_all _ c (remove_le-Reads 2 0 (omega arith)))
                                (Dialog-pure d c []))))))))))))))

  module _ ⦃F : Floats⦄ where
    cell-Dialog :
        (c : Client) (d : ColumnDefinition) (cell : Option (List ℕ)) (v : Value) (more : List ℕ)
        → IsCell d cell v
        → Dialog (read_cell d.column_type) c (cell_bytes cell ++ more) [] [] more c (ok v)
    unfolding read_cell le_bytes
    cell-Dialog c d none v more e = rw e (
        Dialog-last (on_cell d.column_type) (peek-Dialog c 0xFB more)
          (Dialog-last _ (number-Dialog c 1 0xFB more (omega arith)) (Dialog-pure null c more)))
    cell-Dialog c d (some value) v more (h, e) =
        let (x, xs, lead, not_null, _, _, _) = varint-Lead (length value) h in
        let parsed = parse_value_lem d.column_type value v e in
        let other : (x == 0xFB) ≡ false = ground arith in
        Dialog-last (on_cell d.column_type)
          (subst
            (λ bytes.
              Dialog (on_bytes copyout_u8) c ((bytes ++ value) ++ more) [] []
                ((bytes ++ value) ++ more) c (ok x))
            (sym lead) (peek-Dialog c x ((xs ++ value) ++ more)))
          (rw other (
            Dialog-last _ (text-Dialog c value more (omega arith))
              (rw parsed (Dialog-pure v c more))))

    pub row-Dialog :
        (c : Client) (ds : List ColumnDefinition) (cells : List (Option (List ℕ))) (vs : List Value)
        → IsRow ds cells vs
        → Dialog (read_row ds) c (row_bytes cells) [] [] [] c (ok vs)
    unfolding read_row
    row-Dialog c [] [] [] r = Dialog-pure [] c []
    row-Dialog c [] [] (v ∷ vs) r = absurd r
    row-Dialog c [] (x ∷ xs) vs r = absurd r
    row-Dialog c (d ∷ ds) [] vs r = absurd r
    row-Dialog c (d ∷ ds) (x ∷ xs) [] r = absurd r
    row-Dialog c (d ∷ ds) (cell ∷ cells) (v ∷ vs) (r, rs) =
        Dialog-last _ (cell-Dialog c d cell v (row_bytes cells) r)
          (Dialog-last _ (row-Dialog c ds cells vs rs) (Dialog-pure (v ∷ vs) c []))
