-- ===== src/MySql/BinlogProcessor/TableMap.antt =====
-- `parse_table_map_event` of src/Protocols/MySQL/BinlogProcessor.cc reads what a server writes.
use libevent_async.Prelude.{
  ℕ, suc, ◌<◌, ◌^◌, ◌≡◌, inl, inr, refl, sym, ap, ◌∙◌, List, [], ◌∷◌, append-nil, arith, length,
  All, true, Bool-cases, subst, ◌==◌,
}
use libevent_async.Prelude.Action.{Action, ok, pure, proceed, ◌>>=◌}
use libevent_async.Prelude.Queue.{Reads-bind, Reads-bind_last, Reads-last, Reads-pure}
use libevent_async.Phosg.Reader.{StringReader, ReaderReads, read-Reads, get_le-Reads, skip-Reads}
use libevent_async.MySql.ProtocolStringReader.Readers.{
  get_varint-Reads, get_var_string-Reads, get_bitmask-Reads,
}
use libevent_async.MySql.BinlogProcessor.Cells.{ColumnInfo}
use libevent_async.MySql.BinlogProcessor.Rows.{BinlogTableInfo}
use libevent_async.MySql.BinlogProcessor.Events.{
  BinlogEventHeader, BinlogProcessor, set_table, metadata_bytes_for_column_type,
}
use libevent_async.MySql.BinlogProcessor.Parsers.{
  get_header, run, within, get_types, read_columns, at_eof, read_column_infos, read_name,
  read_table_info, table_map_fields, table_map_on, parse_table_map_event,
}
use libevent_async.MySql.BinlogProcessor.Encoding.{
  header_bytes, IsHeader, name_bytes, types_bytes, metas_bytes, types_of, nullables, HasMeta,
  metadata_lengths, is_listed, IsColumn, table_info_bytes, table_map_bytes, IsTable,
}

is_listed-elim :
    (P : ℕ → ℕ → Type 0) (type n : ℕ) (lengths : List (ℕ × ℕ))
    → All (λ x. P x.0 x.1) lengths
    → is_listed type n lengths ≡ true
    → P type n
is_listed-elim P type n [] h e = absurd (ground arith)
is_listed-elim P type n ((t, m) ∷ lengths) (h, hs) e = elim (Bool-cases (type == t)) [
  | inr other ↦ is_listed-elim P type n lengths hs (ground arith)
  | inl a ↦
      let same_type : t ≡ type = ground arith in
      elim (Bool-cases (n == m)) [
        | inr other ↦ is_listed-elim P type n lengths hs (ground arith)
        | inl b ↦
            let same_length : m ≡ n = ground arith in
            subst (λ x. P type x) same_length (subst (λ x. P x m) same_type h)
      ]
]

-- The source gives each type the length that the table has for it.
pub metadata_bytes_lem :
    {S : Type 0} (type n : ℕ)
    → HasMeta type n
    → metadata_bytes_for_column_type {S = S} type ≡ pure n
unfolding metadata_bytes_for_column_type
metadata_bytes_lem {S} type n h =
    is_listed-elim (λ t m. metadata_bytes_for_column_type {S = S} t ≡ pure m) type n
      metadata_lengths
      (
        refl,
        (
          refl,
          (
            refl,
            (
              refl,
              (
                refl,
                (
                  refl,
                  (
                    refl,
                    (
                      refl,
                      (
                        refl,
                        (
                          refl,
                          (
                            refl,
                            (
                              refl,
                              (
                                refl,
                                (
                                  refl,
                                  (
                                    refl,
                                    (
                                      refl,
                                      (
                                        refl,
                                        (
                                          refl,
                                          (
                                            refl,
                                            (
                                              refl,
                                              (
                                                refl,
                                                (
                                                  refl,
                                                  (
                                                    refl,
                                                    (
                                                      refl,
                                                      (
                                                        refl,
                                                        (
                                                          refl,
                                                          (
                                                            refl,
                                                            (refl, (refl, (refl, (refl, tt)))),
                                                          ),
                                                        ),
                                                      ),
                                                    ),
                                                  ),
                                                ),
                                              ),
                                            ),
                                          ),
                                        ),
                                      ),
                                    ),
                                  ),
                                ),
                              ),
                            ),
                          ),
                        ),
                      ),
                    ),
                  ),
                ),
              ),
            ),
          ),
        ),
      )
      h

module _ ⦃R : StringReader⦄ where
  open R use {Reader, remaining, size}

  -- A parser that reads the whole string.
  pub run-Reads :
      {A : Type 0} (m : Action Reader A) (bytes : List ℕ) (a : A)
      → ((total : ℕ) → ReaderReads total m bytes a)
      → run m bytes ≡ ok a
  run-Reads m bytes a h =
      let (r', e, u, c) =
        (h (size (R.new_reader bytes))).apply (R.new_reader bytes) [] refl
          (R.new_lem bytes ∙ sym (append-nil bytes)) in
      ap (λ p. p.0) e

  within-Reads :
      {A : Type 0} (total : ℕ) (m : Action Reader A) (bytes : List ℕ) (a : A)
      → run m bytes ≡ ok a
      → ReaderReads total (within m bytes) [] a
  within-Reads total m bytes a h = record { apply = λ r rest u e. (r, ap (λ x. (x, r)) h, u, e) }

  module _ (total : ℕ) where
    pub get_header-Reads :
        (h : BinlogEventHeader) → IsHeader h → ReaderReads total get_header (header_bytes h) h
    unfolding get_header
    get_header-Reads h k = Reads-bind _ (get_le-Reads total 4 h.timestamp k.timestamp) (
        Reads-bind _ (get_le-Reads total 1 h.type k.type) (
          Reads-bind _ (get_le-Reads total 4 h.server_id k.server_id) (
            Reads-bind _ (get_le-Reads total 4 h.length k.length) (
              Reads-bind _ (get_le-Reads total 4 h.end_position k.end_position)
                (Reads-last _ (get_le-Reads total 2 h.flags k.flags) refl)))))

    read_name-Reads :
        (name : List ℕ) → length name < 256 → ReaderReads total read_name (name_bytes name) name
    unfolding read_name
    read_name-Reads name h = Reads-bind _ (get_le-Reads total 1 (length name) (omega arith)) (
        Reads-bind _ (read-Reads total (length name) name refl)
          (Reads-last _ (skip-Reads total 1 (0 ∷ []) refl) refl))

    get_types-Reads :
        (cis : List ColumnInfo)
        → All IsColumn cis
        → ReaderReads total (get_types (length cis)) (types_bytes cis) (types_of cis)
    unfolding get_types types_bytes
    get_types-Reads [] h = Reads-pure []
    get_types-Reads (ci ∷ cis) ((t, m), h) =
        Reads-bind _ (get_le-Reads total 1 ci.type (omega arith))
          (Reads-last _ (get_types-Reads cis h) refl)

    metadata_bytes-Reads :
        (type n : ℕ) → HasMeta type n → ReaderReads total (metadata_bytes_for_column_type type) [] n
    metadata_bytes-Reads type n m = rw (metadata_bytes_lem {S = Reader} type n m) (Reads-pure n)

    read_columns-Reads :
        (cis : List ColumnInfo)
        → All IsColumn cis
        → ReaderReads total (read_columns (types_of cis) (nullables cis)) (metas_bytes cis) cis
    unfolding read_columns metas_bytes
    read_columns-Reads [] h = Reads-pure []
    read_columns-Reads (ci ∷ cis) ((t, m), h) =
        Reads-bind _ (metadata_bytes-Reads ci.type (length ci.type_meta) m) (
          Reads-bind _ (read-Reads total (length ci.type_meta) ci.type_meta refl)
            (Reads-last _ (read_columns-Reads cis h) refl))

    length-nullables : (cis : List ColumnInfo) → length (nullables cis) ≡ length cis
    length-nullables [] = refl
    length-nullables (ci ∷ cis) = ap suc (length-nullables cis)

  read_column_infos-run :
      (cis : List ColumnInfo)
      → All IsColumn cis
      → run (read_column_infos (types_of cis) (nullables cis)) (metas_bytes cis) ≡ ok cis
  unfolding read_column_infos ◌>>=◌
  read_column_infos-run cis h =
      let start = R.new_reader (metas_bytes cis) in
      let (r', e, u, c) =
        (read_columns-Reads (size start) cis h).apply start [] refl
          (R.new_lem (metas_bytes cis) ∙ sym (append-nil (metas_bytes cis))) in
      let done : R.eof r' ≡ true = R.eof_lem r' ∙ ap (λ (l : List ℕ). length l == 0) c in
      ap (λ p. (proceed p at_eof).0) e ∙ rw done refl

  module _ (total : ℕ) where
    read_table_info-Reads :
        (ti : BinlogTableInfo)
        → IsTable ti
        → ReaderReads total read_table_info (table_info_bytes ti) ti
    unfolding read_table_info
    read_table_info-Reads ti k =
        Reads-bind _ (read_name-Reads total ti.database_name k.database_name) (
          Reads-bind _ (read_name-Reads total ti.table_name k.table_name) (
            Reads-bind _ (get_varint-Reads total (length ti.columns) k.num_columns) (
              Reads-bind _ (get_types-Reads total ti.columns k.columns) (
                Reads-bind _ (get_var_string-Reads total (metas_bytes ti.columns) k.metas) (
                  Reads-bind_last _
                    (get_bitmask-Reads total (length ti.columns) (nullables ti.columns)
                      (length-nullables total ti.columns))
                    (Reads-bind_last _
                      (within-Reads total
                        (read_column_infos (types_of ti.columns) (nullables ti.columns))
                        (metas_bytes ti.columns) ti.columns
                        (read_column_infos-run ti.columns k.columns))
                      (Reads-pure ti)))))))

    table_map_on-Reads :
        (h : BinlogEventHeader) (table_id flags : ℕ) (ti : BinlogTableInfo)
        → IsHeader h
        → h.type ≡ 19
        → table_id < 256 ^ 6
        → flags < 256 ^ 2
        → IsTable ti
        → ReaderReads total table_map_on
            (table_map_bytes h table_id flags ti)
            (record { header = h; table_id = table_id; flags = flags }, ti)
    unfolding table_map_on table_map_fields
    table_map_on-Reads h table_id flags ti k t i f j =
        let test : (h.type == 19) ≡ true = ground arith in
        Reads-bind _ (get_header-Reads total h k) (
          rw test (
            Reads-bind _ (get_le-Reads total 6 table_id i) (
              Reads-bind _ (get_le-Reads total 2 flags f)
                (Reads-last _ (read_table_info-Reads ti j) refl))))

  pub parse_table_map_event_set :
      (h : BinlogEventHeader) (table_id flags : ℕ) (ti : BinlogTableInfo) (p : BinlogProcessor)
      → IsHeader h
      → h.type ≡ 19
      → table_id < 256 ^ 6
      → flags < 256 ^ 2
      → IsTable ti
      → parse_table_map_event (table_map_bytes h table_id flags ti) p ≡ (
        ok (record { header = h; table_id = table_id; flags = flags }),
        record p { table_map = set_table table_id ti p.table_map; position = h.end_position },
      )
  unfolding parse_table_map_event
  parse_table_map_event_set h table_id flags ti p k t i f j =
      rw
        (run-Reads table_map_on (table_map_bytes h table_id flags ti)
          (record { header = h; table_id = table_id; flags = flags }, ti)
          (λ total. table_map_on-Reads total h table_id flags ti k t i f j))
        refl
