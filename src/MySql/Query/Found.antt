-- ===== src/MySql/Query/Found.antt =====
-- What a caller finds in the rows of a result: lists of values, or maps from the columns' names.
use libevent_async.Prelude.{
  ℕ, ◌≡◌, sym, ap, ◌∙◌, List, [], ◌∷◌, ◌++◌, map, append-nil, append_assoc, Option, none, some,
  Bool, true, false, if◌then◌else◌,
}
use libevent_async.Prelude.Bytes.{same_bytes}
use libevent_async.Prelude.Maps.{emplace, find, or_else, or_else-none, or_else-first, find-emplace}
use libevent_async.MySql.Types.{Value}
use libevent_async.MySql.Query.Cells.{ColumnDefinition, Rows, vecs, dicts, dict, no_rows}
use libevent_async.MySql.Query.Reading.{Row, emplaced}

abbrev Dict : Type 0
Dict = List (List ℕ × Value)

-- The value in the first column of the name.
abbrev pub first_of : List ℕ → List ColumnDefinition → List Value → Option Value
first_of name [] vs = none
first_of name (d ∷ ds) [] = none
first_of name (d ∷ ds) (v ∷ vs) =
    let rest = first_of name ds vs in if same_bytes d.column_name name then some v else rest

-- One map for each row, in order.
abbrev pub AreDicts : List ColumnDefinition → List Row → List Dict → Type 0
AreDicts ds [] [] = Unit
AreDicts ds ((cells, vs) ∷ rs) (m ∷ ms) =
    ((name : List ℕ) → find name m ≡ first_of name ds vs) × AreDicts ds rs ms
AreDicts ds _ _ = ⊥

-- The rows' values as lists, or as maps.
abbrev pub AreRows : Bool → List ColumnDefinition → List Row → Rows → Type 0
AreRows false ds rs rows = rows ≡ vecs (map (λ r. r.1) rs)
AreRows true ds rs rows = (ms : List Dict) × (rows ≡ dicts ms) × AreDicts ds rs ms

find-dict :
    (name : List ℕ) (ds : List ColumnDefinition) (vs : List Value) (row : Dict)
    → find name (dict ds vs row) ≡ or_else (find name row) (first_of name ds vs)
find-dict name [] vs row = sym (or_else-none (find name row))
find-dict name (d ∷ ds) [] row = sym (or_else-none (find name row))
find-dict name (d ∷ ds) (v ∷ vs) row =
    find-dict name ds vs (emplace d.column_name v row)
    ∙ ap (λ o. or_else o (first_of name ds vs)) (find-emplace d.column_name name v row)
    ∙ or_else-first (find name row) (same_bytes d.column_name name) v (first_of name ds vs)

emplaced-vecs :
    (ds : List ColumnDefinition) (rs : List Row) (rows : List (List Value))
    → emplaced ds rs (vecs rows) ≡ vecs (rows ++ map (λ r. r.1) rs)
emplaced-vecs ds [] rows = ap vecs (sym (append-nil rows))
emplaced-vecs ds ((cells, vs) ∷ rs) rows =
    emplaced-vecs ds rs (rows ++ vs ∷ [])
    ∙ ap vecs (append_assoc rows (vs ∷ []) (map (λ r. r.1) rs))

emplaced-dicts :
    (ds : List ColumnDefinition) (rs : List Row) (rows : List Dict)
    → emplaced ds rs (dicts rows) ≡ dicts (rows ++ map (λ r. dict ds r.1 []) rs)
emplaced-dicts ds [] rows = ap dicts (sym (append-nil rows))
emplaced-dicts ds ((cells, vs) ∷ rs) rows =
    emplaced-dicts ds rs (rows ++ dict ds vs [] ∷ [])
    ∙ ap dicts (append_assoc rows (dict ds vs [] ∷ []) (map (λ r. dict ds r.1 []) rs))

dicts-AreDicts :
    (ds : List ColumnDefinition) (rs : List Row) → AreDicts ds rs (map (λ r. dict ds r.1 []) rs)
dicts-AreDicts ds [] = tt
dicts-AreDicts ds ((cells, vs) ∷ rs) = (λ name. find-dict name ds vs [], dicts-AreDicts ds rs)

pub emplaced-AreRows :
    (rows_as_dicts : Bool) (ds : List ColumnDefinition) (rs : List Row)
    → AreRows rows_as_dicts ds rs (emplaced ds rs (no_rows rows_as_dicts))
emplaced-AreRows false ds rs = emplaced-vecs ds rs []
emplaced-AreRows true ds rs =
    (map (λ r. dict ds r.1 []) rs, emplaced-dicts ds rs [], dicts-AreDicts ds rs)
