-- ===== src/Database/Columns.antt =====
-- database/ql.go, and `Select`, `SelectAll` and `ScanAll` of database/sq.go: the columns that a
-- query selects, and the pointers that its rows are scanned into.
pub mod Laws
mod Order
pub mod All
pub mod Select
use core_go_nopgp.Base.{
  ℕ, Str, codes, str_eq, ltb, ◌==◌, not, Bool, true, false, List, [], ◌∷◌, ◌++◌, map, Option, none,
  some, if◌then◌else◌, any, ◌||◌, ◌&&◌,
}
use core_go_nopgp.Database.Fields.{
  FieldMap, ModelFields, build_cache, gql, all_fields, anonymous_fields,
}

-- s < t on Go strings.
unfoldable pub str_lt : Str → Str → Bool
str_lt [] [] = false
str_lt [] (b ∷ t) = true
str_lt (a ∷ s) [] = false
str_lt (a ∷ s) (b ∷ t) = ltb a b || ((a == b) && str_lt s t)

-- sort.Strings, and sort.Slice by a text. Go's sort is not stable; the order of elements with equal
-- texts is that of this sort.
module _ {A : Type 0} (key : A → Str) where
  unfoldable pub insert_by : A → List A → List A
  insert_by a [] = a ∷ []
  insert_by a (b ∷ l) = if str_lt (key b) (key a) then b ∷ insert_by a l else a ∷ b ∷ l

  unfoldable pub sort_by : List A → List A
  unfolding insert_by
  sort_by [] = []
  sort_by (a ∷ l) = insert_by a (sort_by l)

abbrev pub same_text : Str → Str
same_text s = s

-- A graphql.CollectedField: its name, and the names of the fields that are collected below it.
pub record CollectedField : Type 0 where
  pub name : Str
  pub selection : List Str

-- The first field that is called "results", if there is one.
abbrev results_of : List CollectedField → List Str → List Str
results_of [] names = names
results_of (f ∷ fields) names =
    if str_eq f.name (codes "results") then f.selection else results_of fields names

-- `collectFields`, by the names of the fields; without a field context there are none.
unfoldable pub collect_fields : Option (List CollectedField) → List Str
collect_fields none = []
collect_fields (some fields) = results_of fields (map (λ f. f.name) fields)

-- A `Model`.
pub record Model : Type 0 where
  pub alias : Str
  pub table : Str
  pub fields : ModelFields

-- `WithAlias`. The first argument, here and below, is pq.QuoteIdentifier.
unfoldable pub with_alias : (Str → Str) → Str → Str → Str
with_alias quote_identifier alias col =
    if not (str_eq alias (codes ""))
    then quote_identifier alias ++ (b'.' ∷ quote_identifier col)
    else quote_identifier col

-- The names that `Scan` and `Columns` go through, sorted: those that are collected, or all.
abbrev or_all : List Str → List FieldMap → List Str
or_all [] fields = map (λ f. f.gql) fields
or_all (name ∷ names) fields = name ∷ names

unfoldable pub query_names : Option (List CollectedField) → Model → List Str
unfolding collect_fields
query_names collected m =
    sort_by same_text (or_all (collect_fields collected) (all_fields m.fields))

-- `m.Fields().GQL(name)` for each name, where it is found.
abbrev found : Option (List FieldMap) → List FieldMap
found none = []
found (some fields) = fields

unfoldable pub fields_of : ModelFields → List Str → List FieldMap
fields_of mf [] = []
fields_of mf (name ∷ names) = found (gql name mf).0 ++ fields_of (gql name mf).1 names

abbrev is_dot : ℕ → Bool
is_dot c = c == b'.'

-- The column of a field that is asked for by name.
abbrev pub named_column : (Str → Str) → Model → FieldMap → Str
named_column quote m f = if not (any is_dot f.sql) then with_alias quote m.alias f.sql else f.sql

-- The column of a field without a name.
abbrev pub anonymous_column : (Str → Str) → Model → FieldMap → Str
anonymous_column quote m f =
    with_alias quote (if str_eq m.alias (codes "") then m.table else m.alias) f.sql

-- The loops append to a list that starts empty.
unfoldable pub append_ptrs : List FieldMap → List ℕ → List ℕ
append_ptrs [] out = out
append_ptrs (f ∷ fields) out = append_ptrs fields (out ++ f.ptr ∷ [])

unfoldable pub append_columns : (FieldMap → Str) → List FieldMap → List Str → List Str
append_columns column [] out = out
append_columns column (f ∷ fields) out = append_columns column fields (out ++ column f ∷ [])

abbrev after_names : ModelFields → List Str → ModelFields
after_names mf [] = mf
after_names mf (name ∷ names) = after_names (gql name mf).1 names

-- `Scan`
unfoldable pub scan : Option (List CollectedField) → Model → List ℕ
unfolding query_names fields_of append_ptrs
scan collected m =
    let names = query_names collected m in
    append_ptrs (anonymous_fields (after_names m.fields names)).0
      (append_ptrs (fields_of m.fields names) [])

-- `Columns`
unfoldable pub columns : (Str → Str) → Option (List CollectedField) → Model → List Str
unfolding query_names fields_of append_columns
columns quote collected m =
    let names = query_names collected m in
    append_columns (anonymous_column quote m) (anonymous_fields (after_names m.fields names)).0
      (append_columns (named_column quote m) (fields_of m.fields names) [])

-- The loop of `SelectAll` over the map by columns. Go goes through a map in any order; the sort
-- makes the columns the same for each.
unfoldable pub all_columns : (Str → Str) → Model → List (Str × List FieldMap) → List Str
all_columns quote m [] = []
all_columns quote m ((col, fields) ∷ rest) =
    map (λ f. with_alias quote m.alias col) fields ++ all_columns quote m rest

abbrev pub entries : Option (List (Str × List FieldMap)) → List (Str × List FieldMap)
entries none = []
entries (some l) = l

-- `SelectAll`
unfoldable pub select_all : (Str → Str) → Model → List Str
unfolding all_columns
select_all quote m =
    let mf = build_cache m.fields in sort_by same_text (all_columns quote m (entries mf.by_sql))

abbrev pub with_sql : List FieldMap → List ℕ
with_sql [] = []
with_sql (f ∷ fields) =
    let rest = with_sql fields in if not (str_eq f.sql (codes "")) then f.ptr ∷ rest else rest

-- `ScanAll`. The sort is in place: it leaves the fields of the model sorted.
unfoldable pub scan_all : Model → List ℕ × Model
scan_all m =
    let fms = sort_by (λ f. f.sql) (all_fields m.fields) in
    (with_sql fms, record m { fields = record m.fields { fields = fms } })
