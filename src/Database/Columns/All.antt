-- ===== src/Database/Columns/All.antt =====
-- `SelectAll` and `ScanAll`: the columns and the pointers of all the fields of a model.
use mathlib.Core.List.{append_assoc, map-append}
use core_go_nopgp.Base.{
  str_eq_ne, lookup, ◌<◌, Str, codes, str_eq, str_eq_iff, Map, insert, false, List, [], ◌∷◌, ◌++◌,
  map, if◌then◌else◌, ◌≡◌, ◌≢◌, refl, sym, ap, ◌∙◌, All, Bool-cases, inl, inr,
}
use core_go_nopgp.Database.Fields.{
  FieldMap, Cache, fresh, fields_at, or_nil, append_at, add_field, add_fields, build_cache,
}
use core_go_nopgp.Database.Fields.Build.{add_field-sql_map, add_fields-nil, add_fields-cons}
use core_go_nopgp.Database.Columns.{
  Model, str_lt, insert_by, sort_by, with_alias, all_columns, select_all, scan_all, with_sql,
}
use core_go_nopgp.Database.Columns.Order.{
  insert_text, insert_text_comm, sort_texts, sort_texts-insert_text, sort_texts-append,
  sort_texts-cons, str_lt-append, str_lt-closed, quote_mark,
}

append_at-nil : (k : Str) (f : FieldMap) → append_at k f [] ≡ (k, f ∷ []) ∷ []
unfolding append_at fields_at lookup insert
append_at-nil k f = refl

lookup-cons_ne :
    (k j : Str) (w : List FieldMap) (table : Map (List FieldMap))
    → str_eq j k ≡ false
    → lookup k ((j, w) ∷ table) ≡ lookup k table
unfolding lookup
lookup-cons_ne k j w table other = rw other

append_at-cons :
    (k j : Str) (f : FieldMap) (w : List FieldMap) (table : Map (List FieldMap))
    → append_at k f ((j, w) ∷ table)
      ≡ (if str_eq j k then (k, w ++ f ∷ []) ∷ table else (j, w) ∷ append_at k f table)
unfolding append_at fields_at lookup insert
append_at-cons k j f w table = elim (Bool-cases (str_eq j k)) [
  | inl same ↦ rw same
  | inr other ↦
      rw other
        (ap (λ o. (j, w) ∷ insert k (or_nil o ++ f ∷ []) table) (lookup-cons_ne k j w table other))
]

module _ (quote : Str → Str) (m : Model) where
  abbrev pub column : FieldMap → Str
  column f = with_alias quote m.alias f.sql

  all_columns-cons :
      (col : Str) (fields : List FieldMap) (table : Map (List FieldMap))
      → all_columns quote m ((col, fields) ∷ table)
        ≡ map (λ f. with_alias quote m.alias col) fields ++ all_columns quote m table
  unfolding all_columns
  all_columns-cons col fields table = refl

  -- A field that is added to the map adds its column to the columns.
  all_columns-append_at :
      (f : FieldMap) (table : Map (List FieldMap))
      → sort_texts (all_columns quote m (append_at f.sql f table))
        ≡ insert_text (column f) (sort_texts (all_columns quote m table))
  all_columns-append_at f [] =
      rw append_at-nil (unfold all_columns in sort_texts-cons (column f) [])
  all_columns-append_at f ((col, fields) ∷ table) = elim (Bool-cases (str_eq col f.sql)) [
    | inr other ↦
        rw (append_at-cons, other, all_columns-cons, all_columns-cons)
          (sort_texts-append (map (λ g. with_alias quote m.alias col) fields) _ _ (column f)
            (all_columns-append_at f table))
    | inl same ↦
        let at = (str_eq_iff col f.sql).0 same in
        rw
          (append_at-cons, same, all_columns-cons, all_columns-cons, ← at, map-append, append_assoc)
          (sort_texts-insert_text (map (λ g. with_alias quote m.alias col) fields)
            (all_columns quote m table) (with_alias quote m.alias col))
  ]

  insert_all : List FieldMap → List Str → List Str
  insert_all [] l = l
  insert_all (f ∷ fields) l = insert_text (column f) (insert_all fields l)

  insert_all-insert_text :
      (fields : List FieldMap) (a : Str) (l : List Str)
      → insert_all fields (insert_text a l) ≡ insert_text a (insert_all fields l)
  unfolding insert_all
  insert_all-insert_text [] a l = refl
  insert_all-insert_text (f ∷ fields) a l =
      ap (insert_text (column f)) (insert_all-insert_text fields a l)
      ∙ insert_text_comm (column f) a (insert_all fields l)

  all_columns-add_fields :
      (fields : List FieldMap) (c : Cache)
      → sort_texts (all_columns quote m (add_fields fields c).sql_map)
        ≡ insert_all fields (sort_texts (all_columns quote m c.sql_map))
  unfolding insert_all
  all_columns-add_fields [] c = rw add_fields-nil
  all_columns-add_fields (f ∷ fields) c =
      rw add_fields-cons (all_columns-add_fields fields (add_field f c))
      ∙ ap (λ t. insert_all fields (sort_texts (all_columns quote m t))) (add_field-sql_map f c)
      ∙ ap (insert_all fields) (all_columns-append_at f c.sql_map)
      ∙ insert_all-insert_text fields (column f) _

  insert_all-nil : (fields : List FieldMap) → insert_all fields [] ≡ sort_texts (map column fields)
  unfolding insert_all
  insert_all-nil [] = unfold sort_texts sort_by in refl
  insert_all-nil (f ∷ fields) =
      ap (insert_text (column f)) (insert_all-nil fields)
      ∙ sym (sort_texts-cons (column f) (map column fields))

  -- Of a model that was declared and not yet used, `SelectAll` selects the column of each field,
  -- sorted, in whatever order Go goes through the map.
  pub select_all_lem :
      (fields : List FieldMap)
      → m.fields ≡ fresh fields
      → select_all quote m ≡ sort_texts (map column fields)
  unfolding select_all sort_texts build_cache insert_all sort_by
  select_all_lem fields declared = simp declared (
      all_columns-add_fields fields (record { gql_map = []; sql_map = []; anonymous = [] })
      ∙ insert_all-nil fields)

-- A column whose name is not empty and holds no byte up to the quotation mark, as all letters,
-- digits, underscores and dots are above it.
pub record IsPlain (f : FieldMap) : Type 0 where
  pub above : All (λ c. quote_mark < c) f.sql
  pub has_column : f.sql ≢ codes ""

module _ (quote : Str → Str) (m : Model)
    (quotes : (s : Str)
      → All (λ c. quote_mark < c) s
      → quote s ≡ quote_mark ∷ (s ++ (quote_mark ∷ []))) where
  column-lt :
      (f g : FieldMap)
      → IsPlain f
      → IsPlain g
      → str_lt (column quote m f) (column quote m g) ≡ str_lt f.sql g.sql
  unfolding with_alias
  column-lt f g p q = elim (Bool-cases (str_eq m.alias (codes ""))) [
    | inl no_alias ↦
        rw (no_alias, quotes f.sql p.above, quotes g.sql q.above)
          (str_lt-append (quote_mark ∷ []) _ _ ∙ str_lt-closed f.sql g.sql p.above q.above)
    | inr alias ↦
        rw (alias, quotes f.sql p.above, quotes g.sql q.above)
          (str_lt-append (quote m.alias) _ _
            ∙ str_lt-append (b'.' ∷ quote_mark ∷ []) _ _
            ∙ str_lt-closed f.sql g.sql p.above q.above)
  ]

  abbrev by_sql : FieldMap → Str
  by_sql f = f.sql

  map-insert_by :
      (f : FieldMap) (l : List FieldMap)
      → IsPlain f
      → All IsPlain l
      → map (column quote m) (insert_by by_sql f l)
        ≡ insert_text (column quote m f) (map (column quote m) l)
  unfolding insert_by insert_text
  map-insert_by f [] p h = refl
  map-insert_by f (g ∷ l) p (q, h) = elim (Bool-cases (str_lt g.sql f.sql)) [
    | inl less ↦
        rw (column-lt g f q p, less) (ap (λ t. column quote m g ∷ t) (map-insert_by f l p h))
    | inr more ↦ rw (column-lt g f q p, more)
  ]

  All-insert_by :
      (f : FieldMap) (l : List FieldMap)
      → IsPlain f
      → All IsPlain l
      → All IsPlain (insert_by by_sql f l)
  unfolding insert_by
  All-insert_by f [] p h = (p, tt)
  All-insert_by f (g ∷ l) p (q, h) = elim (Bool-cases (str_lt g.sql f.sql)) [
    | inl less ↦ rw less (q, All-insert_by f l p h)
    | inr more ↦ rw more (p, (q, h))
  ]

  All-sort_by : (l : List FieldMap) → All IsPlain l → All IsPlain (sort_by by_sql l)
  unfolding sort_by
  All-sort_by [] h = tt
  All-sort_by (f ∷ l) (p, h) = All-insert_by f (sort_by by_sql l) p (All-sort_by l h)

  map-sort_by :
      (l : List FieldMap)
      → All IsPlain l
      → sort_texts (map (column quote m) l) ≡ map (column quote m) (sort_by by_sql l)
  unfolding sort_by sort_texts insert_text
  map-sort_by [] h = refl
  map-sort_by (f ∷ l) (p, h) =
      ap (insert_text (column quote m f)) (map-sort_by l h)
      ∙ sym (map-insert_by f (sort_by by_sql l) p (All-sort_by l h))

  with_sql-map : (l : List FieldMap) → All IsPlain l → with_sql l ≡ map (λ f. f.ptr) l
  with_sql-map [] h = refl
  with_sql-map (f ∷ l) (p, h) =
      rw (str_eq_ne f.sql (codes "") p.has_column) (ap (λ t. f.ptr ∷ t) (with_sql-map l h))

  -- Of a model that was declared and not yet used, whose columns are plain, SelectAll and ScanAll
  -- agree: both go through the fields in the order of their columns, the one with the quoted
  -- columns and the other with the pointers. The condition on quoting is that a plain name is set
  -- between quotation marks.
  pub select_all-scan_all :
      (fields : List FieldMap)
      → m.fields ≡ fresh fields
      → All IsPlain fields
      → (select_all quote m ≡ map (column quote m) (sort_by (λ f. f.sql) fields))
        × ((scan_all m).0 ≡ map (λ f. f.ptr) (sort_by (λ f. f.sql) fields))
  unfolding scan_all
  select_all-scan_all fields declared h = (
    select_all_lem quote m fields declared ∙ map-sort_by fields h,
    simp declared (with_sql-map (sort_by by_sql fields) (All-sort_by fields h)),
  )
