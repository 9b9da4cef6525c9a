-- ===== src/Database/Fields/Build.antt =====
-- The loop of `buildCache`: what each field adds to the maps.
use mathlib.Core.List.{append_assoc, append-nil}
use core_go_nopgp.Base.{
  Str, codes, str_eq, str_eq_iff, Map, lookup, lookup-insert, List, [], ◌∷◌, ◌++◌, Option, none,
  some, Bool, true, false, if◌then◌else◌, ◌≡◌, refl, sym, ap, ◌∙◌, arith, Bool-cases, inl, inr,
}
use core_go_nopgp.Database.Fields.{
  FieldMap, Cache, fields_at, or_nil, append_at, add_field, add_fields, gql,
}

-- The fields with a GraphQL name, those with a column, and those without a GraphQL name, in the
-- order of declaration.
abbrev pub named : Str → List FieldMap → List FieldMap
named name [] = []
named name (f ∷ fields) = if str_eq f.gql name then f ∷ named name fields else named name fields

abbrev pub in_column : Str → List FieldMap → List FieldMap
in_column col [] = []
in_column col (f ∷ fields) =
    if str_eq f.sql col then f ∷ in_column col fields else in_column col fields

abbrev pub non_empty : List FieldMap → Option (List FieldMap)
non_empty [] = none
non_empty (f ∷ fields) = some (f ∷ fields)

pub non_empty-append :
    (fields : List FieldMap) (f : FieldMap) → non_empty (fields ++ f ∷ []) ≡ some (fields ++ f ∷ [])
non_empty-append [] f = refl
non_empty-append (g ∷ fields) f = refl

lookup-append_at :
    (k j : Str) (f : FieldMap) (m : Map (List FieldMap))
    → lookup j (append_at k f m)
      ≡ (if str_eq k j then some (fields_at k m ++ f ∷ []) else lookup j m)
unfolding append_at
lookup-append_at k j f m = lookup-insert k j (fields_at k m ++ f ∷ []) m

fields_at-append_at :
    (k j : Str) (f : FieldMap) (m : Map (List FieldMap))
    → fields_at j (append_at k f m)
      ≡ (if str_eq k j then fields_at j m ++ f ∷ [] else fields_at j m)
unfolding fields_at
fields_at-append_at k j f m = ap or_nil (lookup-append_at k j f m) ∙ by_test
  where
    by_test :
        or_nil (if str_eq k j then some (fields_at k m ++ f ∷ []) else lookup j m)
        ≡ (if str_eq k j then fields_at j m ++ f ∷ [] else fields_at j m)
    by_test = elim (Bool-cases (str_eq k j)) [
      | inl same ↦ rw (same, (str_eq_iff k j).0 same)
      | inr other ↦ rw other
    ]

-- No list in the map is empty.
abbrev pub IsFull : Map (List FieldMap) → Type 0
IsFull m = (k : Str) → lookup k m ≡ non_empty (fields_at k m)

append_at-IsFull :
    (k : Str) (f : FieldMap) (m : Map (List FieldMap)) → IsFull m → IsFull (append_at k f m)
append_at-IsFull k f m full j = elim (Bool-cases (str_eq k j)) [
  | inl same ↦ rw (
    lookup-append_at k j f m,
    fields_at-append_at k j f m,
    same,
    (str_eq_iff k j).0 same,
    non_empty-append,
  )
  | inr other ↦ rw (lookup-append_at k j f m, fields_at-append_at k j f m, other) (full j)
]

-- What one field adds to a list of the maps.
abbrev pub one_if : Bool → FieldMap → List FieldMap
one_if true f = f ∷ []
one_if false f = []

append-one_if :
    (b : Bool) (f : FieldMap) (l : List FieldMap) → (if b then l ++ f ∷ [] else l) ≡ l ++ one_if b f
append-one_if true f l = refl
append-one_if false f l = sym (append-nil l)

ne_of_unnamed :
    (gql name : Str)
    → str_eq gql (codes "") ≡ true
    → str_eq name (codes "") ≡ false
    → str_eq gql name ≡ false
ne_of_unnamed gql name unnamed h =
    ground (arith, str_eq_iff gql (codes ""), str_eq_iff name (codes ""), str_eq_iff gql name)

one_if-append :
    (b : Bool) (f : FieldMap) (l : List FieldMap) → one_if b f ++ l ≡ (if b then f ∷ l else l)
one_if-append true f l = refl
one_if-append false f l = refl

module _ (f : FieldMap) (c : Cache) where
  pub add_field-gql :
      (name : Str)
      → str_eq name (codes "") ≡ false
      → fields_at name (add_field f c).gql_map
        ≡ fields_at name c.gql_map ++ one_if (str_eq f.gql name) f
  unfolding add_field
  add_field-gql name h = elim (Bool-cases (str_eq f.gql (codes ""))) [
    | inl unnamed ↦ rw (unnamed, ne_of_unnamed f.gql name unnamed h) (sym (append-nil _))
    | inr has_name ↦
        rw (has_name, fields_at-append_at f.gql name f c.gql_map)
          (append-one_if (str_eq f.gql name) f _)
  ]

  pub add_field-sql_map : (add_field f c).sql_map ≡ append_at f.sql f c.sql_map
  unfolding add_field
  add_field-sql_map = elim (Bool-cases (str_eq f.gql (codes ""))) [
    | inl unnamed ↦ rw unnamed
    | inr has_name ↦ rw has_name
  ]

  pub add_field-sql :
      (col : Str)
      → fields_at col (add_field f c).sql_map
        ≡ fields_at col c.sql_map ++ one_if (str_eq f.sql col) f
  unfolding add_field
  add_field-sql col = elim (Bool-cases (str_eq f.gql (codes ""))) [
    | inl unnamed ↦
        rw (unnamed, fields_at-append_at f.sql col f c.sql_map)
          (append-one_if (str_eq f.sql col) f _)
    | inr has_name ↦
        rw (has_name, fields_at-append_at f.sql col f c.sql_map)
          (append-one_if (str_eq f.sql col) f _)
  ]

  pub add_field-anonymous :
      (add_field f c).anonymous ≡ c.anonymous ++ one_if (str_eq f.gql (codes "")) f
  unfolding add_field
  add_field-anonymous = elim (Bool-cases (str_eq f.gql (codes ""))) [
    | inl unnamed ↦ rw unnamed
    | inr has_name ↦ rw has_name (sym (append-nil _))
  ]

  pub add_field-no_name :
      fields_at (codes "") (add_field f c).gql_map ≡ fields_at (codes "") c.gql_map ++ []
  unfolding add_field
  add_field-no_name = elim (Bool-cases (str_eq f.gql (codes ""))) [
    | inl unnamed ↦ rw unnamed (sym (append-nil _))
    | inr has_name ↦
        rw (has_name, fields_at-append_at f.gql (codes "") f c.gql_map, has_name)
          (sym (append-nil _))
  ]

  add_field-IsFull_gql : IsFull c.gql_map → IsFull (add_field f c).gql_map
  unfolding add_field
  add_field-IsFull_gql g = elim (Bool-cases (str_eq f.gql (codes ""))) [
    | inl unnamed ↦ rw unnamed g
    | inr has_name ↦ rw has_name (append_at-IsFull f.gql f c.gql_map g)
  ]

  add_field-IsFull_sql : IsFull c.sql_map → IsFull (add_field f c).sql_map
  unfolding add_field
  add_field-IsFull_sql s = elim (Bool-cases (str_eq f.gql (codes ""))) [
    | inl unnamed ↦ rw unnamed (append_at-IsFull f.sql f c.sql_map s)
    | inr has_name ↦ rw has_name (append_at-IsFull f.sql f c.sql_map s)
  ]

pub add_fields-nil : (c : Cache) → add_fields [] c ≡ c
unfolding add_fields
add_fields-nil c = refl

pub add_fields-cons :
    (f : FieldMap) (fields : List FieldMap) (c : Cache)
    → add_fields (f ∷ fields) c ≡ add_fields fields (add_field f c)
unfolding add_fields
add_fields-cons f fields c = refl

-- A list that grows by `one_if` at each field, over all of them.
pub grows :
    (test : FieldMap → Bool) (read : Cache → List FieldMap) (picked : List FieldMap → List FieldMap)
    → ((f : FieldMap) (c : Cache) → read (add_field f c) ≡ read c ++ one_if (test f) f)
    → (picked [] ≡ [])
    → ((f : FieldMap) (l : List FieldMap)
        → picked (f ∷ l) ≡ (if test f then f ∷ picked l else picked l))
    → (fields : List FieldMap) (c : Cache) → read (add_fields fields c) ≡ read c ++ picked fields
grows test read picked step empty cons [] c =
    ap read (add_fields-nil c) ∙ sym (rw empty (append-nil (read c)))
grows test read picked step empty cons (f ∷ fields) c =
    ap read (add_fields-cons f fields c)
    ∙ grows test read picked step empty cons fields (add_field f c)
    ∙ ap (λ l. l ++ picked fields) (step f c)
    ∙ append_assoc (read c) (one_if (test f) f) (picked fields)
    ∙ ap (λ l. read c ++ l) (one_if-append (test f) f (picked fields) ∙ sym (cons f fields))

pub IsFull-add_fields :
    (fields : List FieldMap) (c : Cache)
    → IsFull c.gql_map
    → IsFull c.sql_map
    → IsFull (add_fields fields c).gql_map × IsFull (add_fields fields c).sql_map
IsFull-add_fields [] c g s = rw (add_fields-nil c) (g, s)
IsFull-add_fields (f ∷ fields) c g s = rw (add_fields-cons f fields c) (
    IsFull-add_fields fields (add_field f c) (add_field-IsFull_gql f c g)
      (add_field-IsFull_sql f c s))
