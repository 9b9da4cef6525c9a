-- ===== src/Database/Fields.antt =====
-- `ModelFields` of database/sq.go, with the maps that it builds on first use.
pub mod Build
pub mod Laws
use core_go_nopgp.Base.{
  ℕ, Str, codes, str_eq, not, Map, lookup, insert, List, [], ◌∷◌, ◌++◌, Option, none, some, Bool,
  if◌then◌else◌,
}

-- A column, a GraphQL field and a pointer into the Go struct. A pointer is known by a number.
pub record FieldMap : Type 0 where
  pub sql : Str
  pub gql : Str
  pub ptr : ℕ

pub record ModelFields : Type 0 where
  pub fields : List FieldMap
  pub by_gql : Option (Map (List FieldMap))
  pub by_sql : Option (Map (List FieldMap))
  pub anon : List FieldMap

-- Fields that were declared and not yet used.
abbrev pub fresh : List FieldMap → ModelFields
fresh fields = record { fields = fields; by_gql = none; by_sql = none; anon = [] }

abbrev pub or_nil : Option (List FieldMap) → List FieldMap
or_nil none = []
or_nil (some fs) = fs

unfoldable pub fields_at : Str → Map (List FieldMap) → List FieldMap
fields_at k m = or_nil (lookup k m)

-- m[k] = append(m[k], f)
unfoldable pub append_at : Str → FieldMap → Map (List FieldMap) → Map (List FieldMap)
unfolding fields_at
append_at k f m = insert k (fields_at k m ++ f ∷ []) m

-- The three maps while they are built.
pub record Cache : Type 0 where
  pub gql_map : Map (List FieldMap)
  pub sql_map : Map (List FieldMap)
  pub anonymous : List FieldMap

-- The body of the loop of `buildCache`.
unfoldable pub add_field : FieldMap → Cache → Cache
unfolding append_at
add_field f c =
    let sql_map = append_at f.sql f c.sql_map in
    if not (str_eq f.gql (codes ""))
    then record c { gql_map = append_at f.gql f c.gql_map; sql_map = sql_map }
    else record c { anonymous = c.anonymous ++ f ∷ []; sql_map = sql_map }

unfoldable pub add_fields : List FieldMap → Cache → Cache
unfolding add_field
add_fields [] c = c
add_fields (f ∷ fields) c = add_fields fields (add_field f c)

abbrev pub keep_cache : ModelFields → Cache → ModelFields
keep_cache mf c = record mf { by_gql = some c.gql_map; by_sql = some c.sql_map; anon = c.anonymous }

abbrev pub built :
    Option (Map (List FieldMap)) → Option (Map (List FieldMap)) → ModelFields → ModelFields
built (some m) (some n) mf = mf
built _ _ mf =
    keep_cache mf
      (add_fields mf.fields (record { gql_map = []; sql_map = []; anonymous = mf.anon }))

-- `buildCache`
unfoldable pub build_cache : ModelFields → ModelFields
unfolding add_fields
build_cache mf = built mf.by_gql mf.by_sql mf

abbrev in_map : Str → Option (Map (List FieldMap)) → Option (List FieldMap)
in_map name none = none
in_map name (some m) = lookup name m

-- `GQL`; the second part is the state that the call leaves, as for the methods below.
unfoldable pub gql : Str → ModelFields → Option (List FieldMap) × ModelFields
unfolding build_cache
gql name mf = let mf' = build_cache mf in (in_map name mf'.by_gql, mf')

-- `SQL`
unfoldable pub sql : Str → ModelFields → Option (List FieldMap) × ModelFields
unfolding build_cache
sql name mf = let mf' = build_cache mf in (in_map name mf'.by_sql, mf')

-- `All`
abbrev pub all_fields : ModelFields → List FieldMap
all_fields mf = mf.fields

-- `Anonymous`
unfoldable pub anonymous_fields : ModelFields → List FieldMap × ModelFields
unfolding build_cache
anonymous_fields mf = let mf' = build_cache mf in (mf'.anon, mf')
