-- ===== src/Database/Fields/Laws.antt =====
-- What the maps of a model's fields hold.
use core_go_nopgp.Base.{
  lookup, ap, Option, refl, false, List, [], ◌∙◌, some, Map, Str, codes, str_eq, none, ◌≡◌,
}
use core_go_nopgp.Database.Fields.{
  ModelFields, build_cache, built, FieldMap, Cache, fresh, fields_at, add_fields, gql, sql,
  anonymous_fields,
}
use core_go_nopgp.Database.Fields.Build.{
  grows, add_field-gql, add_field-sql, add_field-anonymous, add_field-no_name, named, in_column,
  non_empty, IsFull, IsFull-add_fields,
}

abbrev empty_cache : Cache
empty_cache = record { gql_map = []; sql_map = []; anonymous = [] }

module _ (fields : List FieldMap) where
  -- What the methods of a model that was declared and not yet used find: under a name the fields
  -- of that name in their order, in a column those of the column, and without a name the others.
  pub record Finds : Type 0 where
    pub by_name :
        (name : Str)
        → str_eq name (codes "") ≡ false
        → (gql name (fresh fields)).0 ≡ non_empty (named name fields)
    pub by_no_name : (gql (codes "") (fresh fields)).0 ≡ none
    pub by_column : (col : Str) → (sql col (fresh fields)).0 ≡ non_empty (in_column col fields)
    pub without_name : (anonymous_fields (fresh fields)).0 ≡ named (codes "") fields

  cache : Cache
  cache = add_fields fields empty_cache

  full : IsFull cache.gql_map × IsFull cache.sql_map
  unfolding cache
  full =
      IsFull-add_fields fields empty_cache (unfold lookup fields_at in λ k. refl)
        (unfold lookup fields_at in λ k. refl)

  found_gql : (name : Str) → (gql name (fresh fields)).0 ≡ non_empty (fields_at name cache.gql_map)
  unfolding gql cache
  found_gql name = unfold cache in full.0 name

  -- GQL finds under a name the fields of that name in the order of their declaration, SQL those of
  -- a column, and Anonymous those without a name. What no field has is not found, and the name ""
  -- never is. This is of fields that were declared and not yet used.
  pub fresh-Finds : Finds
  unfolding gql sql anonymous_fields cache lookup
  fresh-Finds = record {
    by_name = λ name h.
        full.0 name
        ∙ ap non_empty (
            grows (λ f. str_eq f.gql name) (λ c. fields_at name c.gql_map) (named name)
              (λ f c. add_field-gql f c name h) refl (λ f l. refl) fields empty_cache);
    by_no_name =
        full.0 (codes "")
        ∙ ap non_empty (
            grows (λ f. false) (λ c. fields_at (codes "") c.gql_map) (λ l. []) add_field-no_name
              refl (λ f l. refl) fields empty_cache);
    by_column = λ col.
        full.1 col
        ∙ ap non_empty (
            grows (λ f. str_eq f.sql col) (λ c. fields_at col c.sql_map) (in_column col)
              (λ f c. add_field-sql f c col) refl (λ f l. refl) fields empty_cache);
    without_name =
        grows (λ f. str_eq f.gql (codes "")) (λ c. c.anonymous) (named (codes ""))
          add_field-anonymous refl (λ f l. refl) fields empty_cache;
  }

built_again :
    (mf : ModelFields) (g s : Option (Map (List FieldMap)))
    → mf.by_gql ≡ g
    → mf.by_sql ≡ s
    → build_cache (built g s mf) ≡ built g s mf
unfolding build_cache
built_again mf (some g) (some s) h k = simp (h, k)
built_again mf none s h k = refl
built_again mf (some g) none h k = refl

-- The maps are built once: building them again changes nothing.
pub build_cache_idempotent : (mf : ModelFields) → build_cache (build_cache mf) ≡ build_cache mf
unfolding build_cache
build_cache_idempotent mf = built_again mf mf.by_gql mf.by_sql refl refl
