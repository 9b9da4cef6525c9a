-- ===== src/Database/Columns/Select.antt =====
-- `Select` of database/sq.go: the columns that are added to the query, in order. What a model with
-- a Select of its own adds is that model's.
use core_go_nopgp.Base.{Str, Option, List, [], ◌∷◌, ◌++◌, Go, ok, panic, ◌>>=◌}
use core_go_nopgp.Errors.{Error, unknown_selectable}
use core_go_nopgp.Database.Columns.{CollectedField, Model, columns}

pub data Selectable : Type 0 where
  column : Str → Selectable
  column_list : List Str → Selectable
  model : Model → Selectable
  -- An ExtendedModel, with its method Select on the columns so far.
  extended_model : Model → (List Str → List Str) → Selectable
  other_type : Selectable

module _ (quote_identifier : Str → Str) (collected : Option (List CollectedField)) where
  abbrev columns_of : Model → List Str
  columns_of m = columns quote_identifier collected m

  abbrev add_selectable : List Str → Selectable → Go Error (List Str)
  add_selectable query (column col) = ok (query ++ (col ∷ []))
  add_selectable query (column_list cols) = ok (query ++ cols)
  add_selectable query (model m) = ok (query ++ columns_of m)
  add_selectable query (extended_model m select) = ok (select (query ++ columns_of m))
  add_selectable query other_type = panic unknown_selectable

  abbrev select_loop : List Selectable → List Str → Go Error (List Str)
  select_loop [] query = ok query
  select_loop (col ∷ cols) query = do next ← add_selectable query col; select_loop cols next

  -- `Select`
  unfoldable pub select : List Selectable → Go Error (List Str)
  unfolding columns
  select cols = select_loop cols []
