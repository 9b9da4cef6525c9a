-- ===== src/Database/Columns/Laws.antt =====
-- A row is scanned into the fields whose columns were selected.
use core_go_nopgp.Base.{ℕ, Str, List, ◌++◌, map, ◌≡◌}
use core_go_nopgp.Database.Fields.{FieldMap}
use core_go_nopgp.Database.Columns.{Model, named_column, anonymous_column}

-- Columns and pointers that belong to the same fields, in the same order.
pub record AreAligned (quote : Str → Str) (m : Model) (cols : List Str) (ptrs : List ℕ)
    : Type 0 where
  pub by_name : List FieldMap
  pub without_name : List FieldMap
  pub selected :
      cols ≡ map (named_column quote m) by_name ++ map (anonymous_column quote m) without_name
  pub scanned : ptrs ≡ map (λ f. f.ptr) (by_name ++ without_name)
