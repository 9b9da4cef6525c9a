-- ===== src/Tests/Data.antt =====
-- Transactions, the fields of models and validation at concrete inputs.
use core_go_nopgp.Base.{
  ℕ, suc, Str, codes, str_eq, Map, lookup, some, List, [], ◌∷◌, ◌++◌, map, All, true, false, Go, ok,
  ◌≡◌, refl, arith,
}
use core_go_nopgp.Errors.{Error}
use core_go_nopgp.Database.Tx.{with_tx}
use core_go_nopgp.Database.Tx.Laws.{IsAtomic, closed, advance_all, with_tx-IsAtomic, with_tx_closed}
use core_go_nopgp.Database.Fields.{FieldMap, fresh}
use core_go_nopgp.Database.Fields.Laws.{Finds, fresh-Finds}
use core_go_nopgp.Database.Columns.{Model, select_all, scan_all, sort_by}
use core_go_nopgp.Database.Columns.All.{IsPlain, column, select_all-scan_all}
use core_go_nopgp.Valid.{
  Validation, Value, str, new, with_input, expect, optional_string, nullable_string, add_error,
}
use core_go_nopgp.Valid.Laws.{
  Check, and_all, recorded, and_all-expect, skip_null, optional_string-nullable_string,
}
use core_go_nopgp.Tests.World.{toy_answers}

abbrev increment : ℕ → Go Error ℕ × ℕ
increment n = (ok n, suc n)

with_tx-IsAtomic_example : IsAtomic toy_answers 3 (ok 3, 4) (with_tx true toy_answers increment 3)
with_tx-IsAtomic_example = with_tx-IsAtomic true toy_answers increment 3

with_tx_closed_example :
    advance_all (some closed) (with_tx true toy_answers increment 3).actions ≡ some closed
with_tx_closed_example = with_tx_closed true toy_answers increment 3

abbrev fields : List FieldMap
fields =
    record { sql = codes "name"; gql = codes "name"; ptr = 2 }
    ∷ record { sql = codes "id"; gql = codes ""; ptr = 1 }
    ∷ []

fresh-Finds_example : Finds fields
fresh-Finds_example = fresh-Finds fields

abbrev model : Model
model = record { alias = codes "repo"; table = codes "repository"; fields = fresh fields }

abbrev quote : Str → Str
quote s = b'"' ∷ (s ++ (b'"' ∷ []))

fields-IsPlain : All IsPlain fields
fields-IsPlain = (
  record {
    above = (omega arith, (omega arith, (omega arith, (omega arith, tt))));
    has_column = λ h. cc;
  },
  (record { above = (omega arith, (omega arith, tt)); has_column = λ h. cc }, tt),
)

select_all-scan_all_example :
    (select_all quote model ≡ map (column quote model) (sort_by (λ f. f.sql) fields))
    × ((scan_all model).0 ≡ map (λ f. f.ptr) (sort_by (λ f. f.sql) fields))
select_all-scan_all_example =
    select_all-scan_all quote model (λ s h. refl) fields refl fields-IsPlain

abbrev state : Validation
state = new (codes "createUser") []

abbrev short : Check
short = record { cond = true; msg = codes "too short" }

abbrev long : Check
long = record { cond = false; msg = codes "too long" }

and_all-expect_example :
    and_all (long ∷ []) (expect true (codes "too short") state)
    ≡ recorded (some (codes "too long")) state
and_all-expect_example = and_all-expect short (long ∷ []) state

abbrev input : Map Value
input = (codes "name", str (codes "alice")) ∷ []

abbrev refuse : Str → Validation → Validation
refuse s valid = (add_error s valid).1

optional_string-nullable_string_example :
    optional_string (codes "name") refuse (with_input state input)
    ≡ nullable_string (codes "name") (skip_null refuse) (with_input state input)
unfolding nullable_string lookup str_eq
optional_string-nullable_string_example =
    optional_string-nullable_string (codes "name") refuse (with_input state input) input refl
