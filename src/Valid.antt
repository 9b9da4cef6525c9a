-- ===== src/Valid.antt =====
-- Package valid: validation of GraphQL input. The errors that gqlgen keeps for a request are the
-- state: a ValidationError points to one of them by its place, so that `WithField` changes the
-- recorded error. `Sprintf` is the caller's: a message is the text that it gave.
pub mod Laws
use core_go_nopgp.Base.{
  ℕ, zero, suc, Str, codes, Map, lookup, insert, length, ◌++◌, ◌==◌, Bool, true, false, Option,
  none, some, List, [], ◌∷◌, if◌then◌else◌,
}

-- A gqlerror.Error: the message, the path of the field that is resolved, and the one extension
-- that the package sets.
pub record GqlError : Type 0 where
  pub message : Str
  pub path : Str
  pub field : Option Str

-- `Error` and `Errorf`, which attach an error to a field and record nothing.
abbrev pub field_error : Str → Str → Str → GqlError
field_error path field msg = record { message = msg; path = path; field = some field }

-- A value of the input map: a string or a *string that is not nil, a boolean or a *bool that is not
-- nil, a nil pointer of either type, a nil, or anything else.
pub data Value : Type 0 where
  null : Value
  str : Str → Value
  str_ptr : Option Str → Value
  bool : Bool → Value
  bool_ptr : Option Bool → Value
  another : ℕ → Value

-- What the package keeps: the errors of the request so far, and the input if there is one.
pub record Validation : Type 0 where
  pub path : Str
  pub errors : List GqlError
  pub input : Option (Map Value)

-- `New`, in a request with the errors so far.
abbrev pub new : Str → List GqlError → Validation
new path errors = record { path = path; errors = errors; input = none }

-- `WithInput`
abbrev pub with_input : Validation → Map Value → Validation
with_input valid input = record valid { input = some input }

-- `Ok`
unfoldable pub is_ok : Validation → Bool
is_ok valid = length valid.errors == 0

-- A ValidationError: the place of its error among those of the request, or nil.
abbrev pub ValidationError : Type 0
ValidationError = Option ℕ

-- `(valid *Validation) Error`
unfoldable pub add_error : Str → Validation → ValidationError × Validation
add_error msg valid =
    let err : GqlError = record { message = msg; path = valid.path; field = none } in
    (some (length valid.errors), record valid { errors = valid.errors ++ err ∷ [] })

-- `Expect`
unfoldable pub expect : Bool → Str → Validation → ValidationError × Validation
unfolding add_error
expect cond msg valid = if cond then (none, valid) else add_error msg valid

abbrev set_field : Str → ℕ → List GqlError → List GqlError
set_field field i [] = []
set_field field zero (e ∷ errors) = record e { field = some field } ∷ errors
set_field field (suc i) (e ∷ errors) = e ∷ set_field field i errors

-- `WithField`
unfoldable pub with_field : Str → ValidationError × Validation → ValidationError × Validation
with_field field (none, valid) = (none, valid)
with_field field (some i, valid) =
    (some i, record valid { errors = set_field field i valid.errors })

-- `And`
unfoldable pub and : Bool → Str → ValidationError × Validation → ValidationError × Validation
unfolding expect
and cond msg (some i, valid) = (some i, valid)
and cond msg (none, valid) = expect cond msg valid

-- What a call comes to: a panic, or the state with what the callback did, if it was run.
pub data Outcome : Type 0 where
  panics_without_input panics_at_nil : Outcome
  continued : Validation → Outcome

-- `Expected %s to be a string` and `Expected %s to be a bool`.
abbrev expected_string : Str → Str
expected_string name = codes "Expected " ++ (name ++ codes " to be a string")

abbrev expected_bool : Str → Str
expected_bool name = codes "Expected " ++ (name ++ codes " to be a bool")

abbrev reject : Str → Str → Validation → Outcome
reject msg name valid = continued (with_field name (add_error msg valid)).1

-- The value of the field, if the input is there; a callback changes the validation.
abbrev on_field :
    Str → (Option Value → Validation → Outcome) → Option (Map Value) → Validation → Outcome
on_field name use_value none valid = panics_without_input
on_field name use_value (some input) valid = use_value (lookup name input) valid

abbrev optional_value : (Value → Validation → Validation) → Option Value → Validation → Outcome
optional_value fn none valid = continued valid
optional_value fn (some null) valid = continued valid
optional_value fn (some v) valid = continued (fn v valid)

-- `Optional`
unfoldable pub optional : Str → (Value → Validation → Validation) → Validation → Outcome
optional name fn valid = on_field name (optional_value fn) valid.input valid

abbrev string_value : Str → (Str → Validation → Validation) → Option Value → Validation → Outcome
string_value name fn none valid = continued valid
string_value name fn (some null) valid = continued valid
string_value name fn (some (str s)) valid = continued (fn s valid)
string_value name fn (some (str_ptr (some s))) valid = continued (fn s valid)
string_value name fn (some (str_ptr none)) valid = panics_at_nil
string_value name fn (some _) valid = reject (expected_string name) name valid

-- `OptionalString`
unfoldable pub optional_string : Str → (Str → Validation → Validation) → Validation → Outcome
unfolding with_field add_error
optional_string name fn valid = on_field name (string_value name fn) valid.input valid

abbrev nullable_value :
    Str → (Option Str → Validation → Validation) → Option Value → Validation → Outcome
nullable_value name fn none valid = continued valid
nullable_value name fn (some null) valid = continued (fn none valid)
nullable_value name fn (some (str s)) valid = continued (fn (some s) valid)
nullable_value name fn (some (str_ptr p)) valid = continued (fn p valid)
nullable_value name fn (some _) valid = reject (expected_string name) name valid

-- `NullableString`
unfoldable pub nullable_string : Str → (Option Str → Validation → Validation) → Validation → Outcome
unfolding with_field add_error
nullable_string name fn valid = on_field name (nullable_value name fn) valid.input valid

abbrev bool_value : Str → (Bool → Validation → Validation) → Option Value → Validation → Outcome
bool_value name fn none valid = continued valid
bool_value name fn (some null) valid = continued valid
bool_value name fn (some (bool b)) valid = continued (fn b valid)
bool_value name fn (some (bool_ptr (some b))) valid = continued (fn b valid)
bool_value name fn (some (bool_ptr none)) valid = panics_at_nil
bool_value name fn (some _) valid = reject (expected_bool name) name valid

-- `OptionalBool`
unfoldable pub optional_bool : Str → (Bool → Validation → Validation) → Validation → Outcome
unfolding with_field add_error
optional_bool name fn valid = on_field name (bool_value name fn) valid.input valid
