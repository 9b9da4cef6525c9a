-- ===== src/Valid/Laws.antt =====
-- What validation records.
use core_go_nopgp.Base.{
  all, inl, inr, Bool-cases, arith, length-append, lookup, ◌&&◌, ◌∙◌, ℕ, Str, Map, length, ◌++◌,
  Bool, true, false, Option, none, some, List, [], ◌∷◌, if◌then◌else◌, ◌≡◌, refl, ap,
}
use core_go_nopgp.Valid.{
  string_value, nullable_value, null, str, str_ptr, bool, bool_ptr, another, panics_at_nil,
  optional_string, nullable_string, is_ok, GqlError, Value, Validation, ValidationError, add_error,
  expect, with_field, and, set_field,
}

-- Setting the field of the last of the errors.
set_field-append :
    (field : Str) (errors : List GqlError) (e : GqlError)
    → set_field field (length errors) (errors ++ e ∷ [])
      ≡ errors ++ record e { field = some field } ∷ []
set_field-append field [] e = refl
set_field-append field (d ∷ errors) e = ap (λ l. d ∷ l) (set_field-append field errors e)

-- A failed expectation, tied to a field, records exactly one error, the last, with the message, the
-- path and the field.
pub with_field-add_error :
    (field msg : Str) (valid : Validation)
    → (with_field field (add_error msg valid)).1 ≡ record valid {
      errors = valid.errors ++ record { message = msg; path = valid.path; field = some field } ∷ [];
    }
unfolding with_field add_error
with_field-add_error field msg valid = rw set_field-append

abbrev pub is_nil_string : Option Value → Bool
is_nil_string (some (str_ptr none)) = true
is_nil_string _ = false

-- One condition with its message.
pub record Check : Type 0 where
  pub cond : Bool
  pub msg : Str

-- `valid.Expect(c.cond, c.msg).And(d.cond, d.msg)…`
abbrev pub and_all : List Check → ValidationError × Validation → ValidationError × Validation
and_all [] state = state
and_all (c ∷ checks) state = and_all checks (and c.cond c.msg state)

abbrev pub first_failure : List Check → Option Str
first_failure [] = none
first_failure (c ∷ checks) = if c.cond then first_failure checks else some c.msg

abbrev pub recorded : Option Str → Validation → ValidationError × Validation
recorded none valid = (none, valid)
recorded (some msg) valid = (
  some (length valid.errors),
  record valid {
    errors = valid.errors ++ record { message = msg; path = valid.path; field = none } ∷ [];
  },
)

and_all_failed :
    (checks : List Check) (i : ℕ) (valid : Validation)
    → and_all checks (some i, valid) ≡ (some i, valid)
unfolding and
and_all_failed [] i valid = refl
and_all_failed (c ∷ checks) i valid = and_all_failed checks i valid

and_all-none :
    (checks : List Check) (valid : Validation)
    → and_all checks (none, valid) ≡ recorded (first_failure checks) valid
unfolding and expect add_error
and_all-none [] valid = refl
and_all-none (c ∷ checks) valid = elim (Bool-cases c.cond) [
  | inl held ↦ simp held (and_all-none checks valid)
  | inr failed ↦ simp failed (and_all_failed checks (length valid.errors) _)
]

-- A chain of Expect and And records one more error, the last, for the first condition that fails,
-- with its message and the path, and gives the place of this error; nothing is recorded if no
-- condition fails, and the later conditions are not considered.
pub and_all-expect :
    (c : Check) (checks : List Check) (valid : Validation)
    → and_all checks (expect c.cond c.msg valid) ≡ recorded (first_failure (c ∷ checks)) valid
and_all-expect c checks valid = unfold and in and_all-none (c ∷ checks) valid

abbrev is_nothing : Option Str → Bool
is_nothing none = true
is_nothing (some msg) = false

recorded-is_ok :
    (o : Option Str) (valid : Validation)
    → is_ok (recorded o valid).1 ≡ (is_nothing o && is_ok valid)
unfolding is_ok add_error
recorded-is_ok none valid = refl
recorded-is_ok (some msg) valid = ground (
  arith,
  length-append {0} valid.errors (record { message = msg; path = valid.path; field = none } ∷ []),
)

-- The request is free of errors after a chain exactly if it was before and no condition fails.
pub is_ok-and_all :
    (c : Check) (checks : List Check) (valid : Validation)
    → is_ok (and_all checks (expect c.cond c.msg valid)).1
      ≡ (all (λ d. d.cond) (c ∷ checks) && is_ok valid)
is_ok-and_all c checks valid =
    ap (λ (s : ValidationError × Validation). is_ok s.1) (and_all-expect c checks valid)
    ∙ recorded-is_ok (first_failure (c ∷ checks)) valid
    ∙ ap (λ b. b && is_ok valid) (none_fails (c ∷ checks))
  where
    none_fails : (l : List Check) → is_nothing (first_failure l) ≡ all (λ d. d.cond) l
    none_fails [] = refl
    none_fails (d ∷ l) = ground (arith, none_fails l)

-- The callback that passes over a null.
abbrev pub skip_null : (Str → Validation → Validation) → Option Str → Validation → Validation
skip_null fn none valid = valid
skip_null fn (some s) valid = fn s valid

-- What OptionalString does with a callback is what NullableString does with the callback that
-- passes over a null, in a validation with an input. They differ at a nil *string alone, where
-- OptionalString panics.
pub optional_string-nullable_string :
    (name : Str) (fn : Str → Validation → Validation) (valid : Validation) (input : Map Value)
    → valid.input ≡ some input
    → optional_string name fn valid ≡ (
        if is_nil_string (lookup name input)
        then panics_at_nil
        else nullable_string name (skip_null fn) valid)
unfolding optional_string nullable_string
optional_string-nullable_string name fn valid input given =
    simp given (by_value (lookup name input))
  where
    by_value :
        (o : Option Value)
        → string_value name fn o valid
          ≡ (if is_nil_string o then panics_at_nil else nullable_value name (skip_null fn) o valid)
    by_value none = refl
    by_value (some null) = refl
    by_value (some (str s)) = refl
    by_value (some (str_ptr none)) = refl
    by_value (some (str_ptr (some s))) = refl
    by_value (some (bool b)) = refl
    by_value (some (bool_ptr p)) = refl
    by_value (some (another n)) = refl
