-- ===== src/Model.antt =====
-- model/cursor.go and model/filter.go: the cursors of paginated queries. The JSON encoding is a
-- parameter.
pub mod Laws
use core_go_nopgp.Base.{
  ℤ, pos, lt_ℤ, Str, codes, Option, none, some, [], ◌∷◌, ◌++◌, if◌then◌else◌, Go, ok, err, ◌>>=◌,
  must,
}
use core_go_nopgp.Errors.{Error, cursor_not_string, invalid_cursor, json_programmer_error}
use core_go_nopgp.Crypto.{Primitives, Keys, encrypt, decrypt_without_expiration}

pub record Cursor : Type 0 where
  pub count : ℤ
  pub next : Str
  pub search : Str

pub record Filter : Type 0 where
  pub count : Option ℤ
  pub search : Option Str

-- encoding/json at the type Cursor.
pub record Json : Type 0 where
  pub marshal : Cursor → Str
  pub unmarshal : Str → Option Cursor

-- `derefOrInt`
abbrev deref_or_int : Option ℤ → ℤ → ℤ
deref_or_int none d = d
deref_or_int (some i) d = i

abbrev pub page : ℤ → Cursor
page count = record { count = count; next = codes ""; search = codes "" }

-- `NewCursor`
unfoldable pub new_cursor : Option Filter → Cursor
new_cursor none = page (pos 25)
new_cursor (some filter) =
    let count = deref_or_int filter.count (pos 25) in
    page (if lt_ℤ (pos 0) count then count else pos 25)

module _ (p : Primitives) (keys : Keys) (json : Json) where
  abbrev decrypted : Option Str → Go Error Cursor
  decrypted none = err invalid_cursor
  decrypted (some plain) = must json_programmer_error (json.unmarshal plain)

  -- `UnmarshalGQL`; `none` is a value that is not a string.
  unfoldable pub unmarshal_gql : Option Str → Go Error Cursor
  unmarshal_gql none = err cursor_not_string
  unmarshal_gql (some enc) = decrypted (decrypt_without_expiration p keys enc)

  -- `MarshalGQL`, by what it writes.
  unfoldable pub marshal_gql : Cursor → Go Error Str
  marshal_gql cur = do token ← encrypt p keys (json.marshal cur); ok (b'"' ∷ (token ++ b'"' ∷ []))
