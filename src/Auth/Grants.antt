-- ===== src/Auth/Grants.antt =====
-- `DecodeGrants` and the methods of `Grants` of auth/bearer.go.
pub mod RoundTrip
pub mod Access
use core_go_nopgp.Base.{
  Str, codes, str_eq, split, Map, lookup, insert, List, [], ◌∷◌, Bool, true, false, not, ◌&&◌,
  Option, none, some, if◌then◌else◌, Go, ok, panic, ◌>>=◌,
}
use core_go_nopgp.Config.{service_name}
use core_go_nopgp.Errors.{Error, grant_without_scope, invalid_access_mode}
use core_go_nopgp.Auth.Types.{Grants, Context, ro, rw_mode}

-- One grant of the list, taken apart: `service/scope` or `service/scope:access`. What follows a
-- second colon is dropped, and the access is "RO" where there is no colon.
unfoldable pub scope_access : List Str → Str × Str
scope_access [] = (codes "", ro)
scope_access (scope ∷ []) = (scope, ro)
scope_access (scope ∷ access ∷ _) = (scope, access)

-- The two parts round the slash; `none` where there is not exactly one.
unfoldable pub slash_parts : List Str → Option (Str × Str)
slash_parts (service ∷ rest ∷ []) = some (service, rest)
slash_parts _ = none

abbrev service_scope : Str → Option (Str × Str) → Go Error (Str × Str)
service_scope grant none = panic (grant_without_scope grant)
service_scope grant (some p) = ok p

-- The body of the loop.
unfoldable pub add_grant : Context → Str → Map Str → Go Error (Map Str)
unfolding scope_access slash_parts
add_grant ctx grant access_map = do
  (service, rest) ← service_scope grant (slash_parts (split b'/' grant))
  let (scope, access) = scope_access (split b':' rest)
  current ← service_name ctx.config_context
  ok (if str_eq service current then insert scope access access_map else access_map)

unfoldable pub add_grants : Context → List Str → Map Str → Go Error (Map Str)
add_grants ctx [] access_map = ok access_map
add_grants ctx (grant ∷ rest) access_map = do
  extended ← add_grant ctx grant access_map
  add_grants ctx rest extended

unfoldable pub decode_grants : Context → Str → Go Error Grants
unfolding add_grants add_grant
decode_grants ctx grants =
    if str_eq grants (codes "")
    then ok (record { read_only = false; all = true; grants = []; encoded = codes "" })
    else do
      access_map ← add_grants ctx (split b' ' grants) []
      ok (record { read_only = false; all = false; grants = access_map; encoded = grants })

abbrev mode_fits : Str → Option Str → Bool
mode_fits mode none = false
mode_fits mode (some access) = if str_eq mode ro then true else str_eq mode access

-- `(g *Grants) Has`
unfoldable pub has : Grants → Str → Str → Go Error Bool
has g grant mode =
    if not (str_eq mode ro) && not (str_eq mode rw_mode)
    then panic invalid_access_mode
    else if g.read_only && str_eq mode rw_mode
    then ok false
    else if g.all
    then ok true
    else ok (mode_fits mode (lookup grant g.grants))

-- `(g *Grants) Encode`
unfoldable pub encode : Grants → Str
encode g = g.encoded
