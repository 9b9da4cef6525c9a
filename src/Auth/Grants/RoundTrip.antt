-- ===== src/Auth/Grants/RoundTrip.antt =====
-- `DecodeGrants` against the format that it reads: a list of grants, printed and decoded again.
use mathlib.Core.List.{append-nil}
use core_go_nopgp.Base.{
  Str, codes, str_eq, split, split_of_Free, split-append, Free, lookup, lookup-insert, insert, Map,
  List, [], ◌∷◌, ◌++◌, map, Bool, true, false, ◌&&◌, Option, none, some, if◌then◌else◌, ok, All,
  ◌≡◌, refl, arith, ◌∙◌, ap,
}
use core_go_nopgp.Config.{service_name}
use core_go_nopgp.Auth.Types.{Grants, Context, ro, rw_mode}
use core_go_nopgp.Auth.Grants.{scope_access, slash_parts, add_grant, add_grants, decode_grants, has}

-- A grant as the documentation writes it, `service/scope` or `service/scope:access`.
pub record Grant : Type 0 where
  pub service : Str
  pub scope : Str
  pub access : Option Str

abbrev pub print_access : Option Str → Str
print_access none = []
print_access (some a) = b':' ∷ a

abbrev pub print_grant : Grant → Str
print_grant g = g.service ++ (b'/' ∷ (g.scope ++ print_access g.access))

abbrev pub print_grants : Grant → List Grant → Str
print_grants g [] = print_grant g
print_grants g (h ∷ gs) = print_grant g ++ (b' ' ∷ print_grants h gs)

abbrev pub access_of : Option Str → Str
access_of none = ro
access_of (some a) = a

abbrev pub AccessIsPlain : Option Str → Type 0
AccessIsPlain none = Unit
AccessIsPlain (some a) = Free b':' a

-- The parts of a grant do not hold the separators that end them.
pub record IsPlain (g : Grant) : Type 0 where
  pub no_space : Free b' ' (print_grant g)
  pub service_no_slash : Free b'/' g.service
  pub rest_no_slash : Free b'/' (g.scope ++ print_access g.access)
  pub scope_no_colon : Free b':' g.scope
  pub access_no_colon : AccessIsPlain g.access

-- The access of the last grant for the scope of the service, if there is one.
pub last_access : Str → Str → List Grant → Option Str
last_access svc scope [] = none
last_access svc scope (g ∷ gs) = elim (last_access svc scope gs) [
  | some a ↦ some a
  | none ↦ if str_eq g.service svc && str_eq g.scope scope then some (access_of g.access) else none
]

split_space :
    (g : Grant) (gs : List Grant)
    → All IsPlain (g ∷ gs)
    → split b' ' (print_grants g gs) ≡ map print_grant (g ∷ gs)
split_space g [] (p, _) = split_of_Free b' ' _ p.no_space
split_space g (h ∷ gs) (p, ps) =
    split-append b' ' (print_grant g) (print_grants h gs) p.no_space
    ∙ ap (λ l. print_grant g ∷ l) (split_space h gs ps)

slash_parts-print :
    (g : Grant)
    → IsPlain g
    → slash_parts (split b'/' (print_grant g)) ≡ some (g.service, g.scope ++ print_access g.access)
unfolding slash_parts
slash_parts-print g p = rw (
  split-append b'/' g.service (g.scope ++ print_access g.access) p.service_no_slash,
  split_of_Free b'/' _ p.rest_no_slash,
)

scope_access-print :
    (scope : Str) (access : Option Str)
    → Free b':' scope
    → AccessIsPlain access
    → scope_access (split b':' (scope ++ print_access access)) ≡ (scope, access_of access)
unfolding scope_access
scope_access-print scope none p q = rw (append-nil, split_of_Free b':' scope p)
scope_access-print scope (some a) p q = rw (split-append b':' scope a p, split_of_Free b':' a q)

add_grant-print :
    (ctx : Context) (svc : Str) (g : Grant) (m : Map Str)
    → service_name ctx.config_context ≡ ok svc
    → IsPlain g
    → add_grant ctx (print_grant g) m
      ≡ ok (if str_eq g.service svc then insert g.scope (access_of g.access) m else m)
unfolding add_grant
add_grant-print ctx svc g m s p = rw (
  slash_parts-print g p,
  scope_access-print g.scope g.access p.scope_no_colon p.access_no_colon,
  s,
)

-- What the map of `DecodeGrants` holds after the loop, from any map that it started with.
abbrev or_else : Option Str → Option Str → Option Str
or_else none o = o
or_else (some a) o = some a

add_grants-print :
    (ctx : Context) (svc : Str) (gs : List Grant) (m : Map Str)
    → service_name ctx.config_context ≡ ok svc
    → All IsPlain gs
    → (r : Map Str) × (add_grants ctx (map print_grant gs) m ≡ ok r)
      × ((scope : Str) → lookup scope r ≡ or_else (last_access svc scope gs) (lookup scope m))
unfolding add_grants last_access
add_grants-print ctx svc [] m s p = (m, refl, λ scope. refl)
add_grants-print ctx svc (g ∷ gs) m s (p, ps) =
    let m' = if str_eq g.service svc then insert g.scope (access_of g.access) m else m in
    let (r, decoded, holds) = add_grants-print ctx svc gs m' s ps in
    (
      r,
      rw (add_grant-print ctx svc g m s p) decoded,
      λ scope. ground (arith, holds scope, lookup-insert g.scope scope (access_of g.access) m),
    )

print-ne-empty : (g : Grant) (gs : List Grant) → str_eq (print_grants g gs) (codes "") ≡ false
unfolding str_eq
print-ne-empty g gs = go g.service gs
  where
    go :
        (service : Str) (gs : List Grant)
        → str_eq (print_grants (record g { service = service }) gs) (codes "") ≡ false
    go [] [] = refl
    go [] (h ∷ gs) = refl
    go (c ∷ s) [] = refl
    go (c ∷ s) (h ∷ gs) = refl

-- What a token with these grants may do in the service: read with any grant for the scope, and
-- write if the last grant for the scope is "RW".
abbrev pub may_read : Option Str → Bool
may_read none = false
may_read (some access) = true

abbrev pub may_write : Option Str → Bool
may_write none = false
may_write (some access) = str_eq rw_mode access

abbrev granting : Map Str → Str → Grants
granting m text = record { read_only = false; all = false; grants = m; encoded = text }

has-granting :
    (m : Map Str) (text scope : Str) (o : Option Str)
    → lookup scope m ≡ or_else o none
    → (has (granting m text) scope ro ≡ ok (may_read o))
      × (has (granting m text) scope rw_mode ≡ ok (may_write o))
unfolding has str_eq
has-granting m text scope none h = rw h (refl, refl)
has-granting m text scope (some a) h = rw h (refl, refl)

pub record Decodes (svc : Str) (gs : List Grant) (text : Str) (g : Grants) : Type 0 where
  pub reads : (scope : Str) → has g scope ro ≡ ok (may_read (last_access svc scope gs))
  pub writes : (scope : Str) → has g scope rw_mode ≡ ok (may_write (last_access svc scope gs))
  pub encoded : g.encoded ≡ text

-- A list of one grant or more, printed and decoded in a service, gives grants that answer for
-- every scope as the list says: read access where a grant names the service and the scope, write
-- access where the last such grant is "RW"; they encode to the text again. The condition is that
-- the parts of each grant do not hold the separators.
pub decode_grants-print :
    (ctx : Context) (svc : Str) (g : Grant) (gs : List Grant)
    → service_name ctx.config_context ≡ ok svc
    → All IsPlain (g ∷ gs)
    → (r : Grants) × (decode_grants ctx (print_grants g gs) ≡ ok r)
      × Decodes svc (g ∷ gs) (print_grants g gs) r
unfolding decode_grants lookup
decode_grants-print ctx svc g gs s p =
    let (m, decoded, holds) = add_grants-print ctx svc (g ∷ gs) [] s p in
    let text = print_grants g gs in
    let answers =
      λ (scope : Str). has-granting m text scope (last_access svc scope (g ∷ gs)) (holds scope) in
    (
      granting m text,
      rw (print-ne-empty g gs, split_space g gs p, decoded),
      record {
        reads = λ scope. (answers scope).0;
        writes = λ scope. (answers scope).1;
        encoded = refl;
      },
    )
