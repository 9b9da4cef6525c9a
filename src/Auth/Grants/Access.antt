-- ===== src/Auth/Grants/Access.antt =====
-- What `Has` permits, and which lists `DecodeGrants` refuses.
use mathlib.Core.Bool.{false≢true}
use core_go_nopgp.Base.{
  Bool-cases, Option-cases, inl, inr, str_eq_refl, Str, codes, str_eq, str_eq_iff, split, lookup,
  insert, Map, List, [], ◌∷◌, ℕ, suc, ◌==◌, length, ap, ◌∙◌, true, false, none, some, if◌then◌else◌,
  ok, >>=-eq-ok, ◌≡◌, ◌≢◌, ◌↔◌, ◌⊎◌, refl, arith, All,
}
use core_go_nopgp.Config.{service_name}
use core_go_nopgp.Auth.Types.{Grants, Context, ro, rw_mode}
use core_go_nopgp.Auth.Grants.{scope_access, slash_parts, add_grant, add_grants, decode_grants, has}

-- What `Has` is to permit, without the order of its tests.
pub record IsPermitted (g : Grants) (scope mode : Str) : Type 0 where
  pub is_mode : (mode ≡ ro) ⊎ (mode ≡ rw_mode)
  pub not_restricted : g.read_only ≡ true → mode ≡ ro
  pub granted :
      (g.all ≡ true)
      ⊎ ((access : Str) × (lookup scope g.grants ≡ some access) × ((mode ≡ ro) ⊎ (access ≡ mode)))

ro-ne-rw : ro ≢ rw_mode
unfolding str_eq
ro-ne-rw h = false≢true ((str_eq_iff ro rw_mode).1 h)

has-IsPermitted :
    (g : Grants) (scope mode : Str) → has g scope mode ≡ ok true → IsPermitted g scope mode
unfolding has
has-IsPermitted g scope mode h = record {
  is_mode = ground (arith, str_eq_iff mode ro, str_eq_iff mode rw_mode);
  not_restricted = λ r. ground (arith, str_eq_iff mode ro, str_eq_iff mode rw_mode);
  granted = elim (Option-cases (lookup scope g.grants)) [
    | inl e ↦ ground arith
    | inr (access, e) ↦ elim (Bool-cases g.all) [
      | inl a ↦ inl a
      | inr a ↦ inr (access, e, ground (arith, str_eq_iff mode ro, str_eq_iff mode access))
    ]
  ];
}

IsPermitted-has :
    (g : Grants) (scope mode : Str) → IsPermitted g scope mode → has g scope mode ≡ ok true
unfolding has
IsPermitted-has g scope mode p = ground (
  arith,
  str_eq_iff mode ro,
  str_eq_iff mode rw_mode,
  str_eq_refl mode,
  str_eq_iff mode mode,
  ro-ne-rw,
  p.granted,
  p.is_mode,
  p.not_restricted,
)

-- Has says yes exactly when the mode is "RO" or "RW", read-only grants are asked for no more than
-- "RO", and either all is granted or the scope has an access which is that mode or the mode is
-- "RO".
pub has-true_iff :
    (g : Grants) (scope mode : Str) → (has g scope mode ≡ ok true) ↔ IsPermitted g scope mode
has-true_iff g scope mode = (has-IsPermitted g scope mode, IsPermitted-has g scope mode)

-- In read-only grants no scope can be written, not even where all is granted.
pub has-read_only : (g : Grants) (scope : Str) → g.read_only ≡ true → has g scope rw_mode ≡ ok false
unfolding has str_eq
has-read_only g scope h = rw h

-- Making grants read-only keeps every read and takes away every write.
pub has-restricted :
    (g : Grants) (scope : Str)
    → (has (record g { read_only = true }) scope ro ≡ has g scope ro)
      × (has (record g { read_only = true }) scope rw_mode ≡ ok false)
unfolding has str_eq
has-restricted g scope = ground arith

-- A grant to write is a grant to read.
pub has-read_of_write :
    (g : Grants) (scope : Str) → has g scope rw_mode ≡ ok true → has g scope ro ≡ ok true
unfolding has str_eq
has-read_of_write g scope h = ground arith

-- How often a byte is in a text.
abbrev count : ℕ → Str → ℕ
count sep [] = 0
count sep (c ∷ s) = let rest = count sep s in if c == sep then suc rest else rest

-- A grant has one slash.
abbrev pub IsGrant : Str → Type 0
IsGrant grant = count b'/' grant ≡ 1

split_not_nil : (sep : ℕ) (s : Str) → (w : Str) × (ws : List Str) × (split sep s ≡ w ∷ ws)
unfolding split
split_not_nil sep [] = ([], [], refl)
split_not_nil sep (c ∷ s) =
    let (w, ws, e) = split_not_nil sep s in
    elim (Bool-cases (c == sep)) [
      | inl here ↦ ([], split sep s, rw here refl)
      | inr other ↦ (c ∷ w, ws, rw (other, e) refl)
    ]

length-split : (sep : ℕ) (s : Str) → length (split sep s) ≡ suc (count sep s)
unfolding split
length-split sep [] = refl
length-split sep (c ∷ s) =
    let (w, ws, e) = split_not_nil sep s in
    let ih = length-split sep s in
    elim (Bool-cases (c == sep)) [
      | inl here ↦ rw here (ap suc ih)
      | inr other ↦ rw (other, e) (rw e at ih)
    ]

slash_parts-two : (l : List Str) → length l ≡ 2 → slash_parts l ≢ none
unfolding slash_parts
slash_parts-two [] h = absurd (omega (arith, h))
slash_parts-two (a ∷ []) h = absurd (omega (arith, h))
slash_parts-two (a ∷ b ∷ []) h = λ e. cc
slash_parts-two (a ∷ b ∷ c ∷ l) h = absurd (omega (arith, h))

two-slash_parts : (l : List Str) → slash_parts l ≢ none → length l ≡ 2
unfolding slash_parts
two-slash_parts [] h = absurd (h refl)
two-slash_parts (a ∷ []) h = absurd (h refl)
two-slash_parts (a ∷ b ∷ []) h = refl
two-slash_parts (a ∷ b ∷ c ∷ l) h = absurd (h refl)

IsGrant-parts : (grant : Str) → IsGrant grant → slash_parts (split b'/' grant) ≢ none
IsGrant-parts grant h = slash_parts-two (split b'/' grant) (length-split b'/' grant ∙ ap suc h)

parts-IsGrant : (grant : Str) → slash_parts (split b'/' grant) ≢ none → IsGrant grant
parts-IsGrant grant h = omega (arith, length-split b'/' grant, two-slash_parts (split b'/' grant) h)

abbrev everything : Grants
everything = record { read_only = false; all = true; grants = []; encoded = codes "" }

abbrev granted_map : Str → Str → Map Str → Str × Str → Map Str
granted_map svc grant m (service, rest) =
    let (scope, access) = scope_access (split b':' rest) in
    if str_eq service svc then insert scope access m else m

module _ (ctx : Context) (svc : Str) (served : service_name ctx.config_context ≡ ok svc) where
  add_grant-ok :
      (grant : Str) (m : Map Str) → IsGrant grant → (r : Map Str) × (add_grant ctx grant m ≡ ok r)
  unfolding add_grant
  add_grant-ok grant m h = elim (Option-cases (slash_parts (split b'/' grant))) [
    | inl e ↦ absurd (IsGrant-parts grant h e)
    | inr (p, e) ↦ (granted_map svc grant m p, rw (e, served))
  ]

  IsGrant-add_grant : (grant : Str) (m r : Map Str) → add_grant ctx grant m ≡ ok r → IsGrant grant
  unfolding add_grant
  IsGrant-add_grant grant m r h = parts-IsGrant grant (λ e. cc (rw e at h))

  add_grants-ok :
      (grants : List Str) (m : Map Str)
      → All IsGrant grants
      → (r : Map Str) × (add_grants ctx grants m ≡ ok r)
  unfolding add_grants
  add_grants-ok [] m h = (m, refl)
  add_grants-ok (grant ∷ rest) m (h, hs) =
      let (m', e) = add_grant-ok grant m h in let (r, e') = add_grants-ok rest m' hs in (r, rw e e')

  IsGrant-add_grants :
      (grants : List Str) (m r : Map Str) → add_grants ctx grants m ≡ ok r → All IsGrant grants
  unfolding add_grants
  IsGrant-add_grants [] m r h = tt
  IsGrant-add_grants (grant ∷ rest) m r h =
      let (m', here, later) = >>=-eq-ok (add_grant ctx grant m) (add_grants ctx rest) h in
      (IsGrant-add_grant grant m m' here, IsGrant-add_grants rest m' r later)

  decode_grants-ok :
      (text : Str)
      → (text ≡ codes "") ⊎ All IsGrant (split b' ' text)
      → (g : Grants) × (decode_grants ctx text ≡ ok g)
  unfolding decode_grants
  decode_grants-ok text (inl h) = (everything, rw ((str_eq_iff text (codes "")).1 h))
  decode_grants-ok text (inr h) = elim (Bool-cases (str_eq text (codes ""))) [
    | inl e ↦ (everything, rw e)
    | inr e ↦
        let (m, e') = add_grants-ok (split b' ' text) [] h in
        (record { read_only = false; all = false; grants = m; encoded = text }, rw (e, e'))
  ]

  IsGrant-decode_grants :
      (text : Str) (g : Grants)
      → decode_grants ctx text ≡ ok g
      → (text ≡ codes "") ⊎ All IsGrant (split b' ' text)
  unfolding decode_grants
  IsGrant-decode_grants text g h = elim (Bool-cases (str_eq text (codes ""))) [
    | inl e ↦ inl ((str_eq_iff _ _).0 e)
    | inr e ↦
        let (m, e', _) = >>=-eq-ok (add_grants ctx (split b' ' text) []) _ (rw e at h) in
        inr (IsGrant-add_grants _ [] m e')
  ]

  -- In a context with a service name, DecodeGrants returns exactly when the text is empty or each
  -- of its parts between spaces has exactly one slash; otherwise it does not return.
  pub decode_grants-ok_iff :
      (text : Str)
      → ((g : Grants) × (decode_grants ctx text ≡ ok g))
        ↔ ((text ≡ codes "") ⊎ All IsGrant (split b' ' text))
  decode_grants-ok_iff text = (λ (g, h). IsGrant-decode_grants text g h, decode_grants-ok text)
