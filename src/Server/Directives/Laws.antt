-- ===== src/Server/Directives/Laws.antt =====
-- Which requests the directives let through to the resolver.
use mathlib.Core.Bool.{false≢true}
use core_go_nopgp.Base.{
  Option-cases, Str, codes, str_eq, str_eq_iff, Bool, true, false, Option, some, if◌then◌else◌, Go,
  ok, err, panic, ◌>>=◌, ◌≡◌, ◌⊎◌, ◌↔◌, inl, inr, refl, arith, Bool-cases,
}
use core_go_nopgp.Errors.{
  Error, nil_dereference, private_denied, webhook_write_denied, anonymous_denied, method_denied,
  unknown_auth_method,
}
use core_go_nopgp.Auth.Types.{
  AuthMethod, oauth_legacy, oauth2, cookie, internal, anon_internal, webhook, other, AuthContext,
  BearerToken, Context, Grants, ro, user_for_context,
}
use core_go_nopgp.Auth.Grants.{has}
use core_go_nopgp.Server.Directives.{when_accessible, when_private, access, private_only}

-- A guard comes to what the guarded thing does.
abbrev pub Passes : {X A : Type 0} → (X → Go Error A) → (X → Go Error A) → Type 0
Passes {X} run guarded = (x : X) → guarded x ≡ run x

-- The guarded thing is not run: the outcome is an error or a panic, the same for all of them.
pub data Refuses {X A : Type 0} (guarded : X → Go Error A) : Type 0 where
  with_err : (e : Error) → ((x : X) → guarded x ≡ err e) → Refuses guarded
  with_panic : (e : Error) → ((x : X) → guarded x ≡ panic e) → Refuses guarded

-- A guard decides `P`: it passes and `P` holds, or it refuses and `P` does not hold.
abbrev pub Decides : {X A : Type 0} → (X → Go Error A) → (X → Go Error A) → Type 0 → Type 0
Decides run guarded P = (Passes run guarded × P) ⊎ (Refuses guarded × (¬ P))

pub Decides-iff :
    {X A : Type 0} {run guarded : X → Go Error A} {P Q : Type 0}
    → P ↔ Q
    → Decides run guarded P
    → Decides run guarded Q
Decides-iff e (inl (passes, h)) = inl (passes, e.0 h)
Decides-iff e (inr (refuses, h)) = inr (refuses, λ q. h (e.1 q))

-- What each way to authenticate may do with a scope in a mode.
abbrev pub MayAccess : AuthMethod → Grants → Str → Str → Type 0
MayAccess internal g scope kind = Unit
MayAccess cookie g scope kind = Unit
MayAccess oauth_legacy g scope kind = kind ≡ ro
MayAccess webhook g scope kind = (kind ≡ ro) × (has g scope kind ≡ ok true)
MayAccess oauth2 g scope kind = has g scope kind ≡ ok true
MayAccess anon_internal g scope kind = ⊥
MayAccess (other _) g scope kind = ⊥

-- An OAuth 2.0 token counts as the user's own if it belongs to no client.
abbrev pub IsPrivate : AuthMethod → Option BearerToken → Type 0
IsPrivate internal token = Unit
IsPrivate cookie token = Unit
IsPrivate oauth2 token = (t : BearerToken) × (token ≡ some t) × (t.client_id ≡ codes "")
IsPrivate _ token = ⊥

module _ {A : Type 0} where
  abbrev same : Go Error A → Go Error A
  same resolved = resolved

  granted-Decides :
      (granted : Go Error Bool)
      → Decides {A = A} same
          (λ resolved. granted >>= λ b. if b then resolved else err method_denied)
          (granted ≡ ok true)
  granted-Decides (ok true) = inl (λ r. refl, refl)
  granted-Decides (ok false) = inr (with_err method_denied (λ r. refl), λ h. cc)
  granted-Decides (err e) = inr (with_err e (λ r. refl), λ h. cc)
  granted-Decides (panic e) = inr (with_panic e (λ r. refl), λ h. cc)

  when_accessible-Decides :
      (m : AuthMethod) (user : AuthContext) (scope kind : Str)
      → Decides {A = A} same
          (when_accessible m user scope kind)
          (MayAccess m user.grants scope kind)
  when_accessible-Decides internal user scope kind = inl (λ r. refl, tt)
  when_accessible-Decides cookie user scope kind = inl (λ r. refl, tt)
  when_accessible-Decides oauth_legacy user scope kind = elim (Bool-cases (str_eq kind ro)) [
    | inl e ↦ inl (λ r. rw e, (str_eq_iff kind ro).0 e)
    | inr e ↦
        inr
          (with_err method_denied (λ r. rw e), λ h. false≢true (rw e at ((str_eq_iff kind ro).1 h)))
  ]
  when_accessible-Decides oauth2 user scope kind = granted-Decides (has user.grants scope kind)
  when_accessible-Decides webhook user scope kind = elim (Bool-cases (str_eq kind ro)) [
    | inl e ↦ elim (granted-Decides (has user.grants scope kind)) [
      | inl (passes, h) ↦ inl (λ r. rw e (passes r), ((str_eq_iff kind ro).0 e, h))
      | inr (with_err f refuses, h) ↦ inr (with_err f (λ r. rw e (refuses r)), λ p. h p.1)
      | inr (with_panic f refuses, h) ↦ inr (with_panic f (λ r. rw e (refuses r)), λ p. h p.1)
    ]
    | inr e ↦ inr (
      with_err webhook_write_denied (λ r. rw e),
      λ h. false≢true (rw e at ((str_eq_iff kind ro).1 h.0)),
    )
  ]
  when_accessible-Decides anon_internal user scope kind =
      inr (with_err anonymous_denied (λ r. refl), λ h. h)
  when_accessible-Decides (other _) user scope kind =
      inr (with_panic unknown_auth_method (λ r. refl), λ h. h)

  when_private-Decides :
      (m : AuthMethod) (user : AuthContext)
      → Decides {A = A} same (when_private m user) (IsPrivate m user.bearer_token)
  when_private-Decides internal user = inl (λ r. refl, tt)
  when_private-Decides cookie user = inl (λ r. refl, tt)
  when_private-Decides oauth2 user = elim (Option-cases user.bearer_token) [
    | inl e ↦ inr (with_panic nil_dereference (λ r. rw e), λ (t, h, _). cc)
    | inr (t, e) ↦ elim (Bool-cases (str_eq t.client_id (codes ""))) [
      | inl same ↦ inl (λ r. rw (e, same), (t, e, (str_eq_iff _ _).0 same))
      | inr differs ↦ inr (
        with_err private_denied (λ r. rw (e, differs)),
        λ (u, h, no_client). ground (arith, str_eq_iff t.client_id (codes "")),
      )
    ]
  ]
  when_private-Decides _ user = inr (with_err private_denied (λ r. refl), λ h. h)

  through :
      (ctx : Context) (f : Go Error A → Go Error A) (P : Type 0)
      → Decides same f P
      → Decides {X = Context → Go Error A} (λ next. next ctx) (λ next. f (next ctx)) P
  through ctx f P (inl (passes, h)) = inl (λ next. passes (next ctx), h)
  through ctx f P (inr (with_err e refuses, h)) = inr (with_err e (λ next. refuses (next ctx)), h)
  through ctx f P (inr (with_panic e refuses, h)) =
      inr (with_panic e (λ next. refuses (next ctx)), h)

  module _ (ctx : Context) (user : AuthContext) (known : ctx.user ≡ some user) where
    -- Access runs the resolver exactly for the requests that may access the scope in the mode:
    -- internal and cookie authentication always, legacy OAuth to read, OAuth 2.0 as its grants
    -- say, webhooks as their grants say and to read, anonymous and unknown methods never.
    pub access-Decides :
        (scope kind : Str)
        → Decides {X = Context → Go Error A}
            (λ next. next ctx)
            (λ next. access ctx next scope kind)
            (MayAccess user.auth_method user.grants scope kind)
    unfolding access user_for_context
    access-Decides scope kind = simp known (
        through ctx (when_accessible user.auth_method user scope kind) _
          (when_accessible-Decides user.auth_method user scope kind))

    -- Private runs the resolver exactly for internal and cookie authentication and for OAuth 2.0
    -- tokens that were issued to no client.
    pub private_only-Decides :
        Decides {X = Context → Go Error A}
          (λ next. next ctx)
          (λ next. private_only ctx next)
          (IsPrivate user.auth_method user.bearer_token)
    unfolding private_only user_for_context
    private_only-Decides = simp known (
        through ctx (when_private user.auth_method user) _
          (when_private-Decides user.auth_method user))
