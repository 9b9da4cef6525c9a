-- ===== src/Server/Directives.antt =====
-- server/directives.go: the GraphQL directives that guard a resolver. A resolver is a function of
-- the context; the object that it resolves on is passed along and not looked at.
pub mod Laws
pub mod Webhook
use core_go_nopgp.Base.{
  Str, codes, str_eq, Bool, true, false, not, Option, if◌then◌else◌, Go, ok, err, panic, ◌>>=◌,
  must,
}
use core_go_nopgp.Errors.{
  Error, nil_dereference, internal_denied, private_denied, webhook_write_denied, anonymous_denied,
  method_denied, unknown_auth_method,
}
use core_go_nopgp.Auth.Types.{
  AuthMethod, oauth_legacy, oauth2, cookie, internal, anon_internal, webhook, other, AuthContext,
  Context, ro, user_for_context,
}
use core_go_nopgp.Auth.Grants.{has}

module _ {A : Type 0} where
  abbrev when_anon_internal : AuthMethod → Go Error A → Go Error A
  when_anon_internal anon_internal resolved = resolved
  when_anon_internal _ resolved = err internal_denied

  -- `AnonInternal`
  unfoldable pub anon_internal_only : Context → (Context → Go Error A) → Go Error A
  anon_internal_only ctx next = do
    user ← user_for_context ctx
    when_anon_internal user.auth_method (next ctx)

  abbrev when_internal : AuthMethod → Go Error A → Go Error A
  when_internal internal resolved = resolved
  when_internal _ resolved = err internal_denied

  -- `Internal`
  unfoldable pub internal_only : Context → (Context → Go Error A) → Go Error A
  internal_only ctx next = do user ← user_for_context ctx; when_internal user.auth_method (next ctx)

  abbrev when_private : AuthMethod → AuthContext → Go Error A → Go Error A
  when_private internal user resolved = resolved
  when_private cookie user resolved = resolved
  when_private oauth2 user resolved = do
    token ← must nil_dereference user.bearer_token
    if not (str_eq token.client_id (codes "")) then err private_denied else resolved
  when_private _ user resolved = err private_denied

  -- `Private`
  unfoldable pub private_only : Context → (Context → Go Error A) → Go Error A
  private_only ctx next = do
    user ← user_for_context ctx
    when_private user.auth_method user (next ctx)

  -- The case of AUTH_OAUTH2, into which that of AUTH_WEBHOOK falls through.
  abbrev when_granted : AuthContext → Str → Str → Go Error A → Go Error A
  when_granted user scope kind resolved = do
    granted ← has user.grants scope kind
    if granted then resolved else err method_denied

  abbrev when_accessible : AuthMethod → AuthContext → Str → Str → Go Error A → Go Error A
  when_accessible internal user scope kind resolved = resolved
  when_accessible cookie user scope kind resolved = resolved
  when_accessible oauth_legacy user scope kind resolved =
      if str_eq kind ro then resolved else err method_denied
  when_accessible webhook user scope kind resolved =
      if not (str_eq kind ro)
      then err webhook_write_denied
      else when_granted user scope kind resolved
  when_accessible oauth2 user scope kind resolved = when_granted user scope kind resolved
  when_accessible anon_internal user scope kind resolved = err anonymous_denied
  when_accessible (other _) user scope kind resolved = panic unknown_auth_method

  -- `Access`
  unfoldable pub access : Context → (Context → Go Error A) → Str → Str → Go Error A
  access ctx next scope kind = do
    user ← user_for_context ctx
    when_accessible user.auth_method user scope kind (next ctx)
