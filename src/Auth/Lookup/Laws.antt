-- ===== src/Auth/Lookup/Laws.antt =====
-- What the lookups of a user establish.
use mathlib.Core.Bool.{false≢true}
use core_go_nopgp.Base.{
  Str, str_eq, str_eq_iff, str_eq_ne, ok, >>=-eq-ok, ◌≡◌, ◌≢◌, inl, inr, Bool-cases, Option-cases,
}
use core_go_nopgp.Auth.Types.{AuthContext, Context, user_suspended}
use core_go_nopgp.Auth.Env.{Env}
use core_go_nopgp.Auth.Lookup.{
  zero_auth, check_suspended, lookup_user, auth_for_username, auth_for_oauth_client,
}

-- The check passes exactly the accounts that are not suspended, and changes nothing.
pub check_suspended-ok :
    (auth : AuthContext) {passed : AuthContext}
    → check_suspended auth ≡ ok passed
    → (auth ≡ passed) × (auth.user_type ≢ user_suspended)
unfolding check_suspended
check_suspended-ok auth h = elim (Bool-cases (str_eq auth.user_type user_suspended)) [
  | inl e ↦ elim (Option-cases auth.suspension_notice) [
    | inl missing ↦ cc (rw (e, missing) at h)
    | inr (notice, given) ↦ cc (rw (e, given) at h)
  ]
  | inr e ↦ (cc (rw e at h), λ same. false≢true (rw e at ((str_eq_iff _ _).1 same)))
]

pub check_suspended_of_active :
    (auth : AuthContext) → auth.user_type ≢ user_suspended → check_suspended auth ≡ ok auth
unfolding check_suspended
check_suspended_of_active auth h = rw (str_eq_ne auth.user_type user_suspended h)

module _ (env : Env) (ctx : Context) where
  pub auth_for_username-ok :
      (username : Str) {auth : AuthContext}
      → auth_for_username env ctx username ≡ ok auth
      → (lookup_user env ctx username zero_auth ≡ ok auth) × (auth.user_type ≢ user_suspended)
  unfolding auth_for_username
  auth_for_username-ok username h =
      let (found, looked_up, checked) =
        >>=-eq-ok (lookup_user env ctx username zero_auth) check_suspended h in
      let (same, active) = check_suspended-ok found checked in
      (rw (← same) looked_up, rw (← same) active)

  pub auth_for_oauth_client-active :
      (uuid : Str) {auth : AuthContext}
      → auth_for_oauth_client env ctx uuid ≡ ok auth
      → auth.user_type ≢ user_suspended
  unfolding auth_for_oauth_client
  auth_for_oauth_client-active uuid h =
      let (found, _, checked) = >>=-eq-ok _ check_suspended h in
      let (same, active) = check_suspended-ok found checked in rw (← same) active
