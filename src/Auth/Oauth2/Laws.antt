-- ===== src/Auth/Oauth2/Laws.antt =====
-- Which OAuth 2.0 tokens authenticate a request, whatever the order of the goroutines.
use core_go_nopgp.Base.{
  ◌==◌, Str, Bool, true, false, some, Go, ok, err, panic, ◌≡◌, ◌≢◌, ◌↔◌, refl, sym, subst, ap, ◌∙◌,
  Option-cases, inl, inr, arith, ==_iff, Bool-cases,
}
use core_go_nopgp.Errors.{Error}
use core_go_nopgp.Auth.Types.{
  AuthContext, BearerToken, Grants, Context, oauth2, user_suspended, with_user,
}
use core_go_nopgp.Auth.Bearer.{decode_bearer_token}
use core_go_nopgp.Auth.Grants.{decode_grants}
use core_go_nopgp.Auth.Env.{Env}
use core_go_nopgp.Auth.Lookup.{zero_auth, lookup_user, lookup_token_revocation, check_suspended}
use core_go_nopgp.Auth.Lookup.Laws.{check_suspended-ok, check_suspended_of_active}
use core_go_nopgp.Auth.Http.{refused, deny, pass_on, crash, handle}
use core_go_nopgp.Auth.Http.Laws.{Serves, Serves-handle, Serves-pass_on, with_user-injective}
use core_go_nopgp.Auth.Oauth2.{
  Shared, Schedule, lookup_first, revocation_first, run_both, oauth2_decide, oauth2_token,
  oauth2_auth,
}

abbrev start : Shared
start = record { auth = zero_auth; res = 0; temp_err = 0 }

-- Both goroutines have added to `res` exactly where the user was found and the token is not
-- revoked; the user is then the one that was found.
run_both-two :
    (schedule : Schedule) (user : Go Error AuthContext) (revoked : Go Error Bool) (s : Shared)
    → run_both schedule user revoked start ≡ ok s
    → s.res ≡ 2
    → (user ≡ ok s.auth) × (revoked ≡ ok false)
run_both-two lookup_first (ok a) (ok true) s h two = absurd (ground arith)
run_both-two lookup_first (ok a) (ok false) s h two = ground arith
run_both-two lookup_first (ok a) (err e) s h two = absurd (ground arith)
run_both-two lookup_first (ok a) (panic e) s h two = cc
run_both-two lookup_first (err e) (ok true) s h two = absurd (ground arith)
run_both-two lookup_first (err e) (ok false) s h two = absurd (ground arith)
run_both-two lookup_first (err e) (err f) s h two = absurd (ground arith)
run_both-two lookup_first (err e) (panic f) s h two = cc
run_both-two lookup_first (panic e) revoked s h two = cc
run_both-two revocation_first (ok a) (ok true) s h two = absurd (ground arith)
run_both-two revocation_first (ok a) (ok false) s h two = ground arith
run_both-two revocation_first (ok a) (err e) s h two = absurd (ground arith)
run_both-two revocation_first (err e) (ok true) s h two = absurd (ground arith)
run_both-two revocation_first (err e) (ok false) s h two = absurd (ground arith)
run_both-two revocation_first (err e) (err f) s h two = absurd (ground arith)
run_both-two revocation_first (panic e) (ok true) s h two = cc
run_both-two revocation_first (panic e) (ok false) s h two = cc
run_both-two revocation_first (panic e) (err f) s h two = cc
run_both-two revocation_first user (panic e) s h two = cc

-- The order in which the goroutines end does not matter, unless both panic.
run_both_comm :
    (user : Go Error AuthContext) (revoked : Go Error Bool) (s : Shared)
    → ((e f : Error) → user ≡ panic e → revoked ≢ panic f)
    → run_both lookup_first user revoked s ≡ run_both revocation_first user revoked s
run_both_comm (ok a) (ok true) s h = refl
run_both_comm (ok a) (ok false) s h = refl
run_both_comm (ok a) (err e) s h = refl
run_both_comm (ok a) (panic e) s h = refl
run_both_comm (err e) (ok true) s h = refl
run_both_comm (err e) (ok false) s h = refl
run_both_comm (err e) (err f) s h = refl
run_both_comm (err e) (panic f) s h = refl
run_both_comm (panic e) (ok true) s h = refl
run_both_comm (panic e) (ok false) s h = refl
run_both_comm (panic e) (err f) s h = refl
run_both_comm (panic e) (panic f) s h = absurd (h e f refl refl)

module _ (env : Env) (ctx : Context) where
  -- The token decodes, its user is found and not suspended, it is not revoked, and its grants are
  -- well-formed.
  pub record IsOauth2User (token hash : Str) (auth : AuthContext) : Type 0 where
    pub bt : BearerToken
    pub user : AuthContext
    pub grants : Grants
    pub decoded : decode_bearer_token env.primitives env.bare env.keys env.now token ≡ some bt
    pub found : lookup_user env ctx bt.username zero_auth ≡ ok user
    pub kept : lookup_token_revocation env ctx bt.username hash bt.client_id ≡ ok false
    pub active : user.user_type ≢ user_suspended
    pub granted : decode_grants ctx bt.grants ≡ ok grants
    pub same : auth ≡ record user {
      auth_method = oauth2;
      bearer_token = some bt;
      token_hash = hash;
      grants = grants;
    }

  abbrev granted_user : BearerToken → Str → AuthContext → Grants → AuthContext
  granted_user bt hash user grants = record user {
    auth_method = oauth2;
    bearer_token = some bt;
    token_hash = hash;
    grants = grants;
  }

  decide-Serves :
      (bt : BearerToken) (hash : Str) (s : Shared) (served : Context)
      → Serves (oauth2_decide env ctx bt hash s) served
      → (grants : Grants) × (s.res ≡ 2)
        × (s.auth.user_type ≢ user_suspended)
        × (decode_grants ctx bt.grants ≡ ok grants)
        × (served ≡ with_user ctx (granted_user bt hash s.auth grants))
  unfolding oauth2_decide
  decide-Serves bt hash s served h = elim (Bool-cases (s.res == 2)) [
    | inr few ↦ absurd (elim (Bool-cases (s.temp_err == 0)) [
      | inl none_failed ↦ rw (few, none_failed) at h
      | inr some_failed ↦ rw (few, some_failed) at h
    ])
    | inl both ↦
        let pass = λ (auth : AuthContext) (grants : Grants).
          pass_on (with_user ctx (granted_user bt hash auth grants)) in
        let (user, checked, h₁) =
          Serves-handle served (check_suspended s.auth) (λ e. deny (refused e) 403)
            (λ auth. handle (decode_grants ctx bt.grants) crash (pass auth)) (λ e x. x)
            (rw both at h) in
        let (grants, granted, h₂) =
          Serves-handle served (decode_grants ctx bt.grants) crash (pass user) (λ e x. x) h₁ in
        let (same, active) = check_suspended-ok s.auth checked in
        (
          grants,
          (==_iff s.res 2).0 both,
          active,
          granted,
          sym (Serves-pass_on h₂)
              ∙ ap (λ a. with_user ctx (granted_user bt hash a grants)) (sym same),
        )
  ]

  module _ (schedule : Schedule) (token hash : Str) where
    pub oauth2_auth-IsOauth2User :
        (served : Context)
        → Serves (oauth2_auth env ctx schedule token hash) served
        → (auth : AuthContext) × (served ≡ with_user ctx auth) × IsOauth2User token hash auth
    unfolding oauth2_auth
    oauth2_auth-IsOauth2User served h =
        elim (Option-cases (decode_bearer_token env.primitives env.bare env.keys env.now token)) [
          | inl e ↦ absurd (rw (e, oauth2_token) at h)
          | inr (bt, e) ↦
              let lookup = lookup_user env ctx bt.username zero_auth in
              let revoked = lookup_token_revocation env ctx bt.username hash bt.client_id in
              let (s, ran, h₁) =
                Serves-handle served (run_both schedule lookup revoked start) crash
                  (oauth2_decide env ctx bt hash) (λ x y. y) (rw e at h) in
              let (grants, two, active, granted, same) = decide-Serves bt hash s served h₁ in
              let (found, kept) = run_both-two schedule lookup revoked s ran two in
              (
                granted_user bt hash s.auth grants,
                same,
                record {
                  bt = bt;
                  user = s.auth;
                  grants = grants;
                  decoded = e;
                  found = found;
                  kept = kept;
                  active = active;
                  granted = granted;
                  same = refl;
                },
              )
        ]

    run_both_of_ok :
        (user : Go Error AuthContext) (revoked : Go Error Bool) (auth : AuthContext)
        → user ≡ ok auth
        → revoked ≡ ok false
        → run_both schedule user revoked start ≡ ok (record { auth = auth; res = 2; temp_err = 0 })
    run_both_of_ok user revoked auth u r = rw (u, r) (both schedule)
      where
        both :
            (order : Schedule)
            → run_both order (ok auth) (ok false) start
              ≡ ok (record { auth = auth; res = 2; temp_err = 0 })
        both lookup_first = refl
        both revocation_first = refl

    oauth2_auth_complete :
        (auth : AuthContext)
        → IsOauth2User token hash auth
        → oauth2_auth env ctx schedule token hash ≡ pass_on (with_user ctx auth)
    unfolding oauth2_auth oauth2_decide
    oauth2_auth_complete auth u =
        let ran =
          run_both_of_ok (lookup_user env ctx u.bt.username zero_auth)
            (lookup_token_revocation env ctx u.bt.username hash u.bt.client_id) u.user u.found
            u.kept in
        simp (u.decoded, ran, check_suspended_of_active u.user u.active, u.granted, u.same)

    -- An OAuth 2.0 token lets a request through as a user exactly where the token decodes, its
    -- user is found and not suspended, it is not revoked, and its grants are well-formed. Which
    -- goroutine ends first makes no difference.
    pub oauth2_auth_iff :
        (auth : AuthContext)
        → Serves (oauth2_auth env ctx schedule token hash) (with_user ctx auth)
          ↔ IsOauth2User token hash auth
    oauth2_auth_iff auth = (
      λ h.
          let (found, same, u) = oauth2_auth-IsOauth2User (with_user ctx auth) h in
          subst (IsOauth2User token hash) (sym (with_user-injective ctx auth found same)) u,
      λ u. rw (oauth2_auth_complete auth u) (inl refl),
    )
