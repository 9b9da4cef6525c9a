-- ===== src/Auth/Middleware/Laws.antt =====
-- No request passes the middleware unauthenticated.
use mathlib.Core.Bool.{false≢true}
use core_go_nopgp.Base.{
  refl, ap, ◌∙◌, Str, codes, str_eq, str_eq_iff, split_two, true, false, none, some, List, ok, ◌≡◌,
  ◌≢◌, ◌⊎◌, inl, inr, sym, arith, Bool-cases, Option-cases,
}
use core_go_nopgp.Codec.Hex
use core_go_nopgp.Auth.Types.{
  cookie, internal, anon_internal, oauth2, oauth_legacy, user_suspended, AuthContext, Context,
  with_user,
}
use core_go_nopgp.Auth.Env.{Env, IpNet, to_lower}
use core_go_nopgp.Auth.Http.{header_required, deny}
use core_go_nopgp.Auth.Http.Laws.{Serves, Serves-if, Serves-pass_on}
use core_go_nopgp.Auth.Cookie.Laws.{IsCookieUser, cookie_auth-IsCookieUser}
use core_go_nopgp.Auth.Internal.Laws.{
  IsInternalUser, account, anonymous, IsInternal, internal_auth-IsInternal,
}
use core_go_nopgp.Auth.Oauth2.{Schedule}
use core_go_nopgp.Auth.Oauth2.Laws.{IsOauth2User, oauth2_auth-IsOauth2User}
use core_go_nopgp.Auth.Legacy.{LegacyToken, token_from_rows}
use core_go_nopgp.Auth.Legacy.Laws.{IsLegacyUser, legacy_oauth-IsLegacyUser}
use core_go_nopgp.Auth.Middleware.{
  Request, is_open, oauth_bearer_regex, oauth2_bearer_regex, bearer_method, header_method,
  cookie_method, middleware,
}

-- A text is never both a legacy token and an OAuth 2.0 token.
pub bearer_regexes_disjoint :
    (token : Str) → oauth2_bearer_regex token ≡ true → oauth_bearer_regex token ≡ false
unfolding oauth2_bearer_regex oauth_bearer_regex
bearer_regexes_disjoint token h = ground arith

module _ (env : Env) (nets : List IpNet) (r : Request) where
  -- The evidence on which a request was let through as a user. A cookie goes before the header.
  pub data IsAuthenticated (auth : AuthContext) : Type 0 where
    by_cookie :
        (value : Str)
        → r.cookie ≡ some value
        → IsCookieUser env r.context value auth
        → IsAuthenticated auth
    by_oauth2 :
        (scheme token : Str)
        → r.cookie ≡ none
        → split_two b' ' r.authorization ≡ some (scheme, token)
        → to_lower env scheme ≡ codes "bearer"
        → oauth2_bearer_regex token ≡ true
        → IsOauth2User env r.context token (env.sha512 token) auth
        → IsAuthenticated auth
    by_legacy :
        (scheme token : Str) (held : LegacyToken)
        → r.cookie ≡ none
        → split_two b' ' r.authorization ≡ some (scheme, token)
        → to_lower env scheme ≡ codes "bearer"
        → oauth_bearer_regex token ≡ true
        → token_from_rows (env.oauth_tokens (Hex.encode (env.sha512 token))) ≡ ok (some held)
        → IsLegacyUser env r.context held auth
        → IsAuthenticated auth
    by_internal :
        (scheme payload : Str)
        → r.cookie ≡ none
        → split_two b' ' r.authorization ≡ some (scheme, payload)
        → to_lower env scheme ≡ codes "internal"
        → IsInternal env r.context nets payload r.remote_addr auth
        → IsAuthenticated auth

  abbrev ServedAs : Context → Type 0
  ServedAs served =
      (auth : AuthContext) × (served ≡ with_user r.context auth) × IsAuthenticated auth

  module _ (schedule : Schedule) (served : Context) where
    module _ (scheme credentials : Str) (no_cookie : r.cookie ≡ none)
        (parts : split_two b' ' r.authorization ≡ some (scheme, credentials)) where
      bearer_method-ServedAs :
          to_lower env scheme ≡ codes "bearer"
          → Serves (bearer_method env nets schedule r credentials) served
          → ServedAs served
      unfolding bearer_method
      bearer_method-ServedAs is_bearer h = elim (Bool-cases (oauth2_bearer_regex credentials)) [
        | inl new ↦
            let (auth, same, u) =
              oauth2_auth-IsOauth2User env r.context schedule credentials (env.sha512 credentials)
                served (rw new at h) in
            (auth, same, by_oauth2 scheme credentials no_cookie parts is_bearer new u)
        | inr other ↦ elim (Bool-cases (oauth_bearer_regex credentials)) [
          | inl old ↦
              let (held, auth, found, same, u) =
                legacy_oauth-IsLegacyUser env r.context (Hex.encode (env.sha512 credentials)) served
                  (rw (other, old) at h) in
              (auth, same, by_legacy scheme credentials held no_cookie parts is_bearer old found u)
          | inr neither ↦ absurd (rw (other, neither) at h)
        ]
      ]

      header_method-ServedAs :
          Serves (header_method env nets schedule r (some (scheme, credentials))) served
          → ServedAs served
      header_method-ServedAs h = elim (Bool-cases (str_eq (to_lower env scheme) (codes "bearer"))) [
        | inl is_bearer ↦ bearer_method-ServedAs ((str_eq_iff _ _).0 is_bearer) (rw is_bearer at h)
        | inr other ↦ elim (Bool-cases (str_eq (to_lower env scheme) (codes "internal"))) [
          | inl is_internal ↦
              let (auth, same, u) =
                internal_auth-IsInternal env r.context nets credentials r.remote_addr served
                  (rw (other, is_internal) at h) in
              (
                auth,
                same,
                by_internal scheme credentials no_cookie parts ((str_eq_iff _ _).0 is_internal) u,
              )
          | inr neither ↦ absurd (rw (other, neither) at h)
        ]
      ]

    cookie_method-ServedAs :
        Serves (cookie_method env nets schedule r r.cookie) served → ServedAs served
    cookie_method-ServedAs h = elim (Option-cases r.cookie) [
      | inr (value, given) ↦
          let (auth, same, u) =
            cookie_auth-IsCookieUser env r.context value served (simp given at h) in
          (auth, same, by_cookie value given u)
      | inl no_cookie ↦
          let (_, h₁) =
            Serves-if served (str_eq r.authorization (codes "")) (deny header_required 401)
              (header_method env nets schedule r (split_two b' ' r.authorization)) (λ x. x)
              (simp no_cookie at h) in
          elim (Option-cases (split_two b' ' r.authorization)) [
            | inl one ↦ absurd (rw (one, header_method) at h₁)
            | inr ((scheme, credentials), two) ↦
                header_method-ServedAs scheme credentials no_cookie two (rw two at h₁)
          ]
    ]

    -- The middleware hands a request on unchanged where its path is open, and otherwise only with
    -- a user for whom there is evidence: a cookie, an OAuth 2.0 token, a legacy token or an
    -- internal request.
    pub middleware-IsAuthenticated :
        Serves (middleware env nets schedule r) served
        → ((is_open env r.path ≡ true) × (served ≡ r.context))
          ⊎ ((is_open env r.path ≡ false)
              × ((auth : AuthContext) × (served ≡ with_user r.context auth) × IsAuthenticated auth))
    unfolding middleware
    middleware-IsAuthenticated h = elim (Bool-cases (is_open env r.path)) [
      | inl free ↦ inl (free, sym (Serves-pass_on (rw free at h)))
      | inr guarded ↦ inr (guarded, cookie_method-ServedAs (rw guarded at h))
    ]

module _ (env : Env) (nets : List IpNet) (schedule : Schedule) (r : Request)
    (served : Context) where
  -- What a resolver can rely on: the account is not suspended, and the method is none that a
  -- request cannot have.
  pub record IsAdmitted (auth : AuthContext) : Type 0 where
    pub active : auth.user_type ≢ user_suspended
    pub method :
        (auth.auth_method ≡ cookie)
        ⊎ (auth.auth_method ≡ oauth2)
        ⊎ (auth.auth_method ≡ oauth_legacy)
        ⊎ (auth.auth_method ≡ internal)
        ⊎ (auth.auth_method ≡ anon_internal)

  IsInternalUser-IsAdmitted : (user : AuthContext) → IsInternalUser user → IsAdmitted user
  IsInternalUser-IsAdmitted user (account m active) = record {
    active = active;
    method = inr (inr (inr (inl m)));
  }
  IsInternalUser-IsAdmitted user (anonymous m untyped) = record {
    active = λ h. cc;
    method = inr (inr (inr (inr m)));
  }

  IsAuthenticated-IsAdmitted :
      (auth : AuthContext) → IsAuthenticated env nets r auth → IsAdmitted auth
  IsAuthenticated-IsAdmitted auth (by_cookie value given u) =
      simp u.same (record { active = u.active; method = inl refl })
  IsAuthenticated-IsAdmitted auth (by_oauth2 scheme token a b c d u) =
      simp u.same (record { active = u.active; method = inr (inl refl) })
  IsAuthenticated-IsAdmitted auth (by_legacy scheme token held a b c d e u) =
      simp u.same (record { active = u.active; method = inr (inr (inl refl)) })
  IsAuthenticated-IsAdmitted auth (by_internal scheme payload a b c u) =
      let user = IsInternalUser-IsAdmitted u.user u.kind in
      simp u.same (record { active = user.active; method = user.method })

  -- Behind the middleware, on a path that is not open, the context has a user, who is not
  -- suspended and came by a cookie, OAuth 2.0, legacy OAuth or an internal request.
  pub middleware-IsAdmitted :
      is_open env r.path ≡ false
      → Serves (middleware env nets schedule r) served
      → (auth : AuthContext) × (served.user ≡ some auth) × IsAdmitted auth
  middleware-IsAdmitted guarded h = elim (middleware-IsAuthenticated env nets r schedule served h) [
    | inl (free, _) ↦ absurd (false≢true (sym guarded ∙ free))
    | inr (_, (auth, same, evidence)) ↦
        (auth, ap (λ (c : Context). c.user) same, IsAuthenticated-IsAdmitted auth evidence)
  ]
