-- ===== src/Auth/Legacy/Laws.antt =====
-- Which legacy tokens authenticate a request.
use core_go_nopgp.Base.{
  panicking, panicking-eq-ok, Str, codes, str_eq, str_eq_iff, not, ◌&&◌, false, Option, some, after,
  ok, if◌then◌else◌, ◌≡◌, ◌≢◌, refl, sym, subst, ap, ◌∙◌, Bool-cases, Option-cases, inl, inr, arith,
}
use core_go_nopgp.Database.Tx.{read_tx, runs_fn}
use core_go_nopgp.Database.Tx.Laws.{read_tx-ok}
use core_go_nopgp.Auth.Types.{AuthContext, Context, oauth_legacy, user_suspended, with_user}
use core_go_nopgp.Auth.Env.{Env}
use core_go_nopgp.Auth.Lookup.{check_suspended}
use core_go_nopgp.Auth.Lookup.Laws.{check_suspended-ok}
use core_go_nopgp.Auth.Http.{refused, invalid_legacy, legacy_scopes, deny, pass_on, crash, handle}
use core_go_nopgp.Auth.Http.Laws.{Serves, Serves-handle, Serves-if, Serves-pass_on}
use core_go_nopgp.Auth.Legacy.{
  LegacyToken, token_from_rows, or_no_token, is_missing, legacy_decide, legacy_oauth,
}

module _ (env : Env) (ctx : Context) where
  -- A token passes the checks: it has not expired, it has all the scopes, and its user is not
  -- suspended.
  pub record IsLegacyUser (token : LegacyToken) (auth : AuthContext) : Type 0 where
    pub current : after env.now token.expires ≡ false
    pub all_scopes : token.scopes ≡ codes "*"
    pub active : token.auth.user_type ≢ user_suspended
    pub same : auth ≡ record token.auth { auth_method = oauth_legacy }

  legacy_decide-Serves :
      (token : LegacyToken) (served : Context)
      → Serves (legacy_decide env ctx token) served
      → (auth : AuthContext) × (served ≡ with_user ctx auth) × IsLegacyUser token auth
  unfolding legacy_decide
  legacy_decide-Serves token served h =
      let pass = λ (auth : AuthContext).
        pass_on (with_user ctx (record auth { auth_method = oauth_legacy })) in
      let rest = λ (auth : AuthContext).
        if not (str_eq token.scopes (codes "*")) then deny legacy_scopes 403 else pass auth in
      let (current, h₁) =
        Serves-if served (after env.now token.expires) (deny invalid_legacy 403)
          (handle (check_suspended token.auth) (λ e. deny (refused e) 403) rest) (λ x. x) h in
      let (user, checked, h₂) =
        Serves-handle served (check_suspended token.auth) (λ e. deny (refused e) 403) rest
          (λ e x. x) h₁ in
      let (scoped, h₃) =
        Serves-if served (not (str_eq token.scopes (codes "*"))) (deny legacy_scopes 403)
          (pass user) (λ x. x) h₂ in
      let (same, active) = check_suspended-ok token.auth checked in
      (
        record token.auth { auth_method = oauth_legacy },
        sym (Serves-pass_on h₃)
            ∙ ap (λ (a : AuthContext). with_user ctx (record a { auth_method = oauth_legacy }))
                (sym same),
        record {
          current = current;
          all_scopes = (str_eq_iff token.scopes (codes "*")).0 (ground arith);
          active = active;
          same = refl;
        },
      )

  -- A legacy token lets a request through only as the user of a token that the database holds, has
  -- not expired and has all the scopes, and the user is not suspended.
  pub legacy_oauth-IsLegacyUser :
      (bearer : Str) (served : Context)
      → Serves (legacy_oauth env ctx bearer) served
      → (token : LegacyToken) × (auth : AuthContext) × (token_from_rows (env.oauth_tokens bearer)
          ≡ ok (some token))
        × (served ≡ with_user ctx auth)
        × IsLegacyUser token auth
  unfolding legacy_oauth
  legacy_oauth-IsLegacyUser bearer served h =
      let found = token_from_rows (env.oauth_tokens bearer) in
      let read = panicking (read_tx ctx.has_database env.answers found) in
      let decide = λ (token : Option LegacyToken). legacy_decide env ctx (or_no_token token) in
      let (o, ran, h₁) =
        Serves-handle served read crash decide (λ e x. x)
          (elim (Bool-cases (runs_fn ctx.has_database env.answers && is_missing found)) [
            | inl missing ↦ rw missing at h
            | inr there ↦ rw there at h
          ]) in
      let held = read_tx-ok ctx.has_database env.answers found (panicking-eq-ok _ ran) in
      let (auth, same, user) = legacy_decide-Serves (or_no_token o) served h₁ in
      elim (Option-cases o) [
        | inl e ↦ cc (subst (λ t. IsLegacyUser (or_no_token t) auth) e user).all_scopes
        | inr (token, e) ↦ (
          token,
          auth,
          held ∙ ap ok e,
          same,
          subst (λ t. IsLegacyUser (or_no_token t) auth) e user,
        )
      ]
