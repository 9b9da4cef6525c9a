-- ===== src/Auth/Cookie/Laws.antt =====
-- Which cookies authenticate a request, and as whom.
use core_go_nopgp.Base.{
  Str, some, ok, ◌≡◌, ◌≢◌, refl, sym, Option-cases, must-eq-ok, inl, inr, must,
}
use core_go_nopgp.Crypto.{decrypt_without_expiration}
use core_go_nopgp.Errors.{json_programmer_error}
use core_go_nopgp.Auth.Types.{AuthContext, Context, cookie, user_suspended, with_user}
use core_go_nopgp.Auth.Env.{Env}
use core_go_nopgp.Auth.Lookup.{zero_auth, lookup_user, auth_for_username}
use core_go_nopgp.Auth.Lookup.Laws.{auth_for_username-ok}
use core_go_nopgp.Auth.Http.{refused, deny, pass_on, crash}
use core_go_nopgp.Auth.Http.Laws.{Serves, Serves-handle, Serves-pass_on}
use core_go_nopgp.Auth.Cookie.{cookie_user, cookie_payload, cookie_auth}

module _ (env : Env) (ctx : Context) where
  -- The cookie decrypts to the name of a user who is found and is not suspended.
  pub record IsCookieUser (value : Str) (auth : AuthContext) : Type 0 where
    pub payload : Str
    pub name : Str
    pub user : AuthContext
    pub decrypted : decrypt_without_expiration env.primitives env.keys value ≡ some payload
    pub decoded : env.unmarshal_cookie payload ≡ some name
    pub found : lookup_user env ctx name zero_auth ≡ ok user
    pub active : user.user_type ≢ user_suspended
    pub same : auth ≡ record user { auth_method = cookie }

  -- A request with a cookie is let through only as the user that the decrypted cookie names, who
  -- is found and not suspended.
  pub cookie_auth-IsCookieUser :
      (value : Str) (served : Context)
      → Serves (cookie_auth env ctx value) served
      → (auth : AuthContext) × (served ≡ with_user ctx auth) × IsCookieUser value auth
  unfolding cookie_auth
  cookie_auth-IsCookieUser value served h =
      elim (Option-cases (decrypt_without_expiration env.primitives env.keys value)) [
        | inl e ↦ absurd (rw (e, cookie_payload) at h)
        | inr (payload, e) ↦
            let (name, decoded, h₁) =
              Serves-handle served (must json_programmer_error (env.unmarshal_cookie payload)) crash
                (cookie_user env ctx) (λ x s. s) (rw e at h) in
            let (user, looked_up, h₂) =
              Serves-handle served (auth_for_username env ctx name) (λ x. deny (refused x) 403)
                (λ auth. pass_on (with_user ctx (record auth { auth_method = cookie }))) (λ x s. s)
                h₁ in
            let (found, active) = auth_for_username-ok env ctx name looked_up in
            (
              record user { auth_method = cookie },
              sym (Serves-pass_on h₂),
              record {
                payload = payload;
                name = name;
                user = user;
                decrypted = e;
                decoded = must-eq-ok _ _ decoded;
                found = found;
                active = active;
                same = refl;
              },
            )
      ]
