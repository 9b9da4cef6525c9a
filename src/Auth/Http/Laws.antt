-- ===== src/Auth/Http/Laws.antt =====
-- Which requests a handler lets through to the next one.
use mathlib.Core.Option.{some-injective}
use core_go_nopgp.Base.{
  ap, ℕ, ◌+◌, Bool, true, false, List, [], ◌∷◌, if◌then◌else◌, Go, ok, err, panic, ◌≡◌, ◌⊎◌, inl,
  inr, refl,
}
use core_go_nopgp.Errors.{Error}
use core_go_nopgp.Auth.Types.{AuthContext, Context, with_user}
use core_go_nopgp.Auth.Http.{Event, auth_error, serve, Handling, pass_on, handle}

-- Among the events the next handler is called with the context.
abbrev pub CallsNext : List Event → Context → Type 0
CallsNext [] ctx = ⊥
CallsNext (auth_error reason code ∷ events) ctx = CallsNext events ctx
CallsNext (serve given ∷ events) ctx = (given ≡ ctx) ⊎ CallsNext events ctx

abbrev pub Serves : Handling → Context → Type 0
Serves h ctx = CallsNext h.events ctx

pub Serves-pass_on : {given ctx : Context} → Serves (pass_on given) ctx → given ≡ ctx
Serves-pass_on (inl e) = e
Serves-pass_on (inr h) = absurd h

-- A handler that goes on only with a value, and serves, has had the value.
pub Serves-handle :
    (ctx : Context) {A : Type 0} (m : Go Error A) (on_error : Error → Handling) (k : A → Handling)
    → ((e : Error) → ¬ Serves (on_error e) ctx)
    → Serves (handle m on_error k) ctx
    → (a : A) × (m ≡ ok a) × Serves (k a) ctx
Serves-handle ctx (ok a) on_error k silent h = (a, refl, h)
Serves-handle ctx (err e) on_error k silent h = absurd (silent e h)
Serves-handle ctx (panic e) on_error k silent h = absurd h

pub Serves-if :
    (ctx : Context) (b : Bool) (h k : Handling)
    → (¬ Serves h ctx)
    → Serves (if b then h else k) ctx
    → (b ≡ false) × Serves k ctx
Serves-if ctx true h k silent s = absurd (silent s)
Serves-if ctx false h k silent s = (refl, s)

-- The number of calls of the next handler.
abbrev pub calls : List Event → ℕ
calls [] = 0
calls (auth_error reason code ∷ events) = calls events
calls (serve given ∷ events) = 1 + calls events

pub with_user-injective :
    (ctx : Context) (a b : AuthContext) → with_user ctx a ≡ with_user ctx b → a ≡ b
with_user-injective ctx a b e = some-injective a b (ap (λ (c : Context). c.user) e)
