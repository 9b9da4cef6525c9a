-- ===== src/Server/Handler/Handles.antt =====
-- Which requests reach a handler of the router.
use core_go_nopgp.Base.{List, [], ◌∷◌, ◌++◌, ◌≡◌, ◌⊎◌, inl, inr, refl}
use core_go_nopgp.Auth.Types.{Context}
use core_go_nopgp.Auth.Http.{Event, auth_error, serve, Ending, returned, panicked}
use core_go_nopgp.Auth.Http.Laws.{CallsNext}
use core_go_nopgp.Server.Assembly.{}
use core_go_nopgp.Server.Handler.{
  Incoming, Effect, responded, handled, Served, and_after, Next, replay,
}

-- A handler of the router is called with the request.
abbrev pub IsAmong : Incoming → List Effect → Type 0
IsAmong p [] = ⊥
IsAmong p (responded reason code ∷ effects) = IsAmong p effects
IsAmong p (handled r ∷ effects) = (r ≡ p) ⊎ IsAmong p effects

abbrev pub Handles : Served → Incoming → Type 0
Handles out p = IsAmong p out.effects

IsAmong-append :
    (p : Incoming) (xs ys : List Effect) → IsAmong p (xs ++ ys) → IsAmong p xs ⊎ IsAmong p ys
IsAmong-append p [] ys h = inr h
IsAmong-append p (responded reason code ∷ xs) ys h = IsAmong-append p xs ys h
IsAmong-append p (handled r ∷ xs) ys (inl e) = inl (inl e)
IsAmong-append p (handled r ∷ xs) ys (inr h) = elim (IsAmong-append p xs ys h) [
  | inl a ↦ inl (inr a)
  | inr b ↦ inr b
]

and_after-Handles :
    (p : Incoming) (effects : List Effect) (ending : Ending) (rest : Served)
    → Handles (and_after (record { effects = effects; ending = ending }) rest) p
    → IsAmong p effects ⊎ Handles rest p
and_after-Handles p effects returned rest h = IsAmong-append p effects rest.effects h
and_after-Handles p effects (panicked e) rest h = inl h

-- Behind the middleware of package auth: with a context that it served.
pub replay-Handles :
    (next : Next) (r p : Incoming) (events : List Event) (ending : Ending)
    → Handles (replay next r events ending) p
    → (ctx : Context) × CallsNext events ctx × Handles (next (record r { values = ctx })) p
unfolding replay
replay-Handles next r p [] ending h = absurd h
replay-Handles next r p (auth_error reason code ∷ events) ending h =
    replay-Handles next r p events ending h
replay-Handles next r p (serve ctx ∷ events) ending h =
    let first = next (record r { values = ctx }) in
    elim (and_after-Handles p first.effects first.ending (replay next r events ending) h) [
      | inl here ↦ (ctx, inl refl, here)
      | inr there ↦
          let (c, called, handles) = replay-Handles next r p events ending there in
          (c, inr called, handles)
    ]
