-- ===== src/Auth/Http.antt =====
-- An HTTP handler by what it does: the responses that it writes and the handler that it hands the
-- request on to, in order, and how it ends.
pub mod Laws
use core_go_nopgp.Base.{ℕ, List, [], ◌∷◌, Go, ok, err, panic}
use core_go_nopgp.Errors.{Error}
use core_go_nopgp.Auth.Types.{Context}

-- The reasons that `authError` is given. `refused` is the text of an error.
pub data Reason : Type 0 where
  refused : Error → Reason
  invalid_cookie invalid_source_ip encryption_error missing_id : Reason
  invalid_bearer temporary_error invalid_legacy legacy_scopes : Reason
  header_required invalid_header invalid_bearer_text : Reason

pub data Event : Type 0 where
  -- `authError(w, reason, code)`
  auth_error : Reason → ℕ → Event
  -- `next.ServeHTTP(w, r)`, with the context of the request
  serve : Context → Event

pub data Ending : Type 0 where
  returned : Ending
  panicked : Error → Ending

pub record Handling : Type 0 where
  pub events : List Event
  pub ending : Ending

abbrev pub deny : Reason → ℕ → Handling
deny reason code = record { events = auth_error reason code ∷ []; ending = returned }

abbrev pub pass_on : Context → Handling
pass_on ctx = record { events = serve ctx ∷ []; ending = returned }

abbrev pub crash : Error → Handling
crash e = record { events = []; ending = panicked e }

-- A response that is written before the handler goes on.
abbrev pub also : Event → Handling → Handling
also event h = record { events = event ∷ h.events; ending = h.ending }

-- Go on with a value, answer an error, or unwind with a panic.
abbrev pub handle : {A : Type 0} → Go Error A → (Error → Handling) → (A → Handling) → Handling
handle (ok a) on_error k = k a
handle (err e) on_error k = on_error e
handle (panic e) on_error k = crash e
