-- ===== src/Server/Recover.antt =====
-- server/email.go: what a resolver that panics is answered, and the email to the administrator.
-- The log and its copy of the stack are left out.
pub mod Reports
pub mod Laws
use core_go_nopgp.Base.{
  Str, codes, str_eq, Bool, Option, none, some, List, [], ◌∷◌, ◌++◌, if◌then◌else◌, Time, Go, ok,
  err, panic, ◌>>=◌, must,
}
use core_go_nopgp.Config.{IniFile, conf_for_context, service_name}
use core_go_nopgp.Errors.{
  Error, internal_system_error, report_address_invalid, no_operation_context,
}
use core_go_nopgp.Auth.Types.{AuthContext, Context, user_for_context}
use core_go_nopgp.Email.Header.{Address, HeaderOps}
use core_go_nopgp.Email.Queue.{MailQueue, MailTask, Enqueued, Writer, enqueue_std}

-- What recover() gives: an error, or any other value.
pub data Recovered : Type 0 where
  error : Error → Recovered
  other_value : Recovered

-- What the errors of Go's library answer to errors.Is and Error().
pub record ErrorFacts : Type 0 where
  pub is_canceled : Error → Bool
  pub is_deadline_exceeded : Error → Bool
  pub message : Error → Str

-- graphql.OperationContext: the query, and its variables in JSON, if they can be marshalled.
pub record Operation : Type 0 where
  pub raw_query : Str
  pub variables : Option Str

-- What `EmailRecover` comes to: the error that it returns, or a panic, and the emails enqueued.
pub record Report : Type 0 where
  pub answer : Go Error Error
  pub mails : List MailTask

abbrev pub only_answer : Error → Report
only_answer e = record { answer = ok e; mails = [] }

abbrev or_no_bytes : Option Str → Str
or_no_bytes none = []
or_no_bytes (some s) = s

module _ (facts : ErrorFacts) (stack : Str) (ctx : Context) (operation : Option Operation) where
  -- The text about a request, which needs the user and the operation.
  abbrev request_text : Error → AuthContext → Operation → Str
  request_text e user op =
      codes "Error occured processing GraphQL request:\n\n"
      ++ facts.message e
      ++ codes "\n\nWhen running the following query on behalf of "
      ++ user.username
      ++ codes " <"
      ++ user.email
      ++ codes ">:\n\n"
      ++ op.raw_query
      ++ codes "\n\nWith these variables:\n\n"
      ++ or_no_bytes op.variables
      ++ codes "\n\nThe following stack trace was produced:\n\n"
      ++ stack

  abbrev about_request : Error → Go Error Str
  about_request e = do
    user ← user_for_context ctx
    op ← must no_operation_context operation
    ok (request_text e user op)

  -- The text in place of it, after a panic.
  abbrev recovered_text : Go Error Str → Str
  recovered_text (ok text) = text
  recovered_text _ = codes "An error occured outside of the GraphQL context:\n\n\t\t\t\t" ++ stack

  unfoldable pub report_text : Error → Str
  unfolding user_for_context
  report_text e = recovered_text (about_request e)

  abbrev pub is_passed : Error → Bool
  is_passed e =
      if facts.is_canceled e
      then Bool.true
      else if facts.is_deadline_exceeded e
      then Bool.true
      else str_eq (facts.message e) (codes "pq: canceling statement due to user request")

  module _ (ops : HeaderOps) (writer : Writer ops.Header) (now : Time) (queue : Option MailQueue)
      (accepts : Option Error) (parse_address : Str → Go Error Address) where
    abbrev pub report_header : Str → Error → Address → ops.Header
    report_header service e rcpt = ops.set_address_list (codes "To") (rcpt ∷ []) (
        ops.set_subject (codes "[" ++ service ++ codes "] GraphQL query error: " ++ facts.message e)
          ops.empty_header)

    -- An error of `EnqueueStd` is dropped, a panic is not.
    abbrev after_enqueue : Enqueued → Report
    after_enqueue out = record {
      answer = elim out.result [ panic p ↦ panic p | _ ↦ ok internal_system_error ];
      mails = out.tasks;
    }

    abbrev to_administrator : Error → Str → Go Error Address → Report
    to_administrator e service (ok rcpt) =
        after_enqueue
          (enqueue_std ops writer now queue accepts (report_header service e rcpt) (report_text e))
    to_administrator e service _ = record { answer = panic report_address_invalid; mails = [] }

    abbrev with_address : Error → Str → Option Str → Report
    with_address e service none = only_answer internal_system_error
    with_address e service (some to) = to_administrator e service (parse_address to)

    abbrev with_conf : Error → Str → Go Error IniFile → Report
    with_conf e service (ok conf) = with_address e service (conf (codes "mail") (codes "error-to"))
    with_conf e service (err p) = record { answer = panic p; mails = [] }
    with_conf e service (panic p) = record { answer = panic p; mails = [] }

    abbrev report : Error → Go Error Str → Report
    report e (ok service) = with_conf e service (conf_for_context ctx.config_context)
    report e (err p) = record { answer = panic p; mails = [] }
    report e (panic p) = record { answer = panic p; mails = [] }

    abbrev unless_debug : Bool → Error → Report
    unless_debug debug e =
        if debug
        then only_answer internal_system_error
        else report e (service_name ctx.config_context)

    -- `EmailRecover`; `debug` is config.Debug.
    unfoldable pub email_recover : Bool → Recovered → Report
    unfolding report_text service_name conf_for_context enqueue_std
    email_recover debug other_value = only_answer internal_system_error
    email_recover debug (error e) = if is_passed e then only_answer e else unless_debug debug e
