-- ===== src/Server/Recover/Reports.antt =====
-- What a resolver that panics is answered, and to whom it is reported.
use core_go_nopgp.Base.{
  Str, codes, str_eq, Bool, true, false, Option, none, some, List, [], ◌∷◌, Time, Go, ok, panic,
  ◌≡◌, ◌⊎◌, ◌≢◌, str_eq_iff, Bool-cases, inl, inr, arith, refl, sym, ◌∙◌, ok-injective,
}
use core_go_nopgp.Config.{IniFile}
use core_go_nopgp.Errors.{Error, internal_system_error}
use core_go_nopgp.Auth.Types.{Context}
use core_go_nopgp.Email.Header.{Address, HeaderOps, IsHeader, IsReadable}
use core_go_nopgp.Email.Queue.{MailQueue, MailTask, Writer}
use core_go_nopgp.Email.Queue.Laws.{IsRefusal, IsMail}
use core_go_nopgp.Server.Recover.{
  Recovered, error, other_value, ErrorFacts, Operation, Report, report_text, is_passed,
  report_header,
}

module _ (facts : ErrorFacts) (stack : Str) (ctx : Context) (operation : Option Operation)
    (ops : HeaderOps) (laws : IsHeader ops) (writer : Writer ops.Header) (now : Time)
    (queue : Option MailQueue) (accepts : Option Error)
    (parse_address : Str → Go Error Address) where
  -- A request that was cancelled or ran out of time, or whose statement was.
  pub data IsOver (e : Error) : Type 0 where
    cancelled : facts.is_canceled e ≡ true → IsOver e
    late : facts.is_deadline_exceeded e ≡ true → IsOver e
    statement_cancelled :
        facts.message e ≡ codes "pq: canceling statement due to user request" → IsOver e

  pub IsOver_of_passed : (e : Error) → is_passed facts stack ctx operation e ≡ true → IsOver e
  IsOver_of_passed e h = elim (Bool-cases (facts.is_canceled e)) [
    | inl c ↦ cancelled c
    | inr no_c ↦ elim (Bool-cases (facts.is_deadline_exceeded e)) [
      | inl d ↦ late d
      | inr no_d ↦ statement_cancelled ((str_eq_iff _ _).0 (rw (no_c, no_d) at h))
    ]
  ]

  pub passed_of_IsOver : (e : Error) → IsOver e → is_passed facts stack ctx operation e ≡ true
  passed_of_IsOver e (cancelled c) = rw c refl
  passed_of_IsOver e (late d) = ground arith
  passed_of_IsOver e (statement_cancelled m) = ground (arith, (str_eq_iff _ _).1 m)

  -- Where an error goes: to the address of the configuration, and to no other.
  pub record IsSent (mails : List MailTask) : Type 0 where
    pub conf : IniFile
    pub to : Str
    pub rcpt : Address
    pub task : MailTask
    pub has_conf : ctx.config_context.conf ≡ some conf
    pub error_to : conf (codes "mail") (codes "error-to") ≡ some to
    pub parsed : parse_address to ≡ ok rcpt
    pub one : mails ≡ task ∷ []
    pub for_rcpt : task.rcpts ≡ rcpt.address ∷ []

  abbrev pub header_of : Str → Error → Address → ops.Header
  header_of service e rcpt =
      report_header facts stack ctx operation ops writer now queue accepts parse_address service e
        rcpt

  -- Why an error that is hidden is not mailed: debug mode, a value that is missing in the context or
  -- the configuration, an address that cannot be read, or an email that cannot be enqueued.
  pub data IsUnmailed (debug : Bool) (e : Error) : Type 0 where
    debugging : debug ≡ true → IsUnmailed debug e
    no_service : ctx.config_context.service ≡ none → IsUnmailed debug e
    no_conf : ctx.config_context.conf ≡ none → IsUnmailed debug e
    no_error_to :
        (conf : IniFile)
        → ctx.config_context.conf ≡ some conf
        → conf (codes "mail") (codes "error-to") ≡ none
        → IsUnmailed debug e
    bad_error_to :
        (conf : IniFile) (to : Str)
        → ctx.config_context.conf ≡ some conf
        → conf (codes "mail") (codes "error-to") ≡ some to
        → ((rcpt : Address) → parse_address to ≢ ok rcpt)
        → IsUnmailed debug e
    not_enqueued :
        (service : Str) (rcpt : Address)
        → IsRefusal ops laws writer now queue
            (header_of service e rcpt)
            (report_text facts stack ctx operation e)
            accepts
        → IsUnmailed debug e

  pub data IsReport (debug : Bool) (recovered : Recovered) (out : Report) : Type 0 where
    passed :
        (e : Error)
        → recovered ≡ error e
        → IsOver e
        → out.answer ≡ ok e
        → out.mails ≡ []
        → IsReport debug recovered out
    hidden :
        (recovered ≡ other_value)
          ⊎ ((e : Error) × (recovered ≡ error e) × (¬ IsOver e) × IsUnmailed debug e)
        → out.answer ≡ ok internal_system_error
        → out.mails ≡ []
        → IsReport debug recovered out
    mailed :
        (e : Error)
        → recovered ≡ error e
        → ¬ IsOver e
        → debug ≡ false
        → out.answer ≡ ok internal_system_error
        → IsSent out.mails
        → IsReport debug recovered out
    unwound :
        (e p : Error)
        → recovered ≡ error e
        → ¬ IsOver e
        → debug ≡ false
        → IsUnmailed debug e
        → out.answer ≡ panic p
        → out.mails ≡ []
        → IsReport debug recovered out

  pub rcpts_of_report :
      (service body : Str) (e : Error) (rcpt : Address) (task : MailTask)
      → IsReadable ops rcpt
      → IsMail ops laws writer now queue (header_of service e rcpt) body task
      → task.rcpts ≡ rcpt.address ∷ []
  unfolding str_eq
  rcpts_of_report service body e rcpt task readable m =
      let (_, (_, (_, (_, (_, (_, (_, (c_to, (c_cc, (c_subject, _)))))))))) =
        laws.named-canonical in
      let absent : ops.get (codes "Cc") (header_of service e rcpt) ≡ none =
        rw
          (
            laws.set_address_list-Sets (codes "To") rcpt _ (codes "Cc"),
            laws.set_subject-Sets _ ops.empty_header (codes "Cc"),
            c_to,
            c_cc,
            c_subject,
          )
          (laws.get-empty_header (codes "Cc")) in
      let to = ok-injective (rcpt ∷ []) m.to (sym (readable (codes "To") _) ∙ m.to_list) in
      let cc =
        ok-injective [] m.cc (sym (laws.address_list_of_none (codes "Cc") _ absent) ∙ m.cc_list) in
      m.for_all ∙ rw (← to, ← cc) refl
