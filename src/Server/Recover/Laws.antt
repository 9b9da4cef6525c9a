-- ===== src/Server/Recover/Laws.antt =====
-- What a resolver that panics is answered, and to whom it is reported.
use core_go_nopgp.Base.{Str, Bool, Option, Time, Go, ok, ◌≡◌}
use core_go_nopgp.Errors.{Error}
use core_go_nopgp.Auth.Types.{Context}
use core_go_nopgp.Email.Header.{Address, HeaderOps, IsHeader, IsReadable}
use core_go_nopgp.Email.Queue.{MailQueue, Writer}
use core_go_nopgp.Server.Recover.{Recovered, ErrorFacts, Operation, Report}
use core_go_nopgp.Server.Recover.Reports.{header_of, IsReport, IsOver}

module _ (facts : ErrorFacts) (stack : Str) (ctx : Context) (operation : Option Operation)
    (ops : HeaderOps) (laws : IsHeader ops) (writer : Writer ops.Header) (now : Time)
    (queue : Option MailQueue) (accepts : Option Error) (parse_address : Str → Go Error Address)
    (readable : (to : Str) (rcpt : Address)
      → parse_address to ≡ ok rcpt
      → IsReadable ops rcpt) where
  abbrev IsReportOf : Bool → Recovered → Report → Type 0
  IsReportOf = IsReport facts stack ctx operation ops laws writer now queue accepts parse_address

  abbrev Over : Error → Type 0
  Over e = IsOver facts stack ctx operation ops laws writer now queue accepts parse_address e

  abbrev mail_header : Str → Error → Address → ops.Header
  mail_header = header_of facts stack ctx operation ops laws writer now queue accepts parse_address
