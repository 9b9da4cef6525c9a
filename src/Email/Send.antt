-- ===== src/Email/Send.antt =====
-- email/send.go: connecting to the mail server, by what is done with it in order. The SMTP client,
-- the reading of numbers and of addresses are parameters.
pub mod Laws
use core_go_nopgp.Base.{
  ℤ, Str, codes, str_eq, Bool, true, false, not, ◌||◌, Option, none, some, List, [], ◌∷◌,
  if◌then◌else◌, Go, ok, err, panic, ◌>>=◌, must,
}
use core_go_nopgp.Config.{IniFile, ConfigContext, conf_for_context}
use core_go_nopgp.Errors.{
  Error, smtp_port_unset, smtp_port_not_integer, smtp_host_missing, smtp_from_missing,
  smtp_from_invalid, smtp_encryption_invalid, smtp_auth_invalid, smtp_user_missing,
  smtp_password_missing, no_starttls, no_smtp_auth,
}

pub data Enctype : Type 0 where
  starttls tls insecure : Enctype

pub data Authtype : Type 0 where
  no_auth plain : Authtype

pub record MailConfig : Type 0 where
  pub host : Str
  pub port : ℤ
  pub enctype : Enctype
  pub authtype : Authtype
  pub user : Str
  pub pass : Str
  -- The address that the sender's text is read as.
  pub sender : Str

-- strconv.Atoi and mail.ParseAddress.
pub record Readers : Type 0 where
  pub atoi : Str → Option ℤ
  pub parse_address : Str → Option Str

-- The values of smtp-encryption and smtp-auth.
unfoldable pub enctype_of : Option Str → Go Error Enctype
enctype_of none = ok starttls
enctype_of (some s) =
    if str_eq s (codes "starttls")
    then ok starttls
    else if str_eq s (codes "tls")
    then ok tls
    else if str_eq s (codes "insecure")
    then ok insecure
    else panic smtp_encryption_invalid

unfoldable pub authtype_of : Option Str → Go Error Authtype
authtype_of none = ok plain
authtype_of (some s) =
    if str_eq s (codes "none")
    then ok no_auth
    else if str_eq s (codes "plain")
    then ok plain
    else panic smtp_auth_invalid

abbrev credentials : (Str → Option Str) → Authtype → Go Error (Str × Str)
credentials mail no_auth = ok (codes "", codes "")
credentials mail plain = do
  user ← must smtp_user_missing (mail (codes "smtp-user"))
  pass ← must smtp_password_missing (mail (codes "smtp-password"))
  ok (user, pass)

-- The part of `mailSetup` that reads the section [mail].
unfoldable pub read_mail_config : Readers → (Str → Option Str) → Go Error MailConfig
unfolding enctype_of authtype_of
read_mail_config readers mail = do
  port_str ← must smtp_port_unset (mail (codes "smtp-port"))
  port ← must smtp_port_not_integer (readers.atoi port_str)
  host ← must smtp_host_missing (mail (codes "smtp-host"))
  from ← must smtp_from_missing (mail (codes "smtp-from"))
  sender ← must smtp_from_invalid (readers.parse_address from)
  enctype ← enctype_of (mail (codes "smtp-encryption"))
  authtype ← authtype_of (mail (codes "smtp-auth"))
  (user, pass) ← credentials mail authtype
  ok (record {
    host = host;
    port = port;
    enctype = enctype;
    authtype = authtype;
    user = user;
    pass = pass;
    sender = sender;
  })

-- What is done with the server.
pub data Action : Type 0 where
  dial dial_tls : Str → ℤ → Action
  hello start_tls : Action
  authenticate : Str → Str → Action

-- The errors that the server or the connection answers, and the server's extensions.
pub record Smtp : Type 0 where
  pub dialled : Option Error
  pub greeted : Option Error
  pub has_starttls : Bool
  pub encrypted : Option Error
  pub has_auth : Bool
  pub authenticated : Option Error

-- What a set-up comes to: its result, here the sender, and what was done.
pub record Setup : Type 0 where
  pub result : Go Error Str
  pub actions : List Action

abbrev pub stop : Error → Setup
stop e = record { result = panic e; actions = [] }

-- An action, its error, and what follows if there is none.
abbrev pub then_do : Action → Option Error → Setup → Setup
then_do action (some e) rest = record { result = err e; actions = action ∷ [] }
then_do action none rest = record { result = rest.result; actions = action ∷ rest.actions }

module _ (smtp : Smtp) (c : MailConfig) where
  abbrev pub log_in : Authtype → Setup
  log_in no_auth = record { result = ok c.sender; actions = [] }
  log_in plain =
      if not smtp.has_auth
      then stop no_smtp_auth
      else then_do (authenticate c.user c.pass) smtp.authenticated
          (record { result = ok c.sender; actions = [] })

  abbrev pub encrypt_connection : Enctype → Setup → Setup
  encrypt_connection starttls rest =
      if not smtp.has_starttls then stop no_starttls else then_do start_tls smtp.encrypted rest
  encrypt_connection _ rest = rest

  abbrev pub dial_action : Enctype → Action
  dial_action tls = dial_tls c.host c.port
  dial_action _ = dial c.host c.port

  -- The part of `mailSetup` that talks to the server.
  unfoldable pub connect : Setup
  connect =
      then_do (dial_action c.enctype) smtp.dialled
        (then_do hello smtp.greeted (encrypt_connection c.enctype (log_in c.authtype)))

abbrev connect_with : Smtp → Go Error MailConfig → Setup
connect_with smtp (ok c) = connect smtp c
connect_with smtp (err e) = record { result = err e; actions = [] }
connect_with smtp (panic e) = stop e

abbrev setup_with : Readers → Smtp → Go Error IniFile → Setup
setup_with readers smtp (ok conf) =
    connect_with smtp (read_mail_config readers (conf (codes "mail")))
setup_with readers smtp (err e) = record { result = err e; actions = [] }
setup_with readers smtp (panic e) = stop e

-- `mailSetup`
unfoldable pub mail_setup : Readers → Smtp → ConfigContext → Setup
unfolding read_mail_config connect
mail_setup readers smtp ctx = setup_with readers smtp (conf_for_context ctx)

-- c.SendMail(from, to, r): its error, if any, and what it left unread of the message.
abbrev pub SendMail : Type 0
SendMail = Str → List Str → Str → Option Error × Str

abbrev sent : Option Error × Str → Go Error (Unit {0}) × Str
sent (none, rest) = (ok tt, rest)
sent (some e, rest) = (err e, rest)

abbrev send_from : SendMail → Go Error Str → List Str → Str → Go Error (Unit {0}) × Str
send_from send_mail (ok sender) rcpts msg = sent (send_mail sender rcpts msg)
send_from send_mail (err e) rcpts msg = (err e, msg)
send_from send_mail (panic e) rcpts msg = (panic e, msg)

-- `Send`, with what is left of the message after it.
unfoldable pub send_message :
    Readers → Smtp → SendMail → ConfigContext → Str → List Str → Go Error (Unit {0}) × Str
unfolding mail_setup
send_message readers smtp send_mail ctx msg rcpts =
    send_from send_mail (mail_setup readers smtp ctx).result rcpts msg
