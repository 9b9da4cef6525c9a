-- ===== src/Email/Send/Laws.antt =====
-- The password goes over an encrypted connection.
use core_go_nopgp.Base.{
  Str, codes, str_eq, str_eq_iff, Bool, true, false, Option, none, some, List, [], ◌∷◌, Go, ok, err,
  panic, ◌≡◌, ◌≢◌, refl, ap, subst, ◌∙◌, Bool-cases, inl, inr, arith, >>=-eq-ok, must, ok-injective,
  ◌&&◌,
}
use core_go_nopgp.Config.{IniFile, ConfigContext, conf_for_context}
use core_go_nopgp.Errors.{
  Error, smtp_port_unset, smtp_port_not_integer, smtp_host_missing, smtp_from_missing,
  smtp_from_invalid,
}
use core_go_nopgp.Email.Send.{
  Enctype, starttls, tls, insecure, Authtype, no_auth, plain, MailConfig, Readers, enctype_of,
  authtype_of, credentials, read_mail_config, Action, dial, dial_tls, hello, start_tls,
  authenticate, Smtp, Setup, log_in, then_do, dial_action, encrypt_connection, connect,
  connect_with, mail_setup,
}

abbrev succeeded : Option Error → Bool
succeeded none = true
succeeded (some e) = false

-- From a connection that is encrypted or not, credentials are sent only when it is: dialling with
-- TLS and STARTTLS encrypt it where they succeed.
abbrev pub protected : Smtp → Bool → List Action → Bool
protected smtp secure [] = true
protected smtp secure (dial host port ∷ actions) = protected smtp false actions
protected smtp secure (dial_tls host port ∷ actions) =
    protected smtp (succeeded smtp.dialled) actions
protected smtp secure (hello ∷ actions) = protected smtp secure actions
protected smtp secure (start_tls ∷ actions) = protected smtp (succeeded smtp.encrypted) actions
protected smtp secure (authenticate user pass ∷ actions) = secure && protected smtp secure actions

module _ (smtp : Smtp) (c : MailConfig) where
  log_in-protected : (a : Authtype) → protected smtp true (log_in smtp c a).actions ≡ true
  log_in-protected no_auth = refl
  log_in-protected plain = ground arith

  abbrev greet : Enctype → Setup
  greet e =
      then_do (dial_action smtp c e) smtp.dialled
        (then_do hello smtp.greeted (encrypt_connection smtp c e (log_in smtp c c.authtype)))

  greet-protected : (e : Enctype) → e ≢ insecure → protected smtp false (greet e).actions ≡ true
  greet-protected starttls h = ground (arith, log_in-protected c.authtype)
  greet-protected tls h = ground (arith, log_in-protected c.authtype)
  greet-protected insecure h = absurd (h refl)

  connect-protected : c.enctype ≢ insecure → protected smtp false (connect smtp c).actions ≡ true
  unfolding connect
  connect-protected h = greet-protected c.enctype h

enctype_of-insecure : (o : Option Str) → enctype_of o ≡ ok insecure → o ≡ some (codes "insecure")
unfolding enctype_of
enctype_of-insecure none h = cc
enctype_of-insecure (some s) h = elim (Bool-cases (str_eq s (codes "starttls"))) [
  | inl e ↦ cc (rw e at h)
  | inr e ↦ elim (Bool-cases (str_eq s (codes "tls"))) [
    | inl f ↦ cc (rw (e, f) at h)
    | inr f ↦ elim (Bool-cases (str_eq s (codes "insecure"))) [
      | inl g ↦ ap some ((str_eq_iff s (codes "insecure")).0 g)
      | inr g ↦ cc (rw (e, f, g) at h)
    ]
  ]
]

read_mail_config-enctype :
    (readers : Readers) (mail : Str → Option Str) (c : MailConfig)
    → read_mail_config readers mail ≡ ok c
    → enctype_of (mail (codes "smtp-encryption")) ≡ ok c.enctype
unfolding read_mail_config
read_mail_config-enctype readers mail c h =
    let (port_str, _, h₁) = >>=-eq-ok (must smtp_port_unset (mail (codes "smtp-port"))) _ h in
    let (port, _, h₂) = >>=-eq-ok (must smtp_port_not_integer (readers.atoi port_str)) _ h₁ in
    let (host, _, h₃) = >>=-eq-ok (must smtp_host_missing (mail (codes "smtp-host"))) _ h₂ in
    let (from, _, h₄) = >>=-eq-ok (must smtp_from_missing (mail (codes "smtp-from"))) _ h₃ in
    let (sender, _, h₅) = >>=-eq-ok (must smtp_from_invalid (readers.parse_address from)) _ h₄ in
    let (enctype, chosen, h₆) = >>=-eq-ok (enctype_of (mail (codes "smtp-encryption"))) _ h₅ in
    let (authtype, _, h₇) = >>=-eq-ok (authtype_of (mail (codes "smtp-auth"))) _ h₆ in
    let (_, _, h₈) = >>=-eq-ok (credentials mail authtype) _ h₇ in
    subst (λ (d : MailConfig). enctype_of (mail (codes "smtp-encryption")) ≡ ok d.enctype)
      (ok-injective _ c h₈) chosen

connect_with-protected :
    (smtp : Smtp) (read : Go Error MailConfig)
    → ((c : MailConfig) → read ≡ ok c → c.enctype ≢ insecure)
    → protected smtp false (connect_with smtp read).actions ≡ true
connect_with-protected smtp (ok c) h = connect-protected smtp c (h c refl)
connect_with-protected smtp (err e) h = refl
connect_with-protected smtp (panic e) h = refl

-- Where the configuration is in the context and does not ask for smtp-encryption to be insecure,
-- mailSetup sends the user and the password only over an encrypted connection: one that was
-- dialled with TLS, or after STARTTLS, without an error.
pub mail_setup-protected :
    (readers : Readers) (smtp : Smtp) (ctx : ConfigContext) (conf : IniFile)
    → conf_for_context ctx ≡ ok conf
    → conf (codes "mail") (codes "smtp-encryption") ≢ some (codes "insecure")
    → protected smtp false (mail_setup readers smtp ctx).actions ≡ true
unfolding mail_setup
mail_setup-protected readers smtp ctx conf known h = rw known (
    connect_with-protected smtp (read_mail_config readers (conf (codes "mail"))) (λ c read same. h (
      enctype_of-insecure (conf (codes "mail") (codes "smtp-encryption"))
        (read_mail_config-enctype readers (conf (codes "mail")) c read ∙ ap ok same))))
