-- ===== src/Tests/Mail.antt =====
-- Connecting to a mail server at concrete inputs.
use core_go_nopgp.Config.{conf_for_context, IniFile, ConfigContext}
use core_go_nopgp.Base.{
  pos, codes, true, false, str_eq, if◌then◌else◌, none, some, ◌≡◌, ◌≢◌, refl, Str, Option, List, [],
  ◌∷◌, Go, ok, ℕ, leb, ◌&&◌, ◌==◌, ◌-◌, ◌+◌, Bool, ap, arith,
}
use core_go_nopgp.Email.Send.{Readers, Smtp, mail_setup}
use core_go_nopgp.Email.Send.Laws.{protected, mail_setup-protected}
use core_go_nopgp.Errors.{Error}
use core_go_nopgp.Email.Header.{Address, is_some, HeaderOps, IsHeader}
use core_go_nopgp.Email.Queue.{MailQueue, Writer, enqueue_std}
use core_go_nopgp.Email.Queue.Laws.{IsEnqueued, enqueue_std-IsEnqueued}
use core_go_nopgp.Server.Recover.{ErrorFacts}
use core_go_nopgp.Tests.World.{at}

abbrev readers : Readers
readers = record { atoi = λ s. some (pos 587); parse_address = λ s. some s }

abbrev server : Smtp
server = record {
  dialled = none;
  greeted = none;
  has_starttls = true;
  encrypted = none;
  has_auth = true;
  authenticated = none;
}

abbrev mail_conf : IniFile
mail_conf section key =
    if str_eq key (codes "smtp-encryption")
    then some (codes "starttls")
    else if str_eq key (codes "smtp-auth")
    then some (codes "plain")
    else some (codes "x")

abbrev mail_context : ConfigContext
mail_context = record { conf = some mail_conf; service = none }

not_insecure : mail_conf (codes "mail") (codes "smtp-encryption") ≢ some (codes "insecure")
unfolding str_eq
not_insecure h = cc

mail_setup-protected_example :
    protected server false (mail_setup readers server mail_context).actions ≡ true
unfolding conf_for_context
mail_setup-protected_example =
    mail_setup-protected readers server mail_context mail_conf refl not_insecure

-- A header by what it holds, with the addresses of the fields that hold some.
pub record ToyHeader : Type 0 where
  pub fields : Str → Option Str
  pub addresses : Str → List Address

-- CanonicalMIMEHeaderKey on ASCII: a letter is large at the start and after a dash.
upper : ℕ → ℕ
upper c = if leb b'a' c && leb c b'z' then c - 32 else c

small : ℕ → ℕ
small c = if leb b'A' c && leb c b'Z' then c + 32 else c

abbrev canonical_from : Bool → Str → Str
canonical_from start [] = []
canonical_from true (c ∷ s) = upper c ∷ canonical_from (c == b'-') s
canonical_from false (c ∷ s) = small c ∷ canonical_from (c == b'-') s

abbrev toy_canonical : Str → Str
toy_canonical key = canonical_from true key

canonical_from_twice :
    (start : Bool) (s : Str)
    → canonical_from start (canonical_from start s) ≡ canonical_from start s
unfolding upper small
canonical_from_twice start [] = refl
canonical_from_twice true (c ∷ s) =
    let twice : upper (upper c) ≡ upper c = ground arith in
    let dash : (upper c == b'-') ≡ (c == b'-') = ground arith in
    rw (twice, dash) (ap (λ l. upper c ∷ l) (canonical_from_twice (c == b'-') s))
canonical_from_twice false (c ∷ s) =
    let twice : small (small c) ≡ small c = ground arith in
    let dash : (small c == b'-') ≡ (c == b'-') = ground arith in
    rw (twice, dash) (ap (λ l. small c ∷ l) (canonical_from_twice (c == b'-') s))

abbrev toy_set : Str → Option Str → ToyHeader → ToyHeader
toy_set key value h = record h {
  fields = λ j. if str_eq (toy_canonical key) j then value else h.fields j;
}

abbrev toy_written : List Address → Option Str
toy_written [] = none
toy_written (a ∷ more) = some a.address

abbrev toy_addresses : Option Str → List Address → Go Error (List Address)
toy_addresses none given = ok []
toy_addresses (some text) given = ok given

abbrev toy_ops : HeaderOps
toy_ops = record {
  Header = ToyHeader;
  empty_header = record { fields = λ k. none; addresses = λ k. [] };
  canonical = toy_canonical;
  get = λ k h. h.fields (toy_canonical k);
  has_field = λ k h. is_some (h.fields (toy_canonical k));
  del = λ k. toy_set k none;
  address_list = λ k h. toy_addresses (h.fields (toy_canonical k)) (h.addresses (toy_canonical k));
  set_address_list = λ k given h. record {
    fields = (toy_set k (toy_written given) h).fields;
    addresses = λ j. if str_eq (toy_canonical k) j then given else h.addresses j;
  };
  set_subject = λ v. toy_set (codes "Subject") (some v);
  set_date = λ t. toy_set (codes "Date") (some (codes "now"));
  set_content_type = λ v. toy_set (codes "Content-Type") (some v);
  generate_message_id = toy_set (codes "Message-Id") (some (codes "id"));
}

toy_ops-IsHeader : IsHeader toy_ops
unfolding upper small
toy_ops-IsHeader = record {
  message_id = codes "id";
  format_date = λ t. codes "now";
  format_address = λ a. a.address;
  encode_text = λ v. v;
  named-canonical =
      (refl, (refl, (refl, (refl, (refl, (refl, (refl, (refl, (refl, (refl, tt))))))))));
  get-canonical = λ k h. ap h.fields (canonical_from_twice true k);
  has_field-get = λ k h. refl;
  del-Sets = λ k h j. refl;
  set_address_list-Sets = λ k a h j. refl;
  set_date-Sets = λ t h j. refl;
  set_content_type-Sets = λ h j. refl;
  generate_message_id-Sets = λ h j. refl;
  get-empty_header = λ k. refl;
  set_subject-Sets = λ v h j. refl;
  address_list_of_none = λ k h e. rw e refl;
}

abbrev toy_writer : Writer ToyHeader
toy_writer = record {
  create = λ h. ok (codes "head");
  copy = λ h body. ok body;
  close = λ h body. codes ".";
}

abbrev toy_queue : MailQueue
toy_queue = record {
  smtp_from = record { name = codes "sr.ht"; address = codes "from@sr.ht" };
  owner_address = record { name = codes "owner"; address = codes "owner@sr.ht" };
}

abbrev admin : Address
admin = record { name = codes "admin"; address = codes "admin@sr.ht" }

abbrev to_admin : ToyHeader
to_admin = toy_ops.set_address_list (codes "To") (admin ∷ []) toy_ops.empty_header

enqueue_std-IsEnqueued_example :
    IsEnqueued toy_ops toy_ops-IsHeader toy_writer
      (at 1000)
      (some toy_queue)
      to_admin
      (codes "hi")
      none
      (enqueue_std toy_ops toy_writer (at 1000) (some toy_queue) none to_admin (codes "hi"))
enqueue_std-IsEnqueued_example =
    enqueue_std-IsEnqueued toy_ops toy_ops-IsHeader toy_writer (at 1000) (some toy_queue) none
      to_admin (codes "hi")

abbrev toy_facts : ErrorFacts
toy_facts = record {
  is_canceled = λ e. false;
  is_deadline_exceeded = λ e. false;
  message = λ e. codes "failed";
}
