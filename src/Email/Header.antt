-- ===== src/Email/Header.antt =====
-- The header of an email, mail.Header of go-message, as email/worker.go and server/email.go use it:
-- its operations, and what its documentation says of them.
use core_go_nopgp.Base.{
  Str, codes, str_eq, Bool, true, false, Option, none, some, List, [], ◌∷◌, if◌then◌else◌, Time, Go,
  ok, ◌≡◌, All,
}
use core_go_nopgp.Errors.{Error}

-- mail.Address
pub record Address : Type 0 where
  pub name : Str
  pub address : Str

abbrev pub is_some : Option Str → Bool
is_some none = false
is_some (some v) = true

-- The operations. `get` is what the header holds under a key, and `canonical` the form in which a
-- key is stored: CanonicalMIMEHeaderKey of net/textproto, which does not distinguish the case of
-- letters.
pub record HeaderOps : Type 1 where
  pub Header : Type 0
  pub empty_header : Header
  pub canonical : Str → Str
  pub get : Str → Header → Option Str
  pub has_field : Str → Header → Bool
  pub del : Str → Header → Header
  pub address_list : Str → Header → Go Error (List Address)
  pub set_address_list : Str → List Address → Header → Header
  pub set_subject : Str → Header → Header
  pub set_date : Time → Header → Header
  pub set_content_type : Str → Header → Header
  pub generate_message_id : Header → Header

-- An operation that sets a key, or removes it, and leaves the others as they are.
abbrev pub Sets : (ops : HeaderOps) → Str → Option Str → (ops.Header → ops.Header) → Type 0
Sets ops key value edit =
    (h : ops.Header) (j : Str)
    → ops.get j (edit h)
      ≡ (if str_eq (ops.canonical key) (ops.canonical j) then value else ops.get j h)

-- The keys that the program names.
abbrev pub named_keys : List Str
named_keys =
    codes "Content-Type"
    ∷ codes "Content-Transfer-Encoding"
    ∷ codes "Content-Disposition"
    ∷ codes "Message-Id"
    ∷ codes "Date"
    ∷ codes "From"
    ∷ codes "Reply-To"
    ∷ codes "To"
    ∷ codes "Cc"
    ∷ codes "Subject"
    ∷ []

-- What the documentation says, and how values are written.
pub record IsHeader (ops : HeaderOps) : Type 0 where
  pub message_id : Str
  pub format_date : Time → Str
  pub format_address : Address → Str
  -- A text as an encoded word where it is needed (mime.QEncoding).
  pub encode_text : Str → Str
  pub named-canonical : All (λ k. ops.canonical k ≡ k) named_keys
  pub get-canonical : (k : Str) (h : ops.Header) → ops.get (ops.canonical k) h ≡ ops.get k h
  pub has_field-get : (k : Str) (h : ops.Header) → ops.has_field k h ≡ is_some (ops.get k h)
  pub del-Sets : (k : Str) → Sets ops k none (ops.del k)
  pub set_address_list-Sets :
      (k : Str) (a : Address)
      → Sets ops k (some (format_address a)) (ops.set_address_list k (a ∷ []))
  pub set_date-Sets : (t : Time) → Sets ops (codes "Date") (some (format_date t)) (ops.set_date t)
  pub set_content_type-Sets :
      Sets ops
        (codes "Content-Type")
        (some (codes "text/plain"))
        (ops.set_content_type (codes "text/plain"))
  pub generate_message_id-Sets :
      Sets ops (codes "Message-Id") (some message_id) ops.generate_message_id
  pub get-empty_header : (k : Str) → ops.get k ops.empty_header ≡ none
  pub set_subject-Sets :
      (v : Str) → Sets ops (codes "Subject") (some (encode_text v)) (ops.set_subject v)
  -- A list that is missing is empty; of one that is there nothing is assumed here.
  pub address_list_of_none :
      (k : Str) (h : ops.Header) → ops.get k h ≡ none → ops.address_list k h ≡ ok []

-- An address that is read again from the list that it was written to.
abbrev pub IsReadable : HeaderOps → Address → Type 0
IsReadable ops a =
    (k : Str) (h : ops.Header)
    → ops.address_list k (ops.set_address_list k (a ∷ []) h) ≡ ok (a ∷ [])
