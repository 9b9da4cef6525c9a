-- ===== src/Email/Queue/Standard.antt =====
-- The header that EnqueueStd sends: which fields it sets, which it takes out and which it keeps.
use core_go_nopgp.Base.{
  Str, codes, str_eq, str_eq_iff, false, Option, none, some, List, [], ◌∷◌, if◌then◌else◌, Time,
  ◌≡◌, refl, sym, ap, ◌∙◌, All, Option-cases, Bool-cases, inl, inr,
}
use core_go_nopgp.Email.Header.{HeaderOps, Sets, IsHeader}
use core_go_nopgp.Email.Queue.{
  MailQueue, Writer, default_to, without_content, with_defaults, standard_header,
}

abbrev pub or_default : Option Str → Str → Option Str
or_default none d = some d
or_default (some v) d = some v

module _ (ops : HeaderOps) (laws : IsHeader ops) (writer : Writer ops.Header) (now : Time) where
  open ops use {Header, get, canonical, address_list, set_date, set_address_list}

  -- A key in the form in which it is stored.
  abbrev Stores : Str → Str → Type 0
  Stores j c = canonical j ≡ c

  at_key :
      (key : Str) (value : Option Str) (edit : Header → Header)
      → Stores key key
      → Sets ops key value edit
      → (h : Header) (j c : Str) → Stores j c
      → get j (edit h) ≡ (if str_eq key c then value else get j h)
  at_key key value edit named sets h j c stores = sets h j ∙ rw (named, stores) refl

  same_value :
      (key j c : Str) (h : Header) → Stores key key → Stores j c → key ≡ c → get j h ≡ get key h
  same_value key j c h named stores e =
      sym (laws.get-canonical j h) ∙ ap (λ k. get k h) (stores ∙ sym e)

  default_to-Sets :
      (key d : Str) (edit : Header → Header)
      → Stores key key
      → Sets ops key (some d) edit
      → (h : Header) (j c : Str) → Stores j c
      → get j (default_to ops writer now key edit h)
        ≡ (if str_eq key c then or_default (get key h) d else get j h)
  default_to-Sets key d edit named sets h j c stores =
      let has = laws.has_field-get key h in
      let edited = at_key key (some d) edit named sets h j c stores in
      elim (Option-cases (get key h)) [
        | inl e ↦ rw (has, e) edited
        | inr (v, e) ↦
            rw (has, e)
              (elim (Bool-cases (str_eq key c)) [
                | inl same ↦
                    rw same (same_value key j c h named stores ((str_eq_iff key c).0 same) ∙ e)
                | inr other ↦ rw other refl
              ])
      ]

  -- A field of the header that goes out: set or removed by EnqueueStd, or left as it was.
  abbrev set_by_itself : List Str
  set_by_itself =
      codes "Content-Type"
      ∷ codes "Content-Transfer-Encoding"
      ∷ codes "Content-Disposition"
      ∷ codes "Message-Id"
      ∷ codes "Date"
      ∷ codes "From"
      ∷ codes "Reply-To"
      ∷ []

  pub record IsStandard (q : MailQueue) (given out : Header) : Type 0 where
    pub content_type : get (codes "Content-Type") out ≡ some (codes "text/plain")
    pub no_encoding : get (codes "Content-Transfer-Encoding") out ≡ none
    pub no_disposition : get (codes "Content-Disposition") out ≡ none
    pub message_id :
        get (codes "Message-Id") out ≡ or_default (get (codes "Message-Id") given) laws.message_id
    pub date : get (codes "Date") out ≡ or_default (get (codes "Date") given) (laws.format_date now)
    pub from :
        get (codes "From") out
        ≡ or_default (get (codes "From") given) (laws.format_address q.smtp_from)
    pub reply_to :
        get (codes "Reply-To") out
        ≡ or_default (get (codes "Reply-To") given) (laws.format_address q.owner_address)
    pub others :
        (j : Str)
        → All (λ k. str_eq k (canonical j) ≡ false) set_by_itself
        → get j out ≡ get j given

  without_content-get :
      (h : Header) (j c : Str)
      → Stores j c
      → get j (without_content ops writer now h) ≡ (
          if str_eq (codes "Content-Disposition") c
          then none
          else if str_eq (codes "Content-Type") c
          then none
          else if str_eq (codes "Content-Transfer-Encoding") c
          then none
          else get j h)
  without_content-get h j c stores =
      let (ct, (cte, (cd, _))) = laws.named-canonical in
      let h₁ = ops.del (codes "Content-Transfer-Encoding") h in
      let h₂ = ops.del (codes "Content-Type") h₁ in
      rw
        (
          at_key (codes "Content-Disposition") none (ops.del (codes "Content-Disposition")) cd
              (laws.del-Sets (codes "Content-Disposition")) h₂ j c stores,
          at_key (codes "Content-Type") none (ops.del (codes "Content-Type")) ct
              (laws.del-Sets (codes "Content-Type")) h₁ j c stores,
          at_key (codes "Content-Transfer-Encoding") none
              (ops.del (codes "Content-Transfer-Encoding")) cte
              (laws.del-Sets (codes "Content-Transfer-Encoding")) h j c stores,
        )
        refl

  with_defaults-get :
      (q : MailQueue) (h : Header) (j c : Str)
      → Stores j c
      → get j (with_defaults ops writer now q h) ≡ (
          if str_eq (codes "Reply-To") c
          then or_default (get (codes "Reply-To") h) (laws.format_address q.owner_address)
          else if str_eq (codes "From") c
          then or_default (get (codes "From") h) (laws.format_address q.smtp_from)
          else if str_eq (codes "Date") c
          then or_default (get (codes "Date") h) (laws.format_date now)
          else if str_eq (codes "Message-Id") c
          then or_default (get (codes "Message-Id") h) laws.message_id
          else get j h)
  unfolding str_eq
  with_defaults-get q h j c stores =
      let (_, (_, (_, (c_id, (c_date, (c_from, (c_reply, _))))))) = laws.named-canonical in
      let m = default_to ops writer now (codes "Message-Id") ops.generate_message_id h in
      let d = default_to ops writer now (codes "Date") (set_date now) m in
      let from =
        default_to-Sets (codes "From") (laws.format_address q.smtp_from)
          (set_address_list (codes "From") (q.smtp_from ∷ [])) c_from
          (laws.set_address_list-Sets (codes "From") q.smtp_from) d in
      let date =
        default_to-Sets (codes "Date") (laws.format_date now) (set_date now) c_date
          (laws.set_date-Sets now) m in
      let id =
        default_to-Sets (codes "Message-Id") laws.message_id ops.generate_message_id c_id
          laws.generate_message_id-Sets h in
      rw
        (
          default_to-Sets (codes "Reply-To") (laws.format_address q.owner_address)
              (set_address_list (codes "Reply-To") (q.owner_address ∷ [])) c_reply
              (laws.set_address_list-Sets (codes "Reply-To") q.owner_address)
              (default_to ops writer now (codes "From")
                (set_address_list (codes "From") (q.smtp_from ∷ [])) d)
              j c stores,
          from j c stores,
          from (codes "Reply-To") (codes "Reply-To") c_reply,
          date j c stores,
          date (codes "From") (codes "From") c_from,
          date (codes "Reply-To") (codes "Reply-To") c_reply,
          id j c stores,
          id (codes "Date") (codes "Date") c_date,
          id (codes "From") (codes "From") c_from,
          id (codes "Reply-To") (codes "Reply-To") c_reply,
        )
        refl

  standard_header-get :
      (q : MailQueue) (h : Header) (j c : Str)
      → Stores j c
      → get j (standard_header ops writer now q h) ≡ (
          if str_eq (codes "Content-Type") c
          then some (codes "text/plain")
          else get j (with_defaults ops writer now q (without_content ops writer now h)))
  unfolding standard_header
  standard_header-get q h j c stores =
      at_key (codes "Content-Type") (some (codes "text/plain"))
        (ops.set_content_type (codes "text/plain")) laws.named-canonical.0
        laws.set_content_type-Sets _ j c stores

  -- What comes of a key that is not Content-Type: the fields in their order.
  through :
      (q : MailQueue) (h : Header) (j c : Str)
      → Stores j c
      → str_eq (codes "Content-Type") c ≡ false
      → get j (standard_header ops writer now q h)
        ≡ get j (with_defaults ops writer now q (without_content ops writer now h))
  through q h j c stores other = standard_header-get q h j c stores ∙ rw other refl

  pub standard_header-IsStandard :
      (q : MailQueue) (h : Header) → IsStandard q h (standard_header ops writer now q h)
  unfolding str_eq
  standard_header-IsStandard q h =
      let (ct, (cte, (cd, (id, (date, (from, (reply_to, _))))))) = laws.named-canonical in
      let bare = without_content ops writer now h in
      record {
        content_type = standard_header-get q h (codes "Content-Type") (codes "Content-Type") ct;
        no_encoding =
            through q h (codes "Content-Transfer-Encoding") (codes "Content-Transfer-Encoding") cte
              refl
            ∙ with_defaults-get q bare (codes "Content-Transfer-Encoding")
                (codes "Content-Transfer-Encoding") cte
            ∙ without_content-get h (codes "Content-Transfer-Encoding")
                (codes "Content-Transfer-Encoding") cte;
        no_disposition =
            through q h (codes "Content-Disposition") (codes "Content-Disposition") cd refl
            ∙ with_defaults-get q bare (codes "Content-Disposition") (codes "Content-Disposition")
                cd
            ∙ without_content-get h (codes "Content-Disposition") (codes "Content-Disposition") cd;
        message_id =
            through q h (codes "Message-Id") (codes "Message-Id") id refl
            ∙ with_defaults-get q bare (codes "Message-Id") (codes "Message-Id") id
            ∙ ap (λ o. or_default o laws.message_id)
                (without_content-get h (codes "Message-Id") (codes "Message-Id") id);
        date =
            through q h (codes "Date") (codes "Date") date refl
            ∙ with_defaults-get q bare (codes "Date") (codes "Date") date
            ∙ ap (λ o. or_default o (laws.format_date now))
                (without_content-get h (codes "Date") (codes "Date") date);
        from =
            through q h (codes "From") (codes "From") from refl
            ∙ with_defaults-get q bare (codes "From") (codes "From") from
            ∙ ap (λ o. or_default o (laws.format_address q.smtp_from))
                (without_content-get h (codes "From") (codes "From") from);
        reply_to =
            through q h (codes "Reply-To") (codes "Reply-To") reply_to refl
            ∙ with_defaults-get q bare (codes "Reply-To") (codes "Reply-To") reply_to
            ∙ ap (λ o. or_default o (laws.format_address q.owner_address))
                (without_content-get h (codes "Reply-To") (codes "Reply-To") reply_to);
        others = λ j (no_ct, (no_cte, (no_cd, (no_id, (no_date, (no_from, (no_reply_to, _))))))).
            rw
              (
                standard_header-get q h j (canonical j) refl,
                with_defaults-get q bare j (canonical j) refl,
                without_content-get h j (canonical j) refl,
                no_ct,
                no_cte,
                no_cd,
                no_id,
                no_date,
                no_from,
                no_reply_to,
              )
              refl;
      }
