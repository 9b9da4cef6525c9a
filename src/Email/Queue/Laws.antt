-- ===== src/Email/Queue/Laws.antt =====
-- What EnqueueStd sends, and to whom.
use core_go_nopgp.Base.{
  Go-cases, ◌⊎◌, inl, inr, panicking, panicking-eq-ok, must-eq-ok, ◌++◌, Str, codes, Option, none,
  some, List, [], ◌∷◌, map, Time, Go, ok, err, panic, ◌≡◌, ◌≢◌, refl, ap, sym, >>=-eq-ok,
  ok-injective,
}
use core_go_nopgp.Errors.{Error, no_email_worker}
use core_go_nopgp.Email.Header.{Address, HeaderOps, IsHeader}
use core_go_nopgp.Email.Queue.{
  mail_task, recipients, standard_header, MailQueue, MailTask, Enqueued, enqueue, Writer, wrapped,
  queue_for_context, prepare, enqueue_std,
}
use core_go_nopgp.Email.Queue.Standard.{IsStandard, standard_header-IsStandard}

module _ (ops : HeaderOps) (laws : IsHeader ops) (writer : Writer ops.Header) (now : Time) where
  open ops use {Header, address_list}

  -- The task of a call: for the addresses of To and Cc, with a standard header, and all of the
  -- message in the buffer in the end. When it is enqueued, the part that closing the body writes is
  -- not there yet.
  pub record IsMail (queue : Option MailQueue) (given : Header) (body : Str) (task : MailTask)
      : Type 0 where
    pub q : MailQueue
    pub to : List Address
    pub cc : List Address
    pub out : Header
    pub head : Str
    pub text : Str
    pub has_queue : queue ≡ some q
    pub to_list : address_list (codes "To") given ≡ ok to
    pub cc_list : address_list (codes "Cc") given ≡ ok cc
    pub for_all : task.rcpts ≡ map (λ a. a.address) to ++ map (λ a. a.address) cc
    pub is_standard : IsStandard ops laws writer now q given out
    pub created : writer.create out ≡ ok head
    pub copied : writer.copy out body ≡ ok text
    pub at_once : task.buffer ≡ head ++ text
    pub in_the_end : task.buffer_in_the_end ≡ head ++ text ++ writer.close out body
    pub again : task.retries ≡ 10

  wrap-eq-ok : {A : Type 0} (f : Str) (m : Go Error A) (a : A) → wrapped f m ≡ ok a → m ≡ ok a
  wrap-eq-ok f (ok b) a h = h
  wrap-eq-ok f (err e) a h = cc
  wrap-eq-ok f (panic e) a h = cc

  prepare-IsMail :
      (queue : Option MailQueue) (h : Header) (body : Str) (task : MailTask)
      → prepare ops writer now queue h body ≡ ok task
      → IsMail queue h body task
  prepare-IsMail queue h body task e =
      let (q, e₀, h₁) = >>=-eq-ok (queue_for_context queue) _ e in
      let (to, e₁, h₂) = >>=-eq-ok (wrapped (codes "To") (address_list (codes "To") h)) _ h₁ in
      let (cc, e₂, h₃) = >>=-eq-ok (wrapped (codes "Cc") (address_list (codes "Cc") h)) _ h₂ in
      let out = standard_header ops writer now q h in
      let (head, e₃, h₄) = >>=-eq-ok (panicking (writer.create out)) _ h₃ in
      let (text, e₄, h₅) = >>=-eq-ok (panicking (writer.copy out body)) _ h₄ in
      let same = ok-injective _ task h₅ in
      record {
        q = q;
        to = to;
        cc = cc;
        out = out;
        head = head;
        text = text;
        has_queue = must-eq-ok no_email_worker queue e₀;
        to_list = wrap-eq-ok _ _ to e₁;
        cc_list = wrap-eq-ok _ _ cc e₂;
        for_all = ap (λ (t : MailTask). t.rcpts) (sym same);
        is_standard = standard_header-IsStandard ops laws writer now q h;
        created = panicking-eq-ok _ e₃;
        copied = panicking-eq-ok _ e₄;
        at_once = ap (λ (t : MailTask). t.buffer) (sym same);
        in_the_end = ap (λ (t : MailTask). t.buffer_in_the_end) (sym same);
        again = ap (λ (t : MailTask). t.retries) (sym same);
      }

  -- Why nothing is enqueued: there is no queue, an address list cannot be read, the message cannot
  -- be written, or the queue does not take the task.
  pub data IsRefusal (queue : Option MailQueue) (given : Header) (body : Str)
      (answer : Option Error) : Type 0 where
    no_queue : queue ≡ none → IsRefusal queue given body answer
    bad_to :
        ((to : List Address) → address_list (codes "To") given ≢ ok to)
        → IsRefusal queue given body answer
    bad_cc :
        ((cc : List Address) → address_list (codes "Cc") given ≢ ok cc)
        → IsRefusal queue given body answer
    not_written :
        (q : MailQueue) (out : Header)
        → queue ≡ some q
        → IsStandard ops laws writer now q given out
        → ((head : Str) → writer.create out ≢ ok head)
          ⊎ ((text : Str) → writer.copy out body ≢ ok text)
        → IsRefusal queue given body answer
    not_taken : (e : Error) → answer ≡ some e → IsRefusal queue given body answer

  prepare-IsRefusal :
      (queue : Option MailQueue) (h : Header) (body : Str) (answer : Option Error)
      → ((task : MailTask) → prepare ops writer now queue h body ≢ ok task)
      → IsRefusal queue h body answer
  prepare-IsRefusal none h body answer no_task = no_queue refl
  prepare-IsRefusal (some q) h body answer no_task =
      let out = standard_header ops writer now q h in
      let standard = standard_header-IsStandard ops laws writer now q h in
      elim (Go-cases (address_list (codes "To") h)) [
        | inr bad ↦ bad_to bad
        | inl (to, e₁) ↦ elim (Go-cases (address_list (codes "Cc") h)) [
          | inr bad ↦ bad_cc bad
          | inl (cc, e₂) ↦ elim (Go-cases (writer.create out)) [
            | inr bad ↦ not_written q out refl standard (inl bad)
            | inl (head, e₃) ↦ elim (Go-cases (writer.copy out body)) [
              | inr bad ↦ not_written q out refl standard (inr bad)
              | inl (text, e₄) ↦ absurd (
                  no_task
                    (mail_task ops writer now out body (recipients ops writer now to cc) head text)
                    (rw (e₁, e₂, e₃, e₄) refl))
            ]
          ]
        ]
      ]

  -- Nothing is enqueued, for a reason, and the call does not return without an error; or it does
  -- and one task is.
  pub data IsEnqueued (queue : Option MailQueue) (given : Header) (body : Str)
      (answer : Option Error) (out : Enqueued) : Type 0 where
    refused :
        out.result ≢ ok tt
        → out.tasks ≡ []
        → IsRefusal queue given body answer
        → IsEnqueued queue given body answer out
    queued :
        (task : MailTask)
        → out.result ≡ ok tt
        → out.tasks ≡ task ∷ []
        → IsMail queue given body task
        → IsEnqueued queue given body answer out

  enqueue-IsEnqueued :
      (queue : Option MailQueue) (h : Header) (body : Str) (answer : Option Error)
      (prepared : Go Error MailTask)
      → prepare ops writer now queue h body ≡ prepared
      → IsEnqueued queue h body answer (enqueue answer prepared)
  enqueue-IsEnqueued queue h body none (ok task) e =
      queued task refl refl (prepare-IsMail queue h body task e)
  enqueue-IsEnqueued queue h body (some f) (ok task) e = refused (λ k. cc) refl (not_taken f refl)
  enqueue-IsEnqueued queue h body answer (err f) e =
      refused (λ k. cc) refl (prepare-IsRefusal queue h body answer (λ task k. cc))
  enqueue-IsEnqueued queue h body answer (panic f) e =
      refused (λ k. cc) refl (prepare-IsRefusal queue h body answer (λ task k. cc))

  -- EnqueueStd either enqueues nothing and does not return without an error, because there is no
  -- queue, To or Cc cannot be read, the message cannot be written or the queue does not take the
  -- task; or it returns and has enqueued one task: to the addresses of To and then of Cc, with a
  -- header that keeps the fields it was given but those on the content, and has a Message-Id, a
  -- Date, a From and a Reply-To that are set where they were missing. The task is enqueued before
  -- closing the body has written the end of the message. The condition is that headers behave as
  -- documented (`IsHeader`).
  pub enqueue_std-IsEnqueued :
      (queue : Option MailQueue) (answer : Option Error) (h : Header) (body : Str)
      → IsEnqueued queue h body answer (enqueue_std ops writer now queue answer h body)
  unfolding enqueue_std
  enqueue_std-IsEnqueued queue answer h body = enqueue-IsEnqueued queue h body answer _ refl
