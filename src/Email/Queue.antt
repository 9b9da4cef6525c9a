-- ===== src/Email/Queue.antt =====
-- email/worker.go: the queue of emails and `EnqueueStd`. The writer of go-message, which puts a
-- header and a body in a buffer, is a parameter.
pub mod Standard
pub mod Laws
use core_go_nopgp.Base.{
  panicking, ℕ, Str, codes, Option, none, some, List, [], ◌∷◌, ◌++◌, map, if◌then◌else◌, Time, Go,
  ok, err, panic, ◌>>=◌, must,
}
use core_go_nopgp.Config.{IniFile}
use core_go_nopgp.Errors.{
  Error, no_email_worker, queue_from_missing, owner_name_missing, owner_email_missing,
  invalid_header_field,
}
use core_go_nopgp.Email.Header.{Address, HeaderOps}

-- `Queue`, without the work queue of dowork.
pub record MailQueue : Type 0 where
  pub smtp_from : Address
  pub owner_address : Address

-- `NewQueue`
unfoldable pub new_queue : (Str → Go Error Address) → IniFile → Go Error MailQueue
new_queue parse_address conf = do
  smtp_from ← must queue_from_missing (conf (codes "mail") (codes "smtp-from"))
  owner_name ← must owner_name_missing (conf (codes "sr.ht") (codes "owner-name"))
  owner_email ← must owner_email_missing (conf (codes "sr.ht") (codes "owner-email"))
  address ← panicking (parse_address smtp_from)
  ok (record {
    smtp_from = address;
    owner_address = record { name = owner_name; address = owner_email };
  })

-- `ForContext`, with the queue that the context has, if any.
abbrev pub queue_for_context : Option MailQueue → Go Error MailQueue
queue_for_context queue = must no_email_worker queue

-- The task of `NewTask`, by what its function holds on to: the buffer, as it is when the task is
-- enqueued and when `EnqueueStd` has returned, and the recipients.
pub record MailTask : Type 0 where
  pub buffer : Str
  pub buffer_in_the_end : Str
  pub rcpts : List Str
  pub retries : ℕ

-- `NewTask`
abbrev pub new_task : Str → Str → List Str → MailTask
new_task buffer buffer_in_the_end rcpts = record {
  buffer = buffer;
  buffer_in_the_end = buffer_in_the_end;
  rcpts = rcpts;
  retries = 10;
}

-- What `EnqueueStd` comes to, and the tasks that the queue then has more.
pub record Enqueued : Type 0 where
  pub result : Go Error (Unit {0})
  pub tasks : List MailTask

-- queue.Enqueue, with the error that it answers, if any.
abbrev pub enqueue : Option Error → Go Error MailTask → Enqueued
enqueue none (ok task) = record { result = ok tt; tasks = task ∷ [] }
enqueue (some e) (ok task) = record { result = err e; tasks = [] }
enqueue answer (err e) = record { result = err e; tasks = [] }
enqueue answer (panic e) = record { result = panic e; tasks = [] }

abbrev wrapped : {A : Type 0} → Str → Go Error A → Go Error A
wrapped field (ok a) = ok a
wrapped field (err e) = err (invalid_header_field field e)
wrapped field (panic e) = panic e

-- mail.CreateSingleInlineWriter, by what it writes in the buffer: at once, as the body is copied,
-- and when it is closed.
pub record Writer (Header : Type 0) : Type 0 where
  pub create : Header → Go Error Str
  pub copy : Header → Str → Go Error Str
  pub close : Header → Str → Str

module _ (ops : HeaderOps) (writer : Writer ops.Header) (now : Time) where
  open ops use {
    Header, has_field, del, address_list, set_address_list, set_date, set_content_type,
    generate_message_id,
  }

  -- A field that is set unless it is there.
  abbrev pub default_to : Str → (Header → Header) → Header → Header
  default_to key edit h = if has_field key h then h else edit h

  abbrev pub without_content : Header → Header
  without_content h =
      del (codes "Content-Disposition")
        (del (codes "Content-Type") (del (codes "Content-Transfer-Encoding") h))

  abbrev pub with_defaults : MailQueue → Header → Header
  with_defaults queue h =
      default_to (codes "Reply-To") (set_address_list (codes "Reply-To") (queue.owner_address ∷ []))
        (default_to (codes "From") (set_address_list (codes "From") (queue.smtp_from ∷ [])) (
          default_to (codes "Date") (set_date now)
            (default_to (codes "Message-Id") generate_message_id h)))

  unfoldable pub standard_header : MailQueue → Header → Header
  standard_header queue h =
      set_content_type (codes "text/plain") (with_defaults queue (without_content h))

  abbrev pub recipients : List Address → List Address → List Str
  recipients to cc = map (λ a. a.address) to ++ map (λ a. a.address) cc

  -- The task, whose body is closed only when `EnqueueStd` returns.
  abbrev pub mail_task : Header → Str → List Str → Str → Str → MailTask
  mail_task h body rcpts head text =
      new_task (head ++ text) (head ++ text ++ writer.close h body) rcpts

  abbrev pub compose : Header → Str → List Str → Go Error MailTask
  compose h body rcpts = do
    head ← panicking (writer.create h)
    text ← panicking (writer.copy h body)
    ok (mail_task h body rcpts head text)

  abbrev pub prepare : Option MailQueue → Header → Str → Go Error MailTask
  prepare queue h body = do
    q ← queue_for_context queue
    to ← wrapped (codes "To") (address_list (codes "To") h)
    cc ← wrapped (codes "Cc") (address_list (codes "Cc") h)
    compose (standard_header q h) body (recipients to cc)

  -- `EnqueueStd`, with the answer to the enqueueing. A failure to write ends the program, and is a
  -- panic here.
  unfoldable pub enqueue_std : Option MailQueue → Option Error → Header → Str → Enqueued
  unfolding standard_header
  enqueue_std queue answer h body = enqueue answer (prepare queue h body)
