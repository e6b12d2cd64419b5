-- ===== src/Service/Mail/Sending.antt =====
-- SendMail of mobile/yggmail.go: the message that it builds, and what it leaves in the storage.
use yggmail_android.Base.{
  ℕ, ◌≡◌, ◌≤◌, refl, ap, sym, ◌∙◌, Bool, true, false, ◌&&◌, Option, none, some, List, [], ◌∷◌, ◌++◌,
  Text, Bytes, codes, append_assoc, ◌==◌, ltb, length, All, any, arith, if◌then◌else◌, is_some,
  ==_refl,
}
use yggmail_android.World.{
  World, MailRow, Result, ok, err, not_initialized, small_message_threshold,
}
use yggmail_android.World.Keeps.{Keeps, err-not-ok, bind-Keeps, pure-Keeps, resume-ok}
use yggmail_android.Storage.Tables.{has_mailbox, next_id, insert_queue, find_mail}
use yggmail_android.Storage.Queue.{outbox, queue_insert_destination_for_id}
use yggmail_android.Storage.Mails.{new_row, mail_create, mail_create_from_stream}
use yggmail_android.Storage.Contents.{in_table, mail_create_lem}
use yggmail_android.Sender.Queues.{host_of, queue_each, queue_for, store_outgoing}
use yggmail_android.Sender.Queued.{queue_each_queued, IsQueuedFor}
use yggmail_android.Service.{YggmailService}
use yggmail_android.Service.Lifecycle.{push_first}
use yggmail_android.Service.Power.{record_mail_activity}
use yggmail_android.Service.Mail.{send_mail, recipients_of, mail_text, after_queue}

-- The lines of a message, that CR and LF separate.
unfoldable pub crlf_lines : Text → List Text
crlf_lines [] = [] ∷ []
crlf_lines (c ∷ []) = (c ∷ []) ∷ []
crlf_lines (c ∷ d ∷ s) = elim (c == 13 && d == 10) [
  | true ↦ [] ∷ crlf_lines s
  | false ↦ push_first c (crlf_lines (d ∷ s))
]

-- A text without CR
abbrev pub IsOneLine : Text → Type 0
IsOneLine l = any (λ c. c == 13) l ≡ false

crlf_lines-append :
    (l rest : Text) → IsOneLine l → crlf_lines (l ++ 13 ∷ 10 ∷ rest) ≡ l ∷ crlf_lines rest
unfolding crlf_lines
crlf_lines-append [] rest _ = refl
crlf_lines-append (c ∷ []) rest h =
    let first : (c == 13) ≡ false = ground arith in rw (first, crlf_lines) refl
crlf_lines-append (c ∷ d ∷ l) rest h =
    let first : (c == 13) ≡ false = ground arith in
    let others : any (λ x. x == 13) (d ∷ l) ≡ false = ground arith in
    rw (first, crlf_lines) (ap (push_first c) (crlf_lines-append (d ∷ l) rest others))

-- The lines of a message of SendMail
abbrev pub lines_of : Text → Text → Text → Text → Text → List Text
lines_of date from to subject body =
    (codes "From: " ++ from)
    ∷ (codes "To: " ++ to)
    ∷ (codes "Subject: " ++ subject)
    ∷ (codes "Date: " ++ date)
    ∷ codes "Content-Type: text/plain; charset=utf-8"
    ∷ []
    ∷ crlf_lines body

crlf_lines-mail_text :
    (date from to subject body : Text)
    → IsOneLine date
    → IsOneLine from
    → IsOneLine to
    → IsOneLine subject
    → crlf_lines (mail_text date from to subject body) ≡ lines_of date from to subject body
crlf_lines-mail_text date from to subject body d f t s =
    ap crlf_lines nested
    ∙ crlf_lines-append (codes "From: " ++ from) behind_from f
    ∙ ap (◌∷◌ (codes "From: " ++ from)) (
        crlf_lines-append (codes "To: " ++ to) behind_to t
        ∙ ap (◌∷◌ (codes "To: " ++ to)) (
            crlf_lines-append (codes "Subject: " ++ subject) behind_subject s
            ∙ ap (◌∷◌ (codes "Subject: " ++ subject)) (
                crlf_lines-append (codes "Date: " ++ date) behind_date d
                ∙ ap (◌∷◌ (codes "Date: " ++ date)) (
                    crlf_lines-append (codes "Content-Type: text/plain; charset=utf-8")
                      (13 ∷ 10 ∷ body) refl
                    ∙ ap (◌∷◌ (codes "Content-Type: text/plain; charset=utf-8"))
                        (crlf_lines-append [] body refl)))))
  where
    behind_date : Text
    behind_date = codes "Content-Type: text/plain; charset=utf-8" ++ 13 ∷ 10 ∷ 13 ∷ 10 ∷ body

    behind_subject : Text
    behind_subject = (codes "Date: " ++ date) ++ 13 ∷ 10 ∷ behind_date

    behind_to : Text
    behind_to = (codes "Subject: " ++ subject) ++ 13 ∷ 10 ∷ behind_subject

    behind_from : Text
    behind_from = (codes "To: " ++ to) ++ 13 ∷ 10 ∷ behind_to

    nested : mail_text date from to subject body ≡ (codes "From: " ++ from) ++ 13 ∷ 10 ∷ behind_from
    nested = unfold mail_text in simp append_assoc

queue_each-mails :
    (ms : List MailRow) (addr_spec : Text → Option Text) (pid : ℕ) (from : Text) (rcpts : List Text)
    → Keeps (λ w. w.db.mails ≡ ms) (queue_each addr_spec pid from rcpts)
unfolding queue_each queue_insert_destination_for_id insert_queue
queue_each-mails ms addr_spec pid from [] = pure-Keeps _ []
queue_each-mails ms addr_spec pid from (rcpt ∷ rcpts) =
    bind-Keeps _ (λ w. (host_of addr_spec rcpt, w)) _ (record { holds = λ w k. k })
      (λ h.
        bind-Keeps _ (queue_insert_destination_for_id h pid from rcpt) _
          (record { holds = λ w k. ground (arith, k) })
          (λ _.
            bind-Keeps _ (queue_each addr_spec pid from rcpts) _
              (queue_each-mails ms addr_spec pid from rcpts) (λ _. pure-Keeps _ _)))

-- What QueueFor leaves of a message that is not large.
abbrev pub IsQueuedAs : (Text → Option Text) → List Text → Bytes → World → World → ℕ → Type 0
IsQueuedAs addr_spec rcpts content w v pid =
    (in_table outbox pid w ≡ none)
    × (in_table outbox pid v ≡ some (new_row outbox pid (some content) none (length content) w.now))
    × All (IsQueuedFor addr_spec pid v) rcpts

queue_for_stored :
    (addr_spec : Text → Option Text) (has_file_store : Bool) (from : Text) (rcpts hosts : List Text)
    (content : Bytes) (w v : World)
    → has_mailbox outbox w.db.mailboxes ≡ true
    → length content ≤ small_message_threshold
    → queue_for addr_spec has_file_store from rcpts content w ≡ (ok hosts, v)
    → (pid : ℕ) × IsQueuedAs addr_spec rcpts content w v pid
unfolding queue_for store_outgoing
queue_for_stored addr_spec has_file_store from rcpts hosts content w v box small h =
    let (pid, w1, e1, h1) = resume-ok _ (store_outgoing has_file_store content w) hosts v h in
    let made = mail_create outbox content w in
    let i = next_id outbox w.db.mails in
    let created : store_outgoing has_file_store content w ≡ made =
      in_blob (ltb small_message_threshold (length content) && has_file_store) (ground arith) in
    let (done, fresh, there, _) = mail_create_lem outbox content w box in
    let first : ok pid ≡ ok i = sym (ap (λ x. x.0) e1) ∙ ap (λ x. x.0) created ∙ done in
    let same_id : pid ≡ i = cc in
    let kept : v.db.mails ≡ made.1.db.mails =
      ap (λ (x : Result (List Text) × World). x.1.db.mails) (sym h1)
      ∙ (queue_each-mails w1.db.mails addr_spec pid from rcpts).holds w1 refl
      ∙ ap (λ (x : Result ℕ × World). x.1.db.mails) (sym e1 ∙ created) in
    (
      pid,
      (
        rw same_id fresh,
        ap (find_mail outbox pid) kept ∙ there outbox pid ∙ rw (same_id, ==_refl i) refl,
        queue_each_queued addr_spec pid from rcpts hosts w1 v h1,
      ),
    )
  where
    in_blob :
        (b : Bool)
        → b ≡ false
        → (if b
              then mail_create_from_stream outbox (record { content = content; broken = false })
              else mail_create outbox content)
            w
          ≡ mail_create outbox content w
    in_blob true e = cc
    in_blob false _ = refl

-- What SendMail leaves where it succeeds.
abbrev pub IsSent :
    (Text → Option Text)
    → Text
    → ℕ
    → Text
    → Text
    → Text
    → Text
    → YggmailService
    → World
    → YggmailService
    → World
    → Type 0
IsSent addr_spec date now from to subject body s w t v =
    (s.storage ≡ true)
    × (is_some s.queues ≡ true)
    × (t ≡ record_mail_activity now s)
    × (pid : ℕ) × (content : Bytes) × (crlf_lines content ≡ lines_of date from to subject body)
    × IsQueuedAs addr_spec (recipients_of to) content w v pid

-- Where SendMail succeeds, on a storage that has an Outbox, with a message of at most 10 MB in all whose
-- date, addresses and subject have no CR: the service had a storage and queues, and now records the
-- mail activity; under an ID that was not in use, the Outbox has a new, unseen message, whose lines are
-- its header lines for the sender, the recipients, the subject, the date and the content type, an
-- empty one, and those of the body; and it is queued for the host of each of the recipients that the
-- commas separate.
pub send_mail_queued :
    (addr_spec : Text → Option Text) (date : Text) (now : ℕ) (from to subject body : Text)
    (s t : YggmailService) (w v : World)
    → has_mailbox outbox w.db.mailboxes ≡ true
    → length (mail_text date from to subject body) ≤ small_message_threshold
    → IsOneLine date
    → IsOneLine from
    → IsOneLine to
    → IsOneLine subject
    → send_mail addr_spec date now from to subject body s w ≡ (ok tt, (t, v))
    → IsSent addr_spec date now from to subject body s w t v
unfolding send_mail
send_mail_queued addr_spec date now from to subject body s t w v box small d f r u h =
    by_state (s.storage && is_some s.queues) refl h
  where
    content : Bytes
    content = mail_text date from to subject body

    q : Result (List Text) × World
    q = queue_for addr_spec s.file_store from (recipients_of to) content w

    by_queue :
        (x : Result (List Text) × World)
        → q ≡ x
        → after_queue now s x ≡ (ok tt, (t, v))
        → (t ≡ record_mail_activity now s)
          × ((pid : ℕ) × IsQueuedAs addr_spec (recipients_of to) content w v pid)
    by_queue (err e, u') k g = absurd (err-not-ok e tt (ap (λ x. x.0) g))
    by_queue (ok hosts, u') k g = (
      sym (ap (λ x. x.1.0) g),
      queue_for_stored addr_spec s.file_store from (recipients_of to) hosts content w v box small
          (k ∙ ap (λ x. (ok hosts, x.1.1)) g),
    )

    by_state :
        (b : Bool)
        → (s.storage && is_some s.queues) ≡ b
        → (if b then after_queue now s q else (err not_initialized, (s, w))) ≡ (ok tt, (t, v))
        → IsSent addr_spec date now from to subject body s w t v
    by_state true e g =
        let (recorded, (pid, kept)) = by_queue q refl g in
        (
          ground (arith, e),
          ground (arith, e),
          recorded,
          pid,
          content,
          crlf_lines-mail_text date from to subject body d f r u,
          kept,
        )
    by_state false e g = absurd (err-not-ok not_initialized tt (ap (λ x. x.0) g))
