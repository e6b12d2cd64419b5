-- ===== src/Sender/Outcomes.antt =====
-- Queue.run of internal/smtpsender/sender.go: what becomes of a message, by the outcome of sending it.
use yggmail_android.Base.{
  ◌+◌, ◌-◌, ◌≡◌, refl, ap, ◌∙◌, ℕ, any, filter, any-filter-not, Bool, true, false, ◌&&◌, ◌||◌, not,
  some, List, [], ◌∷◌, All, length, suc, Text, same, ltb, arith, if◌then◌else◌,
}
use yggmail_android.World.{World, MailRow, QueueRow, ok, pure}
use yggmail_android.Sender.Queued.{queued}
use yggmail_android.Storage.Tables.{is_mail, is_queued, update_mails}
use yggmail_android.Storage.Mails.{Mail, mail_delete, mail_select, mail_expunge}
use yggmail_android.FileStore.{read_mail}
use yggmail_android.Storage.Queue.{
  QueuedMail, outbox, queue_delete_destination_for_id, queue_select_is_message_pending_send,
  is_pending, queue_mail_ids_for_destination,
}
use yggmail_android.Sender.Retry.{is_network_error, is_permanent_error}
use yggmail_android.Sender.Delivery.{
  Queue, Sender, undeliverable_timeout, outgoing_content, send_content, deliver_remote, failed,
  continue, settle, go_on, process, process_read, process_each, run_refs, run, process_mail, stop,
  remove_entry,
}

deliver_remote_refused :
    (env : Sender) (dest : Text) (ref : QueuedMail) (m : Mail) (text : Text) (w : World)
    → m.mail_file ≡ []
    → env.send dest ref m.mail ≡ some text
    → deliver_remote env dest ref m w ≡ (failed text, w)
unfolding deliver_remote outgoing_content same
deliver_remote_refused env dest ref m text w blob refused =
    ap (send_content env dest ref) content ∙ rw refused refl
  where
    content : outgoing_content env m w ≡ (ok (record { content = m.mail; broken = false }), w)
    content =
        ap
          (λ f.
            (if not (same f []) && env.has_file_store
                then read_mail f
                else pure (record { content = m.mail; broken = false }))
              w)
          blob

settle_retry :
    (ref : QueuedMail) (q : Queue) (text : Text) (w : World)
    → (is_network_error text || not (is_permanent_error text)) ≡ true
    → settle ref q (failed text, w) ≡ continue (record q { retry_count = q.retry_count + 1 }) w
unfolding settle
settle_retry ref q text w temporary = ground arith

-- A message for another node, kept in the database, neither deleted nor too old, whose sending
-- fails for a network error or one that is not permanent: the retry count goes up, the loop goes
-- on, and nothing in the storage changes.
process_mail_retry :
    (env : Sender) (ref : QueuedMail) (q : Queue) (m : Mail) (text : Text) (w : World)
    → m.deleted ≡ false
    → ltb undeliverable_timeout (w.now - m.date) ≡ false
    → same q.destination env.my_address ≡ false
    → m.mail_file ≡ []
    → env.send q.destination ref m.mail ≡ some text
    → (is_network_error text || not (is_permanent_error text)) ≡ true
    → process_mail env ref q m w ≡ continue (record q { retry_count = q.retry_count + 1 }) w
unfolding process_mail deliver_remote outgoing_content settle
process_mail_retry env ref q m text w alive young other blob refused temporary =
    let remote : deliver_remote env q.destination ref m w ≡ (failed text, w) =
      deliver_remote_refused env q.destination ref m text w blob refused in
    rw (alive, young, other) (ap (settle ref q) remote ∙ settle_retry ref q text w temporary)

-- An entry whose message, for another node, is kept in the database and is neither deleted nor too old, and
-- whose sending fails for a network error or one that is not permanent.
abbrev pub IsRetried : Sender → Text → World → QueuedMail → Type 0
IsRetried env dest w ref =
    (seq : ℕ) × (m : Mail) × (text : Text) × (mail_select outbox ref.id w ≡ (ok (seq, m), w))
    × (m.deleted ≡ false)
    × (ltb undeliverable_timeout (w.now - m.date) ≡ false)
    × (m.mail_file ≡ [])
    × (env.send dest ref m.mail ≡ some text)
    × ((is_network_error text || not (is_permanent_error text)) ≡ true)

counted :
    (q : Queue) (w : World) (m n : ℕ)
    → m ≡ n
    → ◌≡◌ {A = Queue × World} (record q { retry_count = m }, w) (record q { retry_count = n }, w)
counted q w m n e = ap (λ k. (record q { retry_count = k }, w)) e

abbrev then_expunged : Queue × World → Queue × World
then_expunged x = (x.0, (mail_expunge outbox x.1).1)

process_each_retry :
    (env : Sender) (refs : List QueuedMail) (q : Queue) (w : World)
    → same q.destination env.my_address ≡ false
    → All (IsRetried env q.destination w) refs
    → process_each env refs q w ≡ (record q { retry_count = q.retry_count + length refs }, w)
unfolding process_each process process_read
process_each_retry env [] q w other _ = counted q w q.retry_count (q.retry_count + 0) (omega arith)
process_each_retry env (ref ∷ refs) q w other (h, hs) =
    let (seq, m, text, found, alive, young, blob, refused, temporary) = h in
    let q' : Queue = record q { retry_count = q.retry_count + 1 } in
    ap (λ x. go_on (process_each env refs) (process_read env ref q x)) found
    ∙ ap (go_on (process_each env refs))
        (process_mail_retry env ref q m text w alive young other blob refused temporary)
    ∙ process_each_retry env refs q' w other hs
    ∙ counted q w (q.retry_count + 1 + length refs) (q.retry_count + suc (length refs))
        (omega arith)

-- A run of a queue for another node in which the sending of every entry's message fails for a network
-- error or one that is not permanent, where the messages are kept in the database and neither deleted
-- nor too old: the time of the run is recorded, the retry count goes up by the number of the entries
-- (not by one for the run), and the storage is what the expunge of the Outbox at the end makes of it.
pub run_retry :
    (env : Sender) (q : Queue) (w : World) (refs : List QueuedMail)
    → same q.destination env.my_address ≡ false
    → queue_mail_ids_for_destination q.destination w ≡ (ok refs, w)
    → All (IsRetried env q.destination w) refs
    → run env q w ≡ (
      record q { last_attempt = some w.now; retry_count = q.retry_count + length refs },
      (mail_expunge outbox w).1,
    )
unfolding run run_refs
run_retry env q w refs other found h =
    let q' : Queue = record q { last_attempt = some w.now } in
    ap (λ x. then_expunged (run_refs env q' x)) found
    ∙ ap then_expunged (process_each_retry env refs q' w other h)

-- The entries that are left without one.
abbrev pub without : Text → ℕ → World → List QueueRow
without dest id w = filter (λ e. not (is_queued dest outbox id e)) w.db.queue

-- The messages, where one is marked as deleted unless it has another entry.
abbrev pub given_up : Text → ℕ → World → List MailRow
given_up dest id w =
    if any (is_pending outbox id) (without dest id w)
    then w.db.mails
    else update_mails (is_mail outbox id) (λ r. record r { deleted = true }) w.db.mails

remove_entry-given_up :
    (dest : Text) (id : ℕ) (w : World)
    → let w' = (remove_entry dest id (mail_delete outbox id) w).1 in
      (w'.db.queue ≡ without dest id w) × (w'.db.mails ≡ given_up dest id w)
unfolding remove_entry queue_delete_destination_for_id queue_select_is_message_pending_send
    mail_delete
remove_entry-given_up dest id w = settled (any (is_pending outbox id) (without dest id w))
  where
    rest : World
    rest = record w { db = record w.db { queue = without dest id w } }

    settled :
        (b : Bool)
        → let w' = ((if b then pure tt else mail_delete outbox id) rest).1 in
          (w'.db.queue ≡ without dest id w)
          × (w'.db.mails ≡ (
              if b
              then w.db.mails
              else update_mails (is_mail outbox id) (λ r. record r { deleted = true }) w.db.mails))
    settled true = (refl, refl)
    settled false = (refl, refl)

settle_permanent :
    (ref : QueuedMail) (q : Queue) (text : Text) (w : World)
    → is_network_error text ≡ false
    → is_permanent_error text ≡ true
    → settle ref q (failed text, w)
      ≡ stop
          (record q { permanent_failure = true })
          (remove_entry q.destination ref.id (mail_delete outbox ref.id) w).1
unfolding settle
settle_permanent ref q text w temporary permanent = rw (temporary, permanent) refl

-- A message for another node, kept in the database, neither deleted nor too old, that is refused
-- for good, by an error that is not of the network: the run ends, the message's entry for that node is
-- gone from the queue and every other entry is still there, and of the messages only this one is
-- marked as deleted, unless an entry for another node is left for it.
pub process_mail_permanent :
    (env : Sender) (ref : QueuedMail) (q : Queue) (m : Mail) (text : Text) (w : World)
    → m.deleted ≡ false
    → ltb undeliverable_timeout (w.now - m.date) ≡ false
    → same q.destination env.my_address ≡ false
    → m.mail_file ≡ []
    → env.send q.destination ref m.mail ≡ some text
    → is_network_error text ≡ false
    → is_permanent_error text ≡ true
    → (w' : World) × (process_mail env ref q m w ≡ stop (record q { permanent_failure = true }) w')
      × (queued q.destination ref.id w' ≡ false)
      × (w'.db.queue ≡ without q.destination ref.id w)
      × (w'.db.mails ≡ given_up q.destination ref.id w)
unfolding process_mail deliver_remote settle
process_mail_permanent env ref q m text w alive young other blob refused temporary permanent =
    let remote = deliver_remote_refused env q.destination ref m text w blob refused in
    let (queue, mails) = remove_entry-given_up q.destination ref.id w in
    (
      (remove_entry q.destination ref.id (mail_delete outbox ref.id) w).1,
      rw (alive, young, other)
          (ap (settle ref q) remote ∙ settle_permanent ref q text w temporary permanent),
      ap (any (is_queued q.destination outbox ref.id)) queue
          ∙ any-filter-not (is_queued q.destination outbox ref.id) w.db.queue,
      queue,
      mails,
    )
