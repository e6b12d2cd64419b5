-- ===== src/Sender/Delivery.antt =====
-- Queue.run of internal/smtpsender/sender.go: the messages queued for one destination. The network
-- is a parameter, `send`: the outcome of dialling and of the SMTP dialogue, as the text of the error
-- that the source wraps, or none. So is `describe`, the text of an error of the storage.
use yggmail_android.Base.{
  ℕ, ◌+◌, ◌-◌, Bool, true, false, ◌&&◌, not, Option, none, some, List, [], ◌∷◌, Text, Bytes, codes,
  same, ltb, if◌then◌else◌,
}
use yggmail_android.World.{
  Error, no_rows, World, Result, ok, err, Reader, Action, pure, ◌>>=◌, ◌>>◌,
}
use yggmail_android.FileStore.{read_mail}
use yggmail_android.Storage.Queue.{
  QueuedMail, outbox, queue_mail_ids_for_destination, queue_delete_destination_for_id,
  queue_select_is_message_pending_send,
}
use yggmail_android.Storage.Mails.{
  Mail, mail_create, mail_create_from_stream, mail_select, mail_delete, mail_expunge,
}
use yggmail_android.Storage.Moves.{mail_move_with_file_store}
use yggmail_android.Sender.Retry.{is_network_error, is_permanent_error}

-- Queue, without its flag `running`
pub record Queue : Type 0 where
  pub destination : Text
  pub retry_count : ℕ
  pub last_attempt : Option ℕ
  pub permanent_failure : Bool

-- What a queue works with.
pub record Sender : Type 0 where
  pub my_address : Text
  pub has_file_store : Bool
  pub send : Text → QueuedMail → Bytes → Option Text
  pub describe : Error → Text

abbrev pub sent : Text
sent = codes "Sent"

abbrev pub inbox : Text
inbox = codes "INBOX"

abbrev pub undeliverable_timeout : ℕ
undeliverable_timeout = 604800

-- The entry is removed, and if it was the message's last one, `last` is run.
unfoldable pub remove_entry : Text → ℕ → Action (Unit {0}) → Action (Unit {0})
unfolding queue_delete_destination_for_id queue_select_is_message_pending_send
remove_entry dest id last = do
  queue_delete_destination_for_id dest id
  remaining ← queue_select_is_message_pending_send outbox id
  if remaining then pure tt else last

-- The content that is sent, from the file or from the blob.
unfoldable pub outgoing_content : Sender → Mail → Action Reader
unfolding read_mail
outgoing_content env m =
    if not (same m.mail_file []) && env.has_file_store
    then read_mail m.mail_file
    else pure (record { content = m.mail; broken = false })

-- Local delivery: the message is stored in the INBOX.
unfoldable pub deliver_local : Sender → Mail → Action ℕ
unfolding read_mail mail_create mail_create_from_stream
deliver_local env m =
    if not (same m.mail_file []) && env.has_file_store
    then (read_mail m.mail_file >>= mail_create_from_stream inbox)
    else mail_create inbox m.mail

abbrev pub to_sent : Sender → ℕ → Action (Unit {0})
to_sent env id = mail_move_with_file_store env.has_file_store outbox id sent

-- The outcome of sending to another node, as a result with an error's text.
pub data Outcome : Type 0 where
  delivered : Outcome
  failed : Text → Outcome

abbrev pub outcome_of : Sender → Result (Unit {0}) → Outcome
outcome_of env (ok _) = delivered
outcome_of env (err e) = failed (env.describe e)

-- Once the message is sent, its entry is removed, and the last one moves it to Sent.
unfoldable pub after_send : Sender → Text → ℕ → World → Outcome × World
unfolding remove_entry mail_move_with_file_store
after_send env dest id w =
    let (r, w') = remove_entry dest id (to_sent env id) w in (outcome_of env r, w')

abbrev pub after_dialogue : Sender → Text → ℕ → Option Text → World → Outcome × World
after_dialogue env dest id none w = after_send env dest id w
after_dialogue env dest id (some text) w = (failed text, w)

abbrev pub send_content : Sender → Text → QueuedMail → Result Reader × World → Outcome × World
send_content env dest ref (err e, w) = (failed (env.describe e), w)
send_content env dest ref (ok r, w) = after_dialogue env dest ref.id (env.send dest ref r.content) w

-- Remote delivery.
unfoldable pub deliver_remote : Sender → Text → QueuedMail → Mail → World → Outcome × World
unfolding outgoing_content after_send
deliver_remote env dest ref m w = send_content env dest ref (outgoing_content env m w)

-- What one round leaves, and whether the loop goes on.
pub data Next : Type 0 where
  continue : Queue → World → Next
  stop : Queue → World → Next

-- A permanent error drops the entry and ends the run; any other one counts as a retry.
unfoldable pub settle : QueuedMail → Queue → Outcome × World → Next
unfolding is_network_error is_permanent_error remove_entry mail_delete
settle ref q (delivered, w) = continue (record q { retry_count = 0; permanent_failure = false }) w
settle ref q (failed text, w) =
    if is_network_error text
    then continue (record q { retry_count = q.retry_count + 1 }) w
    else if is_permanent_error text
    then stop (record q { permanent_failure = true })
        (remove_entry q.destination ref.id (mail_delete outbox ref.id) w).1
    else continue (record q { retry_count = q.retry_count + 1 }) w

-- Of a local delivery the errors behind the storing are logged and ignored.
unfoldable pub settle_local : Sender → QueuedMail → Queue → Result ℕ × World → Next
unfolding remove_entry
settle_local env ref q (err _, w) = continue (record q { retry_count = q.retry_count + 1 }) w
settle_local env ref q (ok _, w) =
    continue (record q { retry_count = 0 })
      (remove_entry q.destination ref.id (to_sent env ref.id) w).1

-- One message of the loop, once it is read.
unfoldable pub process_mail : Sender → QueuedMail → Queue → Mail → World → Next
unfolding remove_entry mail_expunge mail_delete deliver_local deliver_remote settle settle_local
process_mail env ref q m w =
    if m.deleted
    then continue q (remove_entry q.destination ref.id (mail_expunge outbox) w).1
    else if ltb undeliverable_timeout (w.now - m.date)
    then continue q (remove_entry q.destination ref.id (mail_delete outbox ref.id) w).1
    else if same q.destination env.my_address
    then settle_local env ref q (deliver_local env m w)
    else settle ref q (deliver_remote env q.destination ref m w)

-- A message that is gone: the entry that is removed is the one for the destination "Outbox".
unfoldable pub process_read : Sender → QueuedMail → Queue → Result (ℕ × Mail) × World → Next
unfolding process_mail queue_delete_destination_for_id
process_read env ref q (err no_rows, w) =
    continue q (queue_delete_destination_for_id outbox ref.id w).1
process_read env ref q (err _, w) = continue q w
process_read env ref q (ok (_, m), w) = process_mail env ref q m w

unfoldable pub process : Sender → QueuedMail → Queue → World → Next
unfolding process_read mail_select
process env ref q w = process_read env ref q (mail_select outbox ref.id w)

abbrev pub go_on : (Queue → World → Queue × World) → Next → Queue × World
go_on rest (continue q w) = rest q w
go_on rest (stop q w) = (q, w)

-- The loop over the entries.
unfoldable pub process_each : Sender → List QueuedMail → Queue → World → Queue × World
unfolding process
process_each env [] q w = (q, w)
process_each env (ref ∷ refs) q w = go_on (process_each env refs) (process env ref q w)

unfoldable pub run_refs : Sender → Queue → Result (List QueuedMail) × World → Queue × World
unfolding process_each
run_refs env q (err _, w) = (record q { retry_count = q.retry_count + 1 }, w)
run_refs env q (ok refs, w) = process_each env refs q w

-- Queue.run, behind the wait: at its end the Outbox is expunged.
unfoldable pub run : Sender → Queue → World → Queue × World
unfolding run_refs queue_mail_ids_for_destination mail_expunge
run env q w =
    let (q', w') =
      run_refs env (record q { last_attempt = some w.now })
        (queue_mail_ids_for_destination q.destination w) in
    (q', (mail_expunge outbox w').1)

-- ResetRetryCounters, of one queue
unfoldable pub reset_retry_counters : Queue → Queue
reset_retry_counters q = record q {
  retry_count = 0;
  last_attempt = none;
  permanent_failure = false;
}
