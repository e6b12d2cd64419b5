-- ===== src/Sender/Keeps.antt =====
-- internal/smtpsender/sender.go: queueing and delivery, under the schema's constraints.
use yggmail_android.Base.{
  ℕ, Bool, true, false, ◌&&◌, not, Option, none, some, List, [], ◌∷◌, Text, Bytes, same,
  if◌then◌else◌, ltb, length, ◌-◌,
}
use yggmail_android.World.{World, Reader, Result, ok, err, Action, small_message_threshold, no_rows}
use yggmail_android.World.Keeps.{Keeps, bind-Keeps, pure-Keeps, fail-Keeps, query-Keeps, if-Keeps}
use yggmail_android.Storage.Queue.{
  QueuedMail, outbox, queue_insert_destination_for_id, queue_delete_destination_for_id,
  queue_select_is_message_pending_send, queue_mail_ids_for_destination, queued_for,
}
use yggmail_android.Storage.Mails.{Mail, mail_delete, mail_expunge, mail_select}
use yggmail_android.Storage.Keeps.{
  HasValidDb, mail_create-Keeps, mail_create_from_stream-Keeps, mail_delete-Keeps,
  mail_expunge-Keeps, mail_move_with_file_store-Keeps, queue_insert-Keeps, queue_delete-Keeps,
}
use yggmail_android.FileStore.{read_mail}
use yggmail_android.FileStore.Keeps.{read_mail-db}
use yggmail_android.Sender.Retry.{is_network_error, is_permanent_error}
use yggmail_android.Sender.Queues.{
  host_of, queue_each, store_outgoing, queue_for, store_stream, queue_for_stream,
}
use yggmail_android.Sender.Delivery.{
  Queue, Sender, sent, inbox, remove_entry, outgoing_content, deliver_local, to_sent, Outcome,
  delivered, failed, after_send, send_content, after_dialogue, go_on, deliver_remote, Next,
  continue, stop, settle, settle_local, process_mail, process_read, process, process_each, run_refs,
  run, undeliverable_timeout,
}

result-Keeps {ℓ} : {A : Type ℓ} (r : Result A) → Keeps HasValidDb (λ w. (r, w))
result-Keeps r = record { holds = λ w v. v }

queue_each-Keeps :
    (addr_spec : Text → Option Text) (pid : ℕ) (from : Text) (rcpts : List Text)
    → Keeps HasValidDb (queue_each addr_spec pid from rcpts)
unfolding queue_each
queue_each-Keeps addr_spec pid from [] = pure-Keeps HasValidDb []
queue_each-Keeps addr_spec pid from (rcpt ∷ rcpts) =
    bind-Keeps HasValidDb (λ w. (host_of addr_spec rcpt, w)) _
      (result-Keeps (host_of addr_spec rcpt))
      (λ host.
        bind-Keeps HasValidDb (queue_insert_destination_for_id host pid from rcpt) _
          (queue_insert-Keeps host pid from rcpt)
          (λ _.
            bind-Keeps HasValidDb (queue_each addr_spec pid from rcpts) _
              (queue_each-Keeps addr_spec pid from rcpts) (λ _. pure-Keeps HasValidDb _)))

store_outgoing-Keeps : (b : Bool) (content : Bytes) → Keeps HasValidDb (store_outgoing b content)
unfolding store_outgoing
store_outgoing-Keeps b content =
    if-Keeps HasValidDb (ltb small_message_threshold (length content) && b) _ _
      (mail_create_from_stream-Keeps outbox (record { content = content; broken = false }))
      (mail_create-Keeps outbox content)

-- QueueFor keeps the constraints, also where it fails.
pub queue_for-Keeps :
    (addr_spec : Text → Option Text) (b : Bool) (from : Text) (rcpts : List Text) (content : Bytes)
    → Keeps HasValidDb (queue_for addr_spec b from rcpts content)
unfolding queue_for
queue_for-Keeps addr_spec b from rcpts content =
    bind-Keeps HasValidDb (store_outgoing b content) _ (store_outgoing-Keeps b content)
      (λ pid. queue_each-Keeps addr_spec pid from rcpts)

store_stream-Keeps : (b : Bool) (r : Reader) → Keeps HasValidDb (store_stream b r)
unfolding store_stream
store_stream-Keeps b r =
    search (if-Keeps, fail-Keeps, mail_create-Keeps, mail_create_from_stream-Keeps) depth 6

-- QueueForStream keeps the constraints, also where it fails.
pub queue_for_stream-Keeps :
    (addr_spec : Text → Option Text) (b : Bool) (from : Text) (rcpts : List Text) (r : Reader)
    → Keeps HasValidDb (queue_for_stream addr_spec b from rcpts r)
unfolding queue_for_stream
queue_for_stream-Keeps addr_spec b from rcpts r =
    bind-Keeps HasValidDb (store_stream b r) _ (store_stream-Keeps b r)
      (λ pid. queue_each-Keeps addr_spec pid from rcpts)

remove_entry-Keeps :
    (dest : Text) (id : ℕ) (last : Action (Unit {0}))
    → Keeps HasValidDb last
    → Keeps HasValidDb (remove_entry dest id last)
unfolding remove_entry queue_select_is_message_pending_send
remove_entry-Keeps dest id last k =
    bind-Keeps HasValidDb (queue_delete_destination_for_id dest id) _ (queue_delete-Keeps dest id)
      (λ _.
        bind-Keeps HasValidDb (queue_select_is_message_pending_send outbox id) _
          (query-Keeps HasValidDb _)
          (λ remaining. if-Keeps HasValidDb remaining _ _ (pure-Keeps HasValidDb tt) k))

read_mail-Keeps : (path : Text) → Keeps HasValidDb (read_mail path)
read_mail-Keeps path = record { holds = λ w v. rw (read_mail-db path w) v }

outgoing_content-Keeps : (env : Sender) (m : Mail) → Keeps HasValidDb (outgoing_content env m)
unfolding outgoing_content
outgoing_content-Keeps env m =
    if-Keeps HasValidDb (not (same m.mail_file []) && env.has_file_store) _ _
      (read_mail-Keeps m.mail_file) (pure-Keeps HasValidDb _)

deliver_local-Keeps : (env : Sender) (m : Mail) → Keeps HasValidDb (deliver_local env m)
unfolding deliver_local
deliver_local-Keeps env m =
    if-Keeps HasValidDb (not (same m.mail_file []) && env.has_file_store) _ _
      (bind-Keeps HasValidDb (read_mail m.mail_file) _ (read_mail-Keeps m.mail_file)
        (mail_create_from_stream-Keeps inbox))
      (mail_create-Keeps inbox m.mail)

to_sent-Keeps : (env : Sender) (id : ℕ) → Keeps HasValidDb (to_sent env id)
to_sent-Keeps env id = mail_move_with_file_store-Keeps env.has_file_store outbox id sent

after_send-valid :
    (env : Sender) (dest : Text) (id : ℕ) (w : World)
    → HasValidDb w
    → HasValidDb (after_send env dest id w).1
unfolding after_send
after_send-valid env dest id w v =
    (remove_entry-Keeps dest id (to_sent env id) (to_sent-Keeps env id)).holds w v

after_dialogue-valid :
    (env : Sender) (dest : Text) (id : ℕ) (o : Option Text) (w : World)
    → HasValidDb w
    → HasValidDb (after_dialogue env dest id o w).1
after_dialogue-valid env dest id none w v = after_send-valid env dest id w v
after_dialogue-valid env dest id (some text) w v = v

send_content-valid :
    (env : Sender) (dest : Text) (ref : QueuedMail) (x : Result Reader × World)
    → HasValidDb x.1
    → HasValidDb (send_content env dest ref x).1
send_content-valid env dest ref (err e, w) v = v
send_content-valid env dest ref (ok r, w) v =
    after_dialogue-valid env dest ref.id (env.send dest ref r.content) w v

abbrev pub world_of : Next → World
world_of (continue q w) = w
world_of (stop q w) = w

if-valid :
    (b : Bool) (x y : Next)
    → HasValidDb (world_of x)
    → HasValidDb (world_of y)
    → HasValidDb (world_of (if b then x else y))
if-valid true x y vx vy = vx
if-valid false x y vx vy = vy

settle-valid :
    (ref : QueuedMail) (q : Queue) (x : Outcome × World)
    → HasValidDb x.1
    → HasValidDb (world_of (settle ref q x))
unfolding settle
settle-valid ref q (delivered, w) v = v
settle-valid ref q (failed text, w) v = if-valid (is_network_error text) _ _ v (
    if-valid (is_permanent_error text) _ _
      ((remove_entry-Keeps q.destination ref.id (mail_delete outbox ref.id)
          (mail_delete-Keeps outbox ref.id)).holds
        w v)
      v)

settle_local-valid :
    (env : Sender) (ref : QueuedMail) (q : Queue) (x : Result ℕ × World)
    → HasValidDb x.1
    → HasValidDb (world_of (settle_local env ref q x))
unfolding settle_local
settle_local-valid env ref q (err _, w) v = v
settle_local-valid env ref q (ok _, w) v =
    (remove_entry-Keeps q.destination ref.id (to_sent env ref.id) (to_sent-Keeps env ref.id)).holds
      w v

process_mail-valid :
    (env : Sender) (ref : QueuedMail) (q : Queue) (m : Mail) (w : World)
    → HasValidDb w
    → HasValidDb (world_of (process_mail env ref q m w))
unfolding process_mail deliver_remote
process_mail-valid env ref q m w v =
    if-valid m.deleted _ _
      ((remove_entry-Keeps q.destination ref.id (mail_expunge outbox)
          (mail_expunge-Keeps outbox)).holds
        w v)
      (if-valid (ltb undeliverable_timeout (w.now - m.date)) _ _
        ((remove_entry-Keeps q.destination ref.id (mail_delete outbox ref.id)
            (mail_delete-Keeps outbox ref.id)).holds
          w v)
        (if-valid (same q.destination env.my_address) _ _
          (settle_local-valid env ref q (deliver_local env m w)
            ((deliver_local-Keeps env m).holds w v))
          (settle-valid ref q (send_content env q.destination ref (outgoing_content env m w)) (
            send_content-valid env q.destination ref (outgoing_content env m w)
              ((outgoing_content-Keeps env m).holds w v)))))

process_read-valid :
    (env : Sender) (ref : QueuedMail) (q : Queue) (x : Result (ℕ × Mail) × World)
    → HasValidDb x.1
    → HasValidDb (world_of (process_read env ref q x))
unfolding process_read
process_read-valid env ref q (err no_rows, w) v = (queue_delete-Keeps outbox ref.id).holds w v
process_read-valid env ref q (err _, w) v = v
process_read-valid env ref q (ok (_, m), w) v = process_mail-valid env ref q m w v

process-valid :
    (env : Sender) (ref : QueuedMail) (q : Queue) (w : World)
    → HasValidDb w
    → HasValidDb (world_of (process env ref q w))
unfolding process mail_select
process-valid env ref q w v = process_read-valid env ref q (mail_select outbox ref.id w) v

go_on-valid :
    (rest : Queue → World → Queue × World) (x : Next)
    → ((q : Queue) (w : World) → HasValidDb w → HasValidDb (rest q w).1)
    → HasValidDb (world_of x)
    → HasValidDb (go_on rest x).1
go_on-valid rest (continue q w) h v = h q w v
go_on-valid rest (stop q w) h v = v

process_each-valid :
    (env : Sender) (refs : List QueuedMail) (q : Queue) (w : World)
    → HasValidDb w
    → HasValidDb (process_each env refs q w).1
unfolding process_each
process_each-valid env [] q w v = v
process_each-valid env (ref ∷ refs) q w v =
    go_on-valid (process_each env refs) (process env ref q w) (process_each-valid env refs)
      (process-valid env ref q w v)

-- A run over the queue of a destination keeps the constraints, whatever the network answers.
pub run-valid : (env : Sender) (q : Queue) (w : World) → HasValidDb w → HasValidDb (run env q w).1
unfolding run run_refs queue_mail_ids_for_destination
run-valid env q w v =
    let (q', w') =
      process_each env (queued_for q.destination w.db.queue)
        (record q { last_attempt = some w.now }) w in
    (mail_expunge-Keeps outbox).holds w' (
      process_each-valid env (queued_for q.destination w.db.queue)
        (record q { last_attempt = some w.now }) w v)
