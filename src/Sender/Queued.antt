-- ===== src/Sender/Queued.antt =====
-- QueueFor of internal/smtpsender/sender.go: the entries of the queue.
use yggmail_android.Base.{
  ℕ, ◌≡◌, ap, sym, ◌∙◌, Bool, true, Option, List, [], ◌∷◌, ◌++◌, Text, Bytes, any, All, same_refl,
  arith, ◌||◌,
}
use yggmail_android.World.{World, Result, ok, QueueRow, Db}
use yggmail_android.World.Keeps.{Keeps, bind-Keeps, pure-Keeps, resume-ok}
use yggmail_android.Storage.Tables.{is_queued, insert_queue}
use yggmail_android.Storage.Queue.{outbox, queue_insert_destination_for_id}
use yggmail_android.Sender.Queues.{host_of, queue_each, store_outgoing, queue_for}

-- Whether the message is queued for the destination.
abbrev pub queued : Text → ℕ → World → Bool
queued host pid w = any (is_queued host outbox pid) w.db.queue

any-append :
    (p : QueueRow → Bool) (qs : List QueueRow) (q : QueueRow)
    → any p (qs ++ q ∷ []) ≡ (any p qs || p q)
any-append p [] q = ground arith
any-append p (r ∷ qs) q = ground (arith, any-append p qs q)

insert-IsQueued :
    (host : Text) (pid : ℕ) (h : Text) (i : ℕ) (from rcpt : Text)
    → Keeps (λ w. queued host pid w ≡ true) (queue_insert_destination_for_id h i from rcpt)
unfolding queue_insert_destination_for_id insert_queue
insert-IsQueued host pid h i from rcpt = record {
  holds = λ w k. ground (
    arith,
    any-append (is_queued host outbox pid) w.db.queue
        (record { destination = h; mailbox = outbox; id = i; mail = from; rcpt = rcpt }),
  );
}

queue_each-IsQueued :
    (host : Text) (id : ℕ) (addr_spec : Text → Option Text) (pid : ℕ) (from : Text)
    (rcpts : List Text)
    → Keeps (λ w. queued host id w ≡ true) (queue_each addr_spec pid from rcpts)
unfolding queue_each
queue_each-IsQueued host id addr_spec pid from [] = pure-Keeps _ []
queue_each-IsQueued host id addr_spec pid from (rcpt ∷ rcpts) =
    bind-Keeps _ (λ w. (host_of addr_spec rcpt, w)) _ (record { holds = λ w k. k })
      (λ h.
        bind-Keeps _ (queue_insert_destination_for_id h pid from rcpt) _
          (insert-IsQueued host id h pid from rcpt)
          (λ _.
            bind-Keeps _ (queue_each addr_spec pid from rcpts) _
              (queue_each-IsQueued host id addr_spec pid from rcpts) (λ _. pure-Keeps _ _)))

insert_queue_queued :
    (q : QueueRow) (d : Db)
    → (insert_queue q d).0 ≡ ok tt
    → any (is_queued q.destination q.mailbox q.id) (insert_queue q d).1.queue ≡ true
unfolding insert_queue
insert_queue_queued q d h = ground (
  arith,
  any-append (is_queued q.destination q.mailbox q.id) d.queue q,
  same_refl q.destination,
  same_refl q.mailbox,
)

insert_queued :
    (host : Text) (pid : ℕ) (from rcpt : Text) (w w' : World)
    → queue_insert_destination_for_id host pid from rcpt w ≡ (ok tt, w')
    → queued host pid w' ≡ true
unfolding queue_insert_destination_for_id
insert_queued host pid from rcpt w w' h =
    let row : QueueRow = record {
      destination = host;
      mailbox = outbox;
      id = pid;
      mail = from;
      rcpt = rcpt;
    } in
    ap (λ (x : Result (Unit {0}) × World). queued host pid x.1) (sym h)
    ∙ insert_queue_queued row w.db (ap (λ x. x.0) h)

-- A recipient for whose host the message is queued.
abbrev pub IsQueuedFor : (Text → Option Text) → ℕ → World → Text → Type 0
IsQueuedFor addr_spec pid w rcpt =
    (host : Text) × (host_of addr_spec rcpt ≡ ok host) × (queued host pid w ≡ true)

pub queue_each_queued :
    (addr_spec : Text → Option Text) (pid : ℕ) (from : Text) (rcpts hosts : List Text)
    (w w' : World)
    → queue_each addr_spec pid from rcpts w ≡ (ok hosts, w')
    → All (IsQueuedFor addr_spec pid w') rcpts
unfolding queue_each
queue_each_queued addr_spec pid from [] hosts w w' h = tt
queue_each_queued addr_spec pid from (rcpt ∷ rcpts) hosts w w' h =
    let (host, w1, e1, h1) = resume-ok _ (host_of addr_spec rcpt, w) hosts w' h in
    let (_, w2, e2, h2) =
      resume-ok _ (queue_insert_destination_for_id host pid from rcpt w1) hosts w' h1 in
    let (rest, w3, e3, h3) = resume-ok _ (queue_each addr_spec pid from rcpts w2) hosts w' h2 in
    let last : w3 ≡ w' = ap (λ x. x.1) h3 in
    let e : queue_each addr_spec pid from rcpts w2 ≡ (ok rest, w') =
      e3 ∙ ap (λ x. (ok rest, x)) last in
    let there =
      (queue_each-IsQueued host pid addr_spec pid from rcpts).holds w2
        (insert_queued host pid from rcpt w1 w2 e2) in
    (
      (
        host,
        ap (λ x. x.0) e1,
        ap (λ (x : Result (List Text) × World). queued host pid x.1) (sym e) ∙ there,
      ),
      queue_each_queued addr_spec pid from rcpts rest w2 w' e,
    )

-- A message that QueueFor accepts is queued, under one ID of the Outbox, for the host of each of its
-- recipients.
pub queue_for_queued :
    (addr_spec : Text → Option Text) (has_file_store : Bool) (from : Text) (rcpts hosts : List Text)
    (content : Bytes) (w w' : World)
    → queue_for addr_spec has_file_store from rcpts content w ≡ (ok hosts, w')
    → (pid : ℕ) × ((store_outgoing has_file_store content w).0 ≡ ok pid)
      × All (IsQueuedFor addr_spec pid w') rcpts
unfolding queue_for
queue_for_queued addr_spec has_file_store from rcpts hosts content w w' h =
    let (pid, w1, e1, h1) = resume-ok _ (store_outgoing has_file_store content w) hosts w' h in
    (pid, ap (λ x. x.0) e1, queue_each_queued addr_spec pid from rcpts hosts w1 w' h1)
