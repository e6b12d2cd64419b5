-- ===== src/Storage/Queue.antt =====
-- internal/storage/sqlite3/table_queue.go.
use yggmail_android.Base.{
  ℕ, Bool, ◌&&◌, not, List, [], ◌∷◌, Text, codes, same, any, filter, ltb, ◌==◌, if◌then◌else◌,
}
use yggmail_android.World.{ok, QueueRow, Action, on_db, query}
use yggmail_android.Storage.Tables.{is_queued, insert_queue}

-- types.QueuedMail
pub record QueuedMail : Type 0 where
  pub id : ℕ
  pub from : Text
  pub rcpt : Text

-- SELECT DISTINCT destination FROM queue
unfoldable pub distinct_destinations : List QueueRow → List Text
distinct_destinations [] = []
distinct_destinations (q ∷ qs) =
    q.destination ∷ filter (λ t. not (same t q.destination)) (distinct_destinations qs)

-- QueueListDestinations
unfoldable pub queue_list_destinations : Action (List Text)
unfolding distinct_destinations
queue_list_destinations = query (λ d. ok (distinct_destinations d.queue))

-- ORDER BY id DESC, by insertion
unfoldable pub insert_desc : QueuedMail → List QueuedMail → List QueuedMail
insert_desc m [] = m ∷ []
insert_desc m (n ∷ ns) = if ltb m.id n.id then n ∷ insert_desc m ns else m ∷ n ∷ ns

unfoldable pub queued_for : Text → List QueueRow → List QueuedMail
unfolding insert_desc
queued_for dest [] = []
queued_for dest (q ∷ qs) =
    let rest = queued_for dest qs in
    if same q.destination dest
    then insert_desc (record { id = q.id; from = q.mail; rcpt = q.rcpt }) rest
    else rest

-- QueueMailIDsForDestination
unfoldable pub queue_mail_ids_for_destination : Text → Action (List QueuedMail)
unfolding queued_for
queue_mail_ids_for_destination destination = query (λ d. ok (queued_for destination d.queue))

abbrev pub outbox : Text
outbox = codes "Outbox"

-- QueueInsertDestinationForID
unfoldable pub queue_insert_destination_for_id : Text → ℕ → Text → Text → Action (Unit {0})
unfolding insert_queue
queue_insert_destination_for_id dest id from rcpt = on_db (
    insert_queue
      (record { destination = dest; mailbox = outbox; id = id; mail = from; rcpt = rcpt }))

-- QueueDeleteDestinationForID
unfoldable pub queue_delete_destination_for_id : Text → ℕ → Action (Unit {0})
queue_delete_destination_for_id dest id =
    on_db
      (λ d. (ok tt, record d { queue = filter (λ q. not (is_queued dest outbox id q)) d.queue }))

abbrev pub is_pending : Text → ℕ → QueueRow → Bool
is_pending m i q = same q.mailbox m && q.id == i

-- QueueSelectIsMessagePendingSend: COUNT(*) > 0
unfoldable pub queue_select_is_message_pending_send : Text → ℕ → Action Bool
queue_select_is_message_pending_send mailbox id =
    query (λ d. ok (any (is_pending mailbox id) d.queue))
