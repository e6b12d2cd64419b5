-- ===== src/Sender/Queues.antt =====
-- QueueFor and QueueForStream of internal/smtpsender/sender.go: a message is stored in the Outbox and
-- queued for each recipient. net/mail's parser of a recipient is a parameter.
use yggmail_android.Base.{
  ℕ, ◌+◌, Bool, false, ◌&&◌, Option, none, some, List, [], ◌∷◌, ◌++◌, Text, Bytes, length, ltb,
  take, drop, if◌then◌else◌,
}
use yggmail_android.World.{
  bad_message, read_failed, Result, ok, err, Reader, Action, pure, fail, ◌>>=◌, ◌>>◌,
  small_message_threshold,
}
use yggmail_android.Address.{parse_address, hex_encode}
use yggmail_android.Storage.Queue.{outbox, queue_insert_destination_for_id, queue_list_destinations}
use yggmail_android.Storage.Mails.{mail_create, mail_create_from_stream}

-- The host of a recipient: mail.ParseAddress, utils.ParseAddress, hex.EncodeToString.
unfoldable pub host_of : (Text → Option Text) → Text → Result Text
unfolding parse_address hex_encode
host_of addr_spec rcpt = elim (addr_spec rcpt) [
  | none ↦ err bad_message
  | some address ↦ elim (parse_address address) [ ok pk ↦ ok (hex_encode pk) | err e ↦ err e ]
]

-- The loop over the recipients: the hosts whose queues are started.
unfoldable pub queue_each : (Text → Option Text) → ℕ → Text → List Text → Action (List Text)
unfolding host_of queue_insert_destination_for_id
queue_each addr_spec pid from [] = pure []
queue_each addr_spec pid from (rcpt ∷ rcpts) = do
  host ← (λ w. (host_of addr_spec rcpt, w))
  queue_insert_destination_for_id host pid from rcpt
  hosts ← queue_each addr_spec pid from rcpts
  pure (host ∷ hosts)

-- The storage that QueueFor chooses by the length.
unfoldable pub store_outgoing : Bool → Bytes → Action ℕ
unfolding mail_create mail_create_from_stream
store_outgoing has_file_store content =
    if ltb small_message_threshold (length content) && has_file_store
    then mail_create_from_stream outbox (record { content = content; broken = false })
    else mail_create outbox content

-- QueueFor
unfoldable pub queue_for :
    (Text → Option Text) → Bool → Text → List Text → Bytes → Action (List Text)
unfolding store_outgoing queue_each
queue_for addr_spec has_file_store from rcpts content = do
  pid ← store_outgoing has_file_store content
  queue_each addr_spec pid from rcpts

-- The storage that QueueForStream chooses by the bytes that it could peek.
unfoldable pub store_stream : Bool → Reader → Action ℕ
unfolding mail_create mail_create_from_stream
store_stream has_file_store reader =
    let limit = small_message_threshold + 1 in
    let peeked = take limit reader.content in
    if reader.broken && ltb (length reader.content) limit
    then fail read_failed
    else if ltb small_message_threshold (length peeked) && has_file_store
    then mail_create_from_stream outbox
        (record reader { content = peeked ++ drop limit reader.content })
    else if reader.broken
    then fail read_failed
    else mail_create outbox (peeked ++ drop limit reader.content)

-- QueueForStream
unfoldable pub queue_for_stream :
    (Text → Option Text) → Bool → Text → List Text → Reader → Action (List Text)
unfolding store_stream queue_each
queue_for_stream addr_spec has_file_store from rcpts reader = do
  pid ← store_stream has_file_store reader
  queue_each addr_spec pid from rcpts

-- manager: the destinations whose queues are started, and the seconds to the next call.
abbrev pub manager_interval : List Text → ℕ
manager_interval [] = 300
manager_interval (_ ∷ _) = 60

unfoldable pub manager : Action (List Text × ℕ)
unfolding queue_list_destinations
manager = do
  destinations ← queue_list_destinations
  pure (destinations, manager_interval destinations)
