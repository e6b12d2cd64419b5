-- ===== src/Examples/Sessions.antt =====
-- The sessions, the queues and the whole program at concrete inputs.
use yggmail_android.Base.{
  same, ◌↔◌, ◌<◌, All-replicate, ℕ, suc, ◌+◌, ◌-◌, ◌*◌, ◌≤◌, ◌≡◌, refl, Bool, true, false, ◌&&◌,
  Option, none, some, List, [], ◌∷◌, ◌++◌, Text, Bytes, codes, All, arith, if◌then◌else◌, replicate,
  min,
}
use yggmail_android.World.{World, QueueRow, ok, err, Result}
use yggmail_android.Storage.Keeps.{HasValidDb}
use yggmail_android.Storage.Mails.{select_row}
use yggmail_android.Storage.Queue.{QueuedMail}
use yggmail_android.Address.{parse_address, hex_decode, hex_encode, create_address}
use yggmail_android.Sender.Queues.{queue_for, store_outgoing}
use yggmail_android.Sender.Queued.{queued, queue_for_queued, IsQueuedFor}
use yggmail_android.Sender.Retry.{base_backoff, calculate_backoff}
use yggmail_android.Sender.Delivery.{Queue, Sender, process_mail, run, stop}
use yggmail_android.Sender.Outcomes.{run_retry, process_mail_permanent, without, given_up}
use yggmail_android.Smtp.Codec.{Codec}
use yggmail_android.Smtp.Backend.{
  Backend, external, ConnectionState, SessionRemote, anonymous_login,
}
use yggmail_android.Smtp.Remote
use yggmail_android.Smtp.Access.{anonymous_login_sound, mail_limited}
use yggmail_android.Imap.User.{create_mailbox, is_foreign}
use yggmail_android.Imap.Access.{login_sound}
use yggmail_android.Smtp.Limit.{store_large_fits}
use yggmail_android.Address.RoundTrip.{AreBytes}
use yggmail_android.Base.Int.{pos}
use yggmail_android.Storage.Config.{
  config_set_max_message_size, config_set_password, config_try_password,
}
use yggmail_android.Storage.Mails.{Mail, mail_select, mail_expunge}
use yggmail_android.System.{Reaches-valid, start, next, creates}
use yggmail_android.Examples.{inbox, outbox, note, draft, server, server-valid}

-- A codec that takes a message apart at no place: no header, and the body as it is.
abbrev plain : Codec
plain = record {
  Header = List (Text × Text);
  read = λ b. some ([], b);
  add = λ k v h. (k, v) ∷ h;
  has = λ k h. false;
  fields = λ h. h;
}

abbrev key : Bytes
key = replicate 32 171

abbrev peer : SessionRemote
peer = record { remote_addr = some (hex_encode key); public = key; from = [] }

abbrev node : Backend
node = record {
  mode = external;
  public_key = key;
  matches = λ p q. false;
  has_file_store = true;
  has_logger = true;
}

abbrev joined : Option ConnectionState
joined = some (record { remote_addr = some (hex_encode key); hostname = hex_encode key })

Reaches-valid_example : HasValidDb (create_mailbox (codes "Work") server).1
Reaches-valid_example =
    Reaches-valid plain some server (create_mailbox (codes "Work") server).1
      (next server (create_mailbox (codes "Work") server).1 start (creates (codes "Work") server))
      server-valid

key-AreBytes : AreBytes key
key-AreBytes = All-replicate (λ b. b < 256) 32 171 (omega arith)

mail_limited_example :
    let w' = (config_set_max_message_size (pos 100) server).1 in
    ((Remote.mail peer (create_address key) 100 w').0
        ≡ ok (record peer { from = create_address key })
      ↔ (key ≡ key) × (100 ≤ 100))
    × ((Remote.mail peer (create_address key) 100 w').1 ≡ w')
mail_limited_example =
    mail_limited peer key key 100 100 server refl key-AreBytes key-AreBytes refl (omega arith)

anonymous_login_sound_example :
    (node.mode ≡ external)
    × ((st : ConnectionState) × (remote : Text) × (joined ≡ some st)
        × (st.remote_addr ≡ some remote)
        × (hex_decode remote ≡ some key)
        × (st.hostname ≡ hex_encode key)
        × (peer.remote_addr ≡ some remote))
unfolding anonymous_login yggmail_android.Base.same
anonymous_login_sound_example = anonymous_login_sound node joined peer refl

abbrev queued_world : World
queued_world = (queue_for some true (codes "me") (create_address key ∷ []) (codes "hi") server).1

queue_for_queued_example :
    (pid : ℕ) × ((store_outgoing true (codes "hi") server).0 ≡ ok pid)
    × All (IsQueuedFor some pid queued_world) (create_address key ∷ [])
unfolding queue_for yggmail_android.World.small_message_threshold
    yggmail_android.Storage.Tables.next_id create_address
queue_for_queued_example =
    queue_for_queued some true (codes "me") (create_address key ∷ []) (hex_encode key ∷ [])
      (codes "hi") server queued_world refl

abbrev offline : Sender
offline = record {
  my_address = codes "me";
  has_file_store = true;
  send = λ dest ref body. some (codes "i/o timeout");
  describe = λ e. [];
}

abbrev waiting : Queue
waiting = record {
  destination = codes "you";
  retry_count = 2;
  last_attempt = none;
  permanent_failure = false;
}

abbrev entry : QueuedMail
entry = record { id = 1; from = codes "me"; rcpt = codes "you" }

abbrev refused : Sender
refused = record offline { send = λ dest ref body. some (codes "552") }

abbrev entry_for : Text → QueueRow
entry_for node = record {
  destination = node;
  mailbox = draft.mailbox;
  id = 1;
  mail = codes "me";
  rcpt = node;
}

abbrev queued_server : World
queued_server = record server {
  db = record server.db { queue = entry_for (codes "you") ∷ entry_for (codes "them") ∷ [] };
}

run_retry_example : run offline waiting queued_server ≡ (
  record waiting { last_attempt = some 9; retry_count = 3 },
  (mail_expunge outbox queued_server).1,
)
unfolding yggmail_android.Base.same yggmail_android.Storage.Tables.find_mail
    yggmail_android.Sender.Retry.is_network_error
    yggmail_android.Storage.Queue.queue_mail_ids_for_destination mail_select
run_retry_example =
    run_retry offline waiting queued_server (entry ∷ []) refl refl
      ((1, (select_row 1 draft).1, codes "i/o timeout", refl, refl, refl, refl, refl, refl), tt)

process_mail_permanent_example :
    (w' : World) × (process_mail refused entry waiting (select_row 1 draft).1 queued_server
      ≡ stop (record waiting { permanent_failure = true }) w')
    × (queued (codes "you") 1 w' ≡ false)
    × (w'.db.queue ≡ without (codes "you") 1 queued_server)
    × (w'.db.mails ≡ given_up (codes "you") 1 queued_server)
unfolding yggmail_android.Base.same yggmail_android.Sender.Retry.is_network_error
    yggmail_android.Sender.Retry.is_permanent_error
process_mail_permanent_example =
    process_mail_permanent refused entry waiting (select_row 1 draft).1 (codes "552") queued_server
      refl refl refl refl refl refl refl

abbrev received : World
received = (Remote.store_large note server).1

store_large_fits_example :
    (seq : ℕ) × (m : Mail) × (mail_select inbox 2 received ≡ (ok (seq, m), received))
    × (Remote.over_limit m.size received ≡ false)
unfolding Remote.store_large yggmail_android.World.small_message_threshold same
    yggmail_android.Storage.Tables.next_id
store_large_fits_example = store_large_fits note 2 server received refl

abbrev secured : World
secured = (config_set_password (codes "secret") server).1

login_sound_example :
    (is_foreign (parse_address (codes "me")) key ≡ false)
    × ((config_try_password same (codes "secret") secured).0 ≡ ok true)
    × (hex_encode key ≡ hex_encode key)
unfolding yggmail_android.Imap.User.login config_set_password
login_sound_example =
    login_sound same key true (codes "me") (codes "secret") (hex_encode key) secured secured refl
