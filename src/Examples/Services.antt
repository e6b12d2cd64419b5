-- ===== src/Examples/Services.antt =====
-- The service for Android, the migrations and the fetch replies at concrete states.
use mathlib.Core.Path.{subst}
use yggmail_android.Base.{
  ℕ, ◌*◌, ◌^◌, ◌<◌, ◌≡◌, refl, inr, true, false, ◌&&◌, ◌||◌, not, none, some, List, [], ◌∷◌, Text,
  codes, same, replicate, length, All, All-replicate, arith, ltb, is_some,
}
use yggmail_android.Base.Int.{pos}
use yggmail_android.World.{
  World, Engine, Db, Disk, DiskStep, read, MailRow, MailboxRow, QueueRow, Result, ok, err, Error,
  invalid_hex, already_initialized, nil_dereference, out_of_fuel, size_exceeded,
}
use yggmail_android.Address.{hex_encode, create_address, parse_address}
use yggmail_android.Transport.{Config, YggdrasilTransport}
use yggmail_android.Transport.Kick.{received, new_kick_byte_conn, dial_stream, received-dial_stream}
use yggmail_android.Storage.Config.{config_get_max_message_size}
use yggmail_android.Storage.Schema.{LegacyRow, Schema, legacy, current, run_migrations}
use yggmail_android.Storage.Upgrade.{AreCopies, run_migrations_legacy}
use yggmail_android.Storage.Migration.{migrate_large_messages_to_files}
use yggmail_android.Storage.Migrated.Rows.{contents, Apart}
use yggmail_android.Storage.Migrated.Contents.{migrate_large-contents}
use yggmail_android.Storage.Writer.{
  writer, idle, steps, spawns, wins, HasOneRunner, WriterRuns-HasOneRunner,
}
use yggmail_android.Storage.Mails.{Mail}
use yggmail_android.Imap.Fetch.{FetchCodec, get_message}
use yggmail_android.Imap.Replies.{get_message_whole, IsEndOf}
use yggmail_android.Smtp.Backend.{SessionRemote}
use yggmail_android.Smtp.Remote as Remote
use yggmail_android.Service.{YggmailService}
use yggmail_android.Service.Lifecycle.{
  initialize, start_service, stop_service, close_service, load_key, private_key_entry, split,
}
use yggmail_android.Service.Peers.{on_network_change, update_peers}
use yggmail_android.Service.Peers.Update.{update_peers_exact, IsConfigured}
use yggmail_android.Service.Machine.{IsReady, made, called, perform, initializes, starts}
use yggmail_android.Service.Ready.{Runs-IsReady}
use yggmail_android.Service.Phases.{Phase, phase, Event, Move}
use yggmail_android.Service.Contract.{perform-Move, shut_down}
use yggmail_android.Service.Identity.{GeneratesKeys, IsKey, load_key_again}
use yggmail_android.Service.Restart.{link, initialize_failed}
use yggmail_android.Service.Mail.{send_mail, mail_text, recipients_of}
use yggmail_android.Service.Mail.Sending.{send_mail_queued, IsSent}
use yggmail_android.Service.Limits.{set_max_message_size_mb}
use yggmail_android.Service.Limits.Megabytes.{megabytes_overflow}
use yggmail_android.Service.Discovery.{Peer, batches}
use yggmail_android.Service.Discovery.Batches.{batches_cover, joined}
use yggmail_android.Service.Probe.{MessageSizeLimitCheckResult, check_recipient_message_size_limit}
use yggmail_android.Service.Probe.Agreement.{max_message_bytes, node_of, check_recipient_agrees}
use yggmail_android.Examples.{inbox, outbox, box, sound_disk, server, server-valid}
use yggmail_android.Examples.Platform.{
  key, env, core, parses_each, adds_each, closed_service, config, opened_service, first_peers,
  next_peers, serving_service, opened-IsReady,
}

perform-Move_example : Move Event.start_call true Phase.opened Phase.serving
unfolding perform
perform-Move_example =
    perform-Move env core (starts 5 first_peers) opened_service server opened-IsReady

abbrev initialized : YggmailService × World
initialized = (perform env core initializes closed_service server).1

Runs-IsReady_example : IsReady initialized.0
Runs-IsReady_example =
    Runs-IsReady env core initialized.0 initialized.1
      (called initializes closed_service server (made 0 (codes "mail.db") [] [] server))

shut_down_example : phase (close_service env (stop_service serving_service).1).1 ≡ Phase.closed
shut_down_example = shut_down env serving_service refl

abbrev keyed : World
keyed = record server {
  db = record server.db { config = (private_key_entry, hex_encode key) ∷ [] };
}

key-IsKey : IsKey key
key-IsKey = (refl, All-replicate (λ b. b < 256) 64 7 (omega arith))

made_keys : GeneratesKeys env
made_keys sk e = let k : key ≡ sk = cc e in subst IsKey k key-IsKey

load_key_again_example : load_key env keyed ≡ (ok key, keyed)
unfolding load_key
load_key_again_example = load_key_again env env server keyed key made_keys refl

abbrev spoilt : World
spoilt = record server { db = record server.db { config = (private_key_entry, codes "zz") ∷ [] } }

initialize_failed_example :
    ((initialize env closed_service spoilt).0 ≡ err invalid_hex)
    × ((initialize env closed_service spoilt).1.0.storage ≡ true)
    × ((initialize env closed_service spoilt).1.0.config ≡ none)
    × ((initialize env (initialize env closed_service spoilt).1.0 spoilt).0
        ≡ err already_initialized)
    × ((start_service env 5 first_peers (initialize env closed_service spoilt).1.0).0
        ≡ err nil_dereference)
unfolding load_key same yggmail_android.Service.Lifecycle.peer_list
initialize_failed_example =
    initialize_failed env env 5 first_peers (codes "tls://a:1") (codes "tls://b:1" ∷ [])
      closed_service spoilt spoilt spoilt invalid_hex refl refl refl refl refl refl

abbrev linked : YggdrasilTransport
linked = link config (codes "tls://a:1" ∷ codes "tls://b:1" ∷ []) true false

abbrev known_peers : List Text
known_peers = codes "tls://a:1" ∷ codes "tls://b:1" ∷ []

configured : IsConfigured core first_peers known_peers
unfolding yggmail_android.Service.Peers.parse_peers same
configured q = refl

update_peers_exact_example :
    ((update_peers core next_peers serving_service known_peers).0 ≡ ok tt)
    × ((update_peers core next_peers serving_service known_peers).1.0
        ≡ record serving_service { last_peers = next_peers })
    × IsConfigured core next_peers (update_peers core next_peers serving_service known_peers).1.1
update_peers_exact_example =
    update_peers_exact core next_peers serving_service linked known_peers refl refl (parses_each _)
      (adds_each _) configured

abbrev recipient : Text
recipient = create_address (replicate 32 171)

abbrev mailed : YggmailService × World
mailed =
    (send_mail some (codes "today") 7 (codes "me") recipient (codes "hi") (codes "there")
      serving_service server).1

send_mail_queued_example :
    IsSent some
      (codes "today")
      7
      (codes "me")
      recipient
      (codes "hi")
      (codes "there")
      serving_service
      server
      mailed.0
      mailed.1
unfolding send_mail yggmail_android.Service.Mail.mail_text
    yggmail_android.World.small_message_threshold create_address
    yggmail_android.Storage.Tables.next_id
send_mail_queued_example =
    send_mail_queued some (codes "today") 7 (codes "me") recipient (codes "hi") (codes "there")
      serving_service mailed.0 server mailed.1 refl (omega arith) refl refl refl refl refl

megabytes_overflow_example :
    ((set_max_message_size_mb (pos (1 * 2 ^ 44)) opened_service server).0 ≡ ok tt)
    × ((config_get_max_message_size
          (set_max_message_size_mb (pos (1 * 2 ^ 44)) opened_service server).1).0
        ≡ ok (pos 0))
megabytes_overflow_example = megabytes_overflow 1 opened_service server refl

abbrev peer : Text → Peer
peer a = record {
  address = a;
  protocol = codes "tls";
  host = [];
  port = [];
  region = [];
  rtt = 5;
  available = true;
  response_ms = pos 5;
  last_seen = pos 5;
}

abbrev three : List Peer
three = peer (codes "a") ∷ peer (codes "b") ∷ peer (codes "c") ∷ []

batches_cover_example :
    (bs : List (ℕ × List Peer)) × (batches 4 (pos 2) three 0 ≡ ok bs) × (joined bs ≡ three)
batches_cover_example = batches_cover 4 1 three (omega arith)

abbrev session : SessionRemote
session = record {
  remote_addr = some (hex_encode (replicate 32 7));
  public = replicate 32 171;
  from = [];
}

check_recipient_agrees_example :
    (r : MessageSizeLimitCheckResult) × (check_recipient_message_size_limit
        (λ _. node_of (λ _. codes "552") (codes "too big") session server)
        recipient
        (pos 20000000)
        serving_service
      ≡ ok r)
    × (r.can_send
        ≡ not (
            ltb max_message_bytes 20000000
            || (ltb 0 20000000 && Remote.over_limit 20000000 server)))
unfolding parse_address create_address
check_recipient_agrees_example =
    check_recipient_agrees (λ _. node_of (λ _. codes "552") (codes "too big") session server)
      (λ _. codes "552") (codes "too big") recipient (replicate 32 171) 20000000 serving_service
      config session server refl refl refl (All-replicate (λ b. b < 256) 32 7 (omega arith)) refl
      refl refl

abbrev old_row : LegacyRow
old_row = record {
  mailbox = outbox;
  id = 1;
  mail = some (codes "hi");
  datetime = 5;
  seen = true;
  answered = false;
  flagged = false;
  deleted = false;
}

abbrev old_schema : Schema
old_schema = record {
  versions = none;
  mailboxes = box outbox ∷ [];
  mails = legacy (old_row ∷ []);
  queue =
      record {
        destination = codes "ab";
        mailbox = outbox;
        id = 1;
        mail = codes "me";
        rcpt = codes "you";
      }
      ∷ [];
}

-- An engine that counts bytes, and finds the database locked for one message.
abbrev engine : Engine
engine = record { length_of = λ m i c. length c; locked = λ m i. same m outbox }

run_migrations_legacy_example :
    (ms : List MailRow) × AreCopies engine (old_row ∷ []) ms
    × (run_migrations engine old_schema
        ≡ (ok tt, record old_schema { versions = some (2 ∷ []); mails = current ms; queue = [] }))
unfolding yggmail_android.Storage.Schema.get_schema_version same
run_migrations_legacy_example =
    run_migrations_legacy engine old_schema (old_row ∷ []) refl refl ((refl, refl), tt) (refl, tt)

abbrev unlocked : Engine
unlocked = record { length_of = λ m i c. length c; locked = λ m i. false }

abbrev large_server : World
large_server = record server {
  disk = record sound_disk { files = (codes "Outbox/2.eml", codes "hey") ∷ [] };
}

large_server-Apart :
    All (λ x. All (Apart large_server x) large_server.db.mails) large_server.db.mails
unfolding yggmail_android.Base.same yggmail_android.Base.Decimal.format
    yggmail_android.FileStore.temp_path yggmail_android.FileStore.Paths.mail_path
    yggmail_android.FileStore.Paths.trim_space yggmail_android.FileStore.Paths.replace_byte
    yggmail_android.FileStore.Paths.replace_dots
large_server-Apart = (
  ((tt, refl, refl), ((tt, refl, refl), ((refl, refl, refl), tt))),
  (
    ((tt, refl, refl), ((tt, refl, refl), ((refl, refl, refl), tt))),
    (((tt, refl, refl), ((tt, refl, refl), ((refl, refl, refl), tt))), tt),
  ),
)

migrate_large-contents_example :
    contents (migrate_large_messages_to_files engine 1 large_server).1 ≡ contents large_server
migrate_large-contents_example =
    migrate_large-contents engine 1 large_server server-valid large_server-Apart

WriterRuns-HasOneRunner_example : HasOneRunner (writer true 1 0 true)
WriterRuns-HasOneRunner_example = WriterRuns-HasOneRunner (writer true 1 0 true) (
    steps (writer false 0 1 true) (writer true 1 0 true)
      (steps (writer false 0 0 false) (writer false 0 1 true) idle (spawns 0 0 false))
      (wins 0 0 true))

-- A codec that parses nothing: the whole content is the body.
abbrev raw : FetchCodec
raw = record {
  Header = Unit;
  Envelope = Unit;
  Structure = Unit;
  read_header = λ b. some (tt, b);
  fetch_envelope = λ h. some tt;
  fetch_body_structure = λ h b e. some tt;
  parse_section = λ t. some t;
  fetch_body_section = λ h b s. some b;
}

abbrev in_file : Mail
in_file = record {
  mailbox = inbox;
  id = 3;
  mail = [];
  mail_file = codes "INBOX/3.eml";
  size = 4;
  date = 5;
  seen = false;
  answered = false;
  flagged = false;
  deleted = false;
}

abbrev filed_server : World
filed_server = record server {
  disk = record server.disk { files = (codes "INBOX/3.eml", codes "long") ∷ [] };
}

get_message_whole_example : IsEndOf raw (codes "long") tt (codes "long")
unfolding same get_message yggmail_android.FileStore.read_mail
    yggmail_android.FileStore.Paths.contains_dots yggmail_android.FileStore.Files.lookup
get_message_whole_example =
    get_message_whole raw in_file (codes "long") tt (codes "long") filed_server
      (λ c h b e. ([], (cc))) (inr (refl, refl, refl, refl)) refl

received-dial_stream_example :
    received (2 ∷ 9 ∷ []) (new_kick_byte_conn (dial_stream (codes "EHLO"))) ≡ codes "EHLO"
unfolding yggmail_android.Transport.Kick.sum
received-dial_stream_example = received-dial_stream (2 ∷ 9 ∷ []) (codes "EHLO")
