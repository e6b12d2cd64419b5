-- ===== src/Service/Lifecycle.antt =====
-- Initialize, Start, Stop and Close of mobile/yggmail.go. The goroutines that Start makes are the SMTP
-- servers and the tickers; the local SMTP server and the log have no state here.
use yggmail_android.Base.{
  ℕ, Bool, true, false, not, Option, none, some, List, [], ◌∷◌, map, Text, Bytes, codes,
  if◌then◌else◌, ◌==◌,
}
use yggmail_android.World.{
  DiskStep, World, Result, ok, err, Action, pure, fail, ◌>>=◌, ◌>>◌, already_initialized,
  open_failed, key_failed, invalid_hex, disk_failed, already_running, not_initialized, no_peers,
  nil_dereference, not_running, still_running, close_failed,
}
use yggmail_android.Address.{hex_encode, hex_decode, to_key_from, create_address}
use yggmail_android.FileStore.Paths.{trim_space}
use yggmail_android.Storage.Config.{config_get, config_set}
use yggmail_android.Storage.Mailboxes.{mailbox_create}
use yggmail_android.Transport.{Config, YggdrasilTransport, new_yggdrasil_transport}
use yggmail_android.Service.{YggmailService, Platform, Called}

abbrev pub private_key_entry : Text
private_key_entry = codes "private_key"

-- ed25519.PrivateKeySize
abbrev pub private_key_size : ℕ
private_key_size = 64

-- A key that is made is stored; one that is stored is copied into 64 bytes.
unfoldable pub make_key : Option Bytes → Action Bytes
unfolding config_set hex_encode
make_key none = fail key_failed
make_key (some sk) = do config_set private_key_entry (hex_encode sk); pure sk

abbrev pub copy_key : Option Bytes → Action Bytes
copy_key none = fail invalid_hex
copy_key (some bs) = pure (to_key_from private_key_size bs)

unfoldable pub private_key_of : Platform → Text → Action Bytes
unfolding make_key hex_decode to_key_from
private_key_of env [] = make_key env.generate_key
private_key_of env (c ∷ s) = copy_key (hex_decode (c ∷ s))

-- The identity of the node: ConfigGet, and the key.
unfoldable pub load_key : Platform → Action Bytes
unfolding config_get private_key_of
load_key env = config_get private_key_entry >>= private_key_of env

-- for _, name := range []string{"INBOX", "Outbox", "Sent"}
unfoldable pub create_default_mailboxes : Action (Unit {0})
unfolding mailbox_create
create_default_mailboxes = do
  mailbox_create (codes "INBOX")
  mailbox_create (codes "Outbox")
  mailbox_create (codes "Sent")

-- NewFileStore, in a directory that has a name: os.MkdirAll of the default mailboxes.
unfoldable pub new_file_store : Action (Unit {0})
new_file_store w = (if w.disk.refuses DiskStep.mkdir then err disk_failed else ok tt, w)

abbrev pub keep_files : YggmailService → Result (Unit {0}) × World → Called (Unit {0})
keep_files s (err e, w) = (err e, (s, w))
keep_files s (ok _, w) = (ok tt, (record s { file_store = true }, w))

abbrev pub identify : Platform → YggmailService → Result Bytes × World → Called (Unit {0})
identify env s (err e, w) = (err e, (s, w))
identify env s (ok sk, w) =
    keep_files
      (record s { config = some (record { public_key = env.public_of sk; private_key = sk }) })
      ((create_default_mailboxes >> new_file_store) w)

-- Initialize. The background migration that it starts is Storage.Migration.
unfoldable pub initialize : Platform → YggmailService → World → Called (Unit {0})
unfolding load_key create_default_mailboxes new_file_store
initialize env s w =
    if s.storage
    then (err already_initialized, (s, w))
    else if not env.opens
    then (err open_failed, (s, w))
    else identify env (record s { storage = true }) (load_key env w)

-- The first part of strings.Split, before the rest.
abbrev pub push_first : ℕ → List Text → List Text
push_first c [] = (c ∷ []) ∷ []
push_first c (t ∷ ts) = (c ∷ t) ∷ ts

-- strings.Split(s, sep), for a separator of one byte
unfoldable pub split : ℕ → Text → List Text
split sep [] = [] ∷ []
split sep (c ∷ s) = let rest = split sep s in if c == sep then [] ∷ rest else push_first c rest

-- The parsing of the peers in Start
unfoldable pub peer_list : Text → List Text
unfolding split trim_space
peer_list [] = []
peer_list (c ∷ s) = map trim_space (split b',' (c ∷ s))

-- The servers and the tickers of a transport: the overlay server accepts from its listener.
abbrev pub serve :
    ℕ → Text → YggmailService → Result YggdrasilTransport → Result (Unit {0}) × YggmailService
serve now peers s (err e) = (err e, s)
serve now peers s (ok t) = (
  ok tt,
  record s {
    transport = some t;
    queues = some [];
    imap_server = true;
    stop_closed = false;
    last_peers = peers;
    last_activity = now;
    servers_paused = false;
    idle_check_closed = false;
    heartbeat_closed = false;
    running = true;
  },
)

abbrev pub connect_and_serve :
    Platform
    → ℕ
    → Text
    → List Text
    → Option Config
    → YggmailService
    → Result (Unit {0}) × YggmailService
connect_and_serve env now peers [] config s = (err no_peers, s)
connect_and_serve env now peers (p ∷ ps) none s = (err nil_dereference, s)
connect_and_serve env now peers (p ∷ ps) (some config) s =
    serve now peers s
      (new_yggdrasil_transport env.network create_address config (p ∷ ps) s.is_active s.is_charging)

-- Start
unfoldable pub start_service :
    Platform → ℕ → Text → YggmailService → Result (Unit {0}) × YggmailService
unfolding peer_list new_yggdrasil_transport create_address
start_service env now peers s =
    if s.running
    then (err already_running, s)
    else if not s.storage
    then (err not_initialized, s)
    else connect_and_serve env now peers (peer_list peers) s.config s

abbrev pub close_listener : YggdrasilTransport → YggdrasilTransport
close_listener t = record t { listening = false }

abbrev pub close_transport : Option YggdrasilTransport → Option YggdrasilTransport
close_transport none = none
close_transport (some t) = some (close_listener t)

-- Stop: what fails while the parts are closed is logged and ignored.
unfoldable pub stop_service : YggmailService → Result (Unit {0}) × YggmailService
stop_service s =
    if s.running
    then (
      ok tt,
      record s {
        running = false;
        idle_check_closed = true;
        heartbeat_closed = true;
        transport = close_transport s.transport;
        stop_closed = true;
      },
    )
    else (err not_running, s)

-- What the loop at the end of Stop waits for.
pub data StopEvent : Type 0 where
  smtp_done overlay_done timeout : StopEvent

-- The loop: whether the servers' goroutines have exited, and the events that come; the events that are
-- left, if it ends.
unfoldable pub wait_servers : Bool → Bool → List StopEvent → Option (List StopEvent)
wait_servers true true es = some es
wait_servers smtp overlay [] = none
wait_servers true false (StopEvent.smtp_done ∷ es) = wait_servers true false es
wait_servers false overlay (StopEvent.smtp_done ∷ es) = wait_servers true overlay es
wait_servers smtp false (StopEvent.overlay_done ∷ es) = wait_servers smtp true es
wait_servers false true (StopEvent.overlay_done ∷ es) = wait_servers false true es
wait_servers smtp overlay (StopEvent.timeout ∷ es) = some es

-- Close
unfoldable pub close_service : Platform → YggmailService → Result (Unit {0}) × YggmailService
close_service env s =
    if s.running
    then (err still_running, s)
    else if not s.storage
    then (ok tt, s)
    else if env.closes
    then (ok tt, record s { storage = false })
    else (err close_failed, s)

-- IsRunning
unfoldable pub is_running : YggmailService → Bool
is_running s = s.running

abbrev pub of_config {ℓ} : {A : Type ℓ} → A → (Config → A) → Option Config → A
of_config d f none = d
of_config d f (some c) = f c

-- GetMailAddress
unfoldable pub get_mail_address : YggmailService → Text
unfolding create_address
get_mail_address s = of_config [] (λ c. create_address c.public_key) s.config

-- GetPublicKey
unfoldable pub get_public_key : YggmailService → Text
unfolding hex_encode
get_public_key s = of_config [] (λ c. hex_encode c.public_key) s.config
