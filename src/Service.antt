-- ===== src/Service.antt =====
-- mobile/yggmail.go: the service for Android. YggmailService holds the parts and the state of the
-- application; a pointer that may be nil is an Option or, where only that is asked, a Boolean. Times
-- are nanoseconds. The lock of the service makes each method one step.
pub mod Lifecycle
pub mod Peers
pub mod Power
pub mod Machine
pub mod Ready
pub mod Phases
pub mod Contract
pub mod Identity
pub mod Mail
pub mod Limits
pub mod Discovery
pub mod Connections
pub mod Probe
pub mod Keeps
pub mod Intervals
pub mod Restart
use yggmail_android.Base.{
  ◌≡◌, refl, ℕ, ◌*◌, Bool, true, false, Option, none, some, List, [], ◌∷◌, ◌++◌, map, Text, Bytes,
  codes, if◌then◌else◌,
}
use yggmail_android.Base.Durations.{second, minute}
use yggmail_android.Base.Int.{ℤ, pos}
use yggmail_android.World.{not_initialized, open_failed, Result, ok, err, Action, fail, World}
use yggmail_android.Transport.{Config, YggdrasilTransport, Network}
use yggmail_android.Sender.Delivery.{Queue}

-- YggmailService
pub record YggmailService : Type 0 where
  pub config : Option Config
  pub storage : Bool
  pub transport : Option YggdrasilTransport
  pub queues : Option (List Queue)
  pub imap_server : Bool
  pub file_store : Bool
  pub running : Bool
  pub stop_closed : Bool
  pub database_path : Text
  pub smtp_addr : Text
  pub imap_addr : Text
  pub last_peers : Text
  pub last_activity : ℕ
  pub idle_timeout : ℤ
  pub servers_paused : Bool
  pub idle_check_closed : Bool
  pub heartbeat_closed : Bool
  pub heartbeat_interval : ℕ
  pub is_active : Bool
  pub is_charging : Bool
  pub last_mail_activity : ℕ
  pub peer_batch_size : ℤ
  pub peer_concurrency : ℤ
  pub peer_pause_ms : ℤ

-- The other packages, as far as the service depends on their answers.
pub record Platform : Type 0 where
  pub network : Network
  -- sql.Open and the preparation of the statements
  pub opens : Bool
  -- sql.DB.Close
  pub closes : Bool
  -- ed25519.GenerateKey: the private key
  pub generate_key : Option Bytes
  -- ed25519.PrivateKey.Public
  pub public_of : Bytes → Bytes
  -- the defaults of yggpeers
  pub default_batch_size : ℕ
  pub default_concurrency : ℕ
  pub default_pause_ms : ℕ

-- A default for an empty argument
abbrev pub or_default : Text → Text → Text
or_default d [] = d
or_default d (c ∷ s) = c ∷ s

abbrev pub fresh_service : Platform → ℕ → Text → Text → Text → YggmailService
fresh_service env now path smtp imap = record {
  config = none;
  storage = false;
  transport = none;
  queues = none;
  imap_server = false;
  file_store = false;
  running = false;
  stop_closed = false;
  database_path = path;
  smtp_addr = or_default (codes "localhost:1025") smtp;
  imap_addr = or_default (codes "localhost:1143") imap;
  last_peers = [];
  last_activity = now;
  idle_timeout = pos (10 * minute);
  servers_paused = false;
  idle_check_closed = false;
  heartbeat_closed = false;
  heartbeat_interval = 30 * second;
  is_active = true;
  is_charging = false;
  last_mail_activity = now;
  peer_batch_size = pos env.default_batch_size;
  peer_concurrency = pos env.default_concurrency;
  peer_pause_ms = pos env.default_pause_ms;
}

-- NewYggmailService
unfoldable pub new_yggmail_service : Platform → ℕ → Text → Text → Text → Result YggmailService
new_yggmail_service env now [] smtp imap = err open_failed
new_yggmail_service env now (c ∷ path) smtp imap = ok (fresh_service env now (c ∷ path) smtp imap)

-- What the methods of the mail do first: without a storage they return an error.
abbrev pub with_storage {ℓ} : {A : Type ℓ} → YggmailService → Action A → Action A
with_storage s m = if s.storage then m else fail not_initialized

-- What a method of the service returns, with the states of the service and of the storage.
abbrev pub Called {ℓ} : Type ℓ → Type ℓ
Called A = Result A × (YggmailService × World)

pub with_storage_open {ℓ} :
    {A : Type ℓ} (s : YggmailService) (m : Action A) → s.storage ≡ true → with_storage s m ≡ m
with_storage_open s m o = rw o refl
