-- ===== src/Examples/Platform.antt =====
-- A platform, a core of Yggdrasil, and services in each phase.
use yggmail_android.Base.{
  ◌≡◌, refl, ap, ◌||◌, All, true, false, ◌&&◌, not, some, List, [], ◌∷◌, Text, Bytes, codes, same,
  same→eq, same_refl, filter, replicate, take, arith,
}
use yggmail_android.Transport.{Config}
use yggmail_android.Service.{YggmailService, Platform, fresh_service}
use yggmail_android.Service.Peers.{Core, found}
use yggmail_android.Service.Peers.Update.{same_comm}
use yggmail_android.Service.Restart.{link}
use yggmail_android.Service.Machine.{IsReady}

abbrev pub key : Bytes
key = replicate 64 7

abbrev pub env : Platform
env = record {
  network = record { certifies = true; connects = λ _. true };
  opens = true;
  closes = true;
  generate_key = some key;
  public_of = take 32;
  default_batch_size = 10;
  default_concurrency = 10;
  default_pause_ms = 100;
}

pub found_removed :
    (p q : Text) (c : List Text)
    → found q (filter (λ r. not (same r p)) c) ≡ (not (same p q) && found q c)
found_removed p q [] = ground arith
found_removed p q (r ∷ c) =
    ground
      (arith, found_removed p q c, same→eq r p, same→eq q r, same→eq p q, same_refl p, same_refl q)

-- A core that keeps the list of its peers.
abbrev pub core : Core
core = record {
  State = List Text;
  holds = found;
  add_peer = λ p c. p ∷ c;
  remove_peer = λ p c. filter (λ r. not (same r p)) c;
  holds-add = λ p q c. ap (λ b. b || found q c) (same_comm q p);
  holds-remove = found_removed;
  parses = λ _. true;
  accepts = λ _. true;
}

pub parses_each : (ps : List Text) → All (λ p. core.parses p ≡ true) ps
parses_each [] = tt
parses_each (p ∷ ps) = (refl, parses_each ps)

pub adds_each : (ps : List Text) → All (λ p. (core.parses p && core.accepts p) ≡ true) ps
adds_each [] = tt
adds_each (p ∷ ps) = (refl, adds_each ps)

abbrev pub closed_service : YggmailService
closed_service = fresh_service env 0 (codes "mail.db") [] []

abbrev pub config : Config
config = record { public_key = replicate 32 7; private_key = key }

abbrev pub opened_service : YggmailService
opened_service = record closed_service { storage = true; config = some config; file_store = true }

abbrev pub first_peers : Text
first_peers = codes "tls://a:1, tls://b:1"

abbrev pub next_peers : Text
next_peers = codes "tls://b:1,tls://c:1"

abbrev pub serving_service : YggmailService
serving_service = record opened_service {
  running = true;
  transport = some (link config (codes "tls://a:1" ∷ codes "tls://b:1" ∷ []) true false);
  queues = some [];
  imap_server = true;
  last_peers = first_peers;
}

pub opened-IsReady : IsReady opened_service
opened-IsReady = record {
  has_storage = λ h. refl;
  has_config = λ h. refl;
  has_transport = λ h. cc;
  has_queues = λ h. cc;
  shortest = omega arith;
  longest = omega arith;
}
