-- ===== src/Service/Peers.antt =====
-- The peers of mobile/yggmail.go: OnPeerConnectionChange, OnNetworkChange, UpdatePeers and
-- SetPeerBatchingParams. The core of Yggdrasil is a parameter: its operations and their laws.
pub mod Update
use yggmail_android.Base.{
  ℕ, ◌≡◌, Bool, true, false, ◌&&◌, ◌||◌, not, Option, none, some, List, [], ◌∷◌, ◌++◌, map, Text,
  same, any, filter, is_some, if◌then◌else◌,
}
use yggmail_android.Base.Int.{ℤ}
use yggmail_android.World.{Result, ok, err, nil_dereference, not_running}
use yggmail_android.Address.{create_address}
use yggmail_android.FileStore.Paths.{trim_space}
use yggmail_android.Sender.Delivery.{Queue, reset_retry_counters}
use yggmail_android.Transport.{Config, YggdrasilTransport, new_yggdrasil_transport}
use yggmail_android.Service.{YggmailService, Platform}
use yggmail_android.Service.Lifecycle.{split, close_transport}

-- ResetRetryCounters of the queues, if there are any.
abbrev pub reset_queues : Option (List Queue) → Option (List Queue)
reset_queues none = none
reset_queues (some qs) = some (map reset_retry_counters qs)

-- OnPeerConnectionChange
unfoldable pub on_peer_connection_change : YggmailService → YggmailService
unfolding reset_retry_counters
on_peer_connection_change s = if s.running then record s { queues = reset_queues s.queues } else s

abbrev pub swap_transport :
    YggmailService → Result YggdrasilTransport → Result (Unit {0}) × YggmailService
swap_transport s (err e) = (err e, s)
swap_transport s (ok t) = (ok tt, record s { transport = some t; queues = reset_queues s.queues })

abbrev pub reconnect :
    Platform → Option Config → YggmailService → Result (Unit {0}) × YggmailService
reconnect env none s = (err nil_dereference, s)
reconnect env (some config) s = swap_transport s (
    new_yggdrasil_transport env.network create_address config (split b',' s.last_peers) s.is_active
      s.is_charging)

-- OnNetworkChange
unfoldable pub on_network_change : Platform → YggmailService → Result (Unit {0}) × YggmailService
unfolding reset_retry_counters new_yggdrasil_transport create_address split
on_network_change env s =
    if s.running
    then reconnect env s.config (record s { transport = close_transport s.transport })
    else (ok tt, s)

-- Core.AddPeer and Core.RemovePeer: what is in the set of the configured peers after them. AddPeer
-- fails for a peer that it does not accept, as one of an unknown scheme; the error is logged and
-- ignored.
pub record Core : Type 1 where
  pub State : Type 0
  pub holds : Text → State → Bool
  pub add_peer : Text → State → State
  pub remove_peer : Text → State → State
  pub accepts : Text → Bool
  pub holds-add :
      (p q : Text) (c : State) → holds q (add_peer p c) ≡ ((accepts p && same p q) || holds q c)
  pub holds-remove :
      (p q : Text) (c : State) → holds q (remove_peer p c) ≡ (not (same p q) && holds q c)
  -- url.Parse
  pub parses : Text → Bool

-- The loop that compares a peer with each one of a list
abbrev pub found : Text → List Text → Bool
found p = any (λ q. same p q)

-- The parsing of a configuration in UpdatePeers: empty peers are left out.
unfoldable pub parse_peers : Text → List Text
unfolding split trim_space
parse_peers s = filter (λ p. not (same p [])) (map trim_space (split b',' s))

module _ (core : Core) where
  -- Remove peers that are no longer in the new list.
  unfoldable pub remove_missing : List Text → List Text → core.State → core.State
  remove_missing new [] c = c
  remove_missing new (p ∷ old) c =
      remove_missing new old
        (if not (found p new) && core.parses p then core.remove_peer p c else c)

  -- Add new peers that weren't in the old list.
  unfoldable pub add_missing : List Text → List Text → core.State → core.State
  add_missing old [] c = c
  add_missing old (p ∷ new) c =
      add_missing old new (if not (found p old) && core.parses p then core.add_peer p c else c)

  -- UpdatePeers
  unfoldable pub update_peers :
      Text → YggmailService → core.State → Result (Unit {0}) × (YggmailService × core.State)
  unfolding parse_peers remove_missing add_missing
  update_peers peers s c =
      let new = parse_peers peers in
      let old = parse_peers s.last_peers in
      if not s.running || not (is_some s.transport) then (err not_running, (s, c)) else (
        ok tt,
        (record s { last_peers = peers }, add_missing old new (remove_missing new old c)),
      )

-- SetPeerBatchingParams
unfoldable pub set_peer_batching_params : ℤ → ℤ → ℤ → YggmailService → YggmailService
set_peer_batching_params batch_size concurrency pause_ms s = record s {
  peer_batch_size = batch_size;
  peer_concurrency = concurrency;
  peer_pause_ms = pause_ms;
}
