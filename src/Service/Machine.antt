-- ===== src/Service/Machine.antt =====
-- The service of mobile/yggmail.go as a state machine: its methods that change the service, and what
-- holds in every state that they reach.
use yggmail_android.Base.{ℕ, ◌≤◌, ◌*◌, ◌/◌, ◌≡◌, Bool, true, false, is_some, Text}
use yggmail_android.Base.Durations.{second, minute}
use yggmail_android.Base.Int.{ℤ}
use yggmail_android.World.{World, Result, ok, err}
use yggmail_android.Service.{YggmailService, Platform, fresh_service}
use yggmail_android.Service.Lifecycle.{initialize, start_service, stop_service, close_service}
use yggmail_android.Service.Peers.{
  Core, on_peer_connection_change, on_network_change, update_peers, set_peer_batching_params,
}
use yggmail_android.Service.Power.{
  record_activity, record_mail_activity, set_active, set_charging, set_idle_timeout,
  check_idle_state, heartbeat_tick,
}

abbrev pub is_ok {ℓ} : {A : Type ℓ} → Result A → Bool
is_ok (ok _) = true
is_ok (err _) = false

module _ (env : Platform) (core : Core) where
  -- A call of the application or of a ticker, with its arguments and the time.
  pub data Command : Type 0 where
    initializes : Command
    starts : ℕ → Text → Command
    stops : Command
    closes : Command
    peers_change : Command
    network_changes : Command
    updates_peers : Text → core.State → Command
    sets_batching : ℤ → ℤ → ℤ → Command
    records_activity : ℕ → Command
    records_mail : ℕ → Command
    sets_active : Bool → Command
    sets_charging : Bool → Command
    sets_timeout : ℤ → Command
    checks_idle : ℕ → Command
    beats : ℕ → ℕ → Command

  -- Whether the call succeeds, and the states behind it.
  unfoldable pub perform : Command → YggmailService → World → Bool × (YggmailService × World)
  unfolding initialize start_service stop_service close_service on_peer_connection_change
      on_network_change update_peers set_peer_batching_params record_activity record_mail_activity
      set_active set_charging set_idle_timeout check_idle_state heartbeat_tick
  perform initializes s w = let (r, x) = initialize env s w in (is_ok r, x)
  perform (starts now peers) s w = let (r, s') = start_service env now peers s in (is_ok r, (s', w))
  perform stops s w = let (r, s') = stop_service s in (is_ok r, (s', w))
  perform closes s w = let (r, s') = close_service env s in (is_ok r, (s', w))
  perform peers_change s w = (true, (on_peer_connection_change s, w))
  perform network_changes s w = let (r, s') = on_network_change env s in (is_ok r, (s', w))
  perform (updates_peers peers c) s w =
      let (r, (s', _)) = update_peers core peers s c in (is_ok r, (s', w))
  perform (sets_batching size conc pause) s w =
      (true, (set_peer_batching_params size conc pause s, w))
  perform (records_activity now) s w = (true, (record_activity now s, w))
  perform (records_mail now) s w = (true, (record_mail_activity now s, w))
  perform (sets_active b) s w = (true, (set_active b s, w))
  perform (sets_charging b) s w = (true, (set_charging b s, w))
  perform (sets_timeout z) s w = (true, (set_idle_timeout z s, w))
  perform (checks_idle now) s w = (true, ((check_idle_state now s).1, w))
  perform (beats now last) s w = (true, ((heartbeat_tick now last s).1, w))

-- What a running service has, and the bounds of the heartbeat, of these parts of a service.
pub record Ready (running storage configured linked queued : Bool) (interval : ℕ) : Type 0 where
  pub has_storage : running ≡ true → storage ≡ true
  pub has_config : running ≡ true → configured ≡ true
  pub has_transport : running ≡ true → linked ≡ true
  pub has_queues : running ≡ true → queued ≡ true
  pub shortest : 5 * second / 2 ≤ interval
  pub longest : interval ≤ 29 * minute

abbrev pub IsReady : YggmailService → Type 0
IsReady s =
    Ready s.running s.storage (is_some s.config) (is_some s.transport) (is_some s.queues)
      s.heartbeat_interval

module _ (env : Platform) (core : Core) where
  -- The states that calls reach from a service that is made.
  pub data Runs : YggmailService → World → Type 0 where
    made :
        (now : ℕ) (path smtp imap : Text) (w : World)
        → Runs (fresh_service env now path smtp imap) w
    called :
        (c : Command env core) (s : YggmailService) (w : World)
        → Runs s w
        → Runs (perform env core c s w).1.0 (perform env core c s w).1.1
    -- What other parts do to the storage
    meanwhile : (s : YggmailService) (v w : World) → Runs s v → Runs s w
