-- ===== src/Service/Ready.antt =====
-- What holds in every state of the service of mobile/yggmail.go.
use yggmail_android.Transport.{Config, YggdrasilTransport, new_yggdrasil_transport}
use yggmail_android.Address.{create_address}
use yggmail_android.Sender.Delivery.{Queue}
use yggmail_android.Base.{
  ℕ, ◌≤◌, ◌-◌, ◌*◌, ◌/◌, ◌≡◌, refl, Bool, true, false, not, Option, none, some, is_some, List, [],
  ◌∷◌, Text, Bytes, Bool-cases, inl, inr, arith, if_both, ap, ◌∙◌, ◌||◌, leb,
}
use yggmail_android.Base.Durations.{second, minute}
use yggmail_android.World.{World, Result, ok, err, ◌>>◌}
use yggmail_android.Service.Machine.{
  Command, initializes, starts, stops, closes, peers_change, network_changes, updates_peers,
  sets_batching, records_activity, records_mail, sets_active, sets_charging, sets_timeout,
  checks_idle, beats, perform, Ready, IsReady, Runs, made, called, meanwhile,
}
use yggmail_android.Service.{YggmailService, Platform, Called}
use yggmail_android.Service.Lifecycle.{
  initialize, start_service, stop_service, close_service, identify, keep_files,
  create_default_mailboxes, new_file_store, serve, connect_and_serve, peer_list, load_key,
  close_transport, split,
}
use yggmail_android.Service.Peers.{
  Core, on_peer_connection_change, on_network_change, update_peers, set_peer_batching_params,
  reset_queues, swap_transport, reconnect,
}
use yggmail_android.Service.Power.{
  record_activity, record_mail_activity, set_active, set_charging, set_idle_timeout,
  check_idle_state, heartbeat_tick, calculate_adaptive_interval, is_zero,
}

-- A service that does not run needs nothing but the bounds.
idle :
    (running storage configured linked queued : Bool) (interval : ℕ)
    → running ≡ false
    → 5 * second / 2 ≤ interval
    → interval ≤ 29 * minute
    → Ready running storage configured linked queued interval
idle running a b c d i e low high = record {
  has_storage = λ h. cc;
  has_config = λ h. cc;
  has_transport = λ h. cc;
  has_queues = λ h. cc;
  shortest = low;
  longest = high;
}

pub calculate_adaptive_interval_bounds :
    (now : ℕ) (s : YggmailService)
    → (5 * second / 2 ≤ calculate_adaptive_interval now s)
      × (calculate_adaptive_interval now s ≤ 29 * minute)
unfolding calculate_adaptive_interval
calculate_adaptive_interval_bounds now s = ground arith

heartbeat-IsReady :
    (now last : ℕ) (s : YggmailService) → IsReady s → IsReady (heartbeat_tick now last s).1
unfolding heartbeat_tick
heartbeat-IsReady now last s r = elim (Bool-cases (leb minute (now - last))) [
  | inr e ↦ rw e r
  | inl e ↦
      let b = calculate_adaptive_interval_bounds now s in
      rw e (record {
        has_storage = r.has_storage;
        has_config = r.has_config;
        has_transport = r.has_transport;
        has_queues = r.has_queues;
        shortest = b.0;
        longest = b.1;
      })
]

abbrev Answered : Result (Unit {0}) × YggmailService → Type 0
Answered x = IsReady x.1

abbrev Left : Called (Unit {0}) → Type 0
Left x = IsReady x.1.0

stop-IsReady : (s : YggmailService) → IsReady s → IsReady (stop_service s).1
unfolding stop_service
stop-IsReady s r =
    if_both Answered s.running _ _ (λ _. idle _ _ _ _ _ _ refl r.shortest r.longest) (λ _. r)

close-IsReady : (env : Platform) (s : YggmailService) → IsReady s → IsReady (close_service env s).1
unfolding close_service
close-IsReady env s r =
    if_both Answered s.running _ _ (λ _. r)
      (λ e.
        if_both Answered (not s.storage) _ _ (λ _. r)
          (λ _.
            if_both Answered env.closes _ _ (λ _. idle _ _ _ _ _ _ e r.shortest r.longest)
              (λ _. r)))

-- Without a storage a service does not run.
pub not_running_yet : (s : YggmailService) → IsReady s → s.storage ≡ false → s.running ≡ false
not_running_yet s r e = elim (Bool-cases s.running) [ inr n ↦ n | inl y ↦ cc (r.has_storage y) ]

keep_files-IsReady :
    (s : YggmailService) (x : Result (Unit {0}) × World) → IsReady s → Left (keep_files s x)
keep_files-IsReady s (ok _, w) r = r
keep_files-IsReady s (err _, w) r = r

identify-IsReady :
    (env : Platform) (s : YggmailService) (x : Result Bytes × World)
    → s.running ≡ false
    → IsReady s
    → Left (identify env s x)
identify-IsReady env s (err _, w) e r = r
identify-IsReady env s (ok sk, w) e r =
    keep_files-IsReady
      (record s { config = some (record { public_key = env.public_of sk; private_key = sk }) })
      ((create_default_mailboxes >> new_file_store) w) (idle _ _ _ _ _ _ e r.shortest r.longest)

initialize-IsReady :
    (env : Platform) (s : YggmailService) (w : World) → IsReady s → Left (initialize env s w)
unfolding initialize
initialize-IsReady env s w r =
    if_both Left s.storage _ _ (λ _. r)
      (λ n.
        if_both Left (not env.opens) _ _ (λ _. r)
          (λ _.
            let e = not_running_yet s r n in
            identify-IsReady env (record s { storage = true }) (load_key env w) e
              (idle _ _ _ _ _ _ e r.shortest r.longest)))

serve-IsReady :
    (now : ℕ) (peers : Text) (s : YggmailService) (x : Result YggdrasilTransport)
    → s.storage ≡ true
    → is_some s.config ≡ true
    → IsReady s
    → Answered (serve now peers s x)
serve-IsReady now peers s (err e) o c r = r
serve-IsReady now peers s (ok t) o c r = record {
  has_storage = λ _. o;
  has_config = λ _. c;
  has_transport = λ _. refl;
  has_queues = λ _. refl;
  shortest = r.shortest;
  longest = r.longest;
}

connect-IsReady :
    (env : Platform) (now : ℕ) (peers : Text) (ps : List Text) (config : Option Config)
    (s : YggmailService)
    → s.config ≡ config
    → s.storage ≡ true
    → IsReady s
    → Answered (connect_and_serve env now peers ps config s)
connect-IsReady env now peers [] config s c o r = r
connect-IsReady env now peers (p ∷ ps) none s c o r = r
connect-IsReady env now peers (p ∷ ps) (some k) s c o r =
    serve-IsReady now peers s
      (new_yggdrasil_transport env.network create_address k (p ∷ ps) s.is_active s.is_charging) o
      (ap is_some c) r

start-IsReady :
    (env : Platform) (now : ℕ) (peers : Text) (s : YggmailService)
    → IsReady s
    → Answered (start_service env now peers s)
unfolding start_service
start-IsReady env now peers s r =
    if_both Answered s.running _ _ (λ _. r)
      (λ _.
        if_both Answered (not s.storage) _ _ (λ _. r)
          (λ e.
            connect-IsReady env now peers (peer_list peers) s.config s refl (ground (arith, e)) r))

reset_queues_some : (q : Option (List Queue)) → is_some (reset_queues q) ≡ is_some q
reset_queues_some none = refl
reset_queues_some (some _) = refl

close_transport_some : (t : Option YggdrasilTransport) → is_some (close_transport t) ≡ is_some t
close_transport_some none = refl
close_transport_some (some _) = refl

peers_change-IsReady : (s : YggmailService) → IsReady s → IsReady (on_peer_connection_change s)
unfolding on_peer_connection_change
peers_change-IsReady s r =
    if_both IsReady s.running _ _ (λ _. rw (reset_queues_some s.queues) r) (λ _. r)

swap-IsReady :
    (s : YggmailService) (x : Result YggdrasilTransport) → IsReady s → Answered (swap_transport s x)
swap-IsReady s (err e) r = r
swap-IsReady s (ok t) r = record {
  has_storage = r.has_storage;
  has_config = r.has_config;
  has_transport = λ _. refl;
  has_queues = λ e. reset_queues_some s.queues ∙ r.has_queues e;
  shortest = r.shortest;
  longest = r.longest;
}

reconnect-IsReady :
    (env : Platform) (config : Option Config) (s : YggmailService)
    → IsReady s
    → Answered (reconnect env config s)
reconnect-IsReady env none s r = r
reconnect-IsReady env (some k) s r =
    swap-IsReady s
      (new_yggdrasil_transport env.network create_address k (split b',' s.last_peers) s.is_active
        s.is_charging)
      r

network-IsReady :
    (env : Platform) (s : YggmailService) → IsReady s → Answered (on_network_change env s)
unfolding on_network_change
network-IsReady env s r =
    if_both Answered s.running _ _
      (λ _.
        reconnect-IsReady env s.config (record s { transport = close_transport s.transport })
          (rw (close_transport_some s.transport) r))
      (λ _. r)

updates-IsReady :
    (core : Core) (peers : Text) (s : YggmailService) (c : core.State)
    → IsReady s
    → IsReady (update_peers core peers s c).1.0
unfolding update_peers
updates-IsReady core peers s c r =
    if_both (λ (x : Result (Unit {0}) × (YggmailService × core.State)). IsReady x.1.0)
      (not s.running || not (is_some s.transport)) _ _ (λ _. r) (λ _. r)

checks_idle-IsReady :
    (now : ℕ) (s : YggmailService) → IsReady s → IsReady (check_idle_state now s).1
unfolding check_idle_state
checks_idle-IsReady now s r =
    if_both (λ (x : Bool × YggmailService). IsReady x.1) (not s.running) _ _ (λ _. r)
      (λ _.
        if_both (λ (x : Bool × YggmailService). IsReady x.1) (is_zero s.idle_timeout) _ _ (λ _. r)
          (λ _. r))

module _ (env : Platform) (core : Core) where
  -- Every call keeps what a running service needs.
  pub perform-IsReady :
      (c : Command env core) (s : YggmailService) (w : World)
      → IsReady s
      → IsReady (perform env core c s w).1.0
  unfolding perform
  perform-IsReady initializes s w r = initialize-IsReady env s w r
  perform-IsReady (starts now peers) s w r = start-IsReady env now peers s r
  perform-IsReady stops s w r = stop-IsReady s r
  perform-IsReady closes s w r = close-IsReady env s r
  perform-IsReady peers_change s w r = peers_change-IsReady s r
  perform-IsReady network_changes s w r = network-IsReady env s r
  perform-IsReady (updates_peers peers c) s w r = updates-IsReady core peers s c r
  perform-IsReady (sets_batching size conc pause) s w r = unfold set_peer_batching_params in r
  perform-IsReady (records_activity now) s w r = unfold record_activity in r
  perform-IsReady (records_mail now) s w r = unfold record_mail_activity in r
  perform-IsReady (sets_active b) s w r = unfold set_active in r
  perform-IsReady (sets_charging b) s w r = unfold set_charging in r
  perform-IsReady (sets_timeout z) s w r = unfold set_idle_timeout in r
  perform-IsReady (checks_idle now) s w r = checks_idle-IsReady now s r
  perform-IsReady (beats now last) s w r = heartbeat-IsReady now last s r

  -- In every state that calls reach from a new service, a running service has a storage, a
  -- configuration, a transport and queues, and the heartbeat's interval lies between 2.5 seconds and
  -- 29 minutes.
  pub Runs-IsReady : (s : YggmailService) (w : World) → Runs env core s w → IsReady s
  Runs-IsReady _ w (made now path smtp imap _) = idle _ _ _ _ _ _ refl (omega arith) (omega arith)
  Runs-IsReady _ _ (called c s w r) = perform-IsReady c s w (Runs-IsReady s w r)
  Runs-IsReady s _ (meanwhile _ v w r) = Runs-IsReady s v r
