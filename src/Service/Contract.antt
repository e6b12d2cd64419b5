-- ===== src/Service/Contract.antt =====
-- The service of mobile/yggmail.go implements the contract of its phases.
use yggmail_android.Base.Durations.{minute}
use yggmail_android.Base.{
  ℕ, ◌-◌, leb, ◌≡◌, refl, Bool, true, false, not, Option, none, some, List, [], ◌∷◌, Text, Bytes,
  ◌||◌, is_some, Bool-cases, inl, inr, if_both, arith,
}
use yggmail_android.World.{World, Result, ok, err, ◌>>◌}
use yggmail_android.Transport.{Config, YggdrasilTransport, new_yggdrasil_transport}
use yggmail_android.Address.{create_address}
use yggmail_android.Service.{YggmailService, Platform, Called}
use yggmail_android.Service.Lifecycle.{
  initialize, stop_service, close_service, start_service, identify, keep_files, load_key,
  create_default_mailboxes, new_file_store, serve, connect_and_serve, peer_list, close_transport,
  split,
}
use yggmail_android.Service.Peers.{Core, on_network_change, swap_transport, reconnect}
use yggmail_android.Service.Power.{is_zero}
use yggmail_android.Service.Machine.{
  is_ok, Command, initializes, starts, stops, closes, peers_change, network_changes, updates_peers,
  sets_batching, records_activity, records_mail, sets_active, sets_charging, sets_timeout,
  checks_idle, beats, perform, IsReady,
}
use yggmail_android.Service.Ready.{not_running_yet}
use yggmail_android.Service.Phases.{
  Phase, phase_of, phase, Event, Move, opens, opens_half, opens_not, begins, begins_not, ends,
  ends_not_closed, ends_not_opened, shuts, shuts_again, shuts_not_serving, shuts_not_opened, stays,
  event_of,
}

-- A move between phases that are known by their two Booleans.
at :
    (e : Event) (b : Bool) (r s r' s' x y x' y' : Bool)
    → r ≡ x
    → s ≡ y
    → r' ≡ x'
    → s' ≡ y'
    → Move e b (phase_of x y) (phase_of x' y')
    → Move e b (phase_of r s) (phase_of r' s')
at e b r s r' s' x y x' y' h i j k m = rw (h, i, j, k) m

abbrev Answers : Event → Phase → Result (Unit {0}) × YggmailService → Type 0
Answers e p x = Move e (is_ok x.0) p (phase x.1)

abbrev Leaves : Phase → Called (Unit {0}) → Type 0
Leaves p x = Move Event.initialize_call (is_ok x.0) p (phase x.1.0)

keep_files-Leaves :
    (s : YggmailService) (x : Result (Unit {0}) × World)
    → s.running ≡ false
    → s.storage ≡ true
    → Leaves Phase.closed (keep_files s x)
keep_files-Leaves s (ok _, w) e o =
    at Event.initialize_call true false false _ _ false false false true refl refl e o opens
keep_files-Leaves s (err _, w) e o =
    at Event.initialize_call false false false _ _ false false false true refl refl e o opens_half

identify-Leaves :
    (env : Platform) (s : YggmailService) (x : Result Bytes × World)
    → s.running ≡ false
    → s.storage ≡ true
    → Leaves Phase.closed (identify env s x)
identify-Leaves env s (err _, w) e o =
    at Event.initialize_call false false false _ _ false false false true refl refl e o opens_half
identify-Leaves env s (ok sk, w) e o =
    keep_files-Leaves
      (record s { config = some (record { public_key = env.public_of sk; private_key = sk }) })
      ((create_default_mailboxes >> new_file_store) w) e o

initialize-Leaves :
    (env : Platform) (s : YggmailService) (w : World)
    → IsReady s
    → Leaves (phase s) (initialize env s w)
unfolding initialize
initialize-Leaves env s w r =
    if_both (Leaves (phase s)) s.storage _ _ (λ _. opens_not (phase s))
      (λ n.
        if_both (Leaves (phase s)) (not env.opens) _ _ (λ _. opens_not (phase s))
          (λ _. from_closed n (
            identify-Leaves env (record s { storage = true }) (load_key env w)
              (not_running_yet s r n) refl)))
  where
    from_closed :
        (n : s.storage ≡ false) {b : Bool} {p : Phase}
        → Move Event.initialize_call b Phase.closed p
        → Move Event.initialize_call b (phase s) p
    from_closed n m = rw (not_running_yet s r n, n) m

connect-Answers :
    (env : Platform) (now : ℕ) (peers : Text) (ps : List Text) (config : Option Config)
    (s : YggmailService)
    → s.running ≡ false
    → s.storage ≡ true
    → Answers Event.start_call (phase s) (connect_and_serve env now peers ps config s)
connect-Answers env now peers [] config s e o = begins_not (phase s)
connect-Answers env now peers (p ∷ ps) none s e o = begins_not (phase s)
connect-Answers env now peers (p ∷ ps) (some k) s e o =
    served (new_yggdrasil_transport env.network create_address k (p ∷ ps) s.is_active s.is_charging)
  where
    served :
        (x : Result YggdrasilTransport) → Answers Event.start_call (phase s) (serve now peers s x)
    served (err _) = begins_not (phase s)
    served (ok t) =
        at Event.start_call true s.running s.storage true s.storage false true true true e o refl o
          begins

start-Answers :
    (env : Platform) (now : ℕ) (peers : Text) (s : YggmailService)
    → Answers Event.start_call (phase s) (start_service env now peers s)
unfolding start_service
start-Answers env now peers s =
    if_both (Answers Event.start_call (phase s)) s.running _ _ (λ _. begins_not (phase s))
      (λ e.
        if_both (Answers Event.start_call (phase s)) (not s.storage) _ _ (λ _. begins_not (phase s))
          (λ o. connect-Answers env now peers (peer_list peers) s.config s e (ground (arith, o))))

stop-Answers : (s : YggmailService) → IsReady s → Answers Event.stop_call (phase s) (stop_service s)
unfolding stop_service
stop-Answers s r =
    if_both (Answers Event.stop_call (phase s)) s.running _ _
      (λ e.
        at Event.stop_call true s.running s.storage false s.storage true true false true e
          (r.has_storage e) refl (r.has_storage e) ends)
      idle
  where
    idle : s.running ≡ false → Move Event.stop_call false (phase s) (phase s)
    idle e = elim (Bool-cases s.storage) [
      | inl o ↦
          at Event.stop_call false s.running s.storage s.running s.storage false true false true e o
            e o ends_not_opened
      | inr n ↦
          at Event.stop_call false s.running s.storage s.running s.storage false false false false e
            n e n ends_not_closed
    ]

close-Answers :
    (env : Platform) (s : YggmailService) → Answers Event.close_call (phase s) (close_service env s)
unfolding close_service
close-Answers env s = if_both (Answers Event.close_call (phase s)) s.running _ _ busy (λ e.
    if_both (Answers Event.close_call (phase s)) (not s.storage) _ _ (again e) (λ o.
      if_both (Answers Event.close_call (phase s)) env.closes _ _
        (λ _.
          at Event.close_call true s.running s.storage s.running false false true false false e
            (ground (arith, o)) e refl shuts)
        (λ _.
          at Event.close_call false s.running s.storage s.running s.storage false true false true e
            (ground (arith, o)) e (ground (arith, o)) shuts_not_opened)))
  where
    busy : s.running ≡ true → Move Event.close_call false (phase s) (phase s)
    busy e =
        at Event.close_call false s.running s.storage s.running s.storage true s.storage true
          s.storage e refl e refl shuts_not_serving

    again :
        s.running ≡ false → not s.storage ≡ true → Move Event.close_call true (phase s) (phase s)
    again e o =
        at Event.close_call true s.running s.storage s.running s.storage false false false false e
          (ground (arith, o)) e (ground (arith, o)) shuts_again

-- A call that keeps both Booleans stays in its phase.
same_phase :
    (b : Bool) (s t : YggmailService)
    → t.running ≡ s.running
    → t.storage ≡ s.storage
    → Move Event.other_call b (phase s) (phase t)
same_phase b s t e o = rw (e, o) (stays b (phase s))

abbrev Keeps : YggmailService → Result (Unit {0}) × YggmailService → Type 0
Keeps s x = (x.1.running ≡ s.running) × (x.1.storage ≡ s.storage)

reconnect-Keeps :
    (env : Platform) (config : Option Config) (s : YggmailService)
    → Keeps s (reconnect env config s)
reconnect-Keeps env none s = (refl, refl)
reconnect-Keeps env (some k) s = swapped (
    new_yggdrasil_transport env.network create_address k (split b',' s.last_peers) s.is_active
      s.is_charging)
  where
    swapped : (x : Result YggdrasilTransport) → Keeps s (swap_transport s x)
    swapped (err _) = (refl, refl)
    swapped (ok _) = (refl, refl)

network-Keeps : (env : Platform) (s : YggmailService) → Keeps s (on_network_change env s)
unfolding on_network_change
network-Keeps env s =
    if_both (Keeps s) s.running _ _
      (λ _. reconnect-Keeps env s.config (record s { transport = close_transport s.transport }))
      (λ _. (refl, refl))

module _ (env : Platform) (core : Core) where
  -- The service refines the contract: from every state that is ready, each call makes a move that the
  -- contract has for it, with the success that the call reports. So Start succeeds only where the
  -- database is open, which may be behind an Initialize that failed later on, Stop only while the
  -- service runs, and Close only when it does not.
  pub perform-Move :
      (c : Command env core) (s : YggmailService) (w : World)
      → IsReady s
      → Move
          (event_of env core c)
          (perform env core c s w).0
          (phase s)
          (phase (perform env core c s w).1.0)
  unfolding perform
  perform-Move initializes s w r = initialize-Leaves env s w r
  perform-Move (starts now peers) s w r = start-Answers env now peers s
  perform-Move stops s w r = stop-Answers s r
  perform-Move closes s w r = close-Answers env s
  perform-Move peers_change s w r =
      if_both (λ t. Move Event.other_call true (phase s) (phase t)) s.running _ _
        (λ _. stays true (phase s)) (λ _. stays true (phase s))
  perform-Move network_changes s w r =
      let k = network-Keeps env s in same_phase _ s (on_network_change env s).1 k.0 k.1
  perform-Move (updates_peers peers c) s w r =
      if_both
        (λ (x : Result (Unit {0}) × (YggmailService × core.State)).
          Move Event.other_call (is_ok x.0) (phase s) (phase x.1.0))
        (not s.running || not (is_some s.transport)) _ _ (λ _. stays false (phase s))
        (λ _. stays true (phase s))
  perform-Move (sets_batching size conc pause) s w r = stays true (phase s)
  perform-Move (records_activity now) s w r = stays true (phase s)
  perform-Move (records_mail now) s w r = stays true (phase s)
  perform-Move (sets_active b) s w r = stays true (phase s)
  perform-Move (sets_charging b) s w r = stays true (phase s)
  perform-Move (sets_timeout z) s w r = stays true (phase s)
  perform-Move (checks_idle now) s w r =
      if_both (λ (x : Bool × YggmailService). Move Event.other_call true (phase s) (phase x.1))
        (not s.running) _ _ (λ _. stays true (phase s))
        (λ _.
          if_both (λ (x : Bool × YggmailService). Move Event.other_call true (phase s) (phase x.1))
            (is_zero s.idle_timeout) _ _ (λ _. stays true (phase s)) (λ _. stays true (phase s)))
  perform-Move (beats now last) s w r =
      if_both (λ (x : ℕ × YggmailService). Move Event.other_call true (phase s) (phase x.1))
        (leb minute (now - last)) _ _ (λ _. stays true (phase s)) (λ _. stays true (phase s))

stop_idle : (s : YggmailService) → (stop_service s).1.running ≡ false
unfolding stop_service
stop_idle s =
    if_both (λ (x : Result (Unit {0}) × YggmailService). x.1.running ≡ false) s.running _ _
      (λ _. refl) (λ e. e)

-- Whatever state the service is in, Stop and then Close, whether they succeed or not, leave it closed,
-- where the database can be closed; Initialize may then be called again.
pub shut_down :
    (env : Platform) (s : YggmailService)
    → env.closes ≡ true
    → phase (close_service env (stop_service s).1).1 ≡ Phase.closed
unfolding close_service
shut_down env s k =
    let t = (stop_service s).1 in
    let e = stop_idle s in
    if_both (λ (x : Result (Unit {0}) × YggmailService). phase x.1 ≡ Phase.closed) t.running _ _
      (λ h. cc)
      (λ _.
        if_both (λ (x : Result (Unit {0}) × YggmailService). phase x.1 ≡ Phase.closed)
          (not t.storage) _ _ (λ o. closed_at t e (ground (arith, o)))
          (λ _. rw k (closed_at (record t { storage = false }) e refl)))
  where
    closed_at :
        (u : YggmailService) → u.running ≡ false → u.storage ≡ false → phase u ≡ Phase.closed
    closed_at u e o = rw (e, o) refl
