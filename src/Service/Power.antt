-- ===== src/Service/Power.antt =====
-- The activity of mobile/yggmail.go and what depends on it: the idle timeout and the heartbeat of the
-- IMAP connections. `now` is the monotonic clock in nanoseconds.
use yggmail_android.Base.{
  ℕ, ◌-◌, ◌*◌, ◌/◌, Bool, true, false, ◌&&◌, not, if◌then◌else◌, ltb, leb, ◌==◌, suc, zero,
}
use yggmail_android.Base.Durations.{second, minute, wrap_int64}
use yggmail_android.Base.Int.{ℤ, pos, negsuc}
use yggmail_android.Service.{YggmailService}

-- RecordActivity
unfoldable pub record_activity : ℕ → YggmailService → YggmailService
record_activity now s = record s {
  last_activity = now;
  servers_paused = (if s.servers_paused && s.running then false else s.servers_paused);
}

-- RecordMailActivity
unfoldable pub record_mail_activity : ℕ → YggmailService → YggmailService
record_mail_activity now s = record s { last_activity = now; last_mail_activity = now }

-- SetActive
unfoldable pub set_active : Bool → YggmailService → YggmailService
set_active active s = record s { is_active = active }

-- SetCharging
unfoldable pub set_charging : Bool → YggmailService → YggmailService
set_charging charging s = record s { is_charging = charging }

-- The timeout of a number of minutes: the product wraps around.
abbrev pub timeout_of : ℤ → ℤ
timeout_of (pos zero) = pos 0
timeout_of (pos (suc n)) = wrap_int64 (suc n * minute)
timeout_of (negsuc n) = pos 0

-- SetIdleTimeout
unfoldable pub set_idle_timeout : ℤ → YggmailService → YggmailService
unfolding wrap_int64
set_idle_timeout minutes s = record s { idle_timeout = timeout_of minutes }

abbrev pub reached : ℕ → ℤ → Bool
reached n (pos m) = leb m n
reached n (negsuc m) = true

abbrev pub is_zero : ℤ → Bool
is_zero (pos n) = n == 0
is_zero (negsuc n) = false

-- checkIdleState: whether it logs that the service is idle. It changes nothing.
unfoldable pub check_idle_state : ℕ → YggmailService → Bool × YggmailService
check_idle_state now s =
    if not s.running
    then (false, s)
    else if is_zero s.idle_timeout
    then (false, s)
    else (not s.servers_paused && reached (now - s.last_activity) s.idle_timeout, s)

-- time.Duration(float64(interval) * chargingMultiplier), which is exact for these intervals
abbrev pub scaled : YggmailService → ℕ → ℕ
scaled s interval = if s.is_charging then interval / 2 else interval

-- calculateAdaptiveInterval
unfoldable pub calculate_adaptive_interval : ℕ → YggmailService → ℕ
calculate_adaptive_interval now s =
    let since_mail = now - s.last_mail_activity in
    let since = now - s.last_activity in
    if ltb since_mail (30 * second)
    then scaled s (5 * second)
    else if s.is_active
    then scaled s (30 * second)
    else if ltb since (10 * minute)
    then scaled s (2 * minute)
    else if ltb since (30 * minute)
    then scaled s (5 * minute)
    else scaled s (29 * minute)

-- A tick of heartbeatSender, behind the notification: the time of the last adjustment, and the
-- service.
unfoldable pub heartbeat_tick : ℕ → ℕ → YggmailService → ℕ × YggmailService
unfolding calculate_adaptive_interval
heartbeat_tick now last_check s =
    if leb minute (now - last_check)
    then (now, record s { heartbeat_interval = calculate_adaptive_interval now s })
    else (last_check, s)
