-- ===== src/Service/Intervals.antt =====
-- The interval of the heartbeat of mobile/yggmail.go over time.
use yggmail_android.Base.{ℕ, ◌≤◌, ◌/◌, ◌≡◌, true, false, arith}
use yggmail_android.Service.{YggmailService}
use yggmail_android.Service.Power.{calculate_adaptive_interval, set_charging}

-- As long as nothing is recorded, the interval of the heartbeat never shrinks.
pub calculate_adaptive_interval_grows :
    (now later : ℕ) (s : YggmailService)
    → now ≤ later
    → calculate_adaptive_interval now s ≤ calculate_adaptive_interval later s
unfolding calculate_adaptive_interval
calculate_adaptive_interval_grows now later s h = ground arith

-- A charger halves the interval, at every time.
pub calculate_adaptive_interval-set_charging :
    (now : ℕ) (s : YggmailService)
    → calculate_adaptive_interval now (set_charging true s)
      ≡ calculate_adaptive_interval now (set_charging false s) / 2
unfolding calculate_adaptive_interval set_charging
calculate_adaptive_interval-set_charging now s = ground arith
