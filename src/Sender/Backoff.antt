-- ===== src/Sender/Backoff.antt =====
-- calculateBackoff of internal/smtpsender/sender.go: bounds and growth.
use yggmail_android.Base.{ℕ, zero, suc, ◌+◌, ◌-◌, ◌*◌, ◌^◌, ◌≤◌, ◌≡◌, refl, arith, min}
use native.Mathlib.Omega.{pow_step}
use native.Mathlib.Nat.{mul-le-mul}
use yggmail_android.Sender.Retry.{base_backoff, calculate_backoff}

pow_pos : (n : ℕ) → 1 ≤ 2 ^ n
pow_pos zero = omega arith
pow_pos (suc n) = ground (arith, pow_pos n)

-- The wait behind the first failure is a minute; each further failure doubles it, up to an hour.
pub base_backoff_doubles :
    (n : ℕ) → (base_backoff 1 ≡ 60) × (base_backoff (n + 2) ≡ min 3600 (2 * base_backoff (n + 1)))
unfolding base_backoff
base_backoff_doubles n =
    let double : 2 ^ suc n ≡ 2 * 2 ^ n = pow_step 2 n in
    let l : n + 2 - 1 ≡ suc n = omega arith in
    let r : n + 1 - 1 ≡ n = omega arith in (refl, rw (l, r) (ground (arith, double)))

base_backoff_bounds : (n : ℕ) → (60 ≤ base_backoff (n + 1)) × (base_backoff (n + 1) ≤ 3600)
unfolding base_backoff
base_backoff_bounds n = let p = pow_pos (n + 1 - 1) in ground arith

below : (a b c d : ℕ) → a ≤ c → b ≤ d → a * b ≤ c * d
below a b c d h k = mul-le-mul h k

-- With the random factor, from 0.8 to 1.2, a wait is at least 48 seconds and at most 72 minutes.
pub calculate_backoff_bounds :
    (factor n : ℕ)
    → 800 ≤ factor
    → factor ≤ 1200
    → (48 ≤ calculate_backoff factor (n + 1)) × (calculate_backoff factor (n + 1) ≤ 4320)
unfolding calculate_backoff
calculate_backoff_bounds factor n low high =
    let (lower, upper) = base_backoff_bounds n in
    let product : 48000 ≤ base_backoff (n + 1) * factor =
      below 60 800 (base_backoff (n + 1)) factor lower low in
    let product' : base_backoff (n + 1) * factor ≤ 4320000 =
      below (base_backoff (n + 1)) factor 3600 1200 upper high in
    (omega arith, omega arith)
