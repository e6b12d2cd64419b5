-- ===== src/Sender/Retry.antt =====
-- The retry strategy of internal/smtpsender/sender.go: the classes of errors and the backoff. The
-- backoff's random factor is a number of thousandths; floating point is exact on these values up
-- to it, since the power is one of two and is capped at 3600.
use yggmail_android.Base.{
  ℕ, ◌-◌, ◌*◌, ◌/◌, ◌^◌, Bool, true, false, ◌&&◌, ◌||◌, [], ◌∷◌, Text, codes, ltb, ◌==◌,
  if◌then◌else◌,
}

-- Whether a text begins with another one.
unfoldable pub has_prefix : Text → Text → Bool
has_prefix [] s = true
has_prefix (c ∷ p) [] = false
has_prefix (c ∷ p) (d ∷ s) = c == d && has_prefix p s

-- strings.Contains(s, sub)
unfoldable pub contains : Text → Text → Bool
unfolding has_prefix
contains sub [] = has_prefix sub []
contains sub (c ∷ s) = has_prefix sub (c ∷ s) || contains sub s

-- isNetworkError
unfoldable pub is_network_error : Text → Bool
unfolding contains
is_network_error e =
    contains (codes "context deadline exceeded") e
    || (contains (codes "connection refused") e
        || (contains (codes "network is unreachable") e
            || (contains (codes "no route to host") e
                || (contains (codes "Transport.Dial") e || contains (codes "i/o timeout") e))))

-- isPermanentError
unfoldable pub is_permanent_error : Text → Bool
unfolding contains
is_permanent_error e =
    contains (codes "invalid address") e
    || (contains (codes "mailbox not found") e
        || (contains (codes "permanent failure") e
            || (contains (codes "recipient rejected") e
                || (contains (codes "552") e || contains (codes "message size") e))))

abbrev pub min_backoff : ℕ
min_backoff = 60

abbrev pub max_backoff : ℕ
max_backoff = 3600

-- The capped exponential, for a retry count of 1 or more.
unfoldable pub base_backoff : ℕ → ℕ
base_backoff retry_count =
    let backoff = min_backoff * 2 ^ (retry_count - 1) in
    if ltb max_backoff backoff then max_backoff else backoff

-- calculateBackoff, at a jitter of `factor` thousandths (800 to 1200).
unfoldable pub calculate_backoff : ℕ → ℕ → ℕ
unfolding base_backoff
calculate_backoff factor retry_count = base_backoff retry_count * factor / 1000
