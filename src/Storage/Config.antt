-- ===== src/Storage/Config.antt =====
-- internal/storage/sqlite3/table_config.go. The password check takes bcrypt's comparison of a hash
-- with a password as a parameter.
use yggmail_android.Base.{
  ℕ, ◌+◌, ◌-◌, ◌*◌, ◌^◌, Bool, true, false, ◌&&◌, ◌||◌, Option, none, some, List, [], ◌∷◌, Text,
  codes, same, leb, ◌==◌, if◌then◌else◌,
}
use yggmail_android.Base.Decimal.{format, is_digit, scan_digits}
use yggmail_android.Base.Int.{ℤ, pos, negsuc}
use yggmail_android.World.{
  parse_failed, negative_size, wrong_password, Result, ok, err, Action, query, on_db, fail, ◌>>=◌,
}

abbrev pub Entries : Type 0
Entries = List (Text × Text)

unfoldable pub lookup : Text → Entries → Option Text
lookup k [] = none
lookup k ((j, v) ∷ m) = if same j k then some v else lookup k m

-- INSERT OR REPLACE
unfoldable pub replace : Text → Text → Entries → Entries
replace k v [] = (k, v) ∷ []
replace k v ((j, w) ∷ m) = if same j k then (k, v) ∷ m else (j, w) ∷ replace k v m

-- An absent key reads as the empty string.
abbrev pub or_empty : Option Text → Text
or_empty none = []
or_empty (some v) = v

-- ConfigGet
unfoldable pub config_get : Text → Action Text
unfolding lookup
config_get key = query (λ d. ok (or_empty (lookup key d.config)))

-- ConfigSet
unfoldable pub config_set : Text → Text → Action (Unit {0})
unfolding replace
config_set key value = on_db (λ d. (ok tt, record d { config = replace key value d.config }))

abbrev pub password_key : Text
password_key = codes "password"

abbrev pub max_size_key : Text
max_size_key = codes "max_message_size_bytes"

-- ConfigSetPassword
unfoldable pub config_set_password : Text → Action (Unit {0})
unfolding config_set
config_set_password hash = config_set password_key hash

-- What ConfigTryPassword does with the stored hash; no hash lets everybody in.
unfoldable pub check_password : (Text → Text → Bool) → Text → Text → Action Bool
check_password matches [] password w = (ok true, w)
check_password matches (c ∷ hash) password w =
    if matches (c ∷ hash) password then (ok true, w) else (err wrong_password, w)

-- ConfigTryPassword
unfoldable pub config_try_password : (Text → Text → Bool) → Text → Action Bool
unfolding config_get check_password
config_try_password matches password = do
  hash ← config_get password_key
  check_password matches hash password

abbrev pub max_int64 : ℕ
max_int64 = 2 ^ 63 - 1

-- strconv.ParseInt of the digits, with their sign
abbrev pub in_int64 : Bool → ℕ → Result ℤ
in_int64 false n = if leb n max_int64 then ok (pos n) else err parse_failed
in_int64 true n =
    if n == 0
    then ok (pos 0)
    else if leb n (max_int64 + 1)
    then ok (negsuc (n - 1))
    else err parse_failed

-- There must be a digit behind the sign.
unfoldable pub scan_number : Bool → Text → Result ℤ
unfolding scan_digits
scan_number negative [] = err parse_failed
scan_number negative (c ∷ s) =
    if is_digit c then in_int64 negative (scan_digits 0 (c ∷ s)) else err parse_failed

-- fmt.Sscanf(value, "%d", …): blanks, a sign, digits; what stands behind them is not read.
unfoldable pub scan_int : Text → Result ℤ
unfolding scan_number
scan_int [] = err parse_failed
scan_int (c ∷ s) =
    let skipped = scan_int s in
    if c == b' ' || (c == 9 || (leb 11 c && leb c 13))
    then skipped
    else if c == b'-'
    then scan_number true s
    else if c == b'+'
    then scan_number false s
    else scan_number false (c ∷ s)

-- The value of the stored text; 10 MB if there is none.
unfoldable pub size_of_value : Text → Result ℤ
unfolding scan_int
size_of_value [] = ok (pos (10 * 1024 * 1024))
size_of_value (c ∷ s) = scan_int (c ∷ s)

-- ConfigGetMaxMessageSize
unfoldable pub config_get_max_message_size : Action ℤ
unfolding config_get size_of_value
config_get_max_message_size = config_get max_size_key >>= λ value w. (size_of_value value, w)

-- ConfigSetMaxMessageSize
unfoldable pub config_set_max_message_size : ℤ → Action (Unit {0})
unfolding config_set
config_set_max_message_size (negsuc n) = fail negative_size
config_set_max_message_size (pos n) = config_set max_size_key (format n)
