-- ===== src/Storage/Limits.antt =====
-- internal/storage/sqlite3/table_config.go: reading behind writing, and the decimal form of the size
-- limit.
use yggmail_android.Base.{
  ℕ, ◌≤◌, ◌≡◌, ◌≢◌, refl, ap, sym, ◌∙◌, true, false, some, [], ◌∷◌, Text, same, same_refl, same→eq,
  leb, if◌then◌else◌, All, arith, append-nil,
}
use yggmail_android.Base.Decimal.{
  format, is_digit, scan_digits, scan_digits-format, format-IsDigits, format-ne-nil,
}
use yggmail_android.Base.Int.{pos}
use yggmail_android.World.{World, ok}
use yggmail_android.Storage.Config.{
  Entries, lookup, replace, config_get, config_set, max_int64, in_int64, scan_number, scan_int,
  size_of_value, config_get_max_message_size, config_set_max_message_size, max_size_key,
}

pub lookup-replace :
    (k j v : Text) (m : Entries)
    → lookup j (replace k v m) ≡ (if same k j then some v else lookup j m)
unfolding lookup replace
lookup-replace k j v [] = refl
lookup-replace k j v ((i, u) ∷ m) =
    ground (
      arith,
      same→eq k j,
      same→eq i k,
      same→eq i j,
      same_refl j,
      same_refl k,
      lookup-replace k j v m,
    )

-- ConfigGet returns what ConfigSet stored under the key, and the old value under any other key.
pub config_get-config_set :
    (k j v : Text) (w : World)
    → (config_get j (config_set k v w).1).0 ≡ (if same k j then ok v else (config_get j w).0)
unfolding config_get config_set
config_get-config_set k j v w = ground (arith, lookup-replace k j v w.db.config)

-- A text of digits that is not empty reads as a number, without a sign.
scan_int_digits :
    (s : Text)
    → s ≢ []
    → All (λ c. is_digit c ≡ true) s
    → size_of_value s ≡ in_int64 false (scan_digits 0 s)
unfolding size_of_value scan_int scan_number
scan_int_digits [] ne _ = absurd (ne refl)
scan_int_digits (c ∷ s) ne (d, ds) = ground (arith, d)

-- A limit of at most the largest int64 that ConfigSetMaxMessageSize sets is the one that
-- ConfigGetMaxMessageSize returns.
pub max_size_round_trip :
    (n : ℕ) (w : World)
    → n ≤ max_int64
    → (config_get_max_message_size (config_set_max_message_size (pos n) w).1).0 ≡ ok (pos n)
unfolding config_get_max_message_size config_set_max_message_size
max_size_round_trip n w h =
    rw
      (
        lookup-replace max_size_key max_size_key (format n) w.db.config,
        same_refl max_size_key,
        scan_int_digits (format n) (format-ne-nil n) (format-IsDigits n),
        read_back,
        fits,
      )
      refl
  where
    read_back : scan_digits 0 (format n) ≡ n
    read_back =
        ap (scan_digits 0) (sym (append-nil (format n)))
        ∙ scan_digits-format n [] (λ m. unfold scan_digits in refl)

    fits : leb n max_int64 ≡ true
    fits = ground arith
