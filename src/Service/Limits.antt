-- ===== src/Service/Limits.antt =====
-- The sizes and the message size limit of mobile/yggmail.go. A float64 of megabytes is the number of
-- bytes that it is made of; the percentage is the pair of its numerator and denominator.
pub mod Megabytes
use yggmail_android.Base.{
  ℕ, ◌*◌, ◌/◌, ◌-◌, ◌+◌, suc, Bool, true, false, Option, none, some, Text, Bytes, codes, ltb, leb,
  ◌==◌, if◌then◌else◌,
}
use yggmail_android.Base.Int.{ℤ, pos, negsuc, exceeds}
use yggmail_android.Base.Durations.{wrap_int64}
use yggmail_android.World.{
  World, Result, ok, err, Action, pure, fail, ◌>>=◌, negative_size, read_failed,
}
use yggmail_android.FileStore.{get_total_size}
use yggmail_android.Storage.Config.{config_get_max_message_size, config_set_max_message_size}
use yggmail_android.Storage.Mails.{mail_get_unread_size, mail_unseen}
use yggmail_android.Service.{YggmailService, with_storage}

abbrev pub megabyte : ℕ
megabyte = 1024 * 1024

abbrev pub set_megabytes : ℤ → Action (Unit {0})
set_megabytes (negsuc _) = fail negative_size
set_megabytes (pos n) = config_set_max_message_size (wrap_int64 (n * megabyte))

-- SetMaxMessageSizeMB: the product wraps around.
unfoldable pub set_max_message_size_mb : ℤ → YggmailService → Action (Unit {0})
unfolding config_set_max_message_size wrap_int64
set_max_message_size_mb megabytes s = with_storage s (set_megabytes megabytes)

-- Division of int64, towards zero
abbrev pub negated : ℕ → ℤ
negated n = if n == 0 then pos 0 else negsuc (n - 1)

abbrev pub in_megabytes : ℤ → ℤ
in_megabytes (pos n) = pos (n / megabyte)
in_megabytes (negsuc n) = negated ((n + 1) / megabyte)

-- GetMaxMessageSizeMB
unfoldable pub get_max_message_size_mb : YggmailService → Action ℤ
unfolding config_get_max_message_size
get_max_message_size_mb s =
    with_storage s (config_get_max_message_size >>= λ bytes. pure (in_megabytes bytes))

-- GetUnreadSizeMB, in bytes
unfoldable pub get_unread_size_mb : YggmailService → Action ℕ
unfolding mail_get_unread_size
get_unread_size_mb s = with_storage s mail_get_unread_size

-- MaxMessageSizeInfo
pub record MaxMessageSizeInfo : Type 0 where
  pub max_size_mb : ℤ
  pub used : ℕ
  pub free : ℤ
  pub used_percent : ℕ × ℕ
  pub unread_count : ℕ
  pub is_exceeded : Bool

-- a - n, for a size n
abbrev pub minus : ℤ → ℕ → ℤ
minus (pos m) n = if leb n m then pos (m - n) else negsuc (n - m - 1)
minus (negsuc m) n = negsuc (m + n)

abbrev pub percent : ℤ → ℕ → ℕ × ℕ
percent (pos m) n = if m == 0 then (0, 1) else (n * 100, m)
percent (negsuc _) n = (0, 1)

abbrev pub count_of : Result ℕ → ℕ
count_of (ok n) = n
count_of (err _) = 0

-- GetMaxMessageSizeInfo
unfoldable pub get_max_message_size_info : YggmailService → Action MaxMessageSizeInfo
unfolding config_get_max_message_size mail_get_unread_size mail_unseen
get_max_message_size_info s = with_storage s (do
  limit ← config_get_max_message_size
  bytes ← mail_get_unread_size
  (λ w. (
    ok (record {
      max_size_mb = in_megabytes limit;
      used = bytes;
      free = minus limit bytes;
      used_percent = percent limit bytes;
      unread_count = count_of (mail_unseen (codes "INBOX") w).0;
      is_exceeded = exceeds bytes limit;
    }),
    w,
  )))

-- MailStorageStats
pub record MailStorageStats : Type 0 where
  pub db_size : ℕ
  pub file_size : ℕ

abbrev pub stats_of : Option ℕ → Bool → Action MailStorageStats
stats_of none files w = (err read_failed, w)
stats_of (some n) false w = (ok (record { db_size = n; file_size = 0 }), w)
stats_of (some n) true w = (ok (record { db_size = n; file_size = get_total_size w }), w)

-- GetMailStorageStats; os.Stat of the database file is a parameter.
unfoldable pub get_mail_storage_stats : Option ℕ → YggmailService → Action MailStorageStats
unfolding get_total_size
get_mail_storage_stats stat s = with_storage s (stats_of stat s.file_store)
