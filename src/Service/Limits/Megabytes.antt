-- ===== src/Service/Limits/Megabytes.antt =====
-- The message size limit of mobile/yggmail.go, in megabytes.
use yggmail_android.Base.{ℕ, ◌*◌, ◌<◌, ◌^◌, ◌≡◌, refl, ap, ◌∙◌, true, arith}
use yggmail_android.Base.Int.{ℤ, pos}
use yggmail_android.Base.Durations.{wrap_int64, wrap_int64_small}
use yggmail_android.World.{World, ok, Action, pure, ◌>>=◌}
use yggmail_android.World.Keeps.{resume-pure}
use yggmail_android.Storage.Config.{config_get_max_message_size, config_set_max_message_size}
use yggmail_android.Storage.Limits.{max_size_round_trip}
use yggmail_android.Service.{YggmailService, with_storage_open}
use yggmail_android.Service.Limits.{
  megabyte, set_megabytes, set_max_message_size_mb, get_max_message_size_mb, in_megabytes,
}

-- On a service with a storage, GetMaxMessageSizeMB returns the number of megabytes that
-- SetMaxMessageSizeMB was given, where its bytes are an int64.
pub megabytes_round_trip :
    (n : ℕ) (s : YggmailService) (w : World)
    → s.storage ≡ true
    → n < 2 ^ 43
    → (get_max_message_size_mb s (set_max_message_size_mb (pos n) s w).1).0 ≡ ok (pos n)
unfolding get_max_message_size_mb set_max_message_size_mb
megabytes_round_trip n s w o h =
    ap (λ (m : Action (Unit {0})). (get_max_message_size_mb s (m w).1).0)
      (with_storage_open s (set_megabytes (pos n)) o)
    ∙ (ap (λ (m : Action ℤ). (m (set_megabytes (pos n) w).1).0)
          (with_storage_open s (config_get_max_message_size >>= λ bytes. pure (in_megabytes bytes))
            o)
        ∙ (resume-pure in_megabytes _ (pos (n * megabyte)) read_back
            ∙ ap (λ k. ok (pos k)) (omega arith)))
  where
    in_range : wrap_int64 (n * megabyte) ≡ pos (n * megabyte)
    in_range = wrap_int64_small (n * megabyte) (omega (arith, h))

    read_back :
        (config_get_max_message_size (set_megabytes (pos n) w).1).0 ≡ ok (pos (n * megabyte))
    read_back = rw in_range (max_size_round_trip (n * megabyte) w (omega (arith, h)))

-- From 2 ^ 44 megabytes on the product wraps around: every multiple of it sets a limit of no bytes,
-- and reports success.
pub megabytes_overflow :
    (n : ℕ) (s : YggmailService) (w : World)
    → s.storage ≡ true
    → ((set_max_message_size_mb (pos (n * 2 ^ 44)) s w).0 ≡ ok tt)
      × ((config_get_max_message_size (set_max_message_size_mb (pos (n * 2 ^ 44)) s w).1).0
          ≡ ok (pos 0))
unfolding set_max_message_size_mb
megabytes_overflow n s w o =
    rw (o, wraps)
      (unfold config_set_max_message_size in refl, max_size_round_trip 0 w (omega arith))
  where
    wraps : wrap_int64 (n * 2 ^ 44 * megabyte) ≡ pos 0
    wraps = unfold wrap_int64 in ground arith
