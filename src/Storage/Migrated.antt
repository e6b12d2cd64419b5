-- ===== src/Storage/Migrated.antt =====
-- What MigrateLargeMessagesToFiles of internal/storage/sqlite3/migrations.go leaves.
pub mod Rows
pub mod Contents
use yggmail_android.Base.{
  ℕ, ◌≡◌, refl, Bool, true, false, ◌||◌, not, List, [], ◌∷◌, Text, any, All, arith, if◌then◌else◌,
  if_both,
}
use yggmail_android.World.{World, Engine, MailRow, DiskStep, Reader, Result, ok, err}
use yggmail_android.World.Keeps.{Keeps}
use yggmail_android.FileStore.{store_mail}
use yggmail_android.FileStore.Keeps.{store_mail-db, delete_mail-db}
use yggmail_android.Storage.Tables.{is_mail, update_mails, has_one_content}
use yggmail_android.Storage.Mails.{content_of}
use yggmail_android.Storage.Rows.{KeepsKeys}
use yggmail_android.Storage.Invariant.{update_mails-IsValid}
use yggmail_android.Storage.Keeps.{HasValidDb}
use yggmail_android.Storage.Migration.{
  is_large, large_messages, to_file, record_file, migrate_message, migrate_messages,
  migrate_large_messages_to_files,
}

-- The update, where the CHECK held before it.
abbrev guarded : Text → ℕ → MailRow → MailRow
guarded path size r = if has_one_content r then to_file path size r else r

guarded-KeepsKeys : (path : Text) (size : ℕ) → KeepsKeys (guarded path size)
guarded-KeepsKeys path size r = ground arith

update_guarded :
    (p : MailRow → Bool) (path : Text) (size : ℕ) (rs : List MailRow)
    → All (λ r. has_one_content r ≡ true) rs
    → update_mails p (to_file path size) rs ≡ update_mails p (guarded path size) rs
unfolding update_mails
update_guarded p path size [] _ = refl
update_guarded p path size (r ∷ rs) (h, hs) = rw (h, update_guarded p path size rs hs) refl

-- A disk on which no system call fails.
abbrev pub IsSound : World → Type 0
IsSound w = (s : DiskStep) → w.disk.refuses s ≡ false

-- What StoreMail leaves there.
abbrev StoredOn : World → Result (Text × ℕ) × World → Type 0
StoredOn w x = (p : Text × ℕ) × (x.0 ≡ ok p) × (x.1.db ≡ w.db) × (x.1.disk.refuses ≡ w.disk.refuses)

-- Whether a row is one of those to be migrated.
abbrev listed : List MailRow → MailRow → Bool
listed xs r = any (λ x. is_mail x.mailbox x.id r) xs

module _ (sql : Engine) where
  record_file-valid :
      (x : MailRow) (y : Result (Text × ℕ) × World)
      → HasValidDb y.1
      → HasValidDb (record_file sql x y)
  unfolding record_file
  record_file-valid x (err _, w) v = v
  record_file-valid x (ok (path, size), w) v =
      if_both (λ (u : World). HasValidDb u) (sql.locked x.mailbox x.id) _ _
        (λ _. rw (delete_mail-db path w) v)
        (λ _. rw (update_guarded (is_mail x.mailbox x.id) path size w.db.mails v.one_content) (
          update_mails-IsValid (is_mail x.mailbox x.id) (guarded path size)
            (guarded-KeepsKeys path size) w.db v))

  migrate_messages-valid :
      (xs : List MailRow) (w : World) → HasValidDb w → HasValidDb (migrate_messages sql xs w)
  unfolding migrate_messages migrate_message
  migrate_messages-valid [] w v = v
  migrate_messages-valid (x ∷ xs) w v =
      let r : Reader = record { content = content_of x.mail; broken = false } in
      migrate_messages-valid xs (migrate_message sql x w) (
        record_file-valid x (store_mail x.id x.mailbox r w)
          (rw (store_mail-db x.id x.mailbox r w) v))

  -- The migration keeps the constraints, also where files cannot be written.
  pub migrate_large-Keeps : (t : ℕ) → Keeps HasValidDb (migrate_large_messages_to_files sql t)
  unfolding migrate_large_messages_to_files
  migrate_large-Keeps t = record {
    holds = λ w v. migrate_messages-valid (large_messages sql t w.db) w v;
  }

  abbrev Pending : ℕ → List MailRow → List MailRow → Type 0
  Pending t xs = All (λ r. (not (is_large sql t r) || listed xs r) ≡ true)
