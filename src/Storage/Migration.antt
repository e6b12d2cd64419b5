-- ===== src/Storage/Migration.antt =====
-- MigrateLargeMessagesToFiles of internal/storage/sqlite3/migrations.go: large messages move from the
-- database to files, in the background; and the statistics beside it. What the engine answers is a
-- parameter.
use yggmail_android.Base.{
  ℕ, ◌+◌, max, Bool, false, ◌&&◌, not, none, some, is_some, List, [], ◌∷◌, Text, filter, length,
  ltb, if◌then◌else◌,
}
use yggmail_android.World.{Engine, World, MailRow, Db, Result, ok, err, Action, query}
use yggmail_android.FileStore.{store_mail, delete_mail}
use yggmail_android.Storage.Tables.{is_mail, update_mails, sum_sizes}
use yggmail_android.Storage.Mails.{content_of}

-- SET mail = NULL, mail_file = ?, size = ?
abbrev pub to_file : Text → ℕ → MailRow → MailRow
to_file path size r = record r { mail = none; mail_file = some path; size = size }

module _ (sql : Engine) where
  -- LENGTH(mail) of a row
  abbrev pub mail_length : MailRow → ℕ
  mail_length r = sql.length_of r.mailbox r.id (content_of r.mail)

  -- WHERE mail IS NOT NULL AND mail_file IS NULL AND LENGTH(mail) > ?
  abbrev pub is_large : ℕ → MailRow → Bool
  is_large threshold r =
      is_some r.mail && (not (is_some r.mail_file) && ltb threshold (mail_length r))

  -- ORDER BY LENGTH(mail) DESC, by insertion
  unfoldable pub insert_larger : MailRow → List MailRow → List MailRow
  insert_larger r [] = r ∷ []
  insert_larger r (x ∷ xs) =
      let rest = insert_larger r xs in
      if ltb (mail_length r) (mail_length x) then x ∷ rest else r ∷ x ∷ xs

  unfoldable pub by_length : List MailRow → List MailRow
  unfolding insert_larger
  by_length [] = []
  by_length (r ∷ rs) = insert_larger r (by_length rs)

  unfoldable pub large_messages : ℕ → Db → List MailRow
  unfolding by_length
  large_messages threshold d = by_length (filter (is_large threshold) d.mails)

  -- The update behind StoreMail; a message that cannot be stored is left as it is, and of one whose row
  -- cannot be updated the file is deleted again.
  unfoldable pub record_file : MailRow → Result (Text × ℕ) × World → World
  unfolding delete_mail
  record_file x (err _, w) = w
  record_file x (ok (path, size), w) =
      if sql.locked x.mailbox x.id then (delete_mail path w).1 else record w {
        db = record w.db {
          mails = update_mails (is_mail x.mailbox x.id) (to_file path size) w.db.mails;
        };
      }

  -- One message of the loop
  unfoldable pub migrate_message : MailRow → World → World
  unfolding store_mail record_file
  migrate_message x w =
      record_file x
        (store_mail x.id x.mailbox (record { content = content_of x.mail; broken = false }) w)

  unfoldable pub migrate_messages : List MailRow → World → World
  unfolding migrate_message
  migrate_messages [] w = w
  migrate_messages (x ∷ xs) w = migrate_messages xs (migrate_message x w)

  -- MigrateLargeMessagesToFiles
  unfoldable pub migrate_large_messages_to_files : ℕ → Action (Unit {0})
  unfolding large_messages migrate_messages
  migrate_large_messages_to_files threshold w =
      (ok tt, migrate_messages (large_messages threshold w.db) w)

  unfoldable pub sum_lengths : List MailRow → ℕ
  sum_lengths [] = 0
  sum_lengths (r ∷ rs) = mail_length r + sum_lengths rs

  -- EstimateMigrationSize
  unfoldable pub estimate_migration_size : ℕ → Action (ℕ × ℕ)
  unfolding sum_lengths
  estimate_migration_size threshold =
      query (λ d.
        let large = filter (is_large threshold) d.mails in ok (length large, sum_lengths large))

-- StorageStats
pub record StorageStats : Type 0 where
  pub blob_count : ℕ
  pub blob_size : ℕ
  pub file_count : ℕ
  pub file_size : ℕ
  pub total_count : ℕ
  pub total_size : ℕ
  pub largest_blob : ℕ
  pub largest_file : ℕ

unfoldable pub max_size : List MailRow → ℕ
max_size [] = 0
max_size (r ∷ rs) = max r.size (max_size rs)

abbrev pub in_blob : MailRow → Bool
in_blob r = is_some r.mail && not (is_some r.mail_file)

abbrev pub in_file : MailRow → Bool
in_file r = is_some r.mail_file && not (is_some r.mail)

-- GetStorageStats
unfoldable pub get_storage_stats : Action StorageStats
unfolding sum_sizes max_size
get_storage_stats = query (λ d.
    let blobs = filter in_blob d.mails in
    let files = filter in_file d.mails in
    ok (record {
      blob_count = length blobs;
      blob_size = sum_sizes blobs;
      file_count = length files;
      file_size = sum_sizes files;
      total_count = length blobs + length files;
      total_size = sum_sizes blobs + sum_sizes files;
      largest_blob = max_size blobs;
      largest_file = max_size files;
    }))
