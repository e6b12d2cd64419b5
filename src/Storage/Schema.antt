-- ===== src/Storage/Schema.antt =====
-- The schema migration of internal/storage/sqlite3/migrations.go: GetSchemaVersion, SetSchemaVersion,
-- migrateV1toV2 and RunMigrations. The tables of another version are data of their own; the table
-- `mails` of version 1 has no columns `mail_file` and `size`. DROP TABLE deletes the rows first, with
-- the actions of the foreign keys, since the database is opened with `_foreign_keys=on`.
use yggmail_android.Base.{
  ℕ, zero, suc, max, Bool, not, Option, none, some, is_some, List, [], ◌∷◌, ◌++◌, Text, Bytes,
  filter, any, leb, if◌then◌else◌,
}
use yggmail_android.World.{
  Engine, MailRow, MailboxRow, QueueRow, Result, ok, err, check_failed, foreign_key_failed,
  unknown_version,
}
use yggmail_android.Storage.Tables.{is_mail, has_mailbox}
use yggmail_android.Storage.Mails.{content_of}

-- A row of `mails` in version 1
pub record LegacyRow : Type 0 where
  pub mailbox : Text
  pub id : ℕ
  pub mail : Option Bytes
  pub datetime : ℕ
  pub seen : Bool
  pub answered : Bool
  pub flagged : Bool
  pub deleted : Bool

pub data MailsTable : Type 0 where
  absent : MailsTable
  legacy : List LegacyRow → MailsTable
  current : List MailRow → MailsTable

-- The database file; `versions` is the table `schema_version`, if there is one.
pub record Schema : Type 0 where
  pub versions : Option (List ℕ)
  pub mailboxes : List MailboxRow
  pub mails : MailsTable
  pub queue : List QueueRow

-- ORDER BY version DESC LIMIT 1
unfoldable pub newest : List ℕ → ℕ
newest [] = 1
newest (v ∷ []) = v
newest (v ∷ u ∷ vs) = max v (newest (u ∷ vs))

abbrev pub version_of : Option (List ℕ) → ℕ
version_of none = 1
version_of (some vs) = newest vs

-- GetSchemaVersion
unfoldable pub get_schema_version : Schema → ℕ
unfolding newest
get_schema_version s = version_of s.versions

abbrev pub add_version : ℕ → Option (List ℕ) → List ℕ
add_version v none = v ∷ []
add_version v (some vs) = vs ++ v ∷ []

-- SetSchemaVersion
unfoldable pub set_schema_version : ℕ → Schema → Schema
set_schema_version v s = record s { versions = some (add_version v s.versions) }

abbrev pub add_row : Result MailRow → Result (List MailRow) → Result (List MailRow)
add_row (err e) rs = err e
add_row (ok r) (err e) = err e
add_row (ok r) (ok rs) = ok (r ∷ rs)

-- DROP TABLE mails: ON DELETE CASCADE of the queue
unfoldable pub drop_cascade : List MailRow → List QueueRow → List QueueRow
drop_cascade ms = filter (λ q. not (any (is_mail q.mailbox q.id) ms))

-- The transaction: an error rolls it back.
abbrev pub recreate : Schema → Result (List MailRow) → Result (Unit {0}) × Schema
recreate s (err e) = (err e, s)
recreate s (ok ms) = (ok tt, record s { mails = current ms; queue = drop_cascade ms s.queue })

abbrev pub current_schema_version : ℕ
current_schema_version = 2

abbrev pub set_version : Result (Unit {0}) × Schema → Result (Unit {0}) × Schema
set_version (err e, s) = (err e, s)
set_version (ok _, s) = (ok tt, set_schema_version 2 s)

module _ (sql : Engine) where
  -- INSERT INTO mails_new … SELECT mailbox, id, mail, NULL, LENGTH(mail), …
  abbrev pub upgraded : LegacyRow → MailRow
  upgraded r = record {
    mailbox = r.mailbox;
    id = r.id;
    mail = r.mail;
    mail_file = none;
    size = sql.length_of r.mailbox r.id (content_of r.mail);
    datetime = r.datetime;
    seen = r.seen;
    answered = r.answered;
    flagged = r.flagged;
    deleted = r.deleted;
  }

  -- Whether the new table takes a row: the CHECK, and the foreign key.
  abbrev pub copy_row : List MailboxRow → LegacyRow → Result MailRow
  copy_row boxes r =
      if is_some r.mail
      then if has_mailbox r.mailbox boxes then ok (upgraded r) else err foreign_key_failed
      else err check_failed

  unfoldable pub copy_rows : List MailboxRow → List LegacyRow → Result (List MailRow)
  copy_rows boxes [] = ok []
  copy_rows boxes (r ∷ rs) = add_row (copy_row boxes r) (copy_rows boxes rs)

  abbrev pub upgrade_table : Schema → MailsTable → Result (Unit {0}) × Schema
  upgrade_table s absent = (ok tt, s)
  upgrade_table s (current ms) = (ok tt, s)
  upgrade_table s (legacy rs) = recreate s (copy_rows s.mailboxes rs)

  -- migrateV1toV2
  unfoldable pub migrate_v1_to_v2 : Schema → Result (Unit {0}) × Schema
  unfolding copy_rows drop_cascade
  migrate_v1_to_v2 s = upgrade_table s s.mails

  -- The loop of RunMigrations from a version below the current one
  abbrev pub migrate_from : ℕ → Schema → Result (Unit {0}) × Schema
  migrate_from zero s = (err unknown_version, s)
  migrate_from (suc v) s = set_version (migrate_v1_to_v2 s)

  -- RunMigrations
  unfoldable pub run_migrations : Schema → Result (Unit {0}) × Schema
  unfolding get_schema_version set_schema_version migrate_v1_to_v2
  run_migrations s =
      if leb current_schema_version (get_schema_version s)
      then (ok tt, s)
      else migrate_from (get_schema_version s) s
