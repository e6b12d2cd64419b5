-- ===== src/World.antt =====
-- The state that the program's parts share: the SQLite database (internal/storage/sqlite3, a list
-- of rows for each table), the directory of the file store (internal/storage/filestore) and the
-- clock; and calls on it, which return a Go result beside the new state.
pub mod Keeps
use yggmail_android.Base.{ℕ, ◌*◌, Bool, Option, List, Bytes, Text}

pub data Error : Type 0 where
  no_rows unique_failed foreign_key_failed check_failed : Error
  mail_not_found no_content read_failed disk_failed : Error
  invalid_path file_not_found empty_base_path : Error
  invalid_address invalid_domain invalid_hex parse_failed negative_size : Error
  wrong_password wrong_domain auth_required unexpected_connection invalid_state : Error
  not_allowed wrong_recipient size_exceeded bad_message : Error
  protected_folder mailbox_not_found cannot_change network_failed remote_refused : Error
  nil_dereference out_of_fuel panicked : Error
  not_initialized already_initialized already_running not_running still_running : Error
  open_failed key_failed no_peers transport_failed close_failed unknown_version : Error

pub data Result {ℓ} (A : Type ℓ) : Type ℓ where
  ok : A → Result A
  err : Error → Result A

-- A row of the table `mailboxes`.
pub record MailboxRow : Type 0 where
  pub mailbox : Text
  pub subscribed : Bool

-- A row of the table `mails`; `none` is NULL.
pub record MailRow : Type 0 where
  pub mailbox : Text
  pub id : ℕ
  pub mail : Option Bytes
  pub mail_file : Option Text
  pub size : ℕ
  pub datetime : ℕ
  pub seen : Bool
  pub answered : Bool
  pub flagged : Bool
  pub deleted : Bool

-- A row of the table `queue`; its column `mail` holds the sender.
pub record QueueRow : Type 0 where
  pub destination : Text
  pub mailbox : Text
  pub id : ℕ
  pub mail : Text
  pub rcpt : Text

-- The tables, each in the order of insertion.
pub record Db : Type 0 where
  pub config : List (Text × Text)
  pub mailboxes : List MailboxRow
  pub mails : List MailRow
  pub queue : List QueueRow

-- What the database engine answers, for a row with this key: LENGTH(mail) of a content, which counts the
-- bytes of a blob and the characters of a text, as MailMove writes it; and whether the UPDATE of the
-- background migration fails. That runs on another connection than the query of the migration's loop,
-- so that it may find the database locked.
pub record Engine : Type 0 where
  pub length_of : Text → ℕ → Bytes → ℕ
  pub locked : Text → ℕ → Bool

-- What the operating system may refuse.
pub data DiskStep : Type 0 where
  mkdir create_temp write sync close rename remove read : DiskStep
  -- os.Remove of one file, behind others that it removes
  remove_orphan : Text → DiskStep

-- Files by their path below the base path, and the steps that fail.
pub record Disk : Type 0 where
  pub files : List (Text × Bytes)
  pub refuses : DiskStep → Bool
  -- the random part of the next os.CreateTemp name
  pub temp_suffix : Text

pub record World : Type 0 where
  pub db : Db
  pub disk : Disk
  pub now : ℕ

-- `io.Reader`: the bytes that it yields, and whether it fails behind them, before EOF.
pub record Reader : Type 0 where
  pub content : Bytes
  pub broken : Bool

abbrev pub Action {ℓ} : Type ℓ → Type ℓ
Action A = World → Result A × World

module _ {ℓ} {A : Type ℓ} where
  abbrev pub pure : A → Action A
  pure a w = (ok a, w)

  abbrev pub fail : Error → Action A
  fail e w = (err e, w)

-- What follows a call; an error skips it.
abbrev pub resume {ℓ κ} :
    {A : Type ℓ} {B : Type κ} → (A → Action B) → Result A × World → Result B × World
resume f (ok a, w) = f a w
resume f (err e, w) = (err e, w)

infixl 5 ◌>>=◌ ◌>>◌
abbrev pub ◌>>=◌ {ℓ κ} : {A : Type ℓ} {B : Type κ} → Action A → (A → Action B) → Action B
◌>>=◌ m f w = resume f (m w)

abbrev pub ◌>>◌ {ℓ κ} : {A : Type ℓ} {B : Type κ} → Action A → Action B → Action B
m >> k = m >>= λ _. k

-- What the source does to clean up before it returns an error.
abbrev pub on_error {ℓ} : {A : Type ℓ} → (World → World) → Result A × World → Result A × World
on_error f (ok a, w) = (ok a, w)
on_error f (err e, w) = (err e, f w)

-- A call whose result the source ignores.
abbrev pub ignore {ℓ} : {A : Type ℓ} → Action A → Action (Unit {0})
ignore m w = (ok tt, (m w).1)

-- A statement on the database alone.
abbrev pub on_db {ℓ} : {A : Type ℓ} → (Db → Result A × Db) → Action A
on_db f w = let (r, d) = f w.db in (r, record w { db = d })

-- A query, which changes nothing.
abbrev pub query {ℓ} : {A : Type ℓ} → (Db → Result A) → Action A
query f w = (f w.db, w)

-- types.SmallMessageThreshold, 10 MB.
unfoldable pub small_message_threshold : ℕ
small_message_threshold = 10 * 1024 * 1024
