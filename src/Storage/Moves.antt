-- ===== src/Storage/Moves.antt =====
-- MailMove and MailMoveWithFileStore of internal/storage/sqlite3/table_mails.go.
use yggmail_android.Base.{ℕ, Bool, false, Option, none, some, [], ◌∷◌, Text, Bytes, if◌then◌else◌}
use yggmail_android.World.{
  mail_not_found, no_content, ok, MailRow, World, Action, on_error, fail, ◌>>=◌, on_db,
}
use yggmail_android.Storage.Tables.{is_mail, next_id, insert_mail, delete_mails, find_mail}
use yggmail_android.FileStore.{move_mail}
use yggmail_android.Storage.Mails.{insert_next}

-- The file's new path, empty if there is none: a message with a file is moved there before its row.
abbrev pub moved_file : Bool → Option Text → Text → Action Text
moved_file with_files none destination w = (ok [], w)
moved_file with_files (some []) destination w = (ok [], w)
moved_file with_files (some (c ∷ f)) destination w =
    if with_files
    then move_mail (c ∷ f) destination (next_id destination w.db.mails) w
    else (ok [], w)

-- The content of the new row: the blob if it is not empty, else the file's new path.
abbrev pub moved_content : Option Bytes → Text → Option (Option Bytes × Option Text)
moved_content (some (c ∷ b)) path = some (some (c ∷ b), none)
moved_content _ (c ∷ path) = some (none, some (c ∷ path))
moved_content _ [] = none

-- On a failed INSERT the file is moved back.
unfoldable pub move_back : Text → Text → ℕ → World → World
unfolding move_mail
move_back [] mailbox id w = w
move_back (c ∷ path) mailbox id w = (move_mail (c ∷ path) mailbox id w).1

abbrev pub moved_row : MailRow → Text → Option Bytes × Option Text → ℕ → MailRow
moved_row r destination (content, file) i = record r {
  mailbox = destination;
  id = i;
  mail = content;
  mail_file = file;
}

-- The INSERT into the destination, with the flags of the old row; then the old row is deleted.
unfoldable pub move_insert :
    MailRow → Text → Text → ℕ → Option Bytes × Option Text → Text → Action (Unit {0})
unfolding insert_mail move_back delete_mails
move_insert r destination mailbox id content path =
    (λ w.
      on_error (move_back path mailbox id)
        (insert_next destination (moved_row r destination content) w))
    >>= λ _. on_db (λ d. (ok tt, delete_mails (is_mail mailbox id) d))

unfoldable pub move_content :
    MailRow → Text → Text → ℕ → Text → Option (Option Bytes × Option Text) → Action (Unit {0})
unfolding move_insert
move_content r destination mailbox id path none = fail no_content
move_content r destination mailbox id path (some content) =
    move_insert r destination mailbox id content path

unfoldable pub move_row : Bool → Text → ℕ → Text → Option MailRow → Action (Unit {0})
unfolding move_content next_id move_mail
move_row with_files mailbox id destination none = fail mail_not_found
move_row with_files mailbox id destination (some r) =
    moved_file with_files r.mail_file destination >>= λ path.
    move_content r destination mailbox id path (moved_content r.mail path)

-- MailMoveWithFileStore
unfoldable pub mail_move_with_file_store : Bool → Text → ℕ → Text → Action (Unit {0})
unfolding find_mail move_row
mail_move_with_file_store with_files mailbox id destination w =
    move_row with_files mailbox id destination (find_mail mailbox id w.db.mails) w

-- MailMove
unfoldable pub mail_move : Text → ℕ → Text → Action (Unit {0})
unfolding mail_move_with_file_store
mail_move = mail_move_with_file_store false
