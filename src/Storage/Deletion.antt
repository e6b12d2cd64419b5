-- ===== src/Storage/Deletion.antt =====
-- MailboxDelete of internal/storage/sqlite3/table_mailboxes.go: the cascade to the mails.
use yggmail_android.Base.{ℕ, ◌≡◌, false, Text, same, any-filter-not}
use yggmail_android.World.{World}
use yggmail_android.Storage.Tables.{has_mailbox, delete_mailbox, delete_mails}
use yggmail_android.Storage.Invariant.{IsValid}
use yggmail_android.Storage.Mailboxes.{mailbox_delete}
use yggmail_android.Storage.Contents.{in_table, unless_deleted, find_mail-delete}

-- Where the database meets the constraints, after MailboxDelete the mailbox is gone, and so are its
-- messages; every other message is as before.
pub mailbox_delete_lem :
    (m : Text) (w : World) (n : Text) (j : ℕ)
    → IsValid w.db
    → (has_mailbox m (mailbox_delete m w).1.db.mailboxes ≡ false)
      × (in_table n j (mailbox_delete m w).1
          ≡ unless_deleted (λ r. same r.mailbox m) (in_table n j w))
unfolding mailbox_delete delete_mailbox delete_mails
mailbox_delete_lem m w n j v = (
  any-filter-not (λ b. same b.mailbox m) w.db.mailboxes,
  find_mail-delete (λ r. same r.mailbox m) w.db.mails n j v.increasing,
)
