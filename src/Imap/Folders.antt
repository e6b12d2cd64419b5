-- ===== src/Imap/Folders.antt =====
-- internal/imapserver/user.go: the folder operations, their protection, and the schema's constraints.
use yggmail_android.Base.{
  Bool, Text, ◌≡◌, refl, true, false, List, [], ◌∷◌, map, same, same→eq, same_refl, arith,
}
use yggmail_android.World.{World, MailboxRow, ok, cannot_change}
use yggmail_android.Storage.Tables
use yggmail_android.Storage.Tables.{has_mailbox, rename_box}
use yggmail_android.Storage.Mailboxes.{mailbox_rename}
use yggmail_android.World.Keeps.{Keeps, if-Keeps, fail-Keeps}
use yggmail_android.Storage.Keeps.{
  HasValidDb, mailbox_create-Keeps, mailbox_delete-Keeps, mailbox_rename-Keeps,
  mailbox_subscribe-Keeps,
}
use yggmail_android.Imap.Mailbox.{set_subscribed}
use yggmail_android.Imap.User.{create_mailbox, delete_mailbox, rename_mailbox, is_protected}

pub set_subscribed-Keeps : (m : Text) (b : Bool) → Keeps HasValidDb (set_subscribed m b)
unfolding set_subscribed
set_subscribed-Keeps m b = mailbox_subscribe-Keeps m b

pub create_mailbox-Keeps : (m : Text) → Keeps HasValidDb (create_mailbox m)
unfolding create_mailbox
create_mailbox-Keeps m = mailbox_create-Keeps m

pub delete_mailbox-Keeps : (m : Text) → Keeps HasValidDb (delete_mailbox m)
unfolding delete_mailbox
delete_mailbox-Keeps m =
    if-Keeps HasValidDb (is_protected m) _ _ (fail-Keeps HasValidDb cannot_change)
      (mailbox_delete-Keeps m)

pub rename_mailbox-Keeps : (old new : Text) → Keeps HasValidDb (rename_mailbox old new)
unfolding rename_mailbox
rename_mailbox-Keeps old new =
    if-Keeps HasValidDb (is_protected old) _ _ (fail-Keeps HasValidDb cannot_change)
      (mailbox_rename-Keeps old new)

has_mailbox_renamed :
    (from to : Text) (bs : List MailboxRow)
    → same from to ≡ false
    → has_mailbox from (map (rename_box from to) bs) ≡ false
has_mailbox_renamed from to [] ne = refl
has_mailbox_renamed from to (b ∷ bs) ne =
    ground (arith, has_mailbox_renamed from to bs ne, same→eq to from, same_refl from)

-- RENAME of a mailbox that does not exist, under a name that is not protected, to another one that
-- exists takes the new name for the old one: it succeeds, and the mailbox of the new name, which
-- may be INBOX, Outbox or Sent, is gone.
pub rename_mailbox_takes :
    (existing_name new_name : Text) (w : World)
    → is_protected existing_name ≡ false
    → has_mailbox existing_name w.db.mailboxes ≡ false
    → has_mailbox new_name w.db.mailboxes ≡ true
    → same new_name existing_name ≡ false
    → ((rename_mailbox existing_name new_name w).0 ≡ ok tt)
      × (has_mailbox new_name (rename_mailbox existing_name new_name w).1.db.mailboxes ≡ false)
unfolding rename_mailbox mailbox_rename Tables.rename_mailbox
rename_mailbox_takes existing_name new_name w unprotected absent there ne =
    rw (unprotected, there, ne, absent)
      (refl, has_mailbox_renamed new_name existing_name w.db.mailboxes ne)
