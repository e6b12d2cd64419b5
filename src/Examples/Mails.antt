-- ===== src/Examples/Mails.antt =====
-- The storage and the IMAP operations at concrete states.
use yggmail_android.Base.{
  ℕ, ◌+◌, ◌≤◌, ◌≡◌, refl, true, false, ◌&&◌, none, some, [], ◌∷◌, Text, codes, same, length, filter,
  ◌==◌, if◌then◌else◌,
}
use yggmail_android.World.{ok, MailRow}
use yggmail_android.Storage.Contents.{in_table, mail_create_lem, mail_expunge_lem}
use yggmail_android.Storage.Mails.{
  mail_create, new_row, in_mailbox, mail_expunge, mail_select, mail_id_for_seq, select_row,
}
use yggmail_android.Storage.Moves.{mail_move_with_file_store, moved_row}
use yggmail_android.Storage.Moving.{mail_move_lem}
use yggmail_android.Storage.Mailboxes.{mailbox_delete}
use yggmail_android.Storage.Sequence.{mail_select_seq}
use yggmail_android.Imap.Mailbox.{seen, flagged, set_each}
use yggmail_android.Imap.Flags.{set_each_last, change_flags_lem, changed, only}
use yggmail_android.Storage.Tables.{has_mailbox}
use yggmail_android.Storage.Deletion.{mailbox_delete_lem}
use yggmail_android.Imap.User.{rename_mailbox}
use yggmail_android.Imap.Folders.{rename_mailbox_takes}
use yggmail_android.Examples.{inbox, outbox, letter, draft, filed, server, server-valid}

abbrev sent_row : ℕ → MailRow
sent_row k = new_row inbox k (some (codes "new")) none 3 9

mail_create_lem_example :
    ((mail_create inbox (codes "new") server).0 ≡ ok 2)
    × (in_table inbox 2 server ≡ none)
    × ((n : Text) (j : ℕ)
        → in_table n j (mail_create inbox (codes "new") server).1
          ≡ (if same inbox n && 2 == j then some (sent_row 2) else in_table n j server))
    × (length (filter (in_mailbox inbox) (mail_create inbox (codes "new") server).1.db.mails)
        ≡ length (filter (in_mailbox inbox) server.db.mails) + 1)
unfolding same yggmail_android.Storage.Tables.next_id
mail_create_lem_example = mail_create_lem inbox (codes "new") server refl

mail_expunge_lem_example : in_table inbox 1 (mail_expunge inbox server).1 ≡ none
unfolding yggmail_android.Storage.Tables.find_mail same
mail_expunge_lem_example = mail_expunge_lem inbox server inbox 1 server-valid

mail_move_lem_example :
    ((mail_move_with_file_store true outbox 1 inbox server).0 ≡ ok tt)
    × ((n : Text) (j : ℕ)
        → in_table n j (mail_move_with_file_store true outbox 1 inbox server).1 ≡ (
            if same outbox n && 1 == j
            then none
            else if same inbox n && 2 == j
            then some (moved_row draft inbox (some (codes "hi"), none) 2)
            else in_table n j server))
unfolding yggmail_android.Storage.Tables.find_mail same yggmail_android.Storage.Tables.next_id
mail_move_lem_example =
    mail_move_lem true outbox inbox 1 draft b'h' (codes "i") server server-valid refl refl refl refl

mail_select_seq_example :
    (n : ℕ) × (mail_select outbox 2 server ≡ (ok (select_row n filed), server))
    × (1 ≤ n)
    × (mail_id_for_seq outbox n server ≡ (ok 2, server))
unfolding yggmail_android.Storage.Tables.find_mail same
mail_select_seq_example = mail_select_seq outbox 2 filed server refl

set_each_last_example :
    ((set_each inbox 1 (seen ∷ flagged ∷ []) server).0 ≡ ok tt)
    × (in_table inbox 1 (set_each inbox 1 (seen ∷ flagged ∷ []) server).1
        ≡ some (record letter { flagged = true; deleted = false }))
unfolding yggmail_android.Storage.Tables.find_mail same yggmail_android.Imap.Flags.is_flag
set_each_last_example = set_each_last inbox 1 (seen ∷ []) flagged server

mailbox_delete_lem_example :
    (has_mailbox outbox (mailbox_delete outbox server).1.db.mailboxes ≡ false)
    × (in_table outbox 1 (mailbox_delete outbox server).1 ≡ none)
unfolding yggmail_android.Storage.Tables.find_mail same
mailbox_delete_lem_example = mailbox_delete_lem outbox server outbox 1 server-valid

rename_mailbox_takes_example :
    ((rename_mailbox (codes "Work") inbox server).0 ≡ ok tt)
    × (has_mailbox inbox (rename_mailbox (codes "Work") inbox server).1.db.mailboxes ≡ false)
unfolding same
rename_mailbox_takes_example = rename_mailbox_takes (codes "Work") inbox server refl refl refl refl
