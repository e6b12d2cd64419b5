-- ===== src/Storage/Mailboxes.antt =====
-- internal/storage/sqlite3/table_mailboxes.go.
use yggmail_android.Base.{Bool, true, List, [], ◌∷◌, ◌++◌, map, Text, same, filter, if◌then◌else◌}
use yggmail_android.World.{ok, err, no_rows, MailboxRow, Db, Action, on_db, query}
use yggmail_android.Storage.Tables.{has_mailbox, rename_mailbox, delete_mailbox}

abbrev pub names : List MailboxRow → List Text
names = map (λ b. b.mailbox)

-- MailboxList
unfoldable pub mailbox_list : Bool → Action (List Text)
mailbox_list only_subscribed = query (λ d.
    ok (names (if only_subscribed then filter (λ b. b.subscribed) d.mailboxes else d.mailboxes)))

-- MailboxSelect
unfoldable pub mailbox_select : Text → Action Bool
mailbox_select mailbox =
    query (λ d. if has_mailbox mailbox d.mailboxes then ok true else err no_rows)

-- INSERT OR IGNORE INTO mailboxes (mailbox) VALUES($1)
unfoldable pub insert_mailbox : Text → Db → Db
insert_mailbox name d =
    if has_mailbox name d.mailboxes
    then d
    else record d { mailboxes = d.mailboxes ++ record { mailbox = name; subscribed = true } ∷ [] }

-- MailboxCreate
unfoldable pub mailbox_create : Text → Action (Unit {0})
unfolding insert_mailbox
mailbox_create name = on_db (λ d. (ok tt, insert_mailbox name d))

-- MailboxRename. The statement sets its first argument where the second one stands, and the call
-- passes (old, new).
unfoldable pub mailbox_rename : Text → Text → Action (Unit {0})
unfolding rename_mailbox
mailbox_rename old new = on_db (rename_mailbox old new)

-- MailboxDelete
unfoldable pub mailbox_delete : Text → Action (Unit {0})
unfolding delete_mailbox
mailbox_delete name = on_db (λ d. (ok tt, delete_mailbox name d))

abbrev pub subscribe_row : Text → Bool → MailboxRow → MailboxRow
subscribe_row name subscribed b =
    if same b.mailbox name then record b { subscribed = subscribed } else b

-- MailboxSubscribe
unfoldable pub mailbox_subscribe : Text → Bool → Action (Unit {0})
mailbox_subscribe name subscribed =
    on_db (λ d. (ok tt, record d { mailboxes = map (subscribe_row name subscribed) d.mailboxes }))
