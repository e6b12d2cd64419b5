-- ===== src/Imap/User.antt =====
-- internal/imapserver/user.go and the login of internal/imapserver/backend.go. bcrypt's comparison
-- is a parameter.
use yggmail_android.Base.{
  Bool, true, false, ◌||◌, List, [], ◌∷◌, Text, Bytes, codes, same, if◌then◌else◌, not,
}
use yggmail_android.World.{
  cannot_change, mailbox_not_found, wrong_domain, auth_required, nil_dereference, Result, ok, err,
  Action, pure, fail, ◌>>=◌,
}
use yggmail_android.Address.{parse_address, hex_encode}
use yggmail_android.Storage.Config.{config_try_password}
use yggmail_android.Storage.Mailboxes.{
  mailbox_list, mailbox_select, mailbox_create, mailbox_delete, mailbox_rename,
}

-- Login's test of the user name: an address must be of our key, anything else will do.
abbrev pub is_foreign : Result Bytes → Bytes → Bool
is_foreign (ok pk) public_key = not (same pk public_key)
is_foreign (err _) public_key = false

unfoldable pub greet : Bool → Bytes → Bool → Action Text
unfolding hex_encode
greet has_conn public_key false = fail auth_required
greet false public_key true = fail nil_dereference
greet true public_key true = pure (hex_encode public_key)

-- Login: the user's name. The last line reads the connection's address; a SASL login (imap.go) has
-- no connection, so `has_conn` is false there.
unfoldable pub login : (Text → Text → Bool) → Bytes → Bool → Text → Text → Action Text
unfolding parse_address config_try_password greet
login matches public_key has_conn username password =
    if is_foreign (parse_address username) public_key
    then fail wrong_domain
    else do authed ← config_try_password matches password; greet has_conn public_key authed

-- ListMailboxes
unfoldable pub list_mailboxes : Bool → Action (List Text)
unfolding mailbox_list
list_mailboxes = mailbox_list

abbrev pub is_found : Result Bool → Bool
is_found (ok found) = found
is_found (err _) = false

-- GetMailbox: the empty name is always found; an error of the selection is ignored.
unfoldable pub get_mailbox : Text → Action Text
unfolding mailbox_select
get_mailbox [] w = (ok [], w)
get_mailbox (c ∷ name) w =
    let (selected, w') = mailbox_select (c ∷ name) w in
    (if is_found selected then ok (c ∷ name) else err mailbox_not_found, w')

-- CreateMailbox
unfoldable pub create_mailbox : Text → Action (Unit {0})
unfolding mailbox_create
create_mailbox = mailbox_create

abbrev pub is_protected : Text → Bool
is_protected name =
    same name (codes "INBOX") || (same name (codes "Outbox") || same name (codes "Sent"))

-- DeleteMailbox
unfoldable pub delete_mailbox : Text → Action (Unit {0})
unfolding mailbox_delete
delete_mailbox name = if is_protected name then fail cannot_change else mailbox_delete name

-- RenameMailbox
unfoldable pub rename_mailbox : Text → Text → Action (Unit {0})
unfolding mailbox_rename
rename_mailbox existing_name new_name =
    if is_protected existing_name then fail cannot_change else mailbox_rename existing_name new_name
