-- ===== src/Imap/Mailbox.antt =====
-- internal/imapserver/mailbox.go. A mailbox is its name; the backend has a file store.
use yggmail_android.Base.{
  ℕ, ◌+◌, ◌%◌, ◌^◌, Bool, true, false, not, Option, none, some, List, [], ◌∷◌, ◌++◌, Text, same,
  leb, length, take, drop, if◌then◌else◌,
}
use yggmail_android.World.{
  nil_dereference, protected_folder, read_failed, Reader, Action, pure, fail, ◌>>=◌, ◌>>◌,
  small_message_threshold,
}
use yggmail_android.FileStore.{read_mail}
use yggmail_android.Storage.Queue.{outbox}
use yggmail_android.Storage.Mailboxes.{mailbox_subscribe}
use yggmail_android.Storage.Mails.{
  Mail, mail_create, mail_create_from_stream, mail_select, mail_search, mail_next_id, mail_count,
  mail_unseen, mail_update_flags, mail_expunge,
}
use yggmail_android.Storage.Moves.{mail_move}
use yggmail_android.Imap.SeqSet.{Seq, get_ids_from_seq_set}

-- The flags that the switches tell apart; `other` is any other string.
pub data Flag : Type 0 where
  seen answered flagged deleted other : Flag

-- imap.FlagsOp
pub data FlagsOp : Type 0 where
  set_flags add_flags remove_flags : FlagsOp

abbrev pub is_set : FlagsOp → Bool
is_set set_flags = true
is_set _ = false

abbrev pub is_removal : FlagsOp → Bool
is_removal remove_flags = true
is_removal _ = false

-- Status: what each item reads, as an uint32. `recent` is always 0 and UIDVALIDITY always 1.
pub record Status : Type 0 where
  pub messages : ℕ
  pub uid_next : ℕ
  pub uid_validity : ℕ
  pub recent : ℕ
  pub unseen : ℕ

pub data StatusItem : Type 0 where
  messages uid_next uid_validity recent unseen : StatusItem

unfoldable pub status_item : Text → Status → StatusItem → Action Status
unfolding mail_count mail_next_id mail_unseen
status_item name s StatusItem.messages = do
  n ← mail_count name
  pure (record s { messages = n % 2 ^ 32 })
status_item name s StatusItem.uid_next = do
  n ← mail_next_id name
  pure (record s { uid_next = n % 2 ^ 32 })
status_item name s StatusItem.uid_validity = pure (record s { uid_validity = 1 })
status_item name s StatusItem.recent = pure (record s { recent = 0 })
status_item name s StatusItem.unseen = do
  n ← mail_unseen name
  pure (record s { unseen = n % 2 ^ 32 })

-- Status, over the items asked for.
unfoldable pub status : Text → Status → List StatusItem → Action Status
unfolding status_item
status name s [] = pure s
status name s (item ∷ items) = do s' ← status_item name s item; status name s' items

-- SetSubscribed
unfoldable pub set_subscribed : Text → Bool → Action (Unit {0})
unfolding mailbox_subscribe
set_subscribed = mailbox_subscribe

-- SearchMessages: the criteria and `uid` are not read.
unfoldable pub search_messages : Bool → Text → Action (List ℕ)
unfolding mail_search
search_messages uid name = mail_search name

-- One pass of the flags' switch in CreateMessage.
unfoldable pub set_flag : Text → ℕ → Flag → Action (Unit {0})
unfolding mail_update_flags
set_flag name id seen = mail_update_flags name id true false false false
set_flag name id answered = mail_update_flags name id false true false false
set_flag name id flagged = mail_update_flags name id false false true false
set_flag name id deleted = mail_update_flags name id false false false true
set_flag name id other = mail_update_flags name id false false false false

unfoldable pub set_each : Text → ℕ → List Flag → Action (Unit {0})
unfolding set_flag
set_each name id [] = pure tt
set_each name id (flag ∷ flags) = set_flag name id flag >> set_each name id flags

-- The storage that CreateMessage chooses by the bytes that io.ReadFull could read.
unfoldable pub create_content : Text → Reader → Action ℕ
unfolding mail_create mail_create_from_stream
create_content name body =
    let peek_size = small_message_threshold + 1 in
    if leb peek_size (length body.content)
    then mail_create_from_stream name
        (record body { content = take peek_size body.content ++ drop peek_size body.content })
    else if body.broken
    then fail read_failed
    else mail_create name (take peek_size body.content)

-- CreateMessage
unfoldable pub create_message : Text → List Flag → Reader → Action (Unit {0})
unfolding create_content set_each
create_message name flags body = do id ← create_content name body; set_each name id flags

-- mail.Seen = op != imap.RemoveFlags, and so on; a nil mail is dereferenced.
abbrev pub change_flag : FlagsOp → Flag → Mail → Mail
change_flag op seen m = record m { seen = not (is_removal op) }
change_flag op answered m = record m { answered = not (is_removal op) }
change_flag op flagged m = record m { flagged = not (is_removal op) }
change_flag op deleted m = record m { deleted = not (is_removal op) }
change_flag op other m = m

unfoldable pub change_flags : FlagsOp → List Flag → Mail → Mail
change_flags op [] m = m
change_flags op (flag ∷ flags) m = change_flags op flags (change_flag op flag m)

-- The mail that the loop of UpdateMessagesFlags works on: none, nil, if the flags are to be set.
unfoldable pub mail_to_change : FlagsOp → Text → ℕ → Action (Option Mail)
unfolding mail_select
mail_to_change set_flags name id = pure none
mail_to_change add_flags name id = do (_, m) ← mail_select name id; pure (some m)
mail_to_change remove_flags name id = do (_, m) ← mail_select name id; pure (some m)

-- With a nil mail, mail.ID below the loop panics at the latest.
unfoldable pub write_flags : FlagsOp → List Flag → Text → Option Mail → Action (Unit {0})
unfolding change_flags mail_update_flags
write_flags op flags name none = fail nil_dereference
write_flags op flags name (some m) =
    let m' = change_flags op flags m in
    mail_update_flags name m'.id m'.seen m'.answered m'.flagged m'.deleted

unfoldable pub update_each : FlagsOp → List Flag → Text → List ℕ → Action (Unit {0})
unfolding mail_to_change write_flags
update_each op flags name [] = pure tt
update_each op flags name (id ∷ ids) = do
  m ← mail_to_change op name id
  write_flags op flags name m
  update_each op flags name ids

-- UpdateMessagesFlags
unfoldable pub update_messages_flags :
    ℕ → Bool → Text → List Seq → FlagsOp → List Flag → Action (Unit {0})
unfolding update_each
update_messages_flags fuel uid name set op flags = do
  ids ← get_ids_from_seq_set fuel uid name set
  update_each op flags name ids

-- The content of a copy, from the file or from the blob.
unfoldable pub copy_content : Text → Mail → Action ℕ
unfolding read_mail mail_create_from_stream mail_create
copy_content dest m =
    if same m.mail_file []
    then mail_create dest m.mail
    else (read_mail m.mail_file >>= mail_create_from_stream dest)

unfoldable pub copy_one : Text → Text → ℕ → Action (Unit {0})
unfolding copy_content mail_update_flags
copy_one name dest id = do
  (_, m) ← mail_select name id
  pid ← copy_content dest m
  mail_update_flags dest pid m.seen m.answered m.flagged m.deleted

unfoldable pub copy_each : Text → Text → List ℕ → Action (Unit {0})
unfolding copy_one
copy_each name dest [] = pure tt
copy_each name dest (id ∷ ids) = copy_one name dest id >> copy_each name dest ids

-- CopyMessages
unfoldable pub copy_messages : ℕ → Bool → Text → List Seq → Text → Action (Unit {0})
unfolding copy_each
copy_messages fuel uid name set dest =
    if same dest outbox
    then fail protected_folder
    else (get_ids_from_seq_set fuel uid name set >>= copy_each name dest)

-- Expunge
unfoldable pub expunge : Text → Action (Unit {0})
unfolding mail_expunge
expunge = mail_expunge

unfoldable pub move_each : Text → Text → List ℕ → Action (Unit {0})
unfolding mail_move
move_each name dest [] = pure tt
move_each name dest (id ∷ ids) = mail_move name id dest >> move_each name dest ids

-- MoveMessages
unfoldable pub move_messages : ℕ → Bool → Text → List Seq → Text → Action (Unit {0})
unfolding move_each
move_messages fuel uid name set dest =
    if same dest outbox
    then fail protected_folder
    else (get_ids_from_seq_set fuel uid name set >>= move_each name dest)
