-- ===== src/Imap/Keeps.antt =====
-- internal/imapserver: the IMAP operations, under the schema's constraints.
use yggmail_android.Base.{ℕ, Bool, true, false, List, [], ◌∷◌, Text, Option, none, some}
use yggmail_android.World.{Reader}
use yggmail_android.World.Keeps.{Keeps, bind-Keeps, pure-Keeps, fail-Keeps, query-Keeps, if-Keeps}
use yggmail_android.FileStore.{read_mail}
use yggmail_android.Storage.Mails.{Mail, mail_select}
use yggmail_android.Storage.Moves.{mail_move}
use yggmail_android.Storage.Keeps.{
  HasValidDb, mail_create-Keeps, mail_create_from_stream-Keeps, mail_update_flags-Keeps,
  mail_move-Keeps, mail_expunge-Keeps,
}
use yggmail_android.Imap.SeqSet.{Seq, get_ids_from_seq_set}
use yggmail_android.Imap.Mailbox.{
  Flag, seen, answered, flagged, deleted, other, FlagsOp, set_flags, add_flags, remove_flags,
  set_flag, set_each, create_content, create_message, mail_to_change, write_flags, update_each,
  update_messages_flags, copy_content, copy_one, copy_each, copy_messages, move_each, move_messages,
  expunge,
}
use yggmail_android.Imap.Reads.{get_ids_from_seq_set-ReadOnly, ReadOnly-Keeps}
use yggmail_android.FileStore.Keeps.{read_mail-db}

set_flag-Keeps : (name : Text) (id : ℕ) (flag : Flag) → Keeps HasValidDb (set_flag name id flag)
unfolding set_flag
set_flag-Keeps name id seen = mail_update_flags-Keeps name id true false false false
set_flag-Keeps name id answered = mail_update_flags-Keeps name id false true false false
set_flag-Keeps name id flagged = mail_update_flags-Keeps name id false false true false
set_flag-Keeps name id deleted = mail_update_flags-Keeps name id false false false true
set_flag-Keeps name id other = mail_update_flags-Keeps name id false false false false

set_each-Keeps :
    (name : Text) (id : ℕ) (flags : List Flag) → Keeps HasValidDb (set_each name id flags)
unfolding set_each
set_each-Keeps name id [] = pure-Keeps HasValidDb tt
set_each-Keeps name id (flag ∷ flags) =
    bind-Keeps HasValidDb (set_flag name id flag) _ (set_flag-Keeps name id flag)
      (λ _. set_each-Keeps name id flags)

create_content-Keeps : (name : Text) (body : Reader) → Keeps HasValidDb (create_content name body)
unfolding create_content
create_content-Keeps name body =
    search (if-Keeps, fail-Keeps, mail_create-Keeps, mail_create_from_stream-Keeps) depth 6

-- An upload keeps the constraints.
pub create_message-Keeps :
    (name : Text) (flags : List Flag) (body : Reader)
    → Keeps HasValidDb (create_message name flags body)
unfolding create_message
create_message-Keeps name flags body =
    bind-Keeps HasValidDb (create_content name body) _ (create_content-Keeps name body)
      (λ id. set_each-Keeps name id flags)

pub mail_select-Keeps : (name : Text) (id : ℕ) → Keeps HasValidDb (mail_select name id)
unfolding mail_select
mail_select-Keeps name id = query-Keeps HasValidDb _

pub read_mail-Keeps : (path : Text) → Keeps HasValidDb (read_mail path)
read_mail-Keeps path = record { holds = λ w v. rw (read_mail-db path w) v }

mail_to_change-Keeps :
    (op : FlagsOp) (name : Text) (id : ℕ) → Keeps HasValidDb (mail_to_change op name id)
unfolding mail_to_change
mail_to_change-Keeps set_flags name id = pure-Keeps HasValidDb none
mail_to_change-Keeps add_flags name id =
    bind-Keeps HasValidDb (mail_select name id) _ (mail_select-Keeps name id)
      (λ _. pure-Keeps HasValidDb _)
mail_to_change-Keeps remove_flags name id =
    bind-Keeps HasValidDb (mail_select name id) _ (mail_select-Keeps name id)
      (λ _. pure-Keeps HasValidDb _)

write_flags-Keeps :
    (op : FlagsOp) (flags : List Flag) (name : Text) (m : Option Mail)
    → Keeps HasValidDb (write_flags op flags name m)
unfolding write_flags
write_flags-Keeps op flags name none = fail-Keeps HasValidDb _
write_flags-Keeps op flags name (some m) = mail_update_flags-Keeps name _ _ _ _ _

update_each-Keeps :
    (op : FlagsOp) (flags : List Flag) (name : Text) (ids : List ℕ)
    → Keeps HasValidDb (update_each op flags name ids)
unfolding update_each
update_each-Keeps op flags name [] = pure-Keeps HasValidDb tt
update_each-Keeps op flags name (id ∷ ids) =
    bind-Keeps HasValidDb (mail_to_change op name id) _ (mail_to_change-Keeps op name id) (λ m.
      bind-Keeps HasValidDb (write_flags op flags name m) _ (write_flags-Keeps op flags name m)
        (λ _. update_each-Keeps op flags name ids))

ids-Keeps :
    (fuel : ℕ) (uid : Bool) (name : Text) (set : List Seq)
    → Keeps HasValidDb (get_ids_from_seq_set fuel uid name set)
ids-Keeps fuel uid name set =
    ReadOnly-Keeps HasValidDb (get_ids_from_seq_set fuel uid name set)
      (get_ids_from_seq_set-ReadOnly fuel uid name set)

-- A change of flags keeps the constraints.
pub update_messages_flags-Keeps :
    (fuel : ℕ) (uid : Bool) (name : Text) (set : List Seq) (op : FlagsOp) (flags : List Flag)
    → Keeps HasValidDb (update_messages_flags fuel uid name set op flags)
unfolding update_messages_flags
update_messages_flags-Keeps fuel uid name set op flags =
    bind-Keeps HasValidDb (get_ids_from_seq_set fuel uid name set) _ (ids-Keeps fuel uid name set)
      (update_each-Keeps op flags name)

copy_content-Keeps : (dest : Text) (m : Mail) → Keeps HasValidDb (copy_content dest m)
unfolding copy_content
copy_content-Keeps dest m =
    search (if-Keeps, bind-Keeps, read_mail-Keeps, mail_create-Keeps, mail_create_from_stream-Keeps)
      depth 6

copy_one-Keeps : (name dest : Text) (id : ℕ) → Keeps HasValidDb (copy_one name dest id)
unfolding copy_one
copy_one-Keeps name dest id =
    bind-Keeps HasValidDb (mail_select name id) _ (mail_select-Keeps name id) (λ r.
      bind-Keeps HasValidDb (copy_content dest r.1) _ (copy_content-Keeps dest r.1)
        (λ pid. mail_update_flags-Keeps dest pid _ _ _ _))

copy_each-Keeps : (name dest : Text) (ids : List ℕ) → Keeps HasValidDb (copy_each name dest ids)
unfolding copy_each
copy_each-Keeps name dest [] = pure-Keeps HasValidDb tt
copy_each-Keeps name dest (id ∷ ids) =
    bind-Keeps HasValidDb (copy_one name dest id) _ (copy_one-Keeps name dest id)
      (λ _. copy_each-Keeps name dest ids)

-- A copy keeps the constraints.
pub copy_messages-Keeps :
    (fuel : ℕ) (uid : Bool) (name : Text) (set : List Seq) (dest : Text)
    → Keeps HasValidDb (copy_messages fuel uid name set dest)
unfolding copy_messages
copy_messages-Keeps fuel uid name set dest =
    search (if-Keeps, fail-Keeps, bind-Keeps, ids-Keeps, copy_each-Keeps) depth 6

move_each-Keeps : (name dest : Text) (ids : List ℕ) → Keeps HasValidDb (move_each name dest ids)
unfolding move_each
move_each-Keeps name dest [] = pure-Keeps HasValidDb tt
move_each-Keeps name dest (id ∷ ids) =
    bind-Keeps HasValidDb (mail_move name id dest) _ (mail_move-Keeps name id dest)
      (λ _. move_each-Keeps name dest ids)

-- A move keeps the constraints.
pub move_messages-Keeps :
    (fuel : ℕ) (uid : Bool) (name : Text) (set : List Seq) (dest : Text)
    → Keeps HasValidDb (move_messages fuel uid name set dest)
unfolding move_messages
move_messages-Keeps fuel uid name set dest =
    search (if-Keeps, fail-Keeps, bind-Keeps, ids-Keeps, move_each-Keeps) depth 6

pub expunge-Keeps : (name : Text) → Keeps HasValidDb (expunge name)
unfolding expunge
expunge-Keeps name = mail_expunge-Keeps name
