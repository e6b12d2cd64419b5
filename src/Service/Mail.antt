-- ===== src/Service/Mail.antt =====
-- The mail methods of mobile/yggmail.go, which are calls of the storage and of the queues: passwords,
-- SendMail, the mailboxes, and the mails of a mailbox. bcrypt, net/mail's parsers and the text of the
-- date are parameters.
pub mod Effects
pub mod Sending
use yggmail_android.Base.{
  ℕ, Bool, true, false, ◌&&◌, not, Option, none, some, is_some, List, [], ◌∷◌, ◌++◌, map, Text,
  Bytes, codes, if◌then◌else◌,
}
use yggmail_android.World.{
  World, Result, ok, err, Action, pure, fail, ◌>>=◌, ◌>>◌, key_failed, not_initialized, bad_message,
}
use yggmail_android.FileStore.Paths.{trim_space}
use yggmail_android.Storage.Config.{config_set_password, config_try_password}
use yggmail_android.Storage.Mailboxes.{mailbox_list, mailbox_create, mailbox_delete, mailbox_rename}
use yggmail_android.Storage.Mails.{
  mail_select, mail_search, mail_count, mail_unseen, mail_update_flags, mail_delete, mail_expunge,
}
use yggmail_android.Storage.Mails as Mails
use yggmail_android.Sender.Queues.{queue_for}
use yggmail_android.Service.{YggmailService, Called, with_storage}
use yggmail_android.Service.Lifecycle.{split}
use yggmail_android.Service.Power.{record_mail_activity}

abbrev pub set_hash : Option Text → Action (Unit {0})
set_hash none = fail key_failed
set_hash (some hash) = config_set_password hash

-- SetPassword; `hash` is bcrypt.GenerateFromPassword.
unfoldable pub set_password : (Text → Option Text) → Text → YggmailService → Action (Unit {0})
unfolding trim_space config_set_password
set_password hash password s = with_storage s (set_hash (hash (trim_space password)))

-- VerifyPassword
unfoldable pub verify_password : (Text → Text → Bool) → Text → YggmailService → Action Bool
unfolding config_try_password
verify_password matches password s = with_storage s (config_try_password matches password)

-- The message that SendMail builds.
unfoldable pub mail_text : Text → Text → Text → Text → Text → Bytes
mail_text date from to subject body =
    codes "From: "
    ++ from
    ++ codes "\r\nTo: "
    ++ to
    ++ codes "\r\nSubject: "
    ++ subject
    ++ codes "\r\nDate: "
    ++ date
    ++ codes "\r\nContent-Type: text/plain; charset=utf-8\r\n\r\n"
    ++ body

-- The recipients of SendMail
unfoldable pub recipients_of : Text → List Text
unfolding split trim_space
recipients_of to = map trim_space (split b',' to)

abbrev pub after_queue : ℕ → YggmailService → Result (List Text) × World → Called (Unit {0})
after_queue now s (err e, w) = (err e, (s, w))
after_queue now s (ok _, w) = (ok tt, (record_mail_activity now s, w))

-- SendMail
unfoldable pub send_mail :
    (Text → Option Text)
    → Text
    → ℕ
    → Text
    → Text
    → Text
    → Text
    → YggmailService
    → World
    → Called (Unit {0})
unfolding mail_text recipients_of queue_for record_mail_activity
send_mail addr_spec date now from to subject body s w =
    if s.storage && is_some s.queues
    then after_queue now s (
        queue_for addr_spec s.file_store from (recipients_of to)
          (mail_text date from to subject body) w)
    else (err not_initialized, (s, w))

-- GetMailboxList
unfoldable pub get_mailbox_list : Bool → YggmailService → Action (List Text)
unfolding mailbox_list
get_mailbox_list only_subscribed s = with_storage s (mailbox_list only_subscribed)

-- CreateMailbox
unfoldable pub service_create_mailbox : Text → YggmailService → Action (Unit {0})
unfolding mailbox_create
service_create_mailbox name s = with_storage s (mailbox_create name)

-- DeleteMailbox
unfoldable pub service_delete_mailbox : Text → YggmailService → Action (Unit {0})
unfolding mailbox_delete
service_delete_mailbox name s = with_storage s (mailbox_delete name)

-- RenameMailbox
unfoldable pub service_rename_mailbox : Text → Text → YggmailService → Action (Unit {0})
unfolding mailbox_rename
service_rename_mailbox old new s = with_storage s (mailbox_rename old new)

-- GetMailCount
unfoldable pub get_mail_count : Text → YggmailService → Action ℕ
unfolding mail_count
get_mail_count mailbox s = with_storage s (mail_count mailbox)

-- GetUnseenCount
unfoldable pub get_unseen_count : Text → YggmailService → Action ℕ
unfolding mail_unseen
get_unseen_count mailbox s = with_storage s (mail_unseen mailbox)

-- What net/mail.ReadMessage returns: the values of the header, and the body.
pub record Message : Type 0 where
  pub get : Text → Text
  pub body : Bytes

-- MailInfo
pub record MailInfo : Type 0 where
  pub id : ℕ
  pub from : Text
  pub subject : Text
  pub date : Text
  pub seen : Bool
  pub flagged : Bool
  pub answered : Bool

abbrev pub info_of : Mails.Mail → Message → MailInfo
info_of m msg = record {
  id = m.id;
  from = msg.get (codes "From");
  subject = msg.get (codes "Subject");
  date = msg.get (codes "Date");
  seen = m.seen;
  flagged = m.flagged;
  answered = m.answered;
}

module _ (read_message : Bytes → Option Message) where
  -- A mail that cannot be selected or parsed is left out.
  unfoldable pub info_of_selected : Result (ℕ × Mails.Mail) → List MailInfo
  info_of_selected (err _) = []
  info_of_selected (ok (_, m)) = elim (read_message m.mail) [
    | none ↦ []
    | some msg ↦ info_of m msg ∷ []
  ]

  -- The loop of GetMailList over the IDs
  unfoldable pub list_mails : Text → List ℕ → World → List MailInfo
  unfolding mail_select info_of_selected
  list_mails mailbox [] w = []
  list_mails mailbox (i ∷ ids) w =
      info_of_selected (mail_select mailbox i w).0 ++ list_mails mailbox ids w

  -- GetMailList
  unfoldable pub get_mail_list : Text → YggmailService → Action (List MailInfo)
  unfolding mail_search list_mails
  get_mail_list mailbox s =
      with_storage s (mail_search mailbox >>= λ ids w. (ok (list_mails mailbox ids w), w))

  abbrev pub body_of : Option Message → Action Bytes
  body_of none = fail bad_message
  body_of (some msg) = pure msg.body

  -- GetMailBody
  unfoldable pub get_mail_body : Text → ℕ → YggmailService → Action Bytes
  unfolding mail_select
  get_mail_body mailbox id s =
      with_storage s (mail_select mailbox id >>= λ x. body_of (read_message x.1.mail))

-- GetMailContent
unfoldable pub get_mail_content : Text → ℕ → YggmailService → Action Bytes
unfolding mail_select
get_mail_content mailbox id s = with_storage s (mail_select mailbox id >>= λ x. pure x.1.mail)

-- MarkMailSeen
unfoldable pub mark_mail_seen : Text → ℕ → Bool → YggmailService → Action (Unit {0})
unfolding mail_select mail_update_flags
mark_mail_seen mailbox id seen s = with_storage s (
    mail_select mailbox id >>= λ x.
    mail_update_flags mailbox id seen x.1.answered x.1.flagged x.1.deleted)

-- MarkMailFlagged
unfoldable pub mark_mail_flagged : Text → ℕ → Bool → YggmailService → Action (Unit {0})
unfolding mail_select mail_update_flags
mark_mail_flagged mailbox id flagged s = with_storage s (
    mail_select mailbox id >>= λ x.
    mail_update_flags mailbox id x.1.seen x.1.answered flagged x.1.deleted)

-- DeleteMail
unfoldable pub service_delete_mail : Text → ℕ → YggmailService → Action (Unit {0})
unfolding mail_delete
service_delete_mail mailbox id s = with_storage s (mail_delete mailbox id)

-- ExpungeMailbox
unfoldable pub expunge_mailbox : Text → YggmailService → Action (Unit {0})
unfolding mail_expunge
expunge_mailbox mailbox s = with_storage s (mail_expunge mailbox)

-- GetMailSize
unfoldable pub get_mail_size : Text → ℕ → YggmailService → Action ℕ
unfolding mail_select
get_mail_size mailbox id s = with_storage s (mail_select mailbox id >>= λ x. pure x.1.size)
