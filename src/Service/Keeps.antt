-- ===== src/Service/Keeps.antt =====
-- The schema's constraints under the methods of mobile/yggmail.go that write to the storage, and under
-- the start of the command.
use yggmail_android.Base.{
  ℕ, Bool, true, ◌&&◌, Option, none, some, is_some, List, [], ◌∷◌, Text, Bytes, codes, if_both, not,
}
use yggmail_android.Base.Int.{ℤ, pos, negsuc}
use yggmail_android.World.{World, Result, ok, err, Action, fail, ◌>>◌}
use yggmail_android.World.Keeps.{Keeps, bind-Keeps, pure-Keeps, fail-Keeps, query-Keeps, if-Keeps}
use yggmail_android.Address.{hex_encode, hex_decode}
use yggmail_android.Storage.Config.{
  config_get, config_set_password, config_set_max_message_size, lookup, or_empty,
}
use yggmail_android.Storage.Mailboxes.{mailbox_create}
use yggmail_android.Storage.Mails.{mail_select}
use yggmail_android.Storage.Keeps.{
  HasValidDb, config_set-Keeps, mailbox_create-Keeps, mailbox_delete-Keeps, mailbox_rename-Keeps,
  mail_update_flags-Keeps, mail_delete-Keeps, mail_expunge-Keeps,
}
use yggmail_android.Sender.Keeps.{queue_for-Keeps}
use yggmail_android.Sender.Queues.{queue_for}
use yggmail_android.Service.{YggmailService, Platform, Called, with_storage}
use yggmail_android.Service.Lifecycle.{
  initialize, load_key, private_key_of, make_key, copy_key, private_key_entry, identify, keep_files,
  create_default_mailboxes, new_file_store,
}
use yggmail_android.Service.Mail.{
  set_password, set_hash, send_mail, after_queue, mail_text, recipients_of, service_create_mailbox,
  service_delete_mailbox, service_rename_mailbox, mark_mail_seen, mark_mail_flagged,
  service_delete_mail, expunge_mailbox,
}
use yggmail_android.Service.Limits.{set_max_message_size_mb, set_megabytes}

abbrev Safe : {A : Type 0} → Action A → Type 0
Safe m = Keeps HasValidDb m

with_storage-Keeps :
    {A : Type 0} (s : YggmailService) (m : Action A) → Safe m → Safe (with_storage s m)
with_storage-Keeps s m k = if-Keeps HasValidDb s.storage m (fail _) k (fail-Keeps HasValidDb _)

config_set_password-Keeps : (h : Text) → Safe (config_set_password h)
unfolding config_set_password
config_set_password-Keeps h = config_set-Keeps _ h

set_hash-Keeps : (o : Option Text) → Safe (set_hash o)
set_hash-Keeps none = fail-Keeps HasValidDb _
set_hash-Keeps (some h) = config_set_password-Keeps h

pub set_password-Keeps :
    (hash : Text → Option Text) (p : Text) (s : YggmailService) → Safe (set_password hash p s)
unfolding set_password
set_password-Keeps hash p s = with_storage-Keeps s _ (set_hash-Keeps _)

pub service_create-Keeps : (n : Text) (s : YggmailService) → Safe (service_create_mailbox n s)
unfolding service_create_mailbox
service_create-Keeps n s = with_storage-Keeps s _ (mailbox_create-Keeps n)

pub service_delete-Keeps : (n : Text) (s : YggmailService) → Safe (service_delete_mailbox n s)
unfolding service_delete_mailbox
service_delete-Keeps n s = with_storage-Keeps s _ (mailbox_delete-Keeps n)

pub service_rename-Keeps : (o n : Text) (s : YggmailService) → Safe (service_rename_mailbox o n s)
unfolding service_rename_mailbox
service_rename-Keeps o n s = with_storage-Keeps s _ (mailbox_rename-Keeps o n)

mail_select-Keeps : (m : Text) (i : ℕ) → Safe (mail_select m i)
unfolding mail_select
mail_select-Keeps m i = query-Keeps HasValidDb _

pub mark_mail_seen-Keeps :
    (m : Text) (i : ℕ) (b : Bool) (s : YggmailService) → Safe (mark_mail_seen m i b s)
unfolding mark_mail_seen
mark_mail_seen-Keeps m i b s = with_storage-Keeps s _ (
    bind-Keeps HasValidDb (mail_select m i) _ (mail_select-Keeps m i)
      (λ x. mail_update_flags-Keeps m i b x.1.answered x.1.flagged x.1.deleted))

pub mark_mail_flagged-Keeps :
    (m : Text) (i : ℕ) (b : Bool) (s : YggmailService) → Safe (mark_mail_flagged m i b s)
unfolding mark_mail_flagged
mark_mail_flagged-Keeps m i b s = with_storage-Keeps s _ (
    bind-Keeps HasValidDb (mail_select m i) _ (mail_select-Keeps m i)
      (λ x. mail_update_flags-Keeps m i x.1.seen x.1.answered b x.1.deleted))

pub service_delete_mail-Keeps :
    (m : Text) (i : ℕ) (s : YggmailService) → Safe (service_delete_mail m i s)
unfolding service_delete_mail
service_delete_mail-Keeps m i s = with_storage-Keeps s _ (mail_delete-Keeps m i)

pub expunge_mailbox-Keeps : (m : Text) (s : YggmailService) → Safe (expunge_mailbox m s)
unfolding expunge_mailbox
expunge_mailbox-Keeps m s = with_storage-Keeps s _ (mail_expunge-Keeps m)

set_size-Keeps : (z : ℤ) → Safe (config_set_max_message_size z)
unfolding config_set_max_message_size
set_size-Keeps (negsuc n) = fail-Keeps HasValidDb _
set_size-Keeps (pos n) = config_set-Keeps _ _

set_megabytes-Keeps : (z : ℤ) → Safe (set_megabytes z)
set_megabytes-Keeps (negsuc n) = fail-Keeps HasValidDb _
set_megabytes-Keeps (pos n) = set_size-Keeps _

pub set_max_message_size_mb-Keeps :
    (z : ℤ) (s : YggmailService) → Safe (set_max_message_size_mb z s)
unfolding set_max_message_size_mb
set_max_message_size_mb-Keeps z s = with_storage-Keeps s _ (set_megabytes-Keeps z)

after_queue-valid :
    (now : ℕ) (s : YggmailService) (x : Result (List Text) × World)
    → HasValidDb x.1
    → HasValidDb (after_queue now s x).1.1
after_queue-valid now s (ok _, w) v = v
after_queue-valid now s (err _, w) v = v

pub send_mail-valid :
    (addr_spec : Text → Option Text) (date : Text) (now : ℕ) (from to subject body : Text)
    (s : YggmailService) (w : World)
    → HasValidDb w
    → HasValidDb (send_mail addr_spec date now from to subject body s w).1.1
unfolding send_mail
send_mail-valid addr_spec date now from to subject body s w v =
    let rcpts = recipients_of to in
    let content = mail_text date from to subject body in
    if_both (λ (x : Called (Unit {0})). HasValidDb x.1.1) (s.storage && is_some s.queues) _ _
      (λ _.
        after_queue-valid now s (queue_for addr_spec s.file_store from rcpts content w)
          ((queue_for-Keeps addr_spec s.file_store from rcpts content).holds w v))
      (λ _. v)

make_key-Keeps : (o : Option Bytes) → Safe (make_key o)
unfolding make_key
make_key-Keeps none = fail-Keeps HasValidDb _
make_key-Keeps (some sk) =
    bind-Keeps HasValidDb _ _ (config_set-Keeps private_key_entry (hex_encode sk))
      (λ _. pure-Keeps HasValidDb sk)

copy_key-Keeps : (o : Option Bytes) → Safe (copy_key o)
copy_key-Keeps none = fail-Keeps HasValidDb _
copy_key-Keeps (some bs) = pure-Keeps HasValidDb _

private_key_of-Keeps : (env : Platform) (t : Text) → Safe (private_key_of env t)
unfolding private_key_of
private_key_of-Keeps env [] = make_key-Keeps env.generate_key
private_key_of-Keeps env (c ∷ s) = copy_key-Keeps (hex_decode (c ∷ s))

pub load_key-Keeps : (env : Platform) → Safe (load_key env)
unfolding load_key config_get
load_key-Keeps env =
    bind-Keeps HasValidDb _ _
      (query-Keeps HasValidDb (λ d. ok (or_empty (lookup private_key_entry d.config))))
      (private_key_of-Keeps env)

pub default_mailboxes-Keeps : Safe create_default_mailboxes
unfolding create_default_mailboxes
default_mailboxes-Keeps =
    bind-Keeps HasValidDb (mailbox_create (codes "INBOX")) _ (mailbox_create-Keeps (codes "INBOX"))
      (λ _.
        bind-Keeps HasValidDb (mailbox_create (codes "Outbox")) _
          (mailbox_create-Keeps (codes "Outbox")) (λ _. mailbox_create-Keeps (codes "Sent")))

pub new_file_store-Keeps : Safe new_file_store
unfolding new_file_store
new_file_store-Keeps = record { holds = λ w v. v }

keep_files-valid :
    (s : YggmailService) (x : Result (Unit {0}) × World)
    → HasValidDb x.1
    → HasValidDb (keep_files s x).1.1
keep_files-valid s (ok _, w) v = v
keep_files-valid s (err _, w) v = v

identify-valid :
    (env : Platform) (s : YggmailService) (x : Result Bytes × World)
    → HasValidDb x.1
    → HasValidDb (identify env s x).1.1
identify-valid env s (err _, w) v = v
identify-valid env s (ok sk, w) v =
    keep_files-valid
      (record s { config = some (record { public_key = env.public_of sk; private_key = sk }) })
      ((create_default_mailboxes >> new_file_store) w)
      ((bind-Keeps HasValidDb create_default_mailboxes (λ _. new_file_store) default_mailboxes-Keeps
          (λ _. new_file_store-Keeps)).holds
        w v)

pub initialize-valid :
    (env : Platform) (s : YggmailService) (w : World)
    → HasValidDb w
    → HasValidDb (initialize env s w).1.1
unfolding initialize
initialize-valid env s w v =
    if_both (λ (x : Called (Unit {0})). HasValidDb x.1.1) s.storage _ _ (λ _. v)
      (λ _.
        if_both (λ (x : Called (Unit {0})). HasValidDb x.1.1) (not env.opens) _ _ (λ _. v)
          (λ _.
            identify-valid env (record s { storage = true }) (load_key env w)
              ((load_key-Keeps env).holds w v)))
