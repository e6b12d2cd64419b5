-- ===== src/System.antt =====
-- The program as a transition system: the entry points of the IMAP server, the SMTP sessions, the
-- queues, the service for Android and the command, as steps between states of the storage. The steps of different
-- goroutines interleave; one call is one step.
use yggmail_android.Base.{ℕ, Bool, Option, List, Text, Bytes}
use yggmail_android.World.{Engine, World, Disk, Reader}
use yggmail_android.Storage.Keeps.{HasValidDb}
use yggmail_android.Imap.SeqSet.{Seq}
use yggmail_android.Imap.Mailbox.{
  Flag, FlagsOp, set_subscribed, create_message, update_messages_flags, copy_messages,
  move_messages, expunge,
}
use yggmail_android.Imap.User
use yggmail_android.Imap.Keeps.{
  create_message-Keeps, update_messages_flags-Keeps, copy_messages-Keeps, move_messages-Keeps,
  expunge-Keeps,
}
use yggmail_android.Imap.Folders.{
  set_subscribed-Keeps, create_mailbox-Keeps, delete_mailbox-Keeps, rename_mailbox-Keeps,
}
use yggmail_android.Sender.Delivery.{Queue, Sender, run}
use yggmail_android.Sender.Queues.{queue_for, queue_for_stream}
use yggmail_android.Sender.Keeps.{queue_for-Keeps, queue_for_stream-Keeps, run-valid}
use yggmail_android.Base.Int.{ℤ}
use yggmail_android.Storage.Migration.{migrate_large_messages_to_files}
use yggmail_android.Storage.Migrated.{migrate_large-Keeps}
use yggmail_android.Service.{YggmailService, Platform}
use yggmail_android.Service.Lifecycle.{initialize}
use yggmail_android.Service.Mail.{
  set_password, send_mail, service_create_mailbox, service_delete_mailbox, service_rename_mailbox,
  mark_mail_seen, mark_mail_flagged, service_delete_mail, expunge_mailbox,
}
use yggmail_android.Service.Limits.{set_max_message_size_mb}
use yggmail_android.Service.Keeps.{
  initialize-valid, send_mail-valid, set_password-Keeps, set_max_message_size_mb-Keeps,
  service_create-Keeps, service_delete-Keeps, service_rename-Keeps, mark_mail_seen-Keeps,
  mark_mail_flagged-Keeps, service_delete_mail-Keeps, expunge_mailbox-Keeps,
}
use yggmail_android.Command.{set_up, set_up-Keeps}
use yggmail_android.Smtp.Codec.{Codec}
use yggmail_android.Smtp.Backend.{Backend, SessionLocal}
use yggmail_android.Smtp.Remote.{receive}
use yggmail_android.Smtp.Local.{submit}
use yggmail_android.Smtp.Keeps.{receive-Keeps, submit-Keeps}

module _ (codec : Codec) (addr_spec : Text → Option Text) where
  -- A step of the program, or a change of the disk's condition and of the clock.
  pub data Step : World → World → Type 1 where
    subscribes : (m : Text) (b : Bool) (w : World) → Step w (set_subscribed m b w).1
    creates : (m : Text) (w : World) → Step w (User.create_mailbox m w).1
    deletes : (m : Text) (w : World) → Step w (User.delete_mailbox m w).1
    renames : (old new : Text) (w : World) → Step w (User.rename_mailbox old new w).1
    appends :
        (m : Text) (flags : List Flag) (r : Reader) (w : World)
        → Step w (create_message m flags r w).1
    sets_flags :
        (fuel : ℕ) (uid : Bool) (m : Text) (set : List Seq) (op : FlagsOp) (fs : List Flag)
        (w : World)
        → Step w (update_messages_flags fuel uid m set op fs w).1
    copies :
        (fuel : ℕ) (uid : Bool) (m : Text) (set : List Seq) (dest : Text) (w : World)
        → Step w (copy_messages fuel uid m set dest w).1
    moves :
        (fuel : ℕ) (uid : Bool) (m : Text) (set : List Seq) (dest : Text) (w : World)
        → Step w (move_messages fuel uid m set dest w).1
    expunges : (m : Text) (w : World) → Step w (expunge m w).1
    receives :
        (b : Backend) (received date : Text) (r : Reader) (w : World)
        → Step w (receive codec b received date r w).1
    submits :
        (b : Backend) (s : SessionLocal) (received date : Text) (r : Reader) (w : World)
        → Step w (submit codec b addr_spec s received date r w).1
    queues :
        (b : Bool) (from : Text) (rcpts : List Text) (content : Bytes) (w : World)
        → Step w (queue_for addr_spec b from rcpts content w).1
    streams :
        (b : Bool) (from : Text) (rcpts : List Text) (r : Reader) (w : World)
        → Step w (queue_for_stream addr_spec b from rcpts r w).1
    sends : (env : Sender) (q : Queue) (w : World) → Step w (run env q w).1
    initializes :
        (env : Platform) (s : YggmailService) (w : World) → Step w (initialize env s w).1.1
    sends_mail :
        (date : Text) (now : ℕ) (from to subject body : Text) (s : YggmailService) (w : World)
        → Step w (send_mail addr_spec date now from to subject body s w).1.1
    sets_password :
        (hash : Text → Option Text) (p : Text) (s : YggmailService) (w : World)
        → Step w (set_password hash p s w).1
    sets_size : (z : ℤ) (s : YggmailService) (w : World) → Step w (set_max_message_size_mb z s w).1
    makes_box :
        (n : Text) (s : YggmailService) (w : World) → Step w (service_create_mailbox n s w).1
    drops_box :
        (n : Text) (s : YggmailService) (w : World) → Step w (service_delete_mailbox n s w).1
    renames_box :
        (old new : Text) (s : YggmailService) (w : World)
        → Step w (service_rename_mailbox old new s w).1
    marks_seen :
        (m : Text) (i : ℕ) (b : Bool) (s : YggmailService) (w : World)
        → Step w (mark_mail_seen m i b s w).1
    marks_flagged :
        (m : Text) (i : ℕ) (b : Bool) (s : YggmailService) (w : World)
        → Step w (mark_mail_flagged m i b s w).1
    drops_mail :
        (m : Text) (i : ℕ) (s : YggmailService) (w : World) → Step w (service_delete_mail m i s w).1
    clears : (m : Text) (s : YggmailService) (w : World) → Step w (expunge_mailbox m s w).1
    migrates :
        (sql : Engine) (t : ℕ) (w : World) → Step w (migrate_large_messages_to_files sql t w).1
    boots : (env : Platform) (message : Text → Bytes) (w : World) → Step w (set_up env message w).1
    outside : (d : Disk) (now : ℕ) (w : World) → Step w (record w { disk = d; now = now })

  -- The states that steps reach from a state.
  pub data Reaches (w : World) : World → Type 1 where
    start : Reaches w w
    next : (u v : World) → Reaches w u → Step u v → Reaches w v

  Step-valid : (u v : World) → Step u v → HasValidDb u → HasValidDb v
  Step-valid u _ (subscribes m b _) = (set_subscribed-Keeps m b).holds u
  Step-valid u _ (creates m _) = (create_mailbox-Keeps m).holds u
  Step-valid u _ (deletes m _) = (delete_mailbox-Keeps m).holds u
  Step-valid u _ (renames old new _) = (rename_mailbox-Keeps old new).holds u
  Step-valid u _ (appends m flags r _) = (create_message-Keeps m flags r).holds u
  Step-valid u _ (sets_flags fuel uid m set op fs _) =
      (update_messages_flags-Keeps fuel uid m set op fs).holds u
  Step-valid u _ (copies fuel uid m set dest _) = (copy_messages-Keeps fuel uid m set dest).holds u
  Step-valid u _ (moves fuel uid m set dest _) = (move_messages-Keeps fuel uid m set dest).holds u
  Step-valid u _ (expunges m _) = (expunge-Keeps m).holds u
  Step-valid u _ (receives b received date r _) = (receive-Keeps codec b received date r).holds u
  Step-valid u _ (submits b s received date r _) =
      (submit-Keeps codec b addr_spec s received date r).holds u
  Step-valid u _ (queues b from rcpts content _) =
      (queue_for-Keeps addr_spec b from rcpts content).holds u
  Step-valid u _ (streams b from rcpts r _) =
      (queue_for_stream-Keeps addr_spec b from rcpts r).holds u
  Step-valid u _ (sends env q _) = run-valid env q u
  Step-valid u _ (initializes env s _) = initialize-valid env s u
  Step-valid u _ (sends_mail date now from to subject body s _) =
      send_mail-valid addr_spec date now from to subject body s u
  Step-valid u _ (sets_password hash p s _) = (set_password-Keeps hash p s).holds u
  Step-valid u _ (sets_size z s _) = (set_max_message_size_mb-Keeps z s).holds u
  Step-valid u _ (makes_box n s _) = (service_create-Keeps n s).holds u
  Step-valid u _ (drops_box n s _) = (service_delete-Keeps n s).holds u
  Step-valid u _ (renames_box old new s _) = (service_rename-Keeps old new s).holds u
  Step-valid u _ (marks_seen m i b s _) = (mark_mail_seen-Keeps m i b s).holds u
  Step-valid u _ (marks_flagged m i b s _) = (mark_mail_flagged-Keeps m i b s).holds u
  Step-valid u _ (drops_mail m i s _) = (service_delete_mail-Keeps m i s).holds u
  Step-valid u _ (clears m s _) = (expunge_mailbox-Keeps m s).holds u
  Step-valid u _ (migrates sql t _) = (migrate_large-Keeps sql t).holds u
  Step-valid u _ (boots env message _) = (set_up-Keeps env message).holds u
  Step-valid u _ (outside d now _) = λ v. v

  -- In every state that the program reaches from a state of the database that meets the schema's
  -- constraints, the database meets them: every message is in a mailbox that exists, has one content and
  -- stands behind the smaller IDs of its mailbox, and every queue entry is of a message that exists.
  pub Reaches-valid : (w v : World) → Reaches w v → HasValidDb w → HasValidDb v
  Reaches-valid w _ start valid = valid
  Reaches-valid w _ (next u v r s) valid = Step-valid u v s (Reaches-valid w u r valid)
