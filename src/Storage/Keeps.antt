-- ===== src/Storage/Keeps.antt =====
-- The schema's constraints under the methods of storage.Storage that write to mails, mailboxes and
-- queue.
use yggmail_android.Base.{
  ℕ, ◌≡◌, ◌∙◌, refl, Bool, true, false, Option, none, some, List, [], ◌∷◌, Text, Bytes, arith,
  Bool-cases, inl, inr, length,
}
use yggmail_android.World.{
  World, Reader, MailRow, MailboxRow, Result, ok, no_content, mail_not_found, Db, on_db, on_error,
}
use yggmail_android.World.Keeps.{
  Keeps, bind-Keeps, fail-Keeps, query-Keeps, if-Keeps, on_error-keeps,
}
use yggmail_android.FileStore.{delete_mail, store_mail}
use yggmail_android.FileStore.Keeps.{store_mail-db, delete_mail-db, move_mail-db}
use yggmail_android.Storage.Tables.{next_id, is_mail, has_mailbox, delete_mails, find_mail}
use yggmail_android.Storage.Invariant.{
  IsValid, insert_mail-IsValid, update_mails-IsValid, delete_mails-IsValid, insert_queue-IsValid,
  delete_queue-IsValid, map_mailboxes-IsValid, append_mailbox-IsValid, delete_mailbox-IsValid,
}
use yggmail_android.Storage.Renaming.{rename_mailbox-IsValid}
use yggmail_android.Storage.Mailboxes.{
  insert_mailbox, mailbox_create, mailbox_rename, mailbox_delete, mailbox_subscribe, subscribe_row,
}
use yggmail_android.Storage.Config.{config_set}
use yggmail_android.Storage.Queue.{queue_insert_destination_for_id, queue_delete_destination_for_id}
use yggmail_android.Storage.Mails.{
  new_row, insert_next, mail_create, stream_store, stream_insert, mail_create_from_stream,
  mail_next_id, mail_update_flags, mail_delete, is_expunged, expunged_files, delete_files,
  mail_expunge_with_file_store, mail_expunge,
}
use yggmail_android.Storage.Moves.{
  mail_move, moved_file, moved_content, moved_row, move_content, move_row, move_insert, move_back,
  mail_move_with_file_store,
}

abbrev pub HasValidDb : World → Type 0
HasValidDb w = IsValid w.db

-- A statement on the database that keeps the constraints.
on_db-Keeps {ℓ} :
    {A : Type ℓ} (f : Db → Result A × Db)
    → ((d : Db) → IsValid d → IsValid (f d).1)
    → Keeps HasValidDb (on_db f)
on_db-Keeps f h = record { holds = λ w v. h w.db v }

insert_next-Keeps :
    (m : Text) (row : ℕ → MailRow)
    → ((i : ℕ) → ((row i).mailbox ≡ m) × ((row i).id ≡ i))
    → Keeps HasValidDb (insert_next m row)
insert_next-Keeps m row key = record {
  holds = λ w v.
      let i = next_id m w.db.mails in
      insert_mail-IsValid w.db (row i) v (rw ((key i).0, (key i).1) (omega arith));
}

pub mail_create-Keeps : (m : Text) (b : Bytes) → Keeps HasValidDb (mail_create m b)
unfolding mail_create
mail_create-Keeps m b = record {
  holds = λ w v.
      (insert_next-Keeps m (λ i. new_row m i (some b) none (length b) w.now)
          (λ i. (refl, refl))).holds
        w v;
}

delete_mail-Keeps : (p : Text) → Keeps HasValidDb (delete_mail p)
delete_mail-Keeps p = record { holds = λ w v. rw (delete_mail-db p w) v }

store_mail-Keeps : (i : ℕ) (m : Text) (r : Reader) → Keeps HasValidDb (store_mail i m r)
store_mail-Keeps i m r = record { holds = λ w v. rw (store_mail-db i m r w) v }

pub stream_store-Keeps : (m : Text) (r : Reader) → Keeps HasValidDb (stream_store m r)
unfolding stream_store mail_next_id
stream_store-Keeps m r =
    bind-Keeps HasValidDb (mail_next_id m) (λ i. store_mail i m r)
      (query-Keeps HasValidDb (λ d. ok (next_id m d.mails))) (λ i. store_mail-Keeps i m r)

pub stream_insert-Keeps : (m : Text) (s : Text × ℕ) → Keeps HasValidDb (stream_insert m s)
unfolding stream_insert
stream_insert-Keeps m (path, size) = record {
  holds = λ w v.
      on_error-keeps HasValidDb (λ w'. (delete_mail path w').1) _ (delete_mail-Keeps path).holds
        ((insert_next-Keeps m (λ i. new_row m i none (some path) size w.now)
            (λ i. (refl, refl))).holds
          w v);
}

-- A delivery from a stream keeps the constraints.
pub mail_create_from_stream-Keeps :
    (m : Text) (r : Reader) → Keeps HasValidDb (mail_create_from_stream m r)
unfolding mail_create_from_stream
mail_create_from_stream-Keeps m r =
    search
      (if-Keeps, fail-Keeps, bind-Keeps, mail_create-Keeps, stream_store-Keeps, stream_insert-Keeps)
      depth 9

pub mail_update_flags-Keeps :
    (m : Text) (i : ℕ) (s a f d : Bool) → Keeps HasValidDb (mail_update_flags m i s a f d)
unfolding mail_update_flags
mail_update_flags-Keeps m i s a f d = record {
  holds = λ w.
      update_mails-IsValid (is_mail m i)
        (λ r. record r { seen = s; answered = a; flagged = f; deleted = d })
        (λ r. (refl, refl, refl)) w.db;
}

pub mail_delete-Keeps : (m : Text) (i : ℕ) → Keeps HasValidDb (mail_delete m i)
unfolding mail_delete
mail_delete-Keeps m i = record {
  holds = λ w.
      update_mails-IsValid (is_mail m i) (λ r. record r { deleted = true })
        (λ r. (refl, refl, refl)) w.db;
}

delete_files-db : (fs : List Text) (w : World) → (delete_files fs w).db ≡ w.db
unfolding delete_files
delete_files-db [] w = refl
delete_files-db (f ∷ fs) w = delete_files-db fs (delete_mail f w).1 ∙ delete_mail-db f w

pub mail_expunge_with_file_store-Keeps :
    (b : Bool) (m : Text) → Keeps HasValidDb (mail_expunge_with_file_store b m)
unfolding mail_expunge_with_file_store
mail_expunge_with_file_store-Keeps true m = record {
  holds = λ w v.
      rw (delete_files-db (expunged_files m w.db.mails) w)
        (delete_mails-IsValid (is_expunged m) w.db v);
}
mail_expunge_with_file_store-Keeps false m = record {
  holds = λ w v. delete_mails-IsValid (is_expunged m) w.db v;
}

pub mail_expunge-Keeps : (m : Text) → Keeps HasValidDb (mail_expunge m)
unfolding mail_expunge
mail_expunge-Keeps m = record { holds = (mail_expunge_with_file_store-Keeps false m).holds }

move_back-valid : (p m : Text) (i : ℕ) (w : World) → HasValidDb w → HasValidDb (move_back p m i w)
unfolding move_back
move_back-valid [] m i w v = v
move_back-valid (c ∷ p) m i w v = rw (move_mail-db (c ∷ p) m i w) v

moved_file-Keeps :
    (b : Bool) (f : Option Text) (dest : Text) → Keeps HasValidDb (moved_file b f dest)
moved_file-Keeps b none dest = record { holds = λ w v. v }
moved_file-Keeps b (some []) dest = record { holds = λ w v. v }
moved_file-Keeps true (some (c ∷ f)) dest = record {
  holds = λ w v. rw (move_mail-db (c ∷ f) dest (next_id dest w.db.mails) w) v;
}
moved_file-Keeps false (some (c ∷ f)) dest = record { holds = λ w v. v }

move_insert-Keeps :
    (r : MailRow) (dest m : Text) (i : ℕ) (c : Option Bytes × Option Text) (p : Text)
    → Keeps HasValidDb (move_insert r dest m i c p)
unfolding move_insert
move_insert-Keeps r dest m i c p =
    bind-Keeps HasValidDb
      (λ w. on_error (move_back p m i) (insert_next dest (moved_row r dest c) w))
      (λ _. on_db (λ d. (ok tt, delete_mails (is_mail m i) d)))
      (record {
        holds = λ w v.
            on_error-keeps HasValidDb (move_back p m i) (insert_next dest (moved_row r dest c) w)
              (move_back-valid p m i)
              ((insert_next-Keeps dest (moved_row r dest c) (λ k. (refl, refl))).holds w v);
      })
      (λ _. on_db-Keeps _ (λ d v. delete_mails-IsValid (is_mail m i) d v))

move_content-Keeps :
    (r : MailRow) (dest m : Text) (i : ℕ) (p : Text) (c : Option (Option Bytes × Option Text))
    → Keeps HasValidDb (move_content r dest m i p c)
unfolding move_content
move_content-Keeps r dest m i p none = fail-Keeps HasValidDb no_content
move_content-Keeps r dest m i p (some c) = move_insert-Keeps r dest m i c p

move_row-Keeps :
    (b : Bool) (m : Text) (i : ℕ) (dest : Text) (r : Option MailRow)
    → Keeps HasValidDb (move_row b m i dest r)
unfolding move_row
move_row-Keeps b m i dest none = fail-Keeps HasValidDb mail_not_found
move_row-Keeps b m i dest (some r) =
    bind-Keeps HasValidDb (moved_file b r.mail_file dest)
      (λ p. move_content r dest m i p (moved_content r.mail p))
      (moved_file-Keeps b r.mail_file dest)
      (λ p. move_content-Keeps r dest m i p (moved_content r.mail p))

-- A move keeps the constraints, also where the insertion fails and the file is moved back.
pub mail_move_with_file_store-Keeps :
    (b : Bool) (m : Text) (i : ℕ) (dest : Text)
    → Keeps HasValidDb (mail_move_with_file_store b m i dest)
unfolding mail_move_with_file_store
mail_move_with_file_store-Keeps b m i dest = record {
  holds = λ w. (move_row-Keeps b m i dest (find_mail m i w.db.mails)).holds w;
}

pub mail_move-Keeps : (m : Text) (i : ℕ) (dest : Text) → Keeps HasValidDb (mail_move m i dest)
unfolding mail_move
mail_move-Keeps m i dest = record { holds = (mail_move_with_file_store-Keeps false m i dest).holds }

pub queue_insert-Keeps :
    (dest : Text) (i : ℕ) (from rcpt : Text)
    → Keeps HasValidDb (queue_insert_destination_for_id dest i from rcpt)
unfolding queue_insert_destination_for_id
queue_insert-Keeps dest i from rcpt = on_db-Keeps _ (λ d v. insert_queue-IsValid _ d v)

pub queue_delete-Keeps :
    (dest : Text) (i : ℕ) → Keeps HasValidDb (queue_delete_destination_for_id dest i)
unfolding queue_delete_destination_for_id
queue_delete-Keeps dest i = on_db-Keeps _ (λ d v. delete_queue-IsValid _ d v)

pub mailbox_create-Keeps : (m : Text) → Keeps HasValidDb (mailbox_create m)
unfolding mailbox_create insert_mailbox
mailbox_create-Keeps m = record {
  holds = λ w v. elim (Bool-cases (has_mailbox m w.db.mailboxes)) [
    | inl old ↦ rw old v
    | inr new ↦ rw new (append_mailbox-IsValid (record { mailbox = m; subscribed = true }) w.db v)
  ];
}

pub mailbox_rename-Keeps : (old new : Text) → Keeps HasValidDb (mailbox_rename old new)
unfolding mailbox_rename
mailbox_rename-Keeps old new = on_db-Keeps _ (rename_mailbox-IsValid new old)

pub mailbox_delete-Keeps : (m : Text) → Keeps HasValidDb (mailbox_delete m)
unfolding mailbox_delete
mailbox_delete-Keeps m = record { holds = λ w. delete_mailbox-IsValid m w.db }

subscribe_row-mailbox :
    (m : Text) (s : Bool) (b : MailboxRow) → (subscribe_row m s b).mailbox ≡ b.mailbox
subscribe_row-mailbox m s b = ground arith

pub mailbox_subscribe-Keeps : (m : Text) (s : Bool) → Keeps HasValidDb (mailbox_subscribe m s)
unfolding mailbox_subscribe
mailbox_subscribe-Keeps m s = record {
  holds = λ w. map_mailboxes-IsValid (subscribe_row m s) w.db (subscribe_row-mailbox m s);
}

-- The configuration is in no constraint.
pub config_set-Keeps : (k v : Text) → Keeps HasValidDb (config_set k v)
unfolding config_set
config_set-Keeps k v = record {
  holds = λ w h. record {
    mailbox_exists = h.mailbox_exists;
    one_content = h.one_content;
    increasing = h.increasing;
    mail_exists = h.mail_exists;
  };
}
