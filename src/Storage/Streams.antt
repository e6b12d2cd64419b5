-- ===== src/Storage/Streams.antt =====
-- MailCreateFromStream of internal/storage/sqlite3/table_mails.go: where a large message is stored.
pub mod Interleaved
use yggmail_android.Base.{
  ℕ, ◌+◌, ◌≤◌, ◌≡◌, refl, ap, sym, ◌∙◌, drop, Bool-cases, inl, inr, true, false, ◌&&◌, none, some,
  List, [], ◌∷◌, ◌++◌, Text, same_refl, length, length-take, take, take-append-drop, ltb, ==_refl,
  arith, max,
}
use mathlib.Core.Option
use yggmail_android.World.{
  World, Reader, Result, ok, err, pure, Action, resume, small_message_threshold, MailRow, on_error,
}
use yggmail_android.FileStore.{set_files, delete_mail, temp_path}
use yggmail_android.FileStore.Files.{lookup}
use yggmail_android.FileStore.Paths.{mail_path}
use yggmail_android.FileStore.Contents.{
  store_fails, stored_files, store_mail_succeeds, stored_lookup,
}
use yggmail_android.Storage.Tables.{has_mailbox, next_id, find_mail}
use yggmail_android.Storage.Rows.{has_mail-next_id}
use yggmail_android.Storage.Contents.{in_table, insert_next_succeeds, find_mail-insert}
use yggmail_android.Storage.Mails.{
  new_row, mail_create, mail_next_id, stream_store, stream_insert, mail_create_from_stream, Begun,
  stored_small, stored_file, stream_begin, stream_finish,
}

pub stream_store_eq :
    (m : Text) (r : Reader) (w : World)
    → store_fails w r ≡ false
    → let i = next_id m w.db.mails in
      stream_store m r w
      ≡ (ok (mail_path m i, length r.content), set_files (λ _. stored_files i m r w) w)
unfolding stream_store mail_next_id
stream_store_eq m r w h = store_mail_succeeds (next_id m w.db.mails) m r w h

pub stream_insert_eq :
    (m path : Text) (size : ℕ) (w : World)
    → has_mailbox m w.db.mailboxes ≡ true
    → let i = next_id m w.db.mails in
      let row = new_row m i none (some path) size w.now in
      stream_insert m (path, size) w
      ≡ (ok i, record w { db = record w.db { mails = w.db.mails ++ row ∷ [] } })
unfolding stream_insert
stream_insert_eq m path size w box = ap (on_error (λ w'. (delete_mail path w').1)) (
    insert_next_succeeds m (λ i. new_row m i none (some path) size w.now) w box
      (λ k. (refl, refl, refl)))

-- A message of the threshold or more, read without an error, goes through both halves.
stream_large :
    (m : Text) (r : Reader) (w : World)
    → r.broken ≡ false
    → small_message_threshold ≤ length r.content
    → mail_create_from_stream m r w ≡ resume (stream_insert m) (stream_store m r w)
unfolding mail_create_from_stream
stream_large m r w whole large =
    let limit = small_message_threshold + 1 in
    let not_small : ltb (length (take limit r.content)) small_message_threshold ≡ false =
      ground (arith, length-take limit r.content) in
    let readable : (r.broken && ltb (length r.content) limit) ≡ false = ground arith in
    rw (readable, not_small)
      (ap (λ c. resume (stream_insert m) (stream_store m (record r { content = c }) w))
        (take-append-drop limit r.content))

-- Where the mailbox exists and nothing fails, a message of 10 MB or more is stored in a file: its row
-- has the path and the size, and the file has the content.
pub mail_create_from_stream_large :
    (m : Text) (r : Reader) (w : World)
    → has_mailbox m w.db.mailboxes ≡ true
    → store_fails w r ≡ false
    → small_message_threshold ≤ length r.content
    → let i = next_id m w.db.mails in
      let w' = (mail_create_from_stream m r w).1 in
      ((mail_create_from_stream m r w).0 ≡ ok i)
      × (in_table m i w' ≡ some (new_row m i none (some (mail_path m i)) (length r.content) w.now))
      × (lookup (mail_path m i) w'.disk.files ≡ some r.content)
mail_create_from_stream_large m r w box fine large =
    let i = next_id m w.db.mails in
    let path = mail_path m i in
    rw
      (
        stream_large m r w (ground arith) large,
        stream_store_eq m r w fine,
        stream_insert_eq m path (length r.content) (set_files (λ _. stored_files i m r w) w) box,
      )
      (
        refl,
        inserted,
        stored_lookup path (temp_path i m w) path r.content w.disk.files ∙ rw (same_refl path),
      )
  where
    inserted :
        let i = next_id m w.db.mails in
        let row = new_row m i none (some (mail_path m i)) (length r.content) w.now in
        find_mail m i (w.db.mails ++ row ∷ []) ≡ some row
    inserted =
        let i = next_id m w.db.mails in
        let row = new_row m i none (some (mail_path m i)) (length r.content) w.now in
        find_mail-insert row w.db.mails m i (has_mail-next_id m w.db.mails i (omega arith))
        ∙ rw (same_refl m, ==_refl i)
