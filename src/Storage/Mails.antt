-- ===== src/Storage/Mails.antt =====
-- internal/storage/sqlite3/table_mails.go. `writer.Do` runs one call at a time, and the statements
-- are run on the database and not in the transaction that it opens, so nothing is rolled back.
use yggmail_android.Base.{
  ℕ, ◌+◌, Bool, true, false, ◌&&◌, not, Option, none, some, List, [], ◌∷◌, ◌++◌, map, Text, Bytes,
  same, filter, length, ltb, ◌==◌, if◌then◌else◌, take, drop,
}
use yggmail_android.World.{
  read_failed, ok, MailRow, World, Reader, Action, on_error, fail, ◌>>=◌, on_db, query,
  small_message_threshold, pure,
}
use yggmail_android.Storage.Tables.{
  is_mail, next_id, insert_mail, update_mails, delete_mails, find_mail, seq_of, id_of_seq,
  or_no_rows, sum_sizes,
}
use yggmail_android.FileStore.{store_mail, delete_mail}

-- types.Mail
pub record Mail : Type 0 where
  pub mailbox : Text
  pub id : ℕ
  pub mail : Bytes
  pub mail_file : Text
  pub size : ℕ
  pub date : ℕ
  pub seen : Bool
  pub answered : Bool
  pub flagged : Bool
  pub deleted : Bool

-- A row that the INSERT statements make: the flags are the schema's defaults.
abbrev pub new_row : Text → ℕ → Option Bytes → Option Text → ℕ → ℕ → MailRow
new_row m i content file size now = record {
  mailbox = m;
  id = i;
  mail = content;
  mail_file = file;
  size = size;
  datetime = now;
  seen = false;
  answered = false;
  flagged = false;
  deleted = false;
}

-- INSERT INTO mails with id = MAX(id)+1, which returns the id
abbrev pub insert_next : Text → (ℕ → MailRow) → Action ℕ
insert_next m row = on_db (λ d. insert_mail (row (next_id m d.mails)) d)

-- MailCreate
unfoldable pub mail_create : Text → Bytes → Action ℕ
unfolding insert_mail
mail_create mailbox content w =
    insert_next mailbox (λ i. new_row mailbox i (some content) none (length content) w.now) w

-- MailNextID
unfoldable pub mail_next_id : Text → Action ℕ
mail_next_id mailbox = query (λ d. ok (next_id mailbox d.mails))

-- MailCreateFromStream, large message: the next ID is read, and the file named by it is written.
unfoldable pub stream_store : Text → Reader → Action (Text × ℕ)
unfolding mail_next_id store_mail
stream_store mailbox reader = do id ← mail_next_id mailbox; store_mail id mailbox reader

-- The second half: the row is inserted, under an ID of its own; on an error the file is deleted.
unfoldable pub stream_insert : Text → Text × ℕ → Action ℕ
unfolding insert_mail delete_mail
stream_insert mailbox (path, size) w =
    on_error (λ w'. (delete_mail path w').1)
      (insert_next mailbox (λ i. new_row mailbox i none (some path) size w.now) w)

-- MailCreateFromStream. A read error behind the peeked bytes is met by the file store.
unfoldable pub mail_create_from_stream : Text → Reader → Action ℕ
unfolding mail_create stream_store stream_insert
mail_create_from_stream mailbox reader =
    let limit = small_message_threshold + 1 in
    let peeked = take limit reader.content in
    let remaining = drop limit reader.content in
    if reader.broken && ltb (length reader.content) limit
    then fail read_failed
    else if ltb (length peeked) small_message_threshold
    then mail_create mailbox (peeked ++ remaining)
    else stream_store mailbox (record reader { content = peeked ++ remaining })
      >>= stream_insert mailbox

-- What MailCreateFromStream has done up to the statement that inserts the row of a file: a small message
-- is stored already, the file of a large one is.
pub data Begun : Type 0 where
  stored_small : ℕ → Begun
  stored_file : Text × ℕ → Begun

unfoldable pub stream_begin : Text → Reader → Action Begun
unfolding mail_create stream_store
stream_begin mailbox reader =
    let limit = small_message_threshold + 1 in
    let peeked = take limit reader.content in
    let remaining = drop limit reader.content in
    if reader.broken && ltb (length reader.content) limit
    then fail read_failed
    else if ltb (length peeked) small_message_threshold
    then (do id ← mail_create mailbox (peeked ++ remaining); pure (stored_small id))
    else (do
      stored ← stream_store mailbox (record reader { content = peeked ++ remaining })
      pure (stored_file stored))

-- The rest of it
unfoldable pub stream_finish : Text → Begun → Action ℕ
unfolding stream_insert
stream_finish mailbox (stored_small id) = pure id
stream_finish mailbox (stored_file stored) = stream_insert mailbox stored

abbrev pub content_of : Option Bytes → Bytes
content_of none = []
content_of (some b) = b

abbrev pub select_row : ℕ → MailRow → ℕ × Mail
select_row seq r =
    let content = content_of r.mail in
    (
      seq,
      record {
        mailbox = r.mailbox;
        id = r.id;
        mail = content;
        mail_file = content_of r.mail_file;
        size = (if r.size == 0 && ltb 0 (length content) then length content else r.size);
        date = r.datetime;
        seen = r.seen;
        answered = r.answered;
        flagged = r.flagged;
        deleted = r.deleted;
      },
    )

-- MailSelect
unfoldable pub mail_select : Text → ℕ → Action (ℕ × Mail)
unfolding find_mail seq_of
mail_select mailbox id = query (λ d. elim (find_mail mailbox id d.mails) [
  | none ↦ or_no_rows none
  | some r ↦ ok (select_row (seq_of mailbox id d.mails 0) r)
])

abbrev pub in_mailbox : Text → MailRow → Bool
in_mailbox m r = same r.mailbox m

-- MailSearch
unfoldable pub mail_search : Text → Action (List ℕ)
mail_search mailbox =
    query (λ d. ok (map (λ (r : MailRow). r.id) (filter (in_mailbox mailbox) d.mails)))

-- MailIDForSeq
unfoldable pub mail_id_for_seq : Text → ℕ → Action ℕ
unfolding id_of_seq
mail_id_for_seq mailbox seq = query (λ d. or_no_rows (id_of_seq mailbox seq d.mails))

-- MailUnseen
unfoldable pub mail_unseen : Text → Action ℕ
mail_unseen mailbox =
    query (λ d. ok (length (filter (λ r. in_mailbox mailbox r && not r.seen) d.mails)))

-- MailCount
unfoldable pub mail_count : Text → Action ℕ
mail_count mailbox = query (λ d. ok (length (filter (in_mailbox mailbox) d.mails)))

-- MailGetUnreadSize
unfoldable pub mail_get_unread_size : Action ℕ
unfolding sum_sizes
mail_get_unread_size = query (λ d. ok (sum_sizes d.mails))

-- MailGetUnreadSizeForMailbox
unfoldable pub mail_get_unread_size_for_mailbox : Text → Action ℕ
unfolding sum_sizes
mail_get_unread_size_for_mailbox mailbox =
    query (λ d. ok (sum_sizes (filter (in_mailbox mailbox) d.mails)))

abbrev pub set_mails : (List MailRow → List MailRow) → Action (Unit {0})
set_mails f = on_db (λ d. (ok tt, record d { mails = f d.mails }))

-- MailUpdateFlags
unfoldable pub mail_update_flags : Text → ℕ → Bool → Bool → Bool → Bool → Action (Unit {0})
unfolding update_mails
mail_update_flags mailbox id seen answered flagged deleted = set_mails (
    update_mails (is_mail mailbox id)
      (λ r. record r { seen = seen; answered = answered; flagged = flagged; deleted = deleted }))

-- MailDelete
unfoldable pub mail_delete : Text → ℕ → Action (Unit {0})
unfolding update_mails
mail_delete mailbox id =
    set_mails (update_mails (is_mail mailbox id) (λ r. record r { deleted = true }))

abbrev pub is_expunged : Text → MailRow → Bool
is_expunged m r = in_mailbox m r && r.deleted

-- SELECT mail_file FROM mails WHERE mailbox = ? AND deleted = 1 AND mail_file IS NOT NULL
unfoldable pub expunged_files : Text → List MailRow → List Text
expunged_files m [] = []
expunged_files m (r ∷ rs) =
    let rest = expunged_files m rs in
    elim r.mail_file [ none ↦ rest | some f ↦ if is_expunged m r then f ∷ rest else rest ]

-- The loop over the files: an error is logged and ignored.
unfoldable pub delete_files : List Text → World → World
unfolding delete_mail
delete_files [] w = w
delete_files (f ∷ fs) w = delete_files fs (delete_mail f w).1

-- MailExpungeWithFileStore; `with_files` says whether a file store is given.
unfoldable pub mail_expunge_with_file_store : Bool → Text → Action (Unit {0})
unfolding expunged_files delete_files delete_mails
mail_expunge_with_file_store with_files mailbox w =
    let w' = if with_files then delete_files (expunged_files mailbox w.db.mails) w else w in
    (ok tt, record w' { db = delete_mails (is_expunged mailbox) w'.db })

-- MailExpunge
unfoldable pub mail_expunge : Text → Action (Unit {0})
unfolding mail_expunge_with_file_store
mail_expunge = mail_expunge_with_file_store false

unfoldable pub file_paths : List MailRow → List Text
file_paths [] = []
file_paths (r ∷ rs) = elim r.mail_file [ none ↦ file_paths rs | some f ↦ f ∷ file_paths rs ]

-- MailGetAllFilePaths
unfoldable pub mail_get_all_file_paths : Action (List Text)
unfolding file_paths
mail_get_all_file_paths = query (λ d. ok (file_paths d.mails))
