-- ===== src/Storage/Moving.antt =====
-- MailMove and MailMoveWithFileStore, on a message in the database and on one in a file; and
-- MailboxRename.
use yggmail_android.Base.{
  ℕ, ◌≡◌, refl, ap, ◌∙◌, sym, Bool, true, false, ◌&&◌, not, Option, none, some, List, [], ◌∷◌, ◌++◌,
  Text, Bytes, same, same_refl, same→eq, filter, ◌==◌, if◌then◌else◌, arith, Bool-cases, inl, inr,
}
use yggmail_android.World.{
  World, ok, err, no_content, unique_failed, MailRow, on_error, on_db, resume,
}
use yggmail_android.Storage.Tables.{
  is_mail, has_mail, has_mailbox, next_id, delete_mails, find_mail, rename_mailbox,
}
use yggmail_android.Storage.Rows.{
  has_mail-next_id, IsIncreasing, IsIncreasing-append, next_id_above,
}
use yggmail_android.Storage.Invariant.{IsValid}
use yggmail_android.Storage.Contents.{
  in_table, insert_next_succeeds, find_mail-insert, find_mail-delete, unless_deleted,
  find_mail-has_mail,
}
use yggmail_android.Storage.Mailboxes.{mailbox_rename}
use yggmail_android.Storage.Moves.{
  moved_row, moved_content, moved_file, move_insert, move_content, move_row, move_back, mail_move,
  mail_move_with_file_store,
}

find_mail-is_mail :
    (n : Text) (j : ℕ) (rs : List MailRow) (r : MailRow)
    → find_mail n j rs ≡ some r
    → is_mail n j r ≡ true
unfolding find_mail
find_mail-is_mail n j [] r h = cc
find_mail-is_mail n j (x ∷ rs) r h = ground (arith, find_mail-is_mail n j rs r)

not_key :
    (m : Text) (i : ℕ) (x : MailRow) (rs : List MailRow)
    → has_mail x.mailbox x.id rs ≡ false
    → has_mail m i rs ≡ true
    → is_mail m i x ≡ false
not_key m i x rs fresh there = elim (Bool-cases (is_mail m i x)) [
  | inr other ↦ other
  | inl key ↦ ground (arith, same→eq x.mailbox m)
]

selected :
    (m : Text) (i : ℕ) (x : MailRow) (n : Text) (j : ℕ) (o : Option MailRow)
    → is_mail m i x ≡ false
    → ((r : MailRow) → o ≡ some r → is_mail n j r ≡ true)
    → unless_deleted (is_mail m i) (if is_mail n j x then some x else o)
      ≡ (if same m n && i == j then none else if same x.mailbox n && x.id == j then some x else o)
selected m i x n j none ne _ = ground (arith, same→eq x.mailbox n, same→eq m n, same_refl n)
selected m i x n j (some r) ne key = ground (
  arith,
  key r refl,
  same→eq x.mailbox n,
  same→eq m n,
  same→eq r.mailbox n,
  same→eq r.mailbox m,
  same→eq n m,
  same_refl n,
)

-- The table after a row was copied under a new key and the old row was deleted.
moved_table :
    (m dest : Text) (i : ℕ) (x : MailRow) (rs : List MailRow) (n : Text) (j : ℕ)
    → IsIncreasing rs
    → x.mailbox ≡ dest
    → x.id ≡ next_id dest rs
    → has_mail m i rs ≡ true
    → find_mail n j (filter (λ r. not (is_mail m i r)) (rs ++ x ∷ [])) ≡ (
        if same m n && i == j
        then none
        else if same dest n && x.id == j
        then some x
        else find_mail n j rs)
moved_table m dest i x rs n j inc em ei there =
    let fresh : has_mail x.mailbox x.id rs ≡ false =
      rw (em, ei) (has_mail-next_id dest rs (next_id dest rs) (omega arith)) in
    let inc' : IsIncreasing (rs ++ x ∷ []) =
      IsIncreasing-append rs x inc (next_id_above x.mailbox rs x.id (rw (em, ei) (omega arith))) in
    rw
      (
        find_mail-delete (is_mail m i) (rs ++ x ∷ []) n j inc',
        find_mail-insert x rs n j fresh,
        ← em,
      )
      (selected m i x n j (find_mail n j rs) (not_key m i x rs fresh there)
        (λ r e. find_mail-is_mail n j rs r e))

move_insert_eq :
    (r : MailRow) (dest m : Text) (i : ℕ) (b : Bytes) (w : World)
    → has_mailbox dest w.db.mailboxes ≡ true
    → let row = moved_row r dest (some b, none) (next_id dest w.db.mails) in
      move_insert r dest m i (some b, none) [] w ≡ (
        ok tt,
        record w {
          db = delete_mails (is_mail m i) (record w.db { mails = w.db.mails ++ row ∷ [] });
        },
      )
unfolding move_insert
move_insert_eq r dest m i b w box =
    ap
      (λ x.
        (resume (λ _. on_db (λ d. (ok tt, delete_mails (is_mail m i) d)))
          (on_error (move_back [] m i) x)))
      (insert_next_succeeds dest (moved_row r dest (some b, none)) w box (λ k. (refl, refl, refl)))

moved_content_blob :
    (mail : Option Bytes) (c : ℕ) (b : Bytes)
    → mail ≡ some (c ∷ b)
    → moved_content mail [] ≡ some (some (c ∷ b), none)
moved_content_blob mail c b e = rw e refl

moved_file-none :
    (with_files : Bool) (file : Option Text) (dest : Text) (w : World)
    → file ≡ none
    → moved_file with_files file dest w ≡ (ok [], w)
moved_file-none with_files file dest w e = rw e refl

mail_move_eq :
    (with_files : Bool) (m dest : Text) (i : ℕ) (r : MailRow) (c : ℕ) (b : Bytes) (w : World)
    → in_table m i w ≡ some r
    → r.mail ≡ some (c ∷ b)
    → r.mail_file ≡ none
    → mail_move_with_file_store with_files m i dest w
      ≡ move_insert r dest m i (some (c ∷ b), none) [] w
unfolding mail_move_with_file_store move_row move_content
mail_move_eq with_files m dest i r c b w found content file = rw found (
    ap (resume (λ path. move_content r dest m i path (moved_content r.mail path)))
      (moved_file-none with_files r.mail_file dest w file)
    ∙ ap (λ x. move_content r dest m i [] x w) (moved_content_blob r.mail c b content))

-- MailMove of a message that is kept in the database, as a blob that is not empty, to a mailbox
-- that exists, where the database meets the constraints: the message leaves its mailbox and stands
-- in the destination under the next ID there, with its content, flags and date; no other message
-- changes.
pub mail_move_lem :
    (with_files : Bool) (m dest : Text) (i : ℕ) (r : MailRow) (c : ℕ) (b : Bytes) (w : World)
    → IsValid w.db
    → in_table m i w ≡ some r
    → r.mail ≡ some (c ∷ b)
    → r.mail_file ≡ none
    → has_mailbox dest w.db.mailboxes ≡ true
    → let k = next_id dest w.db.mails in
      let w' = (mail_move_with_file_store with_files m i dest w).1 in
      ((mail_move_with_file_store with_files m i dest w).0 ≡ ok tt)
      × ((n : Text) (j : ℕ)
          → in_table n j w' ≡ (
              if same m n && i == j
              then none
              else if same dest n && k == j
              then some (moved_row r dest (some (c ∷ b), none) k)
              else in_table n j w))
unfolding delete_mails
mail_move_lem with_files m dest i r c b w v found content file box =
    rw
      (
        mail_move_eq with_files m dest i r c b w found content file,
        move_insert_eq r dest m i (c ∷ b) w box,
      )
      (
        refl,
        λ n j.
            moved_table m dest i (moved_row r dest (some (c ∷ b), none) (next_id dest w.db.mails))
              w.db.mails n j v.increasing refl refl
              (sym (find_mail-has_mail m i w.db.mails) ∙ rw found),
      )

-- MailMove, which has no file store, refuses a message that is kept in a file, and changes nothing.
pub mail_move_file_refused :
    (m dest : Text) (i : ℕ) (r : MailRow) (w : World)
    → in_table m i w ≡ some r
    → r.mail ≡ none
    → mail_move m i dest w ≡ (err no_content, w)
unfolding mail_move mail_move_with_file_store move_row move_content
mail_move_file_refused m dest i r w found content = rw found (refused r.mail r.mail_file content)
  where
    refused :
        (mail : Option Bytes) (file : Option Text)
        → mail ≡ none
        → resume
            (λ path. move_content r dest m i path (moved_content mail path))
            (moved_file false file dest w)
          ≡ (err no_content, w)
    refused mail none e = rw e refl
    refused mail (some []) e = rw e refl
    refused mail (some (c ∷ f)) e = rw e refl

-- MailboxRename of a mailbox that exists changes nothing: it fails where the new name is that of
-- another mailbox, and reports success otherwise.
pub mailbox_rename_idle :
    (old new : Text) (w : World)
    → has_mailbox old w.db.mailboxes ≡ true
    → mailbox_rename old new w ≡ (
      if has_mailbox new w.db.mailboxes && not (same new old) then err unique_failed else ok tt,
      w,
    )
unfolding mailbox_rename rename_mailbox
mailbox_rename_idle old new w h = elim (Bool-cases (has_mailbox new w.db.mailboxes)) [
  | inr absent ↦ rw absent refl
  | inl taken ↦ elim (Bool-cases (same new old)) [
    | inl equal ↦ rw (taken, equal) refl
    | inr other ↦ rw (taken, other, h) refl
  ]
]
