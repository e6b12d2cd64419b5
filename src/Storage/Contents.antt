-- ===== src/Storage/Contents.antt =====
-- What the storage returns for a message after it was created, changed, moved or expunged.
use yggmail_android.Base.{
  ℕ, ◌+◌, ◌≡◌, refl, Bool, true, false, ◌&&◌, not, Option, none, some, List, [], ◌∷◌, ◌++◌, Text,
  Bytes, same, same_refl, same→eq, length, filter, All, ◌==◌, if◌then◌else◌, arith, is_some,
}
use mathlib.Core.Option
use yggmail_android.World.{World, ok, MailRow}
use yggmail_android.Storage.Tables.{
  is_mail, has_mail, has_mailbox, next_id, insert_mail, update_mails, delete_mails, find_mail,
  has_one_content,
}
use yggmail_android.Storage.Rows.{has_mail-next_id, later, IsIncreasing}
use yggmail_android.Storage.Invariant.{IsValid}
use yggmail_android.Storage.Mails.{
  new_row, insert_next, mail_create, is_expunged, in_mailbox, mail_expunge,
  mail_expunge_with_file_store, mail_update_flags,
}

find_mail-append :
    (m : Text) (i : ℕ) (rs : List MailRow) (x : MailRow)
    → find_mail m i (rs ++ x ∷ [])
      ≡ (if has_mail m i rs then find_mail m i rs else if is_mail m i x then some x else none)
unfolding find_mail
find_mail-append m i [] x = ground arith
find_mail-append m i (r ∷ rs) x = ground (arith, find_mail-append m i rs x)

-- A row is found exactly if its key is in the table.
pub find_mail-has_mail :
    (m : Text) (i : ℕ) (rs : List MailRow) → is_some (find_mail m i rs) ≡ has_mail m i rs
unfolding find_mail
find_mail-has_mail m i [] = refl
find_mail-has_mail m i (r ∷ rs) = ground (arith, find_mail-has_mail m i rs)

-- Where the mailbox exists, an insertion under the next ID succeeds.
pub insert_next_succeeds :
    (m : Text) (row : ℕ → MailRow) (w : World)
    → has_mailbox m w.db.mailboxes ≡ true
    → ((i : ℕ) → ((row i).mailbox ≡ m) × ((row i).id ≡ i) × (has_one_content (row i) ≡ true))
    → let i = next_id m w.db.mails in
      insert_next m row w
      ≡ (ok i, record w { db = record w.db { mails = w.db.mails ++ row i ∷ [] } })
unfolding insert_mail
insert_next_succeeds m row w box key =
    let i = next_id m w.db.mails in
    let k = key i in rw (k.2, k.0, k.1, has_mail-next_id m w.db.mails i (omega arith), box) refl

-- A row with a new key is found under it; every other row is as before.
pub find_mail-insert :
    (x : MailRow) (rs : List MailRow) (n : Text) (j : ℕ)
    → has_mail x.mailbox x.id rs ≡ false
    → find_mail n j (rs ++ x ∷ []) ≡ (if is_mail n j x then some x else find_mail n j rs)
find_mail-insert x rs n j fresh =
    ground (arith, fresh, find_mail-append n j rs x, find_mail-has_mail n j rs, same→eq x.mailbox n)

-- Of an update of one row: its key is kept, and the others are not touched.
pub find_mail-update :
    (m : Text) (i : ℕ) (f : MailRow → MailRow) (rs : List MailRow) (n : Text) (j : ℕ)
    → ((r : MailRow) → ((f r).mailbox ≡ r.mailbox) × ((f r).id ≡ r.id))
    → find_mail n j (update_mails (is_mail m i) f rs)
      ≡ (if same m n && i == j then Option.map f (find_mail n j rs) else find_mail n j rs)
unfolding find_mail update_mails
find_mail-update m i f [] n j keeps = ground arith
find_mail-update m i f (r ∷ rs) n j keeps = ground (
  arith,
  keeps r,
  find_mail-update m i f rs n j keeps,
  same→eq r.mailbox m,
  same→eq m n,
  same→eq r.mailbox n,
  same_refl n,
)

distinct_key :
    (x : MailRow) (rs : List MailRow) (n : Text) (j : ℕ)
    → All (λ s. later x s ≡ true) rs
    → is_mail n j x ≡ true
    → has_mail n j rs ≡ false
distinct_key x [] n j h k = refl
distinct_key x (r ∷ rs) n j (h, hs) k =
    ground
      (arith, distinct_key x rs n j hs k, same→eq x.mailbox n, same→eq r.mailbox n, same_refl n)

abbrev pub unless_deleted : (MailRow → Bool) → Option MailRow → Option MailRow
unless_deleted p none = none
unless_deleted p (some r) = if p r then none else some r

-- A deletion takes away the rows that it selects, and no other.
pub find_mail-delete :
    (p : MailRow → Bool) (rs : List MailRow) (n : Text) (j : ℕ)
    → IsIncreasing rs
    → find_mail n j (filter (λ x. not (p x)) rs) ≡ unless_deleted p (find_mail n j rs)
unfolding find_mail
find_mail-delete p [] n j _ = refl
find_mail-delete p (x ∷ rs) n j (h, hs) =
    ground (arith, find_mail-delete p rs n j hs, distinct_key x rs n j h, find_mail-has_mail n j rs)

abbrev pub in_table : Text → ℕ → World → Option MailRow
in_table n j w = find_mail n j w.db.mails

length-filter-append :
    (p : MailRow → Bool) (rs : List MailRow) (x : MailRow)
    → p x ≡ true
    → length (filter p (rs ++ x ∷ [])) ≡ length (filter p rs) + 1
length-filter-append p [] x h = ground arith
length-filter-append p (r ∷ rs) x h = ground (arith, length-filter-append p rs x h)

pub mail_create_eq :
    (m : Text) (b : Bytes) (w : World)
    → has_mailbox m w.db.mailboxes ≡ true
    → let i = next_id m w.db.mails in
      let row = new_row m i (some b) none (length b) w.now in
      mail_create m b w ≡ (ok i, record w { db = record w.db { mails = w.db.mails ++ row ∷ [] } })
unfolding mail_create
mail_create_eq m b w box =
    insert_next_succeeds m (λ k. new_row m k (some b) none (length b) w.now) w box
      (λ k. (refl, refl, refl))

-- MailCreate into a mailbox that exists stores the message unread under the mailbox's next ID,
-- which was free; no other message changes, and the mailbox holds one more.
pub mail_create_lem :
    (m : Text) (b : Bytes) (w : World)
    → has_mailbox m w.db.mailboxes ≡ true
    → let i = next_id m w.db.mails in
      let w' = (mail_create m b w).1 in
      ((mail_create m b w).0 ≡ ok i)
      × (in_table m i w ≡ none)
      × ((n : Text) (j : ℕ)
          → in_table n j w' ≡ (
              if same m n && i == j
              then some (new_row m i (some b) none (length b) w.now)
              else in_table n j w))
      × (length (filter (in_mailbox m) w'.db.mails) ≡ length (filter (in_mailbox m) w.db.mails) + 1)
mail_create_lem m b w box =
    let i = next_id m w.db.mails in
    let row = λ (k : ℕ). new_row m k (some b) none (length b) w.now in
    let fresh = has_mail-next_id m w.db.mails i (omega arith) in
    rw (mail_create_eq m b w box) (
      refl,
      ground (arith, fresh, find_mail-has_mail m i w.db.mails),
      λ n j. find_mail-insert (row i) w.db.mails n j fresh,
      length-filter-append (in_mailbox m) w.db.mails (row i) (same_refl m),
    )

-- MailUpdateFlags sets the four flags of one message, if it is there, and changes no other message
-- and nothing else of this one.
pub mail_update_flags_lem :
    (m : Text) (i : ℕ) (s a f d : Bool) (w : World) (n : Text) (j : ℕ)
    → in_table n j (mail_update_flags m i s a f d w).1 ≡ (
        if same m n && i == j
        then Option.map
            (λ (r : MailRow). record r { seen = s; answered = a; flagged = f; deleted = d })
            (in_table n j w)
        else in_table n j w)
unfolding mail_update_flags
mail_update_flags_lem m i s a f d w n j =
    find_mail-update m i (λ r. record r { seen = s; answered = a; flagged = f; deleted = d })
      w.db.mails n j (λ r. (refl, refl))

-- In a database that meets the constraints, MailExpunge deletes the messages of the mailbox that
-- are marked as deleted, and no others.
pub mail_expunge_lem :
    (m : Text) (w : World) (n : Text) (j : ℕ)
    → IsValid w.db
    → in_table n j (mail_expunge m w).1 ≡ unless_deleted (is_expunged m) (in_table n j w)
unfolding mail_expunge mail_expunge_with_file_store delete_mails
mail_expunge_lem m w n j v = find_mail-delete (is_expunged m) w.db.mails n j v.increasing
