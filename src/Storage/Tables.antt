-- ===== src/Storage/Tables.antt =====
-- The SQL statements of internal/storage/sqlite3 (table_mailboxes.go, table_mails.go,
-- table_queue.go) as functions on the tables, with the constraints of the schema: primary keys,
-- foreign keys (`_foreign_keys=on`) with their cascades, and the CHECK on a mail's content.
use yggmail_android.Base.{
  ℕ, ◌+◌, ◌-◌, max, Bool, ◌&&◌, ◌||◌, not, Option, none, some, List, [], ◌∷◌, ◌++◌, map, Text, same,
  filter, any, is_some, ◌==◌, if◌then◌else◌,
}
use yggmail_android.World.{
  unique_failed, foreign_key_failed, check_failed, no_rows, Result, ok, err, MailboxRow, MailRow,
  QueueRow, Db,
}

abbrev pub has_mailbox : Text → List MailboxRow → Bool
has_mailbox name = any (λ b. same b.mailbox name)

-- The primary key of `mails`.
abbrev pub is_mail : Text → ℕ → MailRow → Bool
is_mail m i r = same r.mailbox m && r.id == i

abbrev pub has_mail : Text → ℕ → List MailRow → Bool
has_mail m i = any (is_mail m i)

-- SELECT IFNULL(MAX(id)+1,1) FROM mails WHERE mailbox = $1
unfoldable pub next_id : Text → List MailRow → ℕ
next_id m [] = 1
next_id m (r ∷ rs) = let n = next_id m rs in if same r.mailbox m then max (r.id + 1) n else n

-- CHECK: exactly one of `mail` and `mail_file` is not NULL.
abbrev pub has_one_content : MailRow → Bool
has_one_content r = if is_some r.mail then not (is_some r.mail_file) else is_some r.mail_file

-- INSERT INTO mails … RETURNING id
unfoldable pub insert_mail : MailRow → Db → Result ℕ × Db
insert_mail r d =
    if not (has_one_content r)
    then (err check_failed, d)
    else if has_mail r.mailbox r.id d.mails
    then (err unique_failed, d)
    else if has_mailbox r.mailbox d.mailboxes
    then (ok r.id, record d { mails = d.mails ++ r ∷ [] })
    else (err foreign_key_failed, d)

-- UPDATE mails SET … WHERE …, where no key changes
unfoldable pub update_mails : (MailRow → Bool) → (MailRow → MailRow) → List MailRow → List MailRow
update_mails p f [] = []
update_mails p f (r ∷ rs) = (if p r then f r else r) ∷ update_mails p f rs

-- DELETE FROM mails WHERE …, and the queue's ON DELETE CASCADE
unfoldable pub delete_mails : (MailRow → Bool) → Db → Db
delete_mails p d = record d {
  mails = filter (λ r. not (p r)) d.mails;
  queue = filter (λ q. not (any (λ r. p r && is_mail q.mailbox q.id r) d.mails)) d.queue;
}

-- DELETE FROM mailboxes WHERE mailbox = $1, and the cascade to its mails and their queue entries
unfoldable pub delete_mailbox : Text → Db → Db
unfolding delete_mails
delete_mailbox name d =
    delete_mails (λ r. same r.mailbox name)
      (record d { mailboxes = filter (λ b. not (same b.mailbox name)) d.mailboxes })

-- ON UPDATE CASCADE: a row that named the old mailbox names the new one.
abbrev pub renamed : Text → Text → Text → Text
renamed from to m = if same m from then to else m

abbrev pub rename_box : Text → Text → MailboxRow → MailboxRow
rename_box from to b = record b { mailbox = renamed from to b.mailbox }

abbrev pub rename_mail : Text → Text → MailRow → MailRow
rename_mail from to r = record r { mailbox = renamed from to r.mailbox }

abbrev pub rename_entry : Text → Text → QueueRow → QueueRow
rename_entry from to q = record q { mailbox = renamed from to q.mailbox }

-- UPDATE mailboxes SET mailbox = to WHERE mailbox = from, and the cascades
unfoldable pub rename_mailbox : Text → Text → Db → Result (Unit {0}) × Db
rename_mailbox to from d =
    if not (has_mailbox from d.mailboxes) || same from to
    then (ok tt, d)
    else if has_mailbox to d.mailboxes
    then (err unique_failed, d)
    else (
      ok tt,
      record d {
        mailboxes = map (rename_box from to) d.mailboxes;
        mails = map (rename_mail from to) d.mails;
        queue = map (rename_entry from to) d.queue;
      },
    )

-- The primary key of `queue`.
abbrev pub is_queued : Text → Text → ℕ → QueueRow → Bool
is_queued dest m i q = same q.destination dest && (same q.mailbox m && q.id == i)

-- INSERT INTO queue …
unfoldable pub insert_queue : QueueRow → Db → Result (Unit {0}) × Db
insert_queue q d =
    if any (is_queued q.destination q.mailbox q.id) d.queue
    then (err unique_failed, d)
    else if has_mail q.mailbox q.id d.mails
    then (ok tt, record d { queue = d.queue ++ q ∷ [] })
    else (err foreign_key_failed, d)

-- The first row that a query by primary key returns.
unfoldable pub find_mail : Text → ℕ → List MailRow → Option MailRow
find_mail m i [] = none
find_mail m i (r ∷ rs) = if is_mail m i r then some r else find_mail m i rs

-- ROW_NUMBER() of the mail in its mailbox, in the view `inboxes`
unfoldable pub seq_of : Text → ℕ → List MailRow → ℕ → ℕ
seq_of m i [] k = k
seq_of m i (r ∷ rs) k =
    let rest = seq_of m i rs (if same r.mailbox m then k + 1 else k) in
    if is_mail m i r then k + 1 else rest

-- SELECT id FROM inboxes WHERE mailbox = $1 AND seq = $2
unfoldable pub id_of_seq : Text → ℕ → List MailRow → Option ℕ
id_of_seq m n [] = none
id_of_seq m n (r ∷ rs) =
    let same_box = (if n == 1 then some r.id else id_of_seq m (n - 1) rs) in
    let other_box = id_of_seq m n rs in if same r.mailbox m then same_box else other_box

abbrev pub or_no_rows {ℓ} : {A : Type ℓ} → Option A → Result A
or_no_rows none = err no_rows
or_no_rows (some a) = ok a

unfoldable pub sum_sizes : List MailRow → ℕ
sum_sizes [] = 0
sum_sizes (r ∷ rs) = r.size + sum_sizes rs
