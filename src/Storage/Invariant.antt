-- ===== src/Storage/Invariant.antt =====
-- The schema's constraints as an invariant of the tables, and the statements that keep it.
use yggmail_android.Base.{
  ◌≤◌, ◌≡◌, refl, Bool, true, false, ◌&&◌, not, List, [], ◌∷◌, ◌++◌, map, Text, same, any, filter,
  All, All-append, All-filter, All-mono, if◌then◌else◌, arith, same→eq, same_refl, Bool-cases, inl,
  inr,
}
use yggmail_android.World.{MailRow, Db, MailboxRow, QueueRow}
use yggmail_android.Storage.Tables.{
  is_mail, has_mail, next_id, update_mails, has_mailbox, has_one_content, insert_mail, delete_mails,
  delete_mailbox, insert_queue, is_queued,
}
use yggmail_android.Storage.Rows.{
  later, IsIncreasing, IsIncreasing-append, IsIncreasing-filter, next_id_above, has_mail-append,
  has_mail-filter, KeepsKeys, has_mail-update, All-update,
}

-- Foreign keys, the CHECK of `mails`, and IDs that grow in each mailbox (which makes them a key).
pub record IsValid (d : Db) : Type 0 where
  pub mailbox_exists : All (λ r. has_mailbox r.mailbox d.mailboxes ≡ true) d.mails
  pub one_content : All (λ r. has_one_content r ≡ true) d.mails
  pub increasing : IsIncreasing d.mails
  pub mail_exists : All (λ q. has_mail q.mailbox q.id d.mails ≡ true) d.queue

-- An insertion under the next ID keeps the constraints, whether it succeeds or not.
pub insert_mail-IsValid :
    (d : Db) (x : MailRow)
    → IsValid d
    → next_id x.mailbox d.mails ≤ x.id
    → IsValid (insert_mail x d).1
unfolding insert_mail
insert_mail-IsValid d x v h = elim (Bool-cases (has_one_content x)) [
  | inr c ↦ ground arith
  | inl c ↦ elim (Bool-cases (has_mail x.mailbox x.id d.mails)) [
    | inl dup ↦ ground arith
    | inr fresh ↦ elim (Bool-cases (has_mailbox x.mailbox d.mailboxes)) [
      | inr missing ↦ ground arith
      | inl found ↦
          rw (c, fresh, found)
            (record {
              mailbox_exists =
                  All-append (λ r. has_mailbox r.mailbox d.mailboxes ≡ true) d.mails (x ∷ [])
                    v.mailbox_exists (found, tt);
              one_content =
                  All-append (λ r. has_one_content r ≡ true) d.mails (x ∷ []) v.one_content (c, tt);
              increasing =
                  IsIncreasing-append d.mails x v.increasing
                    (next_id_above x.mailbox d.mails x.id h);
              mail_exists =
                  All-mono (λ (q : QueueRow) e. has_mail-append q.mailbox q.id d.mails x e) d.queue
                    v.mail_exists;
            })
    ]
  ]
]

module _ (p : MailRow → Bool) (f : MailRow → MailRow) (keeps : KeepsKeys f) where
  IsIncreasing-update : (rs : List MailRow) → IsIncreasing rs → IsIncreasing (update_mails p f rs)
  unfolding update_mails
  IsIncreasing-update [] _ = tt
  IsIncreasing-update (r ∷ rs) (h, hs) = (
    choose (p r) (
        All-update p f keeps (λ s. later r s ≡ true) rs (λ s e. rw ((keeps s).0, (keeps s).1) e) h),
    IsIncreasing-update rs hs,
  )
    where
      choose :
          (b : Bool)
          → All (λ s. later r s ≡ true) (update_mails p f rs)
          → All (λ s. later (if b then f r else r) s ≡ true) (update_mails p f rs)
      choose true a = All-mono (λ s e. rw ((keeps r).0, (keeps r).1) e) (update_mails p f rs) a
      choose false a = a

  -- An update of flags keeps the constraints.
  pub update_mails-IsValid :
      (d : Db) → IsValid d → IsValid (record d { mails = update_mails p f d.mails })
  update_mails-IsValid d v = record {
    mailbox_exists =
        All-update p f keeps (λ r. has_mailbox r.mailbox d.mailboxes ≡ true) d.mails
          (λ r e. rw (keeps r).0 e) v.mailbox_exists;
    one_content =
        All-update p f keeps (λ r. has_one_content r ≡ true) d.mails (λ r e. rw (keeps r).2 e)
          v.one_content;
    increasing = IsIncreasing-update d.mails v.increasing;
    mail_exists =
        All-mono (λ (q : QueueRow) e. rw (has_mail-update p f keeps q.mailbox q.id d.mails) e)
          d.queue v.mail_exists;
  }

queue_cascade :
    (p : MailRow → Bool) (rs : List MailRow) (qs : List QueueRow)
    → All (λ q. has_mail q.mailbox q.id rs ≡ true) qs
    → All
        (λ q. has_mail q.mailbox q.id (filter (λ r. not (p r)) rs) ≡ true)
        (filter (λ q. not (any (λ r. p r && is_mail q.mailbox q.id r) rs)) qs)
queue_cascade p rs [] _ = tt
queue_cascade p rs (q ∷ qs) (h, hs) =
    ground (arith, has_mail-filter p q.mailbox q.id rs h, queue_cascade p rs qs hs)

-- A deletion of mails keeps the constraints: the cascade takes their queue entries along.
pub delete_mails-IsValid : (p : MailRow → Bool) (d : Db) → IsValid d → IsValid (delete_mails p d)
unfolding delete_mails
delete_mails-IsValid p d v = record {
  mailbox_exists =
      All-filter (λ r. has_mailbox r.mailbox d.mailboxes ≡ true) (λ r. not (p r)) d.mails
        v.mailbox_exists;
  one_content = All-filter (λ r. has_one_content r ≡ true) (λ r. not (p r)) d.mails v.one_content;
  increasing = IsIncreasing-filter (λ r. not (p r)) d.mails v.increasing;
  mail_exists = queue_cascade p d.mails d.queue v.mail_exists;
}

pub insert_queue-IsValid : (q : QueueRow) (d : Db) → IsValid d → IsValid (insert_queue q d).1
unfolding insert_queue
insert_queue-IsValid q d v =
    elim (Bool-cases (any (is_queued q.destination q.mailbox q.id) d.queue)) [
      | inl dup ↦ rw dup v
      | inr new ↦ elim (Bool-cases (has_mail q.mailbox q.id d.mails)) [
        | inr missing ↦ rw (new, missing) v
        | inl found ↦
            rw (new, found)
              (record {
                mailbox_exists = v.mailbox_exists;
                one_content = v.one_content;
                increasing = v.increasing;
                mail_exists =
                    All-append (λ q. has_mail q.mailbox q.id d.mails ≡ true) d.queue (q ∷ [])
                      v.mail_exists (found, tt);
              })
      ]
    ]

pub delete_queue-IsValid :
    (p : QueueRow → Bool) (d : Db) → IsValid d → IsValid (record d { queue = filter p d.queue })
delete_queue-IsValid p d v = record {
  mailbox_exists = v.mailbox_exists;
  one_content = v.one_content;
  increasing = v.increasing;
  mail_exists = All-filter (λ q. has_mail q.mailbox q.id d.mails ≡ true) p d.queue v.mail_exists;
}

has_mailbox-map :
    (f : MailboxRow → MailboxRow)
    → ((b : MailboxRow) → (f b).mailbox ≡ b.mailbox)
    → (m : Text) (bs : List MailboxRow) → has_mailbox m (map f bs) ≡ has_mailbox m bs
has_mailbox-map f keeps m [] = refl
has_mailbox-map f keeps m (b ∷ bs) = ground (arith, keeps b, has_mailbox-map f keeps m bs)

-- A change of the subscriptions keeps the constraints.
pub map_mailboxes-IsValid :
    (f : MailboxRow → MailboxRow) (d : Db)
    → ((b : MailboxRow) → (f b).mailbox ≡ b.mailbox)
    → IsValid d
    → IsValid (record d { mailboxes = map f d.mailboxes })
map_mailboxes-IsValid f d keeps v = record {
  mailbox_exists =
      All-mono (λ (r : MailRow) e. rw (has_mailbox-map f keeps r.mailbox d.mailboxes) e) d.mails
        v.mailbox_exists;
  one_content = v.one_content;
  increasing = v.increasing;
  mail_exists = v.mail_exists;
}

has_mailbox-append :
    (m : Text) (bs : List MailboxRow) (b : MailboxRow)
    → has_mailbox m bs ≡ true
    → has_mailbox m (bs ++ b ∷ []) ≡ true
has_mailbox-append m [] b h = cc
has_mailbox-append m (c ∷ bs) b h = ground (arith, has_mailbox-append m bs b)

pub append_mailbox-IsValid :
    (b : MailboxRow) (d : Db) → IsValid d → IsValid (record d { mailboxes = d.mailboxes ++ b ∷ [] })
append_mailbox-IsValid b d v = record {
  mailbox_exists =
      All-mono (λ (r : MailRow) e. has_mailbox-append r.mailbox d.mailboxes b e) d.mails
        v.mailbox_exists;
  one_content = v.one_content;
  increasing = v.increasing;
  mail_exists = v.mail_exists;
}

-- Of a mailbox's deletion: the mails that stay lie in mailboxes that stay.
mailbox_cascade :
    (name : Text) (bs : List MailboxRow) (rs : List MailRow)
    → All (λ r. has_mailbox r.mailbox bs ≡ true) rs
    → All
        (λ r. has_mailbox r.mailbox (filter (λ b. not (same b.mailbox name)) bs) ≡ true)
        (filter (λ r. not (same r.mailbox name)) rs)
mailbox_cascade name bs [] _ = tt
mailbox_cascade name bs (r ∷ rs) (h, hs) = ground (arith, stays bs h, mailbox_cascade name bs rs hs)
  where
    stays :
        (cs : List MailboxRow)
        → has_mailbox r.mailbox cs ≡ true
        → same r.mailbox name ≡ false
        → has_mailbox r.mailbox (filter (λ b. not (same b.mailbox name)) cs) ≡ true
    stays [] e _ = cc
    stays (c ∷ cs) e ne =
        ground (
          arith,
          stays cs,
          same→eq c.mailbox r.mailbox,
          same→eq c.mailbox name,
          same_refl r.mailbox,
        )

pub delete_mailbox-IsValid : (name : Text) (d : Db) → IsValid d → IsValid (delete_mailbox name d)
unfolding delete_mailbox
delete_mailbox-IsValid name d v = record {
  mailbox_exists = mailbox_cascade name d.mailboxes d.mails v.mailbox_exists;
  one_content = w.one_content;
  increasing = w.increasing;
  mail_exists = w.mail_exists;
}
  where
    w : IsValid (delete_mails (λ r. same r.mailbox name) d)
    w = delete_mails-IsValid (λ r. same r.mailbox name) d v
