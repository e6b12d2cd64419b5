-- ===== src/Storage/Renaming.antt =====
-- The cascade of a mailbox's renaming (table_mailboxes.go), under the constraints.
use yggmail_android.Base.{
  ℕ, ◌≡◌, true, false, ◌||◌, not, List, [], ◌∷◌, map, Text, same, All, All-mono, All-map, arith,
  same→eq, same_refl, Bool-cases, inl, inr,
}
use yggmail_android.World.{MailRow, Db, MailboxRow}
use yggmail_android.Storage.Tables.{
  has_mail, has_mailbox, has_one_content, rename_mailbox, renamed, rename_box, rename_mail,
  rename_entry,
}
use yggmail_android.Storage.Rows.{later, IsIncreasing}
use yggmail_android.Storage.Invariant.{IsValid}

module _ (from to : Text) where
  has_mailbox-renamed :
      (m : Text) (bs : List MailboxRow)
      → has_mailbox m bs ≡ true
      → has_mailbox (renamed from to m) (map (rename_box from to) bs) ≡ true
  has_mailbox-renamed m [] h = cc
  has_mailbox-renamed m (b ∷ bs) h =
      ground (arith, has_mailbox-renamed m bs, same→eq b.mailbox m, same_refl (renamed from to m))

  has_mail-renamed :
      (m : Text) (i : ℕ) (rs : List MailRow)
      → has_mail m i rs ≡ true
      → has_mail (renamed from to m) i (map (rename_mail from to) rs) ≡ true
  has_mail-renamed m i [] h = cc
  has_mail-renamed m i (r ∷ rs) h =
      ground (arith, has_mail-renamed m i rs, same→eq r.mailbox m, same_refl (renamed from to m))

  -- The order of two rows, of which none lies in the new mailbox.
  later-renamed :
      (r s : MailRow)
      → same r.mailbox to ≡ false
      → same s.mailbox to ≡ false
      → later r s ≡ true
      → later (rename_mail from to r) (rename_mail from to s) ≡ true
  later-renamed r s hr hs h = ground (
    arith,
    same→eq r.mailbox from,
    same→eq s.mailbox from,
    same→eq to s.mailbox,
    same→eq r.mailbox to,
    same_refl from,
    same_refl to,
  )

  -- A mailbox that is not in the table holds no mail.
  not_there :
      (bs : List MailboxRow) (rs : List MailRow)
      → has_mailbox to bs ≡ false
      → All (λ r. has_mailbox r.mailbox bs ≡ true) rs
      → All (λ r. same r.mailbox to ≡ false) rs
  not_there bs rs absent =
      All-mono
        (λ (r : MailRow) e. elim (Bool-cases (same r.mailbox to)) [
          | inl p ↦ ground (arith, same→eq r.mailbox to p)
          | inr p ↦ p
        ])
        rs

  IsIncreasing-renamed :
      (rs : List MailRow)
      → All (λ r. same r.mailbox to ≡ false) rs
      → IsIncreasing rs
      → IsIncreasing (map (rename_mail from to) rs)
  IsIncreasing-renamed [] _ _ = tt
  IsIncreasing-renamed (r ∷ rs) (a, as') (h, hs) = (row rs as' h, IsIncreasing-renamed rs as' hs)
    where
      row :
          (ss : List MailRow)
          → All (λ s. same s.mailbox to ≡ false) ss
          → All (λ s. later r s ≡ true) ss
          → All (λ s. later (rename_mail from to r) s ≡ true) (map (rename_mail from to) ss)
      row [] _ _ = tt
      row (s ∷ ss) (b, bs) (l, ls) = (later-renamed r s a b l, row ss bs ls)

  -- A renaming keeps the constraints, whether it is refused, does nothing, or succeeds.
  pub rename_mailbox-IsValid : (d : Db) → IsValid d → IsValid (rename_mailbox to from d).1
  unfolding rename_mailbox
  rename_mailbox-IsValid d v =
      elim (Bool-cases (not (has_mailbox from d.mailboxes) || same from to)) [
        | inl idle ↦ rw idle v
        | inr go ↦ elim (Bool-cases (has_mailbox to d.mailboxes)) [
          | inl taken ↦ rw (go, taken) v
          | inr free ↦
              rw (go, free)
                (record {
                  mailbox_exists =
                      All-map
                        (λ r. has_mailbox r.mailbox (map (rename_box from to) d.mailboxes) ≡ true)
                        (rename_mail from to) (λ r e. has_mailbox-renamed r.mailbox d.mailboxes e)
                        d.mails v.mailbox_exists;
                  one_content =
                      All-map (λ r. has_one_content r ≡ true) (rename_mail from to) (λ r e. e)
                        d.mails v.one_content;
                  increasing =
                      IsIncreasing-renamed d.mails
                        (not_there d.mailboxes d.mails free v.mailbox_exists) v.increasing;
                  mail_exists =
                      All-map
                        (λ q. has_mail q.mailbox q.id (map (rename_mail from to) d.mails) ≡ true)
                        (rename_entry from to) (λ q e. has_mail-renamed q.mailbox q.id d.mails e)
                        d.queue v.mail_exists;
                })
        ]
      ]
