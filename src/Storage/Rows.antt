-- ===== src/Storage/Rows.antt =====
-- How the statements of Storage/Tables change the rows of `mails`: keys, order and next IDs.
use yggmail_android.Base.{
  ℕ, ◌≤◌, ◌≡◌, refl, Bool, true, false, ◌&&◌, not, List, [], ◌∷◌, ◌++◌, Text, same, any, filter,
  All, All-append, All-filter, ltb, if◌then◌else◌, arith,
}
use yggmail_android.World.{MailRow}
use yggmail_android.Storage.Tables.{is_mail, has_mail, next_id, update_mails, has_one_content}

-- In one mailbox a later row has a larger ID.
abbrev pub later : MailRow → MailRow → Bool
later r s = if same r.mailbox s.mailbox then ltb r.id s.id else true

abbrev pub IsIncreasing : List MailRow → Type 0
IsIncreasing [] = Unit
IsIncreasing (r ∷ rs) = All (λ s. later r s ≡ true) rs × IsIncreasing rs

pub IsIncreasing-append :
    (rs : List MailRow) (x : MailRow)
    → IsIncreasing rs
    → All (λ r. later r x ≡ true) rs
    → IsIncreasing (rs ++ x ∷ [])
IsIncreasing-append [] x _ _ = (tt, tt)
IsIncreasing-append (r ∷ rs) x (h, hs) (l, ls) =
    (All-append (λ s. later r s ≡ true) rs (x ∷ []) h (l, tt), IsIncreasing-append rs x hs ls)

pub IsIncreasing-filter :
    (p : MailRow → Bool) (rs : List MailRow) → IsIncreasing rs → IsIncreasing (filter p rs)
IsIncreasing-filter p [] _ = tt
IsIncreasing-filter p (r ∷ rs) (h, hs) =
    ground (arith, All-filter (λ s. later r s ≡ true) p rs h, IsIncreasing-filter p rs hs)

-- The next ID of a mailbox is above every ID in it.
pub next_id_above :
    (m : Text) (rs : List MailRow) (n : ℕ)
    → next_id m rs ≤ n
    → All (λ r. (if same r.mailbox m then ltb r.id n else true) ≡ true) rs
unfolding next_id
next_id_above m [] n _ = tt
next_id_above m (r ∷ rs) n h = ground (arith, next_id_above m rs n)

pub has_mail-next_id :
    (m : Text) (rs : List MailRow) (n : ℕ) → next_id m rs ≤ n → has_mail m n rs ≡ false
unfolding next_id
has_mail-next_id m [] n _ = refl
has_mail-next_id m (r ∷ rs) n h = ground (arith, has_mail-next_id m rs n)

pub has_mail-append :
    (m : Text) (i : ℕ) (rs : List MailRow) (x : MailRow)
    → has_mail m i rs ≡ true
    → has_mail m i (rs ++ x ∷ []) ≡ true
has_mail-append m i [] x h = cc
has_mail-append m i (r ∷ rs) x h = ground (arith, has_mail-append m i rs x)

-- A row that is not deleted is still found.
pub has_mail-filter :
    (p : MailRow → Bool) (m : Text) (i : ℕ) (rs : List MailRow)
    → has_mail m i rs ≡ true
    → any (λ r. p r && is_mail m i r) rs ≡ false
    → has_mail m i (filter (λ r. not (p r)) rs) ≡ true
has_mail-filter p m i [] h k = cc
has_mail-filter p m i (r ∷ rs) h k = ground (arith, has_mail-filter p m i rs)

-- An update that keeps what the constraints read.
abbrev pub KeepsKeys : (MailRow → MailRow) → Type 0
KeepsKeys f =
    (r : MailRow)
    → ((f r).mailbox ≡ r.mailbox) × ((f r).id ≡ r.id) × (has_one_content (f r) ≡ has_one_content r)

module _ (p : MailRow → Bool) (f : MailRow → MailRow) (keeps : KeepsKeys f) where
  pub has_mail-update :
      (m : Text) (i : ℕ) (rs : List MailRow) → has_mail m i (update_mails p f rs) ≡ has_mail m i rs
  unfolding update_mails
  has_mail-update m i [] = refl
  has_mail-update m i (r ∷ rs) = ground (arith, keeps r, has_mail-update m i rs)

  pub All-update {κ} :
      (P : MailRow → Type κ) (rs : List MailRow)
      → ((r : MailRow) → P r → P (f r))
      → All P rs
      → All P (update_mails p f rs)
  unfolding update_mails
  All-update P [] h _ = tt
  All-update P (r ∷ rs) h (x, xs) = (choose (p r), All-update P rs h xs)
    where
      choose : (b : Bool) → P (if b then f r else r)
      choose true = h r x
      choose false = x
