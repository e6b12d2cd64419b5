-- ===== src/Storage/Migrated/Contents.antt =====
-- What MigrateLargeMessagesToFiles of internal/storage/sqlite3/migrations.go does to the contents of the
-- messages.
use mathlib.Core.Path.{subst}
use yggmail_android.Base.{
  ℕ, ◌≡◌, refl, ap, sym, ◌∙◌, true, false, Option, none, some, List, [], ◌∷◌, map, Text, Bytes,
  same→eq, is_some, if_both, ltb, filter, All, All-mono, arith,
}
use yggmail_android.World.{World, Engine, MailRow}
use yggmail_android.Storage.Tables.{is_mail}
use yggmail_android.Storage.Mails.{content_of}
use yggmail_android.Storage.Invariant.{IsValid}
use yggmail_android.Storage.Rows.{later, IsIncreasing, IsIncreasing-filter}
use yggmail_android.Storage.Migration.{
  mail_length, is_large, insert_larger, by_length, large_messages, migrate_message,
  migrate_messages, migrate_large_messages_to_files,
}
use yggmail_android.Storage.Migrated.Rows.{
  Apart, Fits, Kept-Fits, Step, content_in, contents, migrate_message-Step,
}

module _ (w v : World) (x : MailRow) (s : Step w x v) where
  Step-contents :
      (rs : List MailRow)
      → All (Fits w x) rs
      → map (content_in v.disk.files) (map s.change rs) ≡ map (content_in w.disk.files) rs
  Step-contents [] _ = refl
  Step-contents (r ∷ rs) (h, hs) = rw ((s.keeps r h).0, Step-contents rs hs) refl

  Step-Fits :
      (y : MailRow) (rs : List MailRow)
      → is_mail x.mailbox x.id y ≡ false
      → All (Fits w x) rs
      → All (Fits w y) rs
      → All (Fits v y) (map s.change rs)
  Step-Fits y [] _ _ _ = tt
  Step-Fits y (r ∷ rs) d (h, hs) (k, ks) =
      (Kept-Fits w x v s.change y r s.temps d (s.keeps r h) k, Step-Fits y rs d hs ks)

-- Rows of different keys
abbrev Differs : MailRow → MailRow → Type 0
Differs x y = (is_mail x.mailbox x.id y ≡ false) × (is_mail y.mailbox y.id x ≡ false)

abbrev AreDistinct : List MailRow → Type 0
AreDistinct [] = Unit
AreDistinct (x ∷ xs) = All (Differs x) xs × AreDistinct xs

module _ (w v : World) (x : MailRow) (s : Step w x v) where
  Step-Fits_each :
      (ys : List MailRow)
      → All (Differs x) ys
      → All (Fits w x) w.db.mails
      → All (λ y. All (Fits w y) w.db.mails) ys
      → All (λ y. All (Fits v y) v.db.mails) ys
  Step-Fits_each [] _ _ _ = tt
  Step-Fits_each (y ∷ ys) (d, ds) h (k, ks) = (
    subst (λ rs. All (Fits v y) rs) (sym s.rows) (Step-Fits w v x s y w.db.mails d.0 h k),
    Step-Fits_each ys ds h ks,
  )

later-differs :
    (x r : MailRow)
    → later x r ≡ true
    → (is_mail x.mailbox x.id r ≡ false) × (is_mail r.mailbox r.id x ≡ false)
later-differs x r h =
    (ground (arith, same→eq r.mailbox x.mailbox), ground (arith, same→eq x.mailbox r.mailbox))

-- The row with the key of `x` is `x`.
abbrev Unique : List MailRow → MailRow → Type 0
Unique rs x = All (λ r. is_mail x.mailbox x.id r ≡ true → r ≡ x) rs

later-Unique : (y : MailRow) (ys : List MailRow) → All (λ r. later y r ≡ true) ys → Unique ys y
later-Unique y [] _ = tt
later-Unique y (r ∷ rs) (l, ls) =
    (λ is. let d = (later-differs y r l).0 in cc, later-Unique y rs ls)

extend-Unique :
    (y : MailRow) (ys zs : List MailRow)
    → All (λ r. later y r ≡ true) zs
    → All (Unique ys) zs
    → All (Unique (y ∷ ys)) zs
extend-Unique y ys [] _ _ = tt
extend-Unique y ys (z ∷ zs) (l, ls) (u, us) =
    ((λ is. let d = (later-differs y z l).1 in cc, u), extend-Unique y ys zs ls us)

IsIncreasing-Unique : (rs : List MailRow) → IsIncreasing rs → All (Unique rs) rs
IsIncreasing-Unique [] _ = tt
IsIncreasing-Unique (y ∷ ys) (h, hs) =
    ((λ _. refl, later-Unique y ys h), extend-Unique y ys ys h (IsIncreasing-Unique ys hs))

IsIncreasing-AreDistinct : (rs : List MailRow) → IsIncreasing rs → AreDistinct rs
IsIncreasing-AreDistinct [] _ = tt
IsIncreasing-AreDistinct (r ∷ rs) (h, hs) =
    (All-mono {Q = Differs r} (λ s l. later-differs r s l) rs h, IsIncreasing-AreDistinct rs hs)

module _ (sql : Engine) where
  migrate_messages-contents :
      (xs : List MailRow) (w : World)
      → AreDistinct xs
      → All (λ x. All (Fits w x) w.db.mails) xs
      → contents (migrate_messages sql xs w) ≡ contents w
  unfolding migrate_messages
  migrate_messages-contents [] w _ _ = refl
  migrate_messages-contents (x ∷ xs) w (d, ds) (h, hs) =
      let v = migrate_message sql x w in
      let s = migrate_message-Step sql w x in
      migrate_messages-contents xs v ds (Step-Fits_each w v x s xs d h hs)
      ∙ ap (map (content_in v.disk.files)) s.rows
      ∙ Step-contents w v x s w.db.mails h

  large_content :
      (t : ℕ) (x : MailRow)
      → is_large sql t x ≡ true
      → (x.mail_file ≡ none) × (x.mail ≡ some (content_of x.mail))
  large_content t x h = (no_file x.mail_file (ground arith), in_blob x.mail (ground arith))
    where
      no_file : (file : Option Text) → is_some file ≡ false → file ≡ none
      no_file none _ = refl
      no_file (some p) k = cc

      in_blob : (mail : Option Bytes) → is_some mail ≡ true → mail ≡ some (content_of mail)
      in_blob none k = cc
      in_blob (some b) _ = refl

  large-Fits :
      (t : ℕ) (w : World) (x : MailRow) (rs : List MailRow)
      → is_large sql t x ≡ true
      → All (Apart w x) rs
      → Unique rs x
      → All (Fits w x) rs
  large-Fits t w x [] h _ _ = tt
  large-Fits t w x (r ∷ rs) h (a, more) (u, us) =
      ((a, λ is. rw (u is) (large_content t x h)), large-Fits t w x rs h more us)

  module _ (P : MailRow → Type 0) where
    All-insert_larger :
        (x : MailRow) (xs : List MailRow) → P x → All P xs → All P (insert_larger sql x xs)
    unfolding insert_larger
    All-insert_larger x [] h _ = (h, tt)
    All-insert_larger x (y ∷ ys) h (k, ks) =
        if_both (All P) (ltb (mail_length sql x) (mail_length sql y)) _ _
          (λ _. (k, All-insert_larger x ys h ks)) (λ _. (h, (k, ks)))

    All-by_length : (xs : List MailRow) → All P xs → All P (by_length sql xs)
    unfolding by_length
    All-by_length [] _ = tt
    All-by_length (x ∷ xs) (h, hs) = All-insert_larger x (by_length sql xs) h (All-by_length xs hs)

  filter-Fits :
      (t : ℕ) (w : World) (rs xs : List MailRow)
      → All (λ x. All (Apart w x) rs) xs
      → All (Unique rs) xs
      → All (λ x. All (Fits w x) rs) (filter (is_large sql t) xs)
  filter-Fits t w rs [] _ _ = tt
  filter-Fits t w rs (x ∷ xs) (a, more) (u, us) =
      if_both (All (λ y. All (Fits w y) rs)) (is_large sql t x) _ _
        (λ h. (large-Fits t w x rs h a u, filter-Fits t w rs xs more us))
        (λ _. filter-Fits t w rs xs more us)

  insert_larger-AreDistinct :
      (x : MailRow) (ys : List MailRow)
      → All (Differs x) ys
      → AreDistinct ys
      → AreDistinct (insert_larger sql x ys)
  unfolding insert_larger
  insert_larger-AreDistinct x [] _ _ = (tt, tt)
  insert_larger-AreDistinct x (y ∷ ys) (d, ds) (e, es) =
      if_both AreDistinct (ltb (mail_length sql x) (mail_length sql y)) _ _
        (λ _.
          (All-insert_larger (Differs y) x ys (d.1, d.0) e, insert_larger-AreDistinct x ys ds es))
        (λ _. ((d, ds), (e, es)))

  by_length-AreDistinct : (xs : List MailRow) → AreDistinct xs → AreDistinct (by_length sql xs)
  unfolding by_length
  by_length-AreDistinct [] _ = tt
  by_length-AreDistinct (x ∷ xs) (d, ds) =
      insert_larger-AreDistinct x (by_length sql xs) (All-by_length (Differs x) xs d)
        (by_length-AreDistinct xs ds)

  -- Whatever fails, the writing of a file, the update of a row or the deletion of the file behind it, the
  -- migration loses no content: each message has the content that it had, in the database or in its
  -- file. This holds for a database that meets its constraints, in which each file has the path of its
  -- message's key, no other message has the same path, and none has that of a temporary file.
  pub migrate_large-contents :
      (t : ℕ) (w : World)
      → IsValid w.db
      → All (λ x. All (Apart w x) w.db.mails) w.db.mails
      → contents (migrate_large_messages_to_files sql t w).1 ≡ contents w
  unfolding migrate_large_messages_to_files large_messages
  migrate_large-contents t w v h =
      migrate_messages-contents (large_messages sql t w.db) w
        (by_length-AreDistinct (filter (is_large sql t) w.db.mails) (
          IsIncreasing-AreDistinct (filter (is_large sql t) w.db.mails)
            (IsIncreasing-filter (is_large sql t) w.db.mails v.increasing)))
        (All-by_length (λ x. All (Fits w x) w.db.mails) (filter (is_large sql t) w.db.mails)
          (filter-Fits t w w.db.mails w.db.mails h (IsIncreasing-Unique w.db.mails v.increasing)))
