-- ===== src/Storage/Migrated/Rows.antt =====
-- What one round of MigrateLargeMessagesToFiles of internal/storage/sqlite3/migrations.go does to the rows
-- and the files.
use yggmail_android.Base.{
  ℕ, ◌≡◌, refl, ap, sym, ◌∙◌, Bool, true, false, ◌||◌, not, Option, none, some, List, [], ◌∷◌, map,
  Text, Bytes, same, same_refl, same→eq, arith, if◌then◌else◌, if_both, Bool-cases, inl, inr,
}
use yggmail_android.World.{World, Engine, MailRow, Db, Reader, Result, ok, err}
use yggmail_android.FileStore.{store_mail, delete_mail, temp_path}
use yggmail_android.FileStore.Files.{FileMap, lookup}
use yggmail_android.FileStore.Paths.{mail_path}
use yggmail_android.FileStore.Keeps.{
  store_mail-db, store_mail-temp_path, delete_mail-db, delete_mail-temp_path,
}
use yggmail_android.FileStore.Contents.{Stored, store_mail-Stored, delete_mail_else}
use yggmail_android.Storage.Tables.{is_mail, update_mails}
use yggmail_android.Storage.Mails.{content_of}
use yggmail_android.Storage.Migration.{to_file, record_file, migrate_message}

abbrev path_of : MailRow → Text
path_of r = mail_path r.mailbox r.id

-- Where the content of a row is: in its file, if it has one.
abbrev pub content_at : FileMap → Option Text → Option Bytes → Option Bytes
content_at fs none mail = mail
content_at fs (some p) mail = lookup p fs

abbrev pub content_in : FileMap → MailRow → Option Bytes
content_in fs r = content_at fs r.mail_file r.mail

-- The contents of all messages, in the order of the table.
abbrev pub contents : World → List (Option Bytes)
contents w = map (content_in w.disk.files) w.db.mails

-- A row whose file is that of its key.
abbrev HasOwnFile : Text → Option Text → Type 0
HasOwnFile path none = Unit
HasOwnFile path (some p) = p ≡ path

-- What the names of the files of two rows need.
abbrev pub Apart : World → MailRow → MailRow → Type 0
Apart w x r =
    HasOwnFile (path_of r) r.mail_file
    × (same (temp_path x.id x.mailbox w) (path_of r) ≡ false)
    × ((is_mail x.mailbox x.id r || not (same (path_of x) (path_of r))) ≡ true)

-- A row beside one that is to be migrated: where it is that row, its content is in the database.
abbrev pub Fits : World → MailRow → MailRow → Type 0
Fits w x r =
    Apart w x r
    × (is_mail x.mailbox x.id r ≡ true → (r.mail_file ≡ none) × (r.mail ≡ some (content_of x.mail)))

-- The row after the migration of another one.
abbrev moved : MailRow → Text → ℕ → MailRow → MailRow
moved x path size r = if is_mail x.mailbox x.id r then to_file path size r else r

content_else :
    (fs gs : FileMap) (path : Text) (file : Option Text) (mail : Option Bytes)
    → HasOwnFile path file
    → lookup path gs ≡ lookup path fs
    → content_at gs file mail ≡ content_at fs file mail
content_else fs gs path none mail _ e = refl
content_else fs gs path (some p) mail h e = rw h e

key_of : (m : Text) (i : ℕ) (r : MailRow) → is_mail m i r ≡ true → (r.mailbox ≡ m) × (r.id ≡ i)
key_of m i r h = (same→eq r.mailbox m (ground arith), ground arith)

same_path : (x r : MailRow) → is_mail x.mailbox x.id r ≡ true → path_of x ≡ path_of r
same_path x r h = let (m, i) = key_of x.mailbox x.id r h in rw (m, i) refl

content_here :
    (fs : FileMap) (file : Option Text) (mail : Option Bytes) (c : Bytes)
    → file ≡ none
    → mail ≡ some c
    → content_at fs file mail ≡ some c
content_here fs file mail c f m = rw (f, m) refl

-- The files, where only those of `x` may have changed, for the row `r` that has not.
reverted_content :
    (w : World) (x r : MailRow) (gs : FileMap)
    → Fits w x r
    → (is_mail x.mailbox x.id r ≡ false → lookup (path_of r) gs ≡ lookup (path_of r) w.disk.files)
    → content_in gs r ≡ content_in w.disk.files r
reverted_content w x r gs ((own, _, _), e) h = elim (Bool-cases (is_mail x.mailbox x.id r)) [
  | inl is ↦
      let (file, mail) = e is in
      content_here gs r.mail_file r.mail (content_of x.mail) file mail
      ∙ sym (content_here w.disk.files r.mail_file r.mail (content_of x.mail) file mail)
  | inr differs ↦ content_else w.disk.files gs (path_of r) r.mail_file r.mail own (h differs)
]

-- The files after StoreMail of `x`, for the row `r`.
stored_content :
    (w : World) (x r : MailRow) (gs : FileMap) (size : ℕ)
    → Fits w x r
    → lookup (path_of r) gs ≡ (
        if same (path_of x) (path_of r)
        then some (content_of x.mail)
        else if same (temp_path x.id x.mailbox w) (path_of r)
        then none
        else lookup (path_of r) w.disk.files)
    → content_in gs (moved x (path_of x) size r) ≡ content_in w.disk.files r
stored_content w x r gs size ((own, temp, apart), e) h =
    elim (Bool-cases (is_mail x.mailbox x.id r)) [
      | inl is ↦ rw is (
          ap (λ p. lookup p gs) (same_path x r is)
          ∙ h
          ∙ ground (arith, ap (same (path_of x)) (same_path x r is), same_refl (path_of x))
          ∙ sym
              (content_here w.disk.files r.mail_file r.mail (content_of x.mail) (e is).0 (e is).1))
      | inr differs ↦ rw differs (
          content_else w.disk.files gs (path_of r) r.mail_file r.mail own
            (h ∙ ground (arith, temp, apart, differs)))
    ]

-- What the migration of `x` does to a row.
abbrev Kept : World → MailRow → World → (MailRow → MailRow) → MailRow → Type 0
Kept w x v f r =
    (content_in v.disk.files (f r) ≡ content_in w.disk.files r)
    × ((f r).mailbox ≡ r.mailbox)
    × ((f r).id ≡ r.id)
    × HasOwnFile (path_of (f r)) (f r).mail_file
    × (is_mail x.mailbox x.id r ≡ false → f r ≡ r)

-- What it does to the tables and the files.
pub record Step (w : World) (x : MailRow) (v : World) : Type 0 where
  pub change : MailRow → MailRow
  pub rows : v.db.mails ≡ map change w.db.mails
  pub temps : (i : ℕ) (m : Text) → temp_path i m v ≡ temp_path i m w
  pub keeps : (r : MailRow) → Fits w x r → Kept w x v change r

update_mails-map :
    (p : MailRow → Bool) (f : MailRow → MailRow) (rs : List MailRow)
    → update_mails p f rs ≡ map (λ r. if p r then f r else r) rs
unfolding update_mails
update_mails-map p f [] = refl
update_mails-map p f (r ∷ rs) = rw (update_mails-map p f rs) refl

map-id : (rs : List MailRow) → rs ≡ map (λ r. r) rs
map-id [] = refl
map-id (r ∷ rs) = ap (λ ss. r ∷ ss) (map-id rs)

moved-own :
    (x r : MailRow) (size : ℕ)
    → HasOwnFile (path_of r) r.mail_file
    → ((moved x (path_of x) size r).mailbox ≡ r.mailbox)
      × ((moved x (path_of x) size r).id ≡ r.id)
      × HasOwnFile (path_of (moved x (path_of x) size r)) (moved x (path_of x) size r).mail_file
      × (is_mail x.mailbox x.id r ≡ false → moved x (path_of x) size r ≡ r)
moved-own x r size own = elim (Bool-cases (is_mail x.mailbox x.id r)) [
  | inl is ↦ rw is (refl, refl, same_path x r is, λ d. cc)
  | inr differs ↦ rw differs (refl, refl, own, λ _. refl)
]

-- The row is updated.
updated-Step :
    (w : World) (x : MailRow) (path : Text) (size : ℕ) (v : World)
    → Stored x.id x.mailbox
        (record { content = content_of x.mail; broken = false })
        w
        (ok (path, size), v)
    → v.db ≡ w.db
    → ((i : ℕ) (m : Text) → temp_path i m v ≡ temp_path i m w)
    → Step w x (record v {
      db = record v.db {
        mails = update_mails (is_mail x.mailbox x.id) (to_file path size) v.db.mails;
      };
    })
unfolding temp_path
updated-Step w x path size v (at_path, _, found) d temps = record {
  change = moved x (path_of x) size;
  rows =
      ap (λ (e : Db). update_mails (is_mail x.mailbox x.id) (to_file path size) e.mails) d
      ∙ update_mails-map (is_mail x.mailbox x.id) (to_file path size) w.db.mails
      ∙ ap (λ p. map (moved x p size) w.db.mails) at_path;
  temps = temps;
  keeps = λ r h.
      let (m, i, own, other) = moved-own x r size h.0.0 in
      (stored_content w x r v.disk.files size h (found (path_of r)), m, i, own, other);
}

-- The row cannot be updated, and the file is deleted again.
reverted-Step :
    (w : World) (x : MailRow) (path : Text) (size : ℕ) (v : World)
    → Stored x.id x.mailbox
        (record { content = content_of x.mail; broken = false })
        w
        (ok (path, size), v)
    → v.db ≡ w.db
    → ((i : ℕ) (m : Text) → temp_path i m v ≡ temp_path i m w)
    → Step w x (delete_mail path v).1
reverted-Step w x path size v (at_path, _, found) d temps = record {
  change = λ r. r;
  rows = ap (λ (e : Db). e.mails) (delete_mail-db path v ∙ d) ∙ map-id w.db.mails;
  temps = λ i m. delete_mail-temp_path path v i m ∙ temps i m;
  keeps = λ r h. (
    reverted_content w x r (delete_mail path v).1.disk.files h
        (λ differs. unchanged r h.0.1 h.0.2 differs),
    refl,
    refl,
    h.0.0,
    λ _. refl,
  );
}
  where
    unchanged :
        (r : MailRow)
        → same (temp_path x.id x.mailbox w) (path_of r) ≡ false
        → (is_mail x.mailbox x.id r || not (same (path_of x) (path_of r))) ≡ true
        → is_mail x.mailbox x.id r ≡ false
        → lookup (path_of r) (delete_mail path v).1.disk.files ≡ lookup (path_of r) w.disk.files
    unchanged r temp apart differs =
        let other : same (path_of x) (path_of r) ≡ false = ground (arith, apart, differs) in
        delete_mail_else path (path_of r) v (ap (λ p. same p (path_of r)) at_path ∙ other)
        ∙ found (path_of r)
        ∙ rw (other, temp) refl

module _ (sql : Engine) where
  record_file-Step :
      (w : World) (x : MailRow) (y : Result (Text × ℕ) × World)
      → Stored x.id x.mailbox (record { content = content_of x.mail; broken = false }) w y
      → y.1.db ≡ w.db
      → ((i : ℕ) (m : Text) → temp_path i m y.1 ≡ temp_path i m w)
      → Step w x (record_file sql x y)
  unfolding record_file
  record_file-Step w x (err _, v) same_files d temps = record {
    change = λ r. r;
    rows = ap (λ (e : Db). e.mails) d ∙ map-id w.db.mails;
    temps = temps;
    keeps = λ r ((own, temp, _), _). (
      content_else w.disk.files v.disk.files (path_of r) r.mail_file r.mail own
          (same_files (path_of r) temp),
      refl,
      refl,
      own,
      λ _. refl,
    );
  }
  record_file-Step w x (ok (path, size), v) stored d temps =
      if_both (λ (u : World). Step w x u) (sql.locked x.mailbox x.id) _ _
        (λ _. reverted-Step w x path size v stored d temps)
        (λ _. updated-Step w x path size v stored d temps)

  pub migrate_message-Step : (w : World) (x : MailRow) → Step w x (migrate_message sql x w)
  unfolding migrate_message
  migrate_message-Step w x =
      let r : Reader = record { content = content_of x.mail; broken = false } in
      record_file-Step w x (store_mail x.id x.mailbox r w) (store_mail-Stored x.id x.mailbox r w)
        (store_mail-db x.id x.mailbox r w) (store_mail-temp_path x.id x.mailbox r w)

pub Kept-Fits :
    (w : World) (x : MailRow) (v : World) (f : MailRow → MailRow) (y r : MailRow)
    → ((i : ℕ) (m : Text) → temp_path i m v ≡ temp_path i m w)
    → is_mail x.mailbox x.id y ≡ false
    → Kept w x v f r
    → Fits w y r
    → Fits v y (f r)
Kept-Fits w x v f y r temps distinct (c, m, i, own, other) ((_, temp, apart), e) =
    ((own, rw (m, i, temps y.id y.mailbox) temp, rw (m, i) apart), λ is. here (rw (m, i) at is))
  where
    here :
        is_mail y.mailbox y.id r ≡ true
        → ((f r).mail_file ≡ none) × ((f r).mail ≡ some (content_of y.mail))
    here is =
        let (km, ki) = key_of y.mailbox y.id r is in
        let differs : is_mail x.mailbox x.id r ≡ false = rw (km, ki) distinct in
        rw (other differs) (e is)
