-- ===== src/FileStore/Keeps.antt =====
-- internal/storage/filestore/filestore.go: its operations and the database.
use yggmail_android.Base.{ℕ, ◌≡◌, refl, Text, arith, Option-cases, inl, inr}
use yggmail_android.World.{World, Reader, Db, DiskStep}
use yggmail_android.World.Keeps.{Keeps, bind-Keeps, pure-Keeps}
use yggmail_android.FileStore.{
  store_mail, read_mail, delete_mail, move_mail, fill_temp, attempt, change_files, store_steps,
  temp_path,
}
use yggmail_android.FileStore.Paths.{mail_path}
use yggmail_android.FileStore.Files.{FileMap, lookup}

module _ (d : Db) (suffix : Text) where
  abbrev HasDb : World → Type 0
  HasDb w = (w.db ≡ d) × (w.disk.temp_suffix ≡ suffix)

  attempt-db : (s : DiskStep) → Keeps HasDb (attempt s)
  attempt-db s = record { holds = λ w e. ground arith }

  fill_temp-db : (p : Text) (r : Reader) → Keeps HasDb (fill_temp p r)
  unfolding fill_temp
  fill_temp-db p r = record { holds = λ w e. ground arith }

  change_files-db : (f : FileMap → FileMap) → Keeps HasDb (change_files f)
  change_files-db f = record { holds = λ w e. e }

  store_steps-HasDb : (t f : Text) (r : Reader) → Keeps HasDb (store_steps t f r)
  unfolding store_steps
  store_steps-HasDb t f r =
      search (bind-Keeps, pure-Keeps, attempt-db, fill_temp-db, change_files-db) depth 12

pub store_mail-db : (i : ℕ) (m : Text) (r : Reader) (w : World) → (store_mail i m r w).1.db ≡ w.db
unfolding store_mail
store_mail-db i m r w =
    ((store_steps-HasDb w.db w.disk.temp_suffix (temp_path i m w) (mail_path m i) r).holds w
      (refl, refl)).0

pub store_mail-temp_path :
    (i : ℕ) (m : Text) (r : Reader) (w : World) (j : ℕ) (n : Text)
    → temp_path j n (store_mail i m r w).1 ≡ temp_path j n w
unfolding store_mail temp_path
store_mail-temp_path i m r w j n =
    rw
      ((store_steps-HasDb w.db w.disk.temp_suffix (temp_path i m w) (mail_path m i) r).holds w
        (refl, refl)).1
      refl

pub delete_mail-db : (p : Text) (w : World) → (delete_mail p w).1.db ≡ w.db
unfolding delete_mail
delete_mail-db p w = ground arith

pub delete_mail-temp_path :
    (p : Text) (w : World) (j : ℕ) (n : Text) → temp_path j n (delete_mail p w).1 ≡ temp_path j n w
unfolding delete_mail temp_path
delete_mail-temp_path p w j n =
    let kept : (delete_mail p w).1.disk.temp_suffix ≡ w.disk.temp_suffix = ground arith in
    rw kept refl

pub move_mail-db : (p m : Text) (i : ℕ) (w : World) → (move_mail p m i w).1.db ≡ w.db
unfolding move_mail
move_mail-db p m i w = ground arith

pub read_mail-db : (p : Text) (w : World) → (read_mail p w).1.db ≡ w.db
unfolding read_mail
read_mail-db p w = elim (Option-cases (lookup p w.disk.files)) [
  | inl missing ↦ ground (arith, missing)
  | inr (b, found) ↦ rw found (ground arith)
]
