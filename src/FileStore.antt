-- ===== src/FileStore.antt =====
-- internal/storage/filestore/filestore.go: mail files under a base path. A path that the database
-- holds is relative to that path; `Disk.refuses` says which system calls fail.
pub mod Paths
pub mod Files
pub mod Keeps
pub mod Safety
pub mod Names
pub mod Contents
pub mod Cleanup
use yggmail_android.Base.{
  ℕ, ◌+◌, Bool, true, false, ◌&&◌, ◌||◌, not, none, some, [], ◌∷◌, ◌++◌, List, Text, Bytes, codes,
  same, length, filter, any, ◌==◌, if◌then◌else◌, Option,
}
use yggmail_android.Base.Decimal.{format}
use yggmail_android.World.{
  Error, invalid_path, disk_failed, read_failed, file_not_found, Result, ok, err, DiskStep, mkdir,
  create_temp, write, sync, close, rename, remove, remove_orphan, read, Disk, World, Reader, Action,
  fail, pure, ◌>>=◌, ◌>>◌,
}
use Files.{FileMap, lookup, erase, put}
use Paths.{sanitize_mailbox_name, join, mail_path, contains_dots, is_eml, is_within}

-- A system call that may fail.
abbrev pub attempt : DiskStep → Action (Unit {0})
attempt s w = if w.disk.refuses s then (err disk_failed, w) else (ok tt, w)

abbrev pub set_files : (FileMap → FileMap) → World → World
set_files f w = record w { disk = record w.disk { files = f w.disk.files } }

abbrev pub change_files : (FileMap → FileMap) → Action (Unit {0})
change_files f w = (ok tt, set_files f w)

-- The name that os.CreateTemp gives the temporary file.
unfoldable pub temp_path : ℕ → Text → World → Text
unfolding join
temp_path mail_id mailbox w =
    join (sanitize_mailbox_name mailbox)
      (codes ".tmp_" ++ format mail_id ++ codes "_" ++ w.disk.temp_suffix)

-- The deferred cleanup: the error of os.Remove is ignored.
abbrev pub discard : Text → World → World
discard p w = if w.disk.refuses remove then w else set_files (erase p) w

-- Writing the temporary file, up to its Close; a failure runs the deferred cleanup.
unfoldable pub fill_temp : Text → Reader → Action (Unit {0})
fill_temp temp reader w =
    let w' = set_files (put temp reader.content) w in
    if reader.broken
    then (err read_failed, discard temp w')
    else if w.disk.refuses write || (w.disk.refuses sync || w.disk.refuses close)
    then (err disk_failed, discard temp w')
    else (ok tt, w')

-- StoreMail, between its two paths: the relative path, and the bytes written. A failed rename runs
-- no cleanup.
unfoldable pub store_steps : Text → Text → Reader → Action (Text × ℕ)
unfolding fill_temp
store_steps temp final reader = do
  attempt mkdir
  attempt create_temp
  fill_temp temp reader
  attempt rename
  change_files (λ fs. put final reader.content (erase temp fs))
  pure (final, length reader.content)

-- StoreMail
unfoldable pub store_mail : ℕ → Text → Reader → Action (Text × ℕ)
unfolding temp_path store_steps
store_mail mail_id mailbox reader w =
    store_steps (temp_path mail_id mailbox w) (mail_path mailbox mail_id) reader w

-- ReadMail
unfoldable pub read_mail : Text → Action Reader
read_mail path w =
    if contains_dots path then (err invalid_path, w) else elim (lookup path w.disk.files) [
      | none ↦ (err file_not_found, w)
      | some b ↦
          if w.disk.refuses read
          then (err disk_failed, w)
          else (ok (record { content = b; broken = false }), w)
    ]

-- DeleteMail: a file that is not there is no error.
unfoldable pub delete_mail : Text → Action (Unit {0})
delete_mail path w =
    if contains_dots path then (err invalid_path, w) else elim (lookup path w.disk.files) [
      | none ↦ (ok tt, w)
      | some _ ↦
          if w.disk.refuses remove then (err disk_failed, w) else (ok tt, set_files (erase path) w)
    ]

-- MoveMail: the new relative path. os.Rename replaces a file at the new path.
unfoldable pub move_mail : Text → Text → ℕ → Action Text
move_mail old_path new_mailbox new_mail_id w =
    if contains_dots old_path then (err invalid_path, w) else elim (lookup old_path w.disk.files) [
      | none ↦ (err file_not_found, w)
      | some b ↦
          let new_path = mail_path new_mailbox new_mail_id in
          if w.disk.refuses mkdir || w.disk.refuses rename
          then (err disk_failed, w)
          else (ok new_path, set_files (λ fs. put new_path b (erase old_path fs)) w)
    ]

unfoldable pub total_size : (Text → Bool) → FileMap → ℕ
total_size p [] = 0
total_size p ((q, b) ∷ fs) = (if p q && is_eml q then length b else 0) + total_size p fs

-- GetTotalSize
unfoldable pub get_total_size : World → ℕ
unfolding total_size
get_total_size w = total_size (λ _. true) w.disk.files

-- GetMailboxSize
unfoldable pub get_mailbox_size : Text → World → ℕ
unfolding total_size
get_mailbox_size mailbox w =
    let name = sanitize_mailbox_name mailbox in
    total_size (λ q. same name (codes ".") || is_within name q) w.disk.files

-- The files that CleanupOrphanedFiles deletes: mail files that the database does not name.
abbrev pub is_orphan : List Text → Text × Bytes → Bool
is_orphan valid_paths (q, _) = is_eml q && not (any (λ p. same p q) valid_paths)

-- The walk over the files, which stops at the first one that cannot be deleted: its error, the number of
-- files deleted, the bytes freed, and the files that are left.
unfoldable pub clean : (Text → Bool) → List Text → FileMap → Option Error × ℕ × ℕ × FileMap
clean keeps valid_paths [] = (none, 0, 0, [])
clean keeps valid_paths ((q, b) ∷ fs) =
    let (failure, count, size, left) = clean keeps valid_paths fs in
    if not (is_orphan valid_paths (q, b))
    then (failure, count, size, (q, b) ∷ left)
    else if keeps q
    then (some disk_failed, 0, 0, (q, b) ∷ fs)
    else (failure, count + 1, size + length b, left)

-- CleanupOrphanedFiles: its error, the number of files deleted and the bytes freed. The files come in
-- the order of the walk.
unfoldable pub cleanup_orphaned_files : List Text → World → (Option Error × ℕ × ℕ) × World
unfolding clean
cleanup_orphaned_files valid_paths w =
    let (failure, count, size, left) =
      clean (λ q. w.disk.refuses (remove_orphan q)) valid_paths w.disk.files in
    ((failure, count, size), set_files (λ _. left) w)
