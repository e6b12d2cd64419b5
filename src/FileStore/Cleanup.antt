-- ===== src/FileStore/Cleanup.antt =====
-- CleanupOrphanedFiles of internal/storage/filestore/filestore.go: what it deletes and what it reports.
use yggmail_android.Base.{
  ℕ, ◌+◌, is_some, Option, ◌≡◌, refl, Bool, true, ◌||◌, not, List, [], ◌∷◌, Text, same, same_refl,
  same→eq, length, any, arith, Bool-cases, inl, inr,
}
use yggmail_android.World.{World, remove_orphan, Error}
use yggmail_android.FileStore.{clean, cleanup_orphaned_files, total_size, get_total_size, is_orphan}
use yggmail_android.FileStore.Files.{FileMap, lookup}
use yggmail_android.FileStore.Paths.{is_eml}

module _ (keeps : Text → Bool) (valid : List Text) where
  lookup-clean :
      (q : Text) (fs : FileMap)
      → (not (is_eml q) || any (λ p. same p q) valid) ≡ true
      → lookup q (clean keeps valid fs).3 ≡ lookup q fs
  unfolding clean lookup
  lookup-clean q [] h = refl
  lookup-clean q ((p, b) ∷ fs) h = elim (Bool-cases (same p q)) [
    | inl e ↦ rw (same→eq p q e) (ground (arith, h, same_refl q))
    | inr ne ↦ ground (arith, ne, lookup-clean q fs h)
  ]

  clean-total_size :
      (fs : FileMap)
      → total_size (λ _. true) fs
        ≡ (clean keeps valid fs).2 + total_size (λ _. true) (clean keeps valid fs).3
  unfolding clean total_size
  clean-total_size [] = refl
  clean-total_size ((p, b) ∷ fs) = ground (arith, clean-total_size fs)

  clean_count :
      (fs : FileMap) → length fs ≡ (clean keeps valid fs).1 + length (clean keeps valid fs).3
  unfolding clean
  clean_count [] = refl
  clean_count ((p, b) ∷ fs) = ground (arith, clean_count fs)

  clean_left :
      (fs : FileMap)
      → any (is_orphan valid) (clean keeps valid fs).3 ≡ is_some (clean keeps valid fs).0
  unfolding clean
  clean_left [] = refl
  clean_left ((p, b) ∷ fs) = ground (arith, clean_left fs)

-- What CleanupOrphanedFiles leaves.
abbrev pub Cleaned : List Text → World → (Option Error × ℕ × ℕ) × World → Type 0
Cleaned valid w ((failure, count, size), w') =
    ((q : Text)
      → (not (is_eml q) || any (λ p. same p q) valid) ≡ true
      → lookup q w'.disk.files ≡ lookup q w.disk.files)
    × (length w.disk.files ≡ count + length w'.disk.files)
    × (get_total_size w ≡ size + get_total_size w')
    × (any (is_orphan valid) w'.disk.files ≡ is_some failure)
    × (w'.db ≡ w.db)

-- CleanupOrphanedFiles, whether it succeeds or stops at a file that it cannot delete: every path in the
-- list that it gets, and every path that is no mail file, has the content that it had; it reports the
-- number of files that are gone and the bytes by which the total size is less; a mail file that is not
-- in the list is left exactly if it reports an error. The database is as before.
pub cleanup_orphaned_files-Cleaned :
    (valid : List Text) (w : World) → Cleaned valid w (cleanup_orphaned_files valid w)
unfolding cleanup_orphaned_files get_total_size
cleanup_orphaned_files-Cleaned valid w =
    let keeps = λ (q : Text). w.disk.refuses (remove_orphan q) in
    (
      λ q h. lookup-clean keeps valid q w.disk.files h,
      clean_count keeps valid w.disk.files,
      clean-total_size keeps valid w.disk.files,
      clean_left keeps valid w.disk.files,
      refl,
    )
