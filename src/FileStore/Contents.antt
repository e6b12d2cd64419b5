-- ===== src/FileStore/Contents.antt =====
-- What the file store's operations do to the files.
use yggmail_android.Base.{
  ℕ, ◌≡◌, refl, ap, ◌∙◌, Bool, true, false, ◌||◌, none, some, Text, Bytes, same, same_refl, length,
  if◌then◌else◌, arith, Bool-cases, Option-cases, inl, inr,
}
use yggmail_android.World.{
  World, Reader, Result, ok, err, DiskStep, mkdir, create_temp, write, sync, close, rename, remove,
}
use yggmail_android.FileStore.{
  store_mail, store_steps, fill_temp, temp_path, read_mail, delete_mail, move_mail, set_files,
  discard,
}
use yggmail_android.FileStore.Files.{FileMap, lookup, erase, put, lookup-erase, lookup-put}
use yggmail_android.FileStore.Paths.{mail_path, contains_dots}
use yggmail_android.FileStore.Safety.{mail_path-IsSafe}

-- The system calls of StoreMail that can fail.
abbrev pub store_fails : World → Reader → Bool
store_fails w r =
    w.disk.refuses mkdir
    || (w.disk.refuses create_temp
        || (r.broken
            || (w.disk.refuses write
                || (w.disk.refuses sync || (w.disk.refuses close || w.disk.refuses rename)))))

-- What StoreMail leaves.
abbrev pub Stored : ℕ → Text → Reader → World → Result (Text × ℕ) × World → Type 0
Stored i m r w (ok (path, size), w') =
    (path ≡ mail_path m i)
    × (size ≡ length r.content)
    × ((q : Text)
        → lookup q w'.disk.files ≡ (
            if same (mail_path m i) q
            then some r.content
            else if same (temp_path i m w) q
            then none
            else lookup q w.disk.files))
Stored i m r w (err _, w') =
    (q : Text) → same (temp_path i m w) q ≡ false → lookup q w'.disk.files ≡ lookup q w.disk.files

-- The temporary file is put, and perhaps erased again.
temp_only :
    (p q : Text) (b : Bytes) (w : World) (keep : Bool)
    → same p q ≡ false
    → lookup q (if keep then put p b w.disk.files else erase p (put p b w.disk.files))
      ≡ lookup q w.disk.files
temp_only p q b w keep ne =
    ground (arith, lookup-put p q b w.disk.files, lookup-erase p q (put p b w.disk.files))

discard-lookup :
    (p q : Text) (b : Bytes) (w : World)
    → same p q ≡ false
    → lookup q (discard p (set_files (put p b) w)).disk.files ≡ lookup q w.disk.files
discard-lookup p q b w ne = elim (Bool-cases (w.disk.refuses remove)) [
  | inl keep ↦ rw keep (temp_only p q b w true ne)
  | inr gone ↦ rw gone (temp_only p q b w false ne)
]

pub stored_lookup :
    (f t q : Text) (b : Bytes) (fs : FileMap)
    → lookup q (put f b (erase t (put t b fs)))
      ≡ (if same f q then some b else if same t q then none else lookup q fs)
stored_lookup f t q b fs = ground (
  arith,
  lookup-put f q b (erase t (put t b fs)),
  lookup-erase t q (put t b fs),
  lookup-put t q b fs,
)

-- StoreMail is atomic: on success it has stored the content under the message's path, its temporary
-- file is gone and no other file has changed; on an error every file but the temporary one is as
-- before.
pub store_mail-Stored :
    (i : ℕ) (m : Text) (r : Reader) (w : World) → Stored i m r w (store_mail i m r w)
unfolding store_mail store_steps fill_temp
store_mail-Stored i m r w = elim (Bool-cases (w.disk.refuses mkdir)) [
  | inl no_dir ↦ rw no_dir (λ q _. refl)
  | inr dir ↦ elim (Bool-cases (w.disk.refuses create_temp)) [
    | inl no_temp ↦ rw (dir, no_temp) (λ q _. refl)
    | inr temp ↦ elim (Bool-cases r.broken) [
      | inl broken ↦
          rw (dir, temp, broken) (λ q ne. discard-lookup (temp_path i m w) q r.content w ne)
      | inr whole ↦
          elim (Bool-cases
            (w.disk.refuses write || (w.disk.refuses sync || w.disk.refuses close))) [
              | inl bad ↦
                  rw (dir, temp, whole, bad)
                    (λ q ne. discard-lookup (temp_path i m w) q r.content w ne)
              | inr good ↦ elim (Bool-cases (w.disk.refuses rename)) [
                | inl no_name ↦
                    rw (dir, temp, whole, good, no_name)
                      (λ q ne. temp_only (temp_path i m w) q r.content w true ne)
                | inr name ↦
                    rw (dir, temp, whole, good, name)
                      (
                        refl,
                        refl,
                        λ q.
                            stored_lookup (mail_path m i) (temp_path i m w) q r.content
                              w.disk.files,
                      )
              ]
            ]
    ]
  ]
]

-- The files that a successful StoreMail leaves.
abbrev pub stored_files : ℕ → Text → Reader → World → FileMap
stored_files i m r w =
    put (mail_path m i) r.content
      (erase (temp_path i m w) (put (temp_path i m w) r.content w.disk.files))

-- Where no system call and no read fails, StoreMail succeeds.
pub store_mail_succeeds :
    (i : ℕ) (m : Text) (r : Reader) (w : World)
    → store_fails w r ≡ false
    → store_mail i m r w
      ≡ (ok (mail_path m i, length r.content), set_files (λ _. stored_files i m r w) w)
unfolding store_mail store_steps fill_temp
store_mail_succeeds i m r w h =
    let parts : (w.disk.refuses mkdir ≡ false)
        × (w.disk.refuses create_temp ≡ false)
        × (r.broken ≡ false)
        × ((w.disk.refuses write || (w.disk.refuses sync || w.disk.refuses close)) ≡ false)
        × (w.disk.refuses rename ≡ false) =
      ground arith in
    rw (parts.0, parts.1, parts.2, parts.3, parts.4) refl

pub read_mail_found :
    (p : Text) (b : Bytes) (w : World)
    → contains_dots p ≡ false
    → lookup p w.disk.files ≡ some b
    → w.disk.refuses DiskStep.read ≡ false
    → read_mail p w ≡ (ok (record { content = b; broken = false }), w)
unfolding read_mail
read_mail_found p b w dots found may = rw (dots, found, may) refl

-- A stored message is read back: if no system call fails, StoreMail returns a path that ReadMail
-- accepts, and what it reads is the content.
pub read-store :
    (i : ℕ) (m : Text) (r : Reader) (w : World)
    → store_fails w r ≡ false
    → w.disk.refuses DiskStep.read ≡ false
    → ((store_mail i m r w).0 ≡ ok (mail_path m i, length r.content))
      × ((read_mail (mail_path m i) (store_mail i m r w).1).0
          ≡ ok (record { content = r.content; broken = false }))
read-store i m r w h k = rw (store_mail_succeeds i m r w h) (
  refl,
  ap (λ x. x.0)
      (read_mail_found (mail_path m i) r.content (set_files (λ _. stored_files i m r w) w)
        (mail_path-IsSafe m i)
        (stored_lookup (mail_path m i) (temp_path i m w) (mail_path m i) r.content w.disk.files
          ∙ rw (same_refl (mail_path m i)))
        k),
)

-- DeleteMail leaves the other files.
pub delete_mail_else :
    (p q : Text) (w : World)
    → same p q ≡ false
    → lookup q (delete_mail p w).1.disk.files ≡ lookup q w.disk.files
unfolding delete_mail
delete_mail_else p q w ne = elim (Bool-cases (contains_dots p)) [
  | inl dots ↦ rw dots refl
  | inr fine ↦ elim (Option-cases (lookup p w.disk.files)) [
    | inl absent ↦ rw (fine, absent) refl
    | inr (b, found) ↦ elim (Bool-cases (w.disk.refuses remove)) [
      | inl kept ↦ rw (fine, found, kept) refl
      | inr gone ↦ rw (fine, found, gone) (ground (arith, lookup-erase p q w.disk.files, ne))
    ]
  ]
]

-- What MoveMail leaves.
abbrev pub Moved : Text → Text → ℕ → World → Result Text × World → Type 0
Moved p m i w (ok new, w') =
    (new ≡ mail_path m i)
    × (lookup new w'.disk.files ≡ lookup p w.disk.files)
    × ((q : Text)
        → same new q ≡ false
        → lookup q w'.disk.files ≡ (if same p q then none else lookup q w.disk.files))
Moved p m i w (err _, w') = w' ≡ w

-- MoveMail: on success the content of the old path has the new one, the old path is gone unless it is
-- the new one, and no other file changes. On an error nothing changes.
pub move_mail-Moved : (p m : Text) (i : ℕ) (w : World) → Moved p m i w (move_mail p m i w)
unfolding move_mail
move_mail-Moved p m i w = elim (Bool-cases (contains_dots p)) [
  | inl dots ↦ rw dots refl
  | inr fine ↦ elim (Option-cases (lookup p w.disk.files)) [
    | inl absent ↦ rw (fine, absent) refl
    | inr (b, found) ↦ elim (Bool-cases (w.disk.refuses mkdir || w.disk.refuses rename)) [
      | inl bad ↦ rw (fine, found, bad) refl
      | inr good ↦
          rw (fine, found, good)
            (
              refl,
              ground (
                arith,
                lookup-put (mail_path m i) (mail_path m i) b (erase p w.disk.files),
                same_refl (mail_path m i),
              ),
              λ q ne. ground (
                arith,
                lookup-put (mail_path m i) q b (erase p w.disk.files),
                lookup-erase p q w.disk.files,
              ),
            )
    ]
  ]
]
