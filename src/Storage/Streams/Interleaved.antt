-- ===== src/Storage/Streams/Interleaved.antt =====
-- MailCreateFromStream of internal/storage/sqlite3/table_mails.go in two parts, and what two deliveries at
-- once can do.
use yggmail_android.Base.{
  ℕ, ◌+◌, ◌≤◌, ◌≡◌, refl, ap, sym, ◌∙◌, drop, Bool-cases, inl, inr, true, false, ◌&&◌, none, some,
  List, [], ◌∷◌, ◌++◌, Text, same_refl, length, length-take, take, take-append-drop, ltb, arith,
  max,
}
use mathlib.Core.Option
use yggmail_android.World.{
  World, Reader, Result, ok, err, pure, Action, resume, small_message_threshold, MailRow,
}
use yggmail_android.FileStore.{set_files, temp_path}
use yggmail_android.FileStore.Files.{lookup}
use yggmail_android.FileStore.Paths.{mail_path}
use yggmail_android.FileStore.Contents.{store_fails, stored_files, stored_lookup}
use yggmail_android.Storage.Tables.{has_mailbox, next_id}
use yggmail_android.Storage.Rows.{has_mail-next_id}
use yggmail_android.Storage.Contents.{in_table, find_mail-insert}
use yggmail_android.Storage.Mails.{
  new_row, mail_create, stream_store, mail_create_from_stream, Begun, stored_small, stored_file,
  stream_begin, stream_finish,
}
use yggmail_android.Storage.Streams.{stream_store_eq, stream_insert_eq}

resume-id : (x : Result ℕ × World) → resume pure x ≡ x
resume-id (ok i, w) = refl
resume-id (err e, w) = refl

resume_made {ℓ} :
    {A : Type ℓ} (g : Begun → Action ℕ) (made : A → Begun) (x : Result A × World)
    → resume (λ a. g (made a)) x ≡ resume g (resume (λ a. pure (made a)) x)
resume_made g made (ok a, w) = refl
resume_made g made (err e, w) = refl

-- The two parts of MailCreateFromStream make up the whole.
pub stream_parts :
    (m : Text) (r : Reader) (w : World)
    → mail_create_from_stream m r w ≡ resume (stream_finish m) (stream_begin m r w)
unfolding mail_create_from_stream stream_begin stream_finish
stream_parts m r w =
    let limit = small_message_threshold + 1 in
    let whole = take limit r.content ++ drop limit r.content in
    elim (Bool-cases (r.broken && ltb (length r.content) limit)) [
      | inl unreadable ↦ rw unreadable refl
      | inr readable ↦
          elim (Bool-cases (ltb (length (take limit r.content)) small_message_threshold)) [
            | inl small ↦
                rw (readable, small)
                  (sym (resume-id (mail_create m whole w))
                    ∙ resume_made (stream_finish m) stored_small (mail_create m whole w))
            | inr large ↦
                rw (readable, large)
                  (resume_made (stream_finish m) stored_file
                    (stream_store m (record r { content = whole }) w))
          ]
    ]

-- Two deliveries to one mailbox, A and B, of which B reads the next ID before A has inserted its row.
unfoldable pub insert_second : Text → Result Begun → Result ℕ × World → Result ℕ × Result ℕ × World
unfolding stream_finish
insert_second m begun_b (inserted_a, w) =
    let (inserted_b, w') = resume (stream_finish m) (begun_b, w) in (inserted_a, inserted_b, w')

unfoldable pub insert_both :
    Text → Result Begun → Result Begun × World → Result ℕ × Result ℕ × World
unfolding stream_finish
insert_both m begun_a (begun_b, w) = insert_second m begun_b (resume (stream_finish m) (begun_a, w))

unfoldable pub interleaved : Text → Reader → Reader → World → Result ℕ × Result ℕ × World
unfolding stream_begin
interleaved m a b w =
    let (begun_a, w1) = stream_begin m a w in insert_both m begun_a (stream_begin m b w1)

stream_begin_large :
    (m : Text) (r : Reader) (w : World)
    → store_fails w r ≡ false
    → small_message_threshold ≤ length r.content
    → let i = next_id m w.db.mails in
      stream_begin m r w ≡ (
        ok (stored_file (mail_path m i, length r.content)),
        set_files (λ _. stored_files i m r w) w,
      )
unfolding stream_begin
stream_begin_large m r w fine large =
    let limit = small_message_threshold + 1 in
    let not_small : ltb (length (take limit r.content)) small_message_threshold ≡ false =
      ground (arith, length-take limit r.content) in
    let whole : r.broken ≡ false = ground arith in
    let readable : (r.broken && ltb (length r.content) limit) ≡ false = ground arith in
    rw (readable, not_small)
      (ap
          (λ c.
            resume (λ stored. pure (stored_file stored))
              (stream_store m (record r { content = c }) w))
          (take-append-drop limit r.content)
        ∙ ap (resume (λ stored. pure (stored_file stored))) (stream_store_eq m r w fine))

next_id-append :
    (m : Text) (rs : List MailRow) (x : MailRow)
    → x.mailbox ≡ m
    → next_id m (rs ++ x ∷ []) ≡ max (next_id m rs) (x.id + 1)
unfolding next_id
next_id-append m [] x em = ground (arith, same_refl m)
next_id-append m (r ∷ rs) x em = ground (arith, next_id-append m rs x em)

interleaved_eq :
    (m : Text) (a b : Reader) (w : World)
    → has_mailbox m w.db.mailboxes ≡ true
    → store_fails w a ≡ false
    → store_fails w b ≡ false
    → small_message_threshold ≤ length a.content
    → small_message_threshold ≤ length b.content
    → let i = next_id m w.db.mails in
      let path = mail_path m i in
      let fs = stored_files i m b (set_files (λ _. stored_files i m a w) w) in
      let row = λ (k : ℕ) (r : Reader). new_row m k none (some path) (length r.content) w.now in
      interleaved m a b w ≡ (
        ok i,
        ok (i + 1),
        record (set_files (λ _. fs) w) {
          db = record w.db { mails = (w.db.mails ++ row i a ∷ []) ++ row (i + 1) b ∷ [] };
        },
      )
unfolding interleaved insert_both insert_second stream_finish
interleaved_eq m a b w box fa fb la lb =
    let i = next_id m w.db.mails in
    let path = mail_path m i in
    let w1 = set_files (λ _. stored_files i m a w) w in
    let w2 = set_files (λ _. stored_files i m b w1) w1 in
    let row = λ (k : ℕ) (r : Reader). new_row m k none (some path) (length r.content) w.now in
    let w3 = record w2 { db = record w.db { mails = w.db.mails ++ row i a ∷ [] } } in
    let next : next_id m (w.db.mails ++ row i a ∷ []) ≡ i + 1 =
      ground (arith, next_id-append m w.db.mails (row i a) refl) in
    ap (λ x. insert_both m x.0 (stream_begin m b x.1)) (stream_begin_large m a w fa la)
    ∙ ap (insert_both m (ok (stored_file (path, length a.content))))
        (stream_begin_large m b w1 fb lb)
    ∙ ap (insert_second m (ok (stored_file (path, length b.content))))
        (stream_insert_eq m path (length a.content) w2 box)
    ∙ ap (λ x. (ok i, x.0, x.1)) (stream_insert_eq m path (length b.content) w3 box)
    ∙ rw next refl

-- Interleaved deliveries of two messages of 10 MB or more to a mailbox that exists, none of which fails,
-- both report success, under two IDs, but both rows name the one file, which holds the content of B:
-- the content of A is lost.
pub interleaved_loses :
    (m : Text) (a b : Reader) (w : World)
    → has_mailbox m w.db.mailboxes ≡ true
    → store_fails w a ≡ false
    → store_fails w b ≡ false
    → small_message_threshold ≤ length a.content
    → small_message_threshold ≤ length b.content
    → let i = next_id m w.db.mails in
      let path = mail_path m i in
      let (inserted_a, inserted_b, w') = interleaved m a b w in
      (inserted_a ≡ ok i)
      × (inserted_b ≡ ok (i + 1))
      × (Option.map (λ (r : MailRow). r.mail_file) (in_table m i w') ≡ some (some path))
      × (Option.map (λ (r : MailRow). r.mail_file) (in_table m (i + 1) w') ≡ some (some path))
      × (lookup path w'.disk.files ≡ some b.content)
interleaved_loses m a b w box fa fb la lb =
    let i = next_id m w.db.mails in
    let path = mail_path m i in
    let w1 = set_files (λ _. stored_files i m a w) w in
    let row = λ (k : ℕ) (r : Reader). new_row m k none (some path) (length r.content) w.now in
    let rows = w.db.mails ++ row i a ∷ [] in
    let next : next_id m rows ≡ i + 1 =
      ground (arith, next_id-append m w.db.mails (row i a) refl) in
    let first =
      find_mail-insert (row i a) w.db.mails m i (has_mail-next_id m w.db.mails i (omega arith)) in
    let second = λ (k : ℕ).
      find_mail-insert (row (i + 1) b) rows m k (has_mail-next_id m rows (i + 1) (omega arith)) in
    rw (interleaved_eq m a b w box fa fb la lb) (
      refl,
      refl,
      ground (arith, first, second i, same_refl m),
      ground (arith, second (i + 1), same_refl m),
      stored_lookup path (temp_path i m w1) path b.content w1.disk.files ∙ rw (same_refl path) refl,
    )
