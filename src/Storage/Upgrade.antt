-- ===== src/Storage/Upgrade.antt =====
-- RunMigrations of internal/storage/sqlite3/migrations.go: what it makes of a database of version 1, and
-- of one that it has migrated.
use yggmail_android.Base.{
  ℕ, zero, suc, ◌≤◌, ◌≡◌, refl, ap, sym, ◌∙◌, true, none, some, is_some, List, [], ◌∷◌, ◌++◌, map,
  All, any, same, ◌&&◌, ◌==◌, Bool, leb, arith, if_both, if◌then◌else◌, Option,
}
use yggmail_android.World.{Engine, MailRow, MailboxRow, QueueRow, Error, Result, ok, err}
use yggmail_android.World.Keeps.{err-not-ok}
use yggmail_android.Storage.Tables.{is_mail, has_mailbox}
use yggmail_android.Storage.Mails.{content_of}
use yggmail_android.Storage.Schema.{
  LegacyRow, MailsTable, absent, legacy, current, Schema, newest, get_schema_version, add_version,
  set_schema_version, upgraded, copy_rows, drop_cascade, recreate, upgrade_table, migrate_v1_to_v2,
  set_version, migrate_from, run_migrations, version_of,
}

-- A row that the new table takes.
abbrev pub IsSound : List MailboxRow → LegacyRow → Type 0
IsSound boxes r = (is_some r.mail ≡ true) × (has_mailbox r.mailbox boxes ≡ true)

-- Whether a queue entry is of a row.
abbrev pub is_of : QueueRow → LegacyRow → Bool
is_of q r = same r.mailbox q.mailbox && r.id == q.id

module _ (sql : Engine) where
  -- A row that has the columns of an old one; no file, and the length of its content as its size.
  abbrev pub IsCopy : LegacyRow → MailRow → Type 0
  IsCopy old new =
      (new.mailbox ≡ old.mailbox)
      × (new.id ≡ old.id)
      × (new.mail ≡ old.mail)
      × (new.mail_file ≡ none)
      × (new.size ≡ sql.length_of old.mailbox old.id (content_of old.mail))
      × (new.datetime ≡ old.datetime)
      × (new.seen ≡ old.seen)
      × (new.answered ≡ old.answered)
      × (new.flagged ≡ old.flagged)
      × (new.deleted ≡ old.deleted)

  abbrev pub AreCopies : List LegacyRow → List MailRow → Type 0
  AreCopies [] [] = Unit
  AreCopies (r ∷ rs) (m ∷ ms) = IsCopy r m × AreCopies rs ms
  AreCopies [] (m ∷ ms) = ⊥
  AreCopies (r ∷ rs) [] = ⊥

  map-upgraded-AreCopies : (rs : List LegacyRow) → AreCopies rs (map (upgraded sql) rs)
  map-upgraded-AreCopies [] = tt
  map-upgraded-AreCopies (r ∷ rs) =
      ((refl, refl, refl, refl, refl, refl, refl, refl, refl, refl), map-upgraded-AreCopies rs)

  copy_rows_sound :
      (boxes : List MailboxRow) (rs : List LegacyRow)
      → All (IsSound boxes) rs
      → copy_rows sql boxes rs ≡ ok (map (upgraded sql) rs)
  unfolding copy_rows
  copy_rows_sound boxes [] _ = refl
  copy_rows_sound boxes (r ∷ rs) (h, hs) = rw (h.0, h.1, copy_rows_sound boxes rs hs) refl

  upgraded-is_of :
      (q : QueueRow) (rs : List LegacyRow)
      → any (is_mail q.mailbox q.id) (map (upgraded sql) rs) ≡ any (is_of q) rs
  upgraded-is_of q [] = refl
  upgraded-is_of q (r ∷ rs) = rw (upgraded-is_of q rs) refl

  drop_cascade_empties :
      (rs : List LegacyRow) (qs : List QueueRow)
      → All (λ q. any (is_of q) rs ≡ true) qs
      → drop_cascade (map (upgraded sql) rs) qs ≡ []
  unfolding drop_cascade
  drop_cascade_empties rs [] _ = refl
  drop_cascade_empties rs (q ∷ qs) (h, hs) =
      rw (upgraded-is_of q rs, h) (drop_cascade_empties rs qs hs)

  -- RunMigrations, on a database of version 1 whose rows have a content and a mailbox, and whose queue
  -- entries are of its rows, succeeds and stores version 2: the messages are in the same order, each with
  -- its key, content, date and flags, without a file, and with the length of its content as its size.
  -- But every queue entry is deleted.
  pub run_migrations_legacy :
      (s : Schema) (rs : List LegacyRow)
      → get_schema_version s ≡ 1
      → s.mails ≡ legacy rs
      → All (IsSound s.mailboxes) rs
      → All (λ q. any (is_of q) rs ≡ true) s.queue
      → (ms : List MailRow) × AreCopies rs ms
        × (run_migrations sql s ≡ (
          ok tt,
          record s { versions = some (add_version 2 s.versions); mails = current ms; queue = [] },
        ))
  unfolding run_migrations migrate_v1_to_v2
  run_migrations_legacy s rs v m h q = (
    map (upgraded sql) rs,
    map-upgraded-AreCopies rs,
    ap (λ n. if leb 2 n then (ok tt, s) else migrate_from sql n s) v
        ∙ (ap (λ t. set_version (upgrade_table sql s t)) m
            ∙ (ap (λ x. set_version (recreate s x)) (copy_rows_sound s.mailboxes rs h)
                ∙ ap (λ qs. (ok tt, emptied qs)) (drop_cascade_empties rs s.queue q))),
  )
    where
      emptied : List QueueRow → Schema
      emptied qs = record s {
        versions = some (add_version 2 s.versions);
        mails = current (map (upgraded sql) rs);
        queue = qs;
      }

newest-append : (vs : List ℕ) (v : ℕ) → v ≤ newest (vs ++ v ∷ [])
unfolding newest
newest-append [] v = omega arith
newest-append (u ∷ []) v = omega arith
newest-append (u ∷ t ∷ vs) v = omega (arith, newest-append (t ∷ vs) v)

added_is_new : (o : Option (List ℕ)) → 2 ≤ version_of (some (add_version 2 o))
unfolding newest
added_is_new none = omega arith
added_is_new (some vs) = newest-append vs 2

module _ (sql : Engine) where
  run_current : (s : Schema) → 2 ≤ version_of s.versions → run_migrations sql s ≡ (ok tt, s)
  unfolding run_migrations
  run_current s h = let test : leb 2 (version_of s.versions) ≡ true = ground arith in rw test refl

  -- What one run leaves: nothing to do for another one, or the database as it was.
  abbrev pub Settled : Schema → Result (Unit {0}) × Schema → Type 0
  Settled s x =
      (x.0 ≡ ok tt → run_migrations sql x.1 ≡ (ok tt, x.1)) × ((e : Error) → x.0 ≡ err e → x.1 ≡ s)

  abbrev Untouched : Schema → Result (Unit {0}) × Schema → Type 0
  Untouched s x = (e : Error) → x.0 ≡ err e → x.1 ≡ s

  set_version-Settled :
      (s : Schema) (x : Result (Unit {0}) × Schema) → Untouched s x → Settled s (set_version x)
  unfolding set_schema_version
  set_version-Settled s (err e, t) h = (λ g. absurd (err-not-ok e tt g), h)
  set_version-Settled s (ok _, t) h = (
    λ _. run_current (set_schema_version 2 t) (added_is_new t.versions),
    λ e g. absurd (err-not-ok e tt (sym g)),
  )

  recreate-Untouched : (s : Schema) (x : Result (List MailRow)) → Untouched s (recreate s x)
  recreate-Untouched s (err e) = λ _ _. refl
  recreate-Untouched s (ok ms) = λ e g. absurd (err-not-ok e tt (sym g))

  upgrade-Untouched : (s : Schema) (t : MailsTable) → Untouched s (upgrade_table sql s t)
  upgrade-Untouched s absent = λ _ _. refl
  upgrade-Untouched s (current ms) = λ _ _. refl
  upgrade-Untouched s (legacy rs) = recreate-Untouched s (copy_rows sql s.mailboxes rs)

  migrate-Settled : (s : Schema) (v : ℕ) → Settled s (migrate_from sql v s)
  unfolding migrate_v1_to_v2
  migrate-Settled s zero = (λ g. absurd (err-not-ok _ tt g), λ _ _. refl)
  migrate-Settled s (suc v) =
      set_version-Settled s (upgrade_table sql s s.mails) (upgrade-Untouched s s.mails)

  -- RunMigrations either succeeds, and then a second run succeeds and changes nothing, or it fails and
  -- leaves the database as it was.
  pub run_migrations_again :
      (s : Schema)
      → ((run_migrations sql s).0 ≡ ok tt
          → run_migrations sql (run_migrations sql s).1 ≡ (ok tt, (run_migrations sql s).1))
        × ((e : Error) → (run_migrations sql s).0 ≡ err e → (run_migrations sql s).1 ≡ s)
  run_migrations_again s =
      unfold run_migrations in
      if_both (Settled s) (leb 2 (version_of s.versions)) _ _
        (λ h. (λ _. run_current s (ground (arith, h)), λ _ _. refl))
        (λ _. migrate-Settled s (version_of s.versions))
