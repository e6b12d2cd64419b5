-- ===== src/Imap/Flags.antt =====
-- internal/imapserver/mailbox.go: which flags the operations set, and what they refuse.
use yggmail_android.Base.{
  ℕ, ◌≡◌, refl, ap, ◌∙◌, Bool, true, false, not, Option, none, some, List, [], ◌∷◌, ◌++◌, Text,
  same, same_refl, ◌==◌, ◌&&◌, if◌then◌else◌, arith, any,
}
use mathlib.Core.Option
use yggmail_android.World.{World, ok, err, nil_dereference, protected_folder, MailRow}
use yggmail_android.Storage.Mails.{Mail}
use yggmail_android.Storage.Queue.{outbox}
use yggmail_android.Storage.Contents.{in_table, mail_update_flags_lem}
use yggmail_android.Imap.SeqSet.{Seq, get_ids_from_seq_set}
use yggmail_android.Imap.Mailbox.{
  Flag, seen, answered, flagged, deleted, other, FlagsOp, set_flags, is_removal, set_flag, set_each,
  change_flag, change_flags, update_each, update_messages_flags, copy_messages, move_messages,
  mail_to_change, write_flags,
}

-- Whether two flags are the same.
unfoldable pub is_flag : Flag → Flag → Bool
is_flag seen seen = true
is_flag answered answered = true
is_flag flagged flagged = true
is_flag deleted deleted = true
is_flag other other = true
is_flag _ _ = false

abbrev pub changed : FlagsOp → List Flag → Flag → Bool → Bool
changed op flags flag old = if any (is_flag flag) flags then not (is_removal op) else old

-- Of a mail whose flags are changed, each flag named is on, or off for a removal; the other flags,
-- the ID and the content stay.
pub change_flags_lem :
    (op : FlagsOp) (flags : List Flag) (m : Mail)
    → let m' = change_flags op flags m in
      (m'.seen ≡ changed op flags seen m.seen)
      × (m'.answered ≡ changed op flags answered m.answered)
      × (m'.flagged ≡ changed op flags flagged m.flagged)
      × (m'.deleted ≡ changed op flags deleted m.deleted)
      × (m'.id ≡ m.id)
      × (m'.mail ≡ m.mail)
      × (m'.mail_file ≡ m.mail_file)
unfolding change_flags is_flag
change_flags_lem op [] m = (refl, refl, refl, refl, refl, refl, refl)
change_flags_lem op (seen ∷ flags) m =
    ground (arith, change_flags_lem op flags (change_flag op seen m))
change_flags_lem op (answered ∷ flags) m =
    ground (arith, change_flags_lem op flags (change_flag op answered m))
change_flags_lem op (flagged ∷ flags) m =
    ground (arith, change_flags_lem op flags (change_flag op flagged m))
change_flags_lem op (deleted ∷ flags) m =
    ground (arith, change_flags_lem op flags (change_flag op deleted m))
change_flags_lem op (other ∷ flags) m =
    ground (arith, change_flags_lem op flags (change_flag op other m))

-- STORE FLAGS on a set that resolves to one message or more panics before it changes anything: the
-- loop works on a nil mail.
pub set_flags_panics :
    (fuel : ℕ) (uid : Bool) (name : Text) (set : List Seq) (flags : List Flag) (w : World) (id : ℕ)
    (ids : List ℕ) (w' : World)
    → get_ids_from_seq_set fuel uid name set w ≡ (ok (id ∷ ids), w')
    → update_messages_flags fuel uid name set set_flags flags w ≡ (err nil_dereference, w')
unfolding update_messages_flags update_each mail_to_change write_flags
set_flags_panics fuel uid name set flags w id ids w' h = rw h refl

-- The row that one pass of the flags' switch leaves.
abbrev pub only : Flag → MailRow → MailRow
only flag r = record r {
  seen = is_flag flag seen;
  answered = is_flag flag answered;
  flagged = is_flag flag flagged;
  deleted = is_flag flag deleted;
}

set_flag_lem :
    (name : Text) (id : ℕ) (flag : Flag) (w : World) (n : Text) (j : ℕ)
    → ((set_flag name id flag w).0 ≡ ok tt)
      × (in_table n j (set_flag name id flag w).1 ≡ (
          if same name n && id == j
          then Option.map (only flag) (in_table n j w)
          else in_table n j w))
unfolding set_flag is_flag
set_flag_lem name id seen w n j = (refl, mail_update_flags_lem name id true false false false w n j)
set_flag_lem name id answered w n j =
    (refl, mail_update_flags_lem name id false true false false w n j)
set_flag_lem name id flagged w n j =
    (refl, mail_update_flags_lem name id false false true false w n j)
set_flag_lem name id deleted w n j =
    (refl, mail_update_flags_lem name id false false false true w n j)
set_flag_lem name id other w n j =
    (refl, mail_update_flags_lem name id false false false false w n j)

set_flag_row :
    (name : Text) (id : ℕ) (flag : Flag) (w : World)
    → in_table name id (set_flag name id flag w).1 ≡ Option.map (only flag) (in_table name id w)
set_flag_row name id flag w =
    ground (arith, (set_flag_lem name id flag w name id).1, same_refl name)

only-only :
    (f g : Flag) (r : Option MailRow)
    → Option.map (only g) (Option.map (only f) r) ≡ Option.map (only g) r
only-only f g none = refl
only-only f g (some r) = refl

step_flag :
    (name : Text) (id : ℕ) (flag : Flag) (flags : List Flag) (w : World)
    → set_each name id (flag ∷ flags) w ≡ set_each name id flags (set_flag name id flag w).1
unfolding set_each
step_flag name id seen flags w = refl
step_flag name id answered flags w = refl
step_flag name id flagged flags w = refl
step_flag name id deleted flags w = refl
step_flag name id other flags w = refl

-- Of the flags of an upload only the last one is set: each pass of the loop writes all four columns
-- of the new message, and succeeds.
pub set_each_last :
    (name : Text) (id : ℕ) (flags : List Flag) (last : Flag) (w : World)
    → ((set_each name id (flags ++ last ∷ []) w).0 ≡ ok tt)
      × (in_table name id (set_each name id (flags ++ last ∷ []) w).1
          ≡ Option.map (only last) (in_table name id w))
unfolding set_each
set_each_last name id [] last w =
    rw (step_flag name id last [] w) (refl, set_flag_row name id last w)
set_each_last name id (flag ∷ flags) last w =
    let (fine, row) = set_each_last name id flags last (set_flag name id flag w).1 in
    rw (step_flag name id flag (flags ++ last ∷ []) w) (
      fine,
      row
          ∙ ap (Option.map (only last)) (set_flag_row name id flag w)
          ∙ only-only flag last (in_table name id w),
    )

-- COPY and MOVE into the Outbox are refused, and change nothing.
pub outbox_protected :
    (fuel : ℕ) (uid : Bool) (name : Text) (set : List Seq) (w : World)
    → (copy_messages fuel uid name set outbox w ≡ (err protected_folder, w))
      × (move_messages fuel uid name set outbox w ≡ (err protected_folder, w))
unfolding copy_messages move_messages same
outbox_protected fuel uid name set w = (refl, refl)
