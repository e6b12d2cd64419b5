-- ===== src/Storage/Sequence.antt =====
-- Sequence numbers of internal/storage/sqlite3/table_mails.go: MailSelect gives one, MailIDForSeq
-- finds the message again.
use yggmail_android.Base.{
  ℕ, ◌+◌, ◌≤◌, ◌≡◌, refl, ap, sym, is_some, ◌∙◌, Bool-cases, inl, inr, true, some, List, [], ◌∷◌,
  Text, same, arith,
}
use yggmail_android.World.{World, ok, MailRow}
use yggmail_android.Storage.Tables.{is_mail, has_mail, seq_of, id_of_seq, or_no_rows}
use yggmail_android.Storage.Contents.{find_mail-has_mail, in_table}
use yggmail_android.Storage.Mails.{mail_select, mail_id_for_seq, select_row}

seq_of_found :
    (m : Text) (i : ℕ) (rs : List MailRow) (k : ℕ)
    → has_mail m i rs ≡ true
    → (n : ℕ) × (seq_of m i rs k ≡ k + n) × (1 ≤ n) × (id_of_seq m n rs ≡ some i)
unfolding seq_of id_of_seq
seq_of_found m i [] k h = cc
seq_of_found m i (r ∷ rs) k h = elim (Bool-cases (is_mail m i r)) [
  | inl here ↦ (1, ground (arith, here), omega arith, ground (arith, here))
  | inr other ↦ elim (Bool-cases (same r.mailbox m)) [
    | inl box ↦
        let (n, e, p, f) = seq_of_found m i rs (k + 1) (ground (arith, other)) in
        (n + 1, ground (arith, other, box, e), omega arith, ground (arith, other, box, f))
    | inr away ↦
        let (n, e, p, f) = seq_of_found m i rs k (ground (arith, other)) in
        (n, ground (arith, other, away, e), p, ground (arith, other, away, f))
  ]
]

-- MailSelect of a message that is in the table returns it with a sequence number of 1 or more, from
-- which MailIDForSeq returns its ID.
pub mail_select_seq :
    (m : Text) (i : ℕ) (r : MailRow) (w : World)
    → in_table m i w ≡ some r
    → (n : ℕ) × (mail_select m i w ≡ (ok (select_row n r), w))
      × (1 ≤ n)
      × (mail_id_for_seq m n w ≡ (ok i, w))
unfolding mail_select mail_id_for_seq
mail_select_seq m i r w found =
    let (n, e, p, f) =
      seq_of_found m i w.db.mails 0 (sym (find_mail-has_mail m i w.db.mails) ∙ ap is_some found) in
    let plain : 0 + n ≡ n = omega arith in
    (n, selected n (e ∙ plain), p, ap (λ o. (or_no_rows o, w)) f)
  where
    selected : (n : ℕ) → seq_of m i w.db.mails 0 ≡ n → mail_select m i w ≡ (ok (select_row n r), w)
    selected n e = rw (found, e) refl
