-- ===== src/FileStore/Names.antt =====
-- When two messages have the same file name.
use yggmail_android.Base.{
  ℕ, ◌≡◌, ◌≢◌, refl, ap, sym, ◌∙◌, [], ◌∷◌, ◌++◌, Text, codes, same, arith, Bool-cases, inl, inr,
}
use yggmail_android.Base.Decimal.{format, scan_digits, scan_digits-format}
use yggmail_android.FileStore.Paths.{sanitize_mailbox_name, join, mail_path, replace_byte}

append-cancel : (s t u : Text) → s ++ t ≡ s ++ u → t ≡ u
append-cancel [] t u e = e
append-cancel (c ∷ s) t u e = append-cancel s t u (cc)

eml-injective : (i j : ℕ) → format i ++ codes ".eml" ≡ format j ++ codes ".eml" → i ≡ j
eml-injective i j e =
    sym (scan_digits-format i (codes ".eml") (λ m. unfold scan_digits in refl))
    ∙ ap (scan_digits 0) e
    ∙ scan_digits-format j (codes ".eml") (λ m. unfold scan_digits in refl)

join-injective : (directory s t : Text) → join directory s ≡ join directory t → s ≡ t
unfolding join
join-injective directory s t e = elim (Bool-cases (same directory (codes "."))) [
  | inl dot ↦ rw dot at e
  | inr name ↦ cc (append-cancel directory (b'/' ∷ s) (b'/' ∷ t) (rw name at e))
]

mail_path-injective : (mailbox : Text) (i j : ℕ) → mail_path mailbox i ≡ mail_path mailbox j → i ≡ j
unfolding mail_path
mail_path-injective mailbox i j e = eml-injective i j (join-injective _ _ _ e)

-- Two messages of one mailbox have different file names.
pub mail_path_distinct :
    (mailbox : Text) (i j : ℕ) → i ≢ j → mail_path mailbox i ≢ mail_path mailbox j
mail_path_distinct mailbox i j ne e = ne (mail_path-injective mailbox i j e)

replace_byte_idem :
    (old : ℕ) (s : Text) → replace_byte old b'_' (replace_byte old b'_' s) ≡ replace_byte old b'_' s
unfolding replace_byte
replace_byte_idem old [] = refl
replace_byte_idem old (c ∷ s) = ground (arith, replace_byte_idem old s)

-- A mailbox and the one whose name has '_' in place of each '/' have the same file names.
pub mail_path_collision :
    (mailbox : Text) (id : ℕ) → mail_path (replace_byte b'/' b'_' mailbox) id ≡ mail_path mailbox id
unfolding mail_path sanitize_mailbox_name
mail_path_collision mailbox id = rw (replace_byte_idem b'/' mailbox)
