-- ===== src/FileStore/Safety.antt =====
-- internal/storage/filestore/filestore.go: what its file names may hold, and its own check of them.
use yggmail_android.Base.{
  ℕ, ◌≡◌, ◌≢◌, refl, true, false, [], ◌∷◌, ◌++◌, Text, codes, ◌==◌, All, arith,
}
use yggmail_android.Base.Decimal.{format, is_digit, format-IsDigits}
use yggmail_android.FileStore.Paths.{
  replace_byte, replace_dots, trim_left, trim_right, trim_space, or_default, sanitize_mailbox_name,
  join, mail_path, contains_dots,
}

module _ (x : ℕ) where
  -- A text that lacks one byte.
  abbrev pub Lacks : Text → Type 0
  Lacks = All (λ c. (c == x) ≡ false)

  Lacks-replace_self : (s : Text) → (b'_' == x) ≡ false → Lacks (replace_byte x b'_' s)
  unfolding replace_byte
  Lacks-replace_self [] h = tt
  Lacks-replace_self (c ∷ s) h = (ground arith, Lacks-replace_self s h)

  Lacks-replace :
      (old : ℕ) (s : Text) → (b'_' == x) ≡ false → Lacks s → Lacks (replace_byte old b'_' s)
  unfolding replace_byte
  Lacks-replace old [] h _ = tt
  Lacks-replace old (c ∷ s) h (l, ls) = (ground arith, Lacks-replace old s h ls)

  Lacks-dots : (s : Text) → (b'_' == x) ≡ false → Lacks s → Lacks (replace_dots s)
  unfolding replace_dots
  Lacks-dots [] h _ = tt
  Lacks-dots (c ∷ []) h l = l
  Lacks-dots (c ∷ d ∷ s) h (l, (m, ls)) =
      ground (arith, Lacks-dots (d ∷ s) h (m, ls), Lacks-dots s h ls)

  Lacks-trim_left : (s : Text) → Lacks s → Lacks (trim_left s)
  unfolding trim_left
  Lacks-trim_left [] _ = tt
  Lacks-trim_left (c ∷ s) (l, ls) = ground (arith, Lacks-trim_left s ls)

  Lacks-trim_right : (s : Text) → Lacks s → Lacks (trim_right s)
  unfolding trim_right
  Lacks-trim_right [] _ = tt
  Lacks-trim_right (c ∷ s) (l, ls) = ground (arith, Lacks-trim_right s ls)

dots-replace :
    (old : ℕ) (s : Text)
    → (old == b'.') ≡ false
    → contains_dots s ≡ false
    → contains_dots (replace_byte old b'_' s) ≡ false
unfolding contains_dots replace_byte
dots-replace old [] h _ = refl
dots-replace old (c ∷ []) h _ = refl
dots-replace old (c ∷ d ∷ s) h k = ground (arith, dots-replace old (d ∷ s) h)

dots-replace_dots : (s : Text) → contains_dots (replace_dots s) ≡ false
unfolding contains_dots replace_dots
dots-replace_dots [] = refl
dots-replace_dots (c ∷ []) = refl
dots-replace_dots (c ∷ d ∷ []) = ground arith
dots-replace_dots (c ∷ d ∷ e ∷ s) =
    ground (arith, dots-replace_dots (d ∷ e ∷ s), dots-replace_dots (e ∷ s))

dots-trim_left : (s : Text) → contains_dots s ≡ false → contains_dots (trim_left s) ≡ false
unfolding contains_dots trim_left
dots-trim_left [] h = refl
dots-trim_left (c ∷ []) h = ground arith
dots-trim_left (c ∷ d ∷ s) h = ground (arith, dots-trim_left (d ∷ s))

dots-trim_right : (s : Text) → contains_dots s ≡ false → contains_dots (trim_right s) ≡ false
unfolding contains_dots trim_right
dots-trim_right [] h = refl
dots-trim_right (c ∷ []) h = ground arith
dots-trim_right (c ∷ d ∷ s) h = ground (arith, dots-trim_right (d ∷ s))

Lacks-or_default :
    (x : ℕ) (s : Text) → Lacks x (codes "default") → Lacks x s → Lacks x (or_default s)
unfolding or_default
Lacks-or_default x [] d _ = d
Lacks-or_default x (c ∷ s) d l = l

Lacks-trim_space : (x : ℕ) (s : Text) → Lacks x s → Lacks x (trim_space s)
unfolding trim_space
Lacks-trim_space x s l = Lacks-trim_right x (trim_left s) (Lacks-trim_left x s l)

dots-or_default : (s : Text) → contains_dots s ≡ false → contains_dots (or_default s) ≡ false
unfolding or_default contains_dots
dots-or_default [] h = refl
dots-or_default (c ∷ s) h = h

or_default-ne-nil : (s : Text) → or_default s ≢ []
unfolding or_default
or_default-ne-nil [] = cc
or_default-ne-nil (c ∷ s) = cc

-- A name that can be one directory below the base path: it is not empty, has no separator or colon,
-- and has no "..".
pub record IsSafe (name : Text) : Type 0 where
  pub some_text : name ≢ []
  pub no_slash : Lacks b'/' name
  pub no_backslash : Lacks 92 name
  pub no_colon : Lacks b':' name
  pub no_dots : contains_dots name ≡ false

-- A sanitized mailbox name, whatever the mailbox is called, is not empty and has no '/', no '\', no
-- ':' and no '..'.
pub sanitize_mailbox_name-IsSafe : (mailbox : Text) → IsSafe (sanitize_mailbox_name mailbox)
unfolding sanitize_mailbox_name
sanitize_mailbox_name-IsSafe mailbox = record {
  some_text = or_default-ne-nil _;
  no_slash =
      Lacks-or_default b'/' _ (refl, (refl, (refl, (refl, (refl, (refl, (refl, tt)))))))
        (Lacks-trim_space b'/' _ (
          Lacks-replace b'/' b':' _ refl (
            Lacks-dots b'/' _ refl
              (Lacks-replace b'/' 92 _ refl (Lacks-replace_self b'/' mailbox refl)))));
  no_backslash =
      Lacks-or_default 92 _ (refl, (refl, (refl, (refl, (refl, (refl, (refl, tt)))))))
        (Lacks-trim_space 92 _
          (Lacks-replace 92 b':' _ refl (Lacks-dots 92 _ refl (Lacks-replace_self 92 _ refl))));
  no_colon =
      Lacks-or_default b':' _ (refl, (refl, (refl, (refl, (refl, (refl, (refl, tt)))))))
        (Lacks-trim_space b':' _ (Lacks-replace_self b':' _ refl));
  no_dots = dots-or_default _ (dots-trim_space _ (dots-replace b':' _ refl (dots-replace_dots _)));
}
  where
    dots-trim_space : (s : Text) → contains_dots s ≡ false → contains_dots (trim_space s) ≡ false
    dots-trim_space s h = unfold trim_space in (dots-trim_right (trim_left s) (dots-trim_left s h))

-- The file name of a message, behind its directory.
dots-eml : (s : Text) → All (λ c. is_digit c ≡ true) s → contains_dots (s ++ codes ".eml") ≡ false
unfolding contains_dots
dots-eml [] _ = refl
dots-eml (c ∷ []) (h, _) = ground arith
dots-eml (c ∷ d ∷ s) (h, hs) = ground (arith, dots-eml (d ∷ s) hs)

dots-join :
    (s t : Text)
    → contains_dots s ≡ false
    → contains_dots t ≡ false
    → contains_dots (s ++ b'/' ∷ t) ≡ false
unfolding contains_dots
dots-join [] [] h k = refl
dots-join [] (d ∷ t) h k = ground arith
dots-join (c ∷ []) [] h k = ground arith
dots-join (c ∷ []) (d ∷ t) h k = ground arith
dots-join (c ∷ d ∷ s) t h k = ground (arith, dots-join (d ∷ s) t)

-- The path that StoreMail and MoveMail return is never refused as a path with "..".
pub mail_path-IsSafe : (mailbox : Text) (id : ℕ) → contains_dots (mail_path mailbox id) ≡ false
unfolding mail_path join
mail_path-IsSafe mailbox id = ground (
  arith,
  dots-eml (format id) (format-IsDigits id),
  dots-join (sanitize_mailbox_name mailbox) (format id ++ codes ".eml")
      (sanitize_mailbox_name-IsSafe mailbox).no_dots,
)
