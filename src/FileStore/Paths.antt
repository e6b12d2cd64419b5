-- ===== src/FileStore/Paths.antt =====
-- sanitizeMailboxName, and the file names that internal/storage/filestore/filestore.go builds.
-- Names are ASCII: strings.TrimSpace cuts the six ASCII spaces.
use yggmail_android.Base.{
  ℕ, Bool, false, ◌&&◌, ◌||◌, [], ◌∷◌, ◌++◌, Text, codes, same, ◌==◌, leb, if◌then◌else◌,
}
use yggmail_android.Base.Decimal.{format}

-- strings.ReplaceAll(s, old, new) for texts of one byte
unfoldable pub replace_byte : ℕ → ℕ → Text → Text
replace_byte old new [] = []
replace_byte old new (c ∷ s) = (if c == old then new else c) ∷ replace_byte old new s

-- strings.ReplaceAll(s, "..", "_"): from the left, without overlap
unfoldable pub replace_dots : Text → Text
replace_dots [] = []
replace_dots (c ∷ []) = c ∷ []
replace_dots (c ∷ d ∷ s) =
    let replaced = b'_' ∷ replace_dots s in
    let kept = c ∷ replace_dots (d ∷ s) in if c == b'.' && d == b'.' then replaced else kept

abbrev pub is_space : ℕ → Bool
is_space c = c == b' ' || (leb 9 c && leb c 13)

unfoldable pub trim_left : Text → Text
trim_left [] = []
trim_left (c ∷ s) = if is_space c then trim_left s else c ∷ s

unfoldable pub trim_right : Text → Text
trim_right [] = []
trim_right (c ∷ s) = let rest = trim_right s in if is_space c && same rest [] then [] else c ∷ rest

-- strings.TrimSpace
unfoldable pub trim_space : Text → Text
unfolding trim_left trim_right
trim_space s = trim_right (trim_left s)

-- if sanitized == "" { sanitized = "default" }
unfoldable pub or_default : Text → Text
or_default [] = codes "default"
or_default (c ∷ s) = c ∷ s

unfoldable pub sanitize_mailbox_name : Text → Text
unfolding or_default
sanitize_mailbox_name mailbox = or_default (
    trim_space (
      replace_byte b':' b'_'
        (replace_dots (replace_byte 92 b'_' (replace_byte b'/' b'_' mailbox)))))

-- filepath.Join(basePath, directory, file), below the base path; Join drops an element ".".
unfoldable pub join : Text → Text → Text
join directory file = if same directory (codes ".") then file else directory ++ b'/' ∷ file

-- The path of mail `id` of a mailbox, relative to the base path.
unfoldable pub mail_path : Text → ℕ → Text
unfolding sanitize_mailbox_name join
mail_path mailbox id = join (sanitize_mailbox_name mailbox) (format id ++ codes ".eml")

-- strings.Contains(path, "..")
unfoldable pub contains_dots : Text → Bool
contains_dots [] = false
contains_dots (c ∷ []) = false
contains_dots (c ∷ d ∷ s) = (c == b'.' && d == b'.') || contains_dots (d ∷ s)

-- strings.HasSuffix(path, ".eml")
unfoldable pub is_eml : Text → Bool
is_eml [] = false
is_eml (c ∷ s) = same (c ∷ s) (codes ".eml") || is_eml s

-- Whether a path lies in a directory.
unfoldable pub is_within : Text → Text → Bool
is_within [] (c ∷ _) = c == b'/'
is_within (a ∷ s) (c ∷ t) = a == c && is_within s t
is_within _ _ = false
