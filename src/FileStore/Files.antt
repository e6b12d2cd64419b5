-- ===== src/FileStore/Files.antt =====
-- A directory's regular files, as an association list from path to content.
use yggmail_android.Base.{
  true, false, Option, none, some, List, [], ◌∷◌, Text, Bytes, same, ◌≡◌, arith, same→eq, same_refl,
  if◌then◌else◌, Bool-cases, inl, inr,
}

abbrev pub FileMap : Type 0
FileMap = List (Text × Bytes)

unfoldable pub lookup : Text → FileMap → Option Bytes
lookup p [] = none
lookup p ((q, b) ∷ fs) = if same q p then some b else lookup p fs

-- os.Remove
unfoldable pub erase : Text → FileMap → FileMap
erase p [] = []
erase p ((q, b) ∷ fs) = let rest = erase p fs in if same q p then rest else (q, b) ∷ rest

-- A file that is created or replaced.
unfoldable pub put : Text → Bytes → FileMap → FileMap
unfolding erase
put p b fs = (p, b) ∷ erase p fs

pub same_trans_false : (a b c : Text) → same a b ≡ true → same c b ≡ false → same c a ≡ false
same_trans_false a b c ab cb = elim (Bool-cases (same c a)) [
  | inl ca ↦ ground (arith, same→eq a b ab, same→eq c a ca)
  | inr ca ↦ ca
]

-- What is read after a removal.
pub lookup-erase :
    (p q : Text) (fs : FileMap) → lookup q (erase p fs) ≡ (if same p q then none else lookup q fs)
unfolding lookup erase
lookup-erase p q [] = ground arith
lookup-erase p q ((r, b) ∷ fs) =
    ground
      (arith, lookup-erase p q fs, same→eq r p, same→eq r q, same→eq p q, same_refl q, same_refl p)

-- What is read after a write.
pub lookup-put :
    (p q : Text) (b : Bytes) (fs : FileMap)
    → lookup q (put p b fs) ≡ (if same p q then some b else lookup q fs)
unfolding lookup put
lookup-put p q b fs = ground (arith, lookup-erase p q fs)
