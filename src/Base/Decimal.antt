-- ===== src/Base/Decimal.antt =====
-- Decimal numbers: `%d` of fmt.Sprintf on a natural number, and the value that digits spell.
use Prim.Native.Nat.{ℕ, zero, suc, ◌+◌, ◌-◌, ◌*◌, ◌/◌, ◌%◌, ◌≤◌}
use mathlib.Core.Bool.{Bool, ◌&&◌, true}
use mathlib.Core.List.{[], ◌∷◌, ◌++◌, foldl}
use mathlib.Core.Logic.{◌≢◌}
use mathlib.Core.Path.{◌≡◌, refl, sym, ap, ◌∙◌}
use native.Mathlib.Omega.{arith}
use yggmail_android.Base.Tests.{ltb, leb, if◌then◌else◌}
use yggmail_android.Base.Lists.{All}
use yggmail_android.Base.Strings.{Text}

-- The digits of `n`, most significant first; `n` rounds are enough.
unfoldable pub digits : ℕ → ℕ → Text
digits zero n = (b'0' + n % 10) ∷ []
digits (suc f) n =
    let rest = digits f (n / 10) in
    if ltb n 10 then (b'0' + n) ∷ [] else rest ++ (b'0' + n % 10) ∷ []

unfoldable pub format : ℕ → Text
unfolding digits
format n = digits n n

abbrev pub is_digit : ℕ → Bool
is_digit c = leb b'0' c && leb c b'9'

abbrev pub value : ℕ → Text → ℕ
value = foldl (λ n c. n * 10 + (c - b'0'))

value-append : (s : Text) (n c : ℕ) → value n (s ++ c ∷ []) ≡ value n s * 10 + (c - b'0')
value-append [] n c = refl
value-append (x ∷ s) n c = value-append s (n * 10 + (x - b'0')) c

value-digits : (f n : ℕ) → n ≤ f → value 0 (digits f n) ≡ n
unfolding digits
value-digits zero n h = omega arith
value-digits (suc f) n h =
    ground (arith, value-append (digits f (n / 10)) 0 (b'0' + n % 10), value-digits f (n / 10))

pub value-format : (n : ℕ) → value 0 (format n) ≡ n
unfolding format
value-format n = value-digits n n (omega arith)

-- Different numbers are printed differently.
pub format-injective : (m n : ℕ) → format m ≡ format n → m ≡ n
format-injective m n e = sym (value-format m) ∙ ap (value 0) e ∙ value-format n

IsDigits-append :
    (s : Text) (c : ℕ)
    → All (λ d. is_digit d ≡ true) s
    → is_digit c ≡ true
    → All (λ d. is_digit d ≡ true) (s ++ c ∷ [])
IsDigits-append [] c h e = (e, tt)
IsDigits-append (x ∷ s) c h e = (h.0, IsDigits-append s c h.1 e)

digits-IsDigits : (f n : ℕ) → All (λ d. is_digit d ≡ true) (digits f n)
unfolding digits
digits-IsDigits zero n = ground arith
digits-IsDigits (suc f) n = ground (
  arith,
  IsDigits-append (digits f (n / 10)) (b'0' + n % 10) (digits-IsDigits f (n / 10)) (ground arith),
)

-- A printed number is made of digits.
pub format-IsDigits : (n : ℕ) → All (λ d. is_digit d ≡ true) (format n)
unfolding format
format-IsDigits n = digits-IsDigits n n

-- The digits that `%d` of fmt.Sscanf reads, added to `n`.
unfoldable pub scan_digits : ℕ → Text → ℕ
scan_digits n [] = n
scan_digits n (c ∷ s) =
    let rest = scan_digits (n * 10 + (c - b'0')) s in if is_digit c then rest else n

-- Digits are read up to their end, and spell their value.
pub scan_digits-value :
    (s t : Text) (n : ℕ)
    → All (λ d. is_digit d ≡ true) s
    → ((m : ℕ) → scan_digits m t ≡ m)
    → scan_digits n (s ++ t) ≡ value n s
unfolding scan_digits
scan_digits-value [] t n _ h = h n
scan_digits-value (c ∷ s) t n (d, ds) h =
    ground (arith, scan_digits-value s t (n * 10 + (c - b'0')) ds h)

-- A printed number is read back, also where a text that begins with no digit follows.
pub scan_digits-format :
    (n : ℕ) (t : Text) → ((m : ℕ) → scan_digits m t ≡ m) → scan_digits 0 (format n ++ t) ≡ n
scan_digits-format n t h = scan_digits-value (format n) t 0 (format-IsDigits n) h ∙ value-format n

append-ne-nil : (s : Text) (c : ℕ) → s ++ c ∷ [] ≢ []
append-ne-nil [] c = cc
append-ne-nil (d ∷ s) c = cc

digits-ne-nil : (f n : ℕ) → digits f n ≢ []
unfolding digits
digits-ne-nil zero n = cc
digits-ne-nil (suc f) n = ground (arith, append-ne-nil (digits f (n / 10)) (b'0' + n % 10))

-- A printed number is not empty.
pub format-ne-nil : (n : ℕ) → format n ≢ []
unfolding format
format-ne-nil n = digits-ne-nil n n
