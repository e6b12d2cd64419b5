-- ===== src/Address/RoundTrip.antt =====
-- What ParseAddress makes of an address that CreateAddress built.
use yggmail_android.Base.{
  ℕ, zero, suc, ◌/◌, ◌%◌, ◌<◌, ◌≡◌, ◌≢◌, refl, ap, true, false, Option, none, some, [], ◌∷◌, ◌++◌,
  Text, Bytes, codes, same, length, ◌==◌, All, arith, Bool-cases, inl, inr,
}
use yggmail_android.World.{ok}
use yggmail_android.FileStore.Paths.{is_space, trim_space, trim_left, trim_right}
use yggmail_android.Address.{
  hex_digit, hex_encode, from_hex, hex_decode, key_of_local, split_last_at, to_key, to_key_from,
  create_address, parse_address, parse_parts, is_valid_domain, domain_name, public_key_size,
}

abbrev pub AreBytes : Bytes → Type 0
AreBytes = All (λ b. b < 256)

from_hex-hex_digit : (n : ℕ) → n < 16 → from_hex (hex_digit n) ≡ some n
from_hex-hex_digit n h = ground arith

-- Hex encoding is undone by decoding.
pub decode-encode : (bs : Bytes) → AreBytes bs → hex_decode (hex_encode bs) ≡ some bs
unfolding hex_decode hex_encode
decode-encode [] _ = refl
decode-encode (b ∷ bs) (h, hs) =
    rw
      (
        from_hex-hex_digit (b / 16) (omega arith),
        from_hex-hex_digit (b % 16) (omega arith),
        decode-encode bs hs,
      )
      (ap (λ (n : ℕ). some (n ∷ bs)) (omega arith))

-- Neither a blank nor an '@'.
abbrev IsPlain : ℕ → Type 0
IsPlain c = (is_space c ≡ false) × ((c == b'@') ≡ false)

hex_digit-IsPlain : (n : ℕ) → n < 16 → IsPlain (hex_digit n)
hex_digit-IsPlain n h = ground arith

hex_encode-IsPlain : (bs : Bytes) → AreBytes bs → All IsPlain (hex_encode bs)
unfolding hex_encode
hex_encode-IsPlain [] _ = tt
hex_encode-IsPlain (b ∷ bs) (h, hs) = (
  hex_digit-IsPlain (b / 16) (omega arith),
  (hex_digit-IsPlain (b % 16) (omega arith), hex_encode-IsPlain bs hs),
)

split_plain :
    (s : Text) → All IsPlain s → split_last_at (s ++ codes "@yggmail") ≡ some (s, domain_name)
unfolding split_last_at
split_plain [] _ = refl
split_plain (c ∷ s) (_, hs) = rw (split_plain s hs)

trim_right_plain :
    (s : Text) → All IsPlain s → trim_right (s ++ codes "@yggmail") ≡ s ++ codes "@yggmail"
unfolding trim_right same
trim_right_plain [] _ = refl
trim_right_plain (c ∷ s) (h, hs) = rw (trim_right_plain s hs, h.0) refl

trim_plain : (s : Text) → All IsPlain s → trim_space (s ++ codes "@yggmail") ≡ s ++ codes "@yggmail"
unfolding trim_space trim_left trim_right same
trim_plain [] _ = refl
trim_plain (c ∷ s) (h, hs) = rw (trim_space, trim_left, h.0) (trim_right_plain (c ∷ s) (h, hs))

parse_plain :
    (s : Text) (bs : Bytes)
    → All IsPlain s
    → s ≢ []
    → hex_decode s ≡ some bs
    → parse_address (s ++ codes "@yggmail") ≡ ok (to_key bs)
unfolding parse_address is_valid_domain
parse_plain [] bs _ ne _ = absurd (ne refl)
parse_plain (c ∷ s) bs p ne e = rw (trim_plain (c ∷ s) p, split_plain (c ∷ s) p, e) refl

encode-ne-nil : (bs : Bytes) → bs ≢ [] → hex_encode bs ≢ []
unfolding hex_encode
encode-ne-nil [] h = absurd (h refl)
encode-ne-nil (b ∷ bs) _ = cc

-- Whatever its length, a key of bytes that is not empty is printed to an address that parses, and
-- what is parsed is the key, filled with zeros or cut to 32 bytes.
pub parse-create_fitted :
    (bs : Bytes) → bs ≢ [] → AreBytes bs → parse_address (create_address bs) ≡ ok (to_key bs)
unfolding create_address
parse-create_fitted bs ne h =
    parse_plain (hex_encode bs) bs (hex_encode-IsPlain bs h) (encode-ne-nil bs ne)
      (decode-encode bs h)

pub to_key_from-id : (n : ℕ) (bs : Bytes) → length bs ≡ n → to_key_from n bs ≡ bs
unfolding to_key_from
to_key_from-id zero [] _ = refl
to_key_from-id zero (b ∷ bs) h = absurd (omega arith)
to_key_from-id (suc n) [] h = absurd (omega arith)
to_key_from-id (suc n) (b ∷ bs) h = ap (◌∷◌ b) (to_key_from-id n bs (omega arith))

-- A public key of 32 bytes is read back from the address that is made of it.
pub parse-create :
    (pk : Bytes)
    → length pk ≡ public_key_size
    → AreBytes pk
    → parse_address (create_address pk) ≡ ok pk
unfolding to_key
parse-create pk len h =
    rw (parse-create_fitted pk (λ e. ground arith) h, to_key_from-id public_key_size pk len)

length-to_key_from : (n : ℕ) (bs : Bytes) → length (to_key_from n bs) ≡ n
unfolding to_key_from
length-to_key_from zero bs = refl
length-to_key_from (suc n) [] = ap suc (length-to_key_from n [])
length-to_key_from (suc n) (b ∷ bs) = ap suc (length-to_key_from n bs)

abbrev Decoded : Text → Bytes → Type 0
Decoded user pk =
    (bs : Bytes) × (hex_decode user ≡ some bs) × (pk ≡ to_key bs) × (length pk ≡ public_key_size)

key_of_local_sound :
    (user : Text) (o : Option Bytes) (pk : Bytes)
    → hex_decode user ≡ o
    → key_of_local o ≡ ok pk
    → Decoded user pk
unfolding to_key
key_of_local_sound user none pk e h = cc
key_of_local_sound user (some bs) pk e h =
    (bs, e, ground arith, ground (arith, length-to_key_from public_key_size bs))

-- What an accepted address consists of: text before the last '@' in hex, and a valid domain.
abbrev pub Accepted : Text → Bytes → Type 0
Accepted email pk =
    (user : Text) × (domain : Text) × (split_last_at (trim_space email) ≡ some (user, domain))
    × (user ≢ [])
    × (is_valid_domain domain ≡ true)
    × Decoded user pk

parse_parts_sound :
    (email : Text) (p : Option (Text × Text)) (pk : Bytes)
    → split_last_at (trim_space email) ≡ p
    → parse_parts p ≡ ok pk
    → Accepted email pk
unfolding parse_parts
parse_parts_sound email none pk e h = cc
parse_parts_sound email (some ([], domain)) pk e h = cc
parse_parts_sound email (some (c ∷ user, domain)) pk e h =
    elim (Bool-cases (is_valid_domain domain)) [
      | inr bad ↦ absurd (ground arith)
      | inl good ↦ (
        c ∷ user,
        domain,
        e,
        cc,
        good,
        key_of_local_sound (c ∷ user) (hex_decode (c ∷ user)) pk refl (rw good at h),
      )
    ]

-- An address is accepted only if it has a valid domain behind its last '@' and hex before it; the
-- result is what that hex decodes to, filled or cut, and so has 32 bytes.
pub parse_address_sound :
    (email : Text) (pk : Bytes) → parse_address email ≡ ok pk → Accepted email pk
unfolding parse_address
parse_address_sound email pk h =
    parse_parts_sound email (split_last_at (trim_space email)) pk refl h
