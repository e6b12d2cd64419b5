-- ===== src/Address.antt =====
-- internal/utils/address.go, with encoding/hex and the package strings as far as it uses them.
-- Texts are ASCII: strings.TrimSpace and strings.ToLower are modelled there.
pub mod RoundTrip
use yggmail_android.Base.{
  ℕ, zero, suc, ◌+◌, ◌-◌, ◌*◌, ◌/◌, ◌%◌, Bool, ◌&&◌, ◌||◌, Option, none, some, List, [], ◌∷◌, ◌++◌,
  map, Text, Bytes, codes, same, leb, ltb, ◌==◌, if◌then◌else◌, take, replicate,
}
use yggmail_android.World.{Error, invalid_address, invalid_domain, invalid_hex, Result, ok, err}
use yggmail_android.FileStore.Paths.{trim_space}

abbrev pub domain_name : Text
domain_name = codes "yggmail"

abbrev pub domain_alias : Text
domain_alias = codes "yggmail.local"

-- strings.ToLower, of a byte
abbrev pub lower : ℕ → ℕ
lower c = if leb b'A' c && leb c b'Z' then c + 32 else c

unfoldable pub to_lower : Text → Text
to_lower [] = []
to_lower (c ∷ s) = lower c ∷ to_lower s

-- IsValidDomain
unfoldable pub is_valid_domain : Text → Bool
unfolding to_lower trim_space same
is_valid_domain domain =
    let d = to_lower (trim_space domain) in same d domain_name || same d domain_alias

-- A hex digit of hex.EncodeToString
abbrev pub hex_digit : ℕ → ℕ
hex_digit n = if ltb n 10 then b'0' + n else b'a' + n - 10

-- hex.EncodeToString
unfoldable pub hex_encode : Bytes → Text
hex_encode [] = []
hex_encode (b ∷ bs) = hex_digit (b / 16) ∷ hex_digit (b % 16) ∷ hex_encode bs

-- The value of a hex digit, in either case
abbrev pub from_hex : ℕ → Option ℕ
from_hex c =
    if leb b'0' c && leb c b'9'
    then some (c - b'0')
    else if leb b'a' c && leb c b'f'
    then some (c - b'a' + 10)
    else if leb b'A' c && leb c b'F'
    then some (c - b'A' + 10)
    else none

abbrev pub push_byte : Option ℕ → Option ℕ → Option Bytes → Option Bytes
push_byte (some hi) (some lo) (some bs) = some ((hi * 16 + lo) ∷ bs)
push_byte _ _ _ = none

-- hex.DecodeString: an odd length or another byte is an error.
unfoldable pub hex_decode : Text → Option Bytes
hex_decode [] = some []
hex_decode (c ∷ []) = none
hex_decode (c ∷ d ∷ s) = push_byte (from_hex c) (from_hex d) (hex_decode s)

-- The text before the last '@' and the text behind it (strings.LastIndex)
unfoldable pub split_last_at : Text → Option (Text × Text)
split_last_at [] = none
split_last_at (c ∷ s) = elim (split_last_at s) [
  | some (user, domain) ↦ some (c ∷ user, domain)
  | none ↦ if c == b'@' then some ([], s) else none
]

abbrev pub public_key_size : ℕ
public_key_size = 32

-- make(ed25519.PublicKey, 32) and copy: a short key is filled with zeros, a long one is cut.
unfoldable pub to_key_from : ℕ → Bytes → Bytes
to_key_from zero bs = []
to_key_from (suc n) [] = 0 ∷ to_key_from n []
to_key_from (suc n) (b ∷ bs) = b ∷ to_key_from n bs

unfoldable pub to_key : Bytes → Bytes
unfolding to_key_from
to_key = to_key_from public_key_size

-- CreateAddress
unfoldable pub create_address : Bytes → Text
unfolding hex_encode
create_address pk = hex_encode pk ++ b'@' ∷ domain_name

abbrev pub key_of_local : Option Bytes → Result Bytes
key_of_local none = err invalid_hex
key_of_local (some pk) = ok (to_key pk)

-- ParseAddress, behind the split: at <= 0 means no '@' or nothing before it.
unfoldable pub parse_parts : Option (Text × Text) → Result Bytes
unfolding is_valid_domain hex_decode to_key
parse_parts none = err invalid_address
parse_parts (some ([], domain)) = err invalid_address
parse_parts (some (c ∷ user, domain)) =
    if is_valid_domain domain then key_of_local (hex_decode (c ∷ user)) else err invalid_domain

-- ParseAddress
unfoldable pub parse_address : Text → Result Bytes
unfolding parse_parts split_last_at trim_space
parse_address email = parse_parts (split_last_at (trim_space email))
