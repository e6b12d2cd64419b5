-- ===== src/Smtp/Codec.antt =====
-- The packages that the SMTP sessions only call: the parser of go-message, and the texts that the
-- program makes of the time and of addresses.
use yggmail_android.Base.{Bool, Option, List, [], ◌∷◌, ◌++◌, Text, Bytes, codes}

-- message.Read, and the header operations on what it returns. The body may be decoded.
pub record Codec : Type 1 where
  pub Header : Type 0
  pub read : Bytes → Option (Header × Bytes)
  pub add : Text → Text → Header → Header
  pub has : Text → Header → Bool
  pub fields : Header → List (Text × Text)

-- The header as the sessions write it: a line for each field, and an empty line.
unfoldable pub render_fields : List (Text × Text) → Bytes
render_fields [] = codes "\r\n"
render_fields ((key, value) ∷ fs) = key ++ codes ": " ++ value ++ codes "\r\n" ++ render_fields fs
