-- ===== src/Smtp/Backend.antt =====
-- internal/smtpserver/backend.go: who may open a session.
use yggmail_android.Base.{
  Bool, false, not, Option, none, some, List, [], Text, Bytes, same, if◌then◌else◌,
}
use yggmail_android.World.{
  wrong_domain, auth_required, unexpected_connection, invalid_state, invalid_hex, not_allowed,
  Result, ok, err, Action, pure, fail, ◌>>=◌,
}
use yggmail_android.Address.{parse_address, hex_encode, hex_decode}
use yggmail_android.Storage.Config.{config_try_password}

-- BackendMode
pub data BackendMode : Type 0 where
  internal external : BackendMode

-- What the sessions read of Backend; bcrypt's comparison stands for the password check.
pub record Backend : Type 0 where
  pub mode : BackendMode
  pub public_key : Bytes
  pub matches : Text → Text → Bool
  pub has_file_store : Bool
  pub has_logger : Bool

-- smtp.ConnectionState: the remote address, unless nil, and the name given by HELO.
pub record ConnectionState : Type 0 where
  pub remote_addr : Option Text
  pub hostname : Text

-- SessionLocal
pub record SessionLocal : Type 0 where
  pub remote_addr : Option Text
  pub from : Text
  pub rcpt : List Text

-- SessionRemote
pub record SessionRemote : Type 0 where
  pub remote_addr : Option Text
  pub public : Bytes
  pub from : Text

-- A user name that is an address must be of our key.
abbrev pub is_foreign : Result Bytes → Bytes → Bool
is_foreign (ok pk) public_key = not (same pk public_key)
is_foreign (err _) public_key = false

abbrev pub remote_of : Option ConnectionState → Option Text
remote_of none = none
remote_of (some state) = state.remote_addr

abbrev pub new_local : Option ConnectionState → SessionLocal
new_local state = record { remote_addr = remote_of state; from = []; rcpt = [] }

unfoldable pub login_internal : Backend → Option ConnectionState → Text → Text → Action SessionLocal
unfolding parse_address config_try_password
login_internal b state username password =
    if is_foreign (parse_address username) b.public_key then fail wrong_domain else do
      authed ← config_try_password b.matches password
      if authed then pure (new_local state) else fail auth_required

-- Login
unfoldable pub login : Backend → Option ConnectionState → Text → Text → Action SessionLocal
unfolding login_internal
login b state username password = elim b.mode [
  | internal ↦ login_internal b state username password
  | external ↦ fail unexpected_connection
]

-- The claim of the client: the address that it connects from, in hex, is its host name.
unfoldable pub check_claim : Text → Text → Option Bytes → Result SessionRemote
unfolding hex_encode
check_claim remote hostname none = err invalid_hex
check_claim remote hostname (some pks) =
    if same hostname (hex_encode pks)
    then ok (record { remote_addr = some remote; public = pks; from = [] })
    else err not_allowed

unfoldable pub login_external : Option ConnectionState → Result SessionRemote
unfolding check_claim hex_decode
login_external none = err invalid_state
login_external (some state) = elim state.remote_addr [
  | none ↦ err invalid_state
  | some remote ↦ check_claim remote state.hostname (hex_decode remote)
]

-- AnonymousLogin
unfoldable pub anonymous_login : Backend → Option ConnectionState → Result SessionRemote
unfolding login_external
anonymous_login b state = elim b.mode [
  | internal ↦ err unexpected_connection
  | external ↦ login_external state
]
