-- ===== src/Transport.antt =====
-- internal/transport: the connection to the Yggdrasil network (yggdrasil.go) and the byte that starts
-- a stream (kickbyte_conn.go). The core and its QUIC layer are other packages: what they answer is a
-- parameter.
pub mod Kick
use yggmail_android.Base.{ℕ, ◌*◌, Bool, true, false, List, Text, Bytes, if◌then◌else◌}
use yggmail_android.Base.Durations.{second, minute}
use yggmail_android.World.{transport_failed, panicked, Result, ok, err}

-- config.Config
pub record Config : Type 0 where
  pub public_key : Bytes
  pub private_key : Bytes

-- The fields of quic.Config that differ, in nanoseconds.
pub record QuicConfig : Type 0 where
  pub max_idle_timeout : ℕ
  pub keep_alive_period : ℕ

-- getAdaptiveQUICConfig
unfoldable pub get_adaptive_quic_config : Bool → Bool → QuicConfig
get_adaptive_quic_config is_active is_charging =
    if is_active
    then record { max_idle_timeout = 5 * minute; keep_alive_period = 5 * second }
    else if is_charging
    then record { max_idle_timeout = 10 * minute; keep_alive_period = 10 * second }
    else record { max_idle_timeout = 10 * minute; keep_alive_period = 30 * second }

-- What a transport was made with, and whether its listener is open.
pub record YggdrasilTransport : Type 0 where
  pub name : Text
  pub peers : List Text
  pub quic : QuicConfig
  pub listening : Bool

-- The answers of the Yggdrasil packages.
pub record Network : Type 0 where
  -- GenerateSelfSignedCertificate
  pub certifies : Bool
  -- core.New with these peers, and yggquic.New
  pub connects : List Text → Bool

-- NewYggdrasilTransport: an error of the core is a panic.
unfoldable pub new_yggdrasil_transport :
    Network → (Bytes → Text) → Config → List Text → Bool → Bool → Result YggdrasilTransport
unfolding get_adaptive_quic_config
new_yggdrasil_transport net address config peers is_active is_charging =
    if net.certifies
    then if net.connects peers
      then ok (record {
        name = address config.public_key;
        peers = peers;
        quic = get_adaptive_quic_config is_active is_charging;
        listening = true;
      })
      else err panicked
    else err transport_failed
