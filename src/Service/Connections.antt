-- ===== src/Service/Connections.antt =====
-- GetPeerConnections, its JSON and GetConnectionStats of mobile/yggmail.go. What Core.GetPeers answers
-- is a parameter.
use yggmail_android.Base.{
  ℕ, suc, ◌-◌, ◌%◌, ◌^◌, ◌≡◌, Bool, true, false, not, Option, none, some, is_some, List, [], ◌∷◌,
  ◌++◌, map, Text, Bytes, codes, ltb, if◌then◌else◌, append_assoc, ◌||◌,
}
use yggmail_android.Base.Int.{ℤ, pos, negsuc}
use yggmail_android.Base.Decimal.{format}
use yggmail_android.Address.{hex_encode}
use yggmail_android.Service.{YggmailService}

-- core.PeerInfo; Duration.Seconds and Duration.Milliseconds are taken as it answers them.
pub record PeerInfo : Type 0 where
  pub uri : Text
  pub up : Bool
  pub inbound : Bool
  pub last_error : Option Text
  pub key : Bytes
  pub uptime_seconds : ℤ
  pub latency_milliseconds : ℤ
  pub rx_bytes : ℕ
  pub tx_bytes : ℕ
  pub rx_rate : ℕ
  pub tx_rate : ℕ

-- PeerConnectionInfo
pub record PeerConnectionInfo : Type 0 where
  pub uri : Text
  pub up : Bool
  pub inbound : Bool
  pub last_error : Text
  pub key : Text
  pub uptime : ℤ
  pub latency_ms : ℤ
  pub rx_bytes : ℤ
  pub tx_bytes : ℤ
  pub rx_rate : ℤ
  pub tx_rate : ℤ

-- int64(n) of a uint64
unfoldable pub to_int64 : ℕ → ℤ
to_int64 n = let m = n % 2 ^ 64 in if ltb m (2 ^ 63) then pos m else negsuc (2 ^ 64 - m - 1)

abbrev pub error_text : Option Text → Text
error_text none = []
error_text (some e) = e

-- The conversion of a peer in GetPeerConnections
unfoldable pub connection_of : PeerInfo → PeerConnectionInfo
unfolding hex_encode to_int64
connection_of peer = record {
  uri = peer.uri;
  up = peer.up;
  inbound = peer.inbound;
  last_error = error_text peer.last_error;
  key = hex_encode peer.key;
  uptime = peer.uptime_seconds;
  latency_ms = peer.latency_milliseconds;
  rx_bytes = to_int64 peer.rx_bytes;
  tx_bytes = to_int64 peer.tx_bytes;
  rx_rate = to_int64 peer.rx_rate;
  tx_rate = to_int64 peer.tx_rate;
}

-- GetPeerConnections; nil is the empty list.
unfoldable pub get_peer_connections : List PeerInfo → YggmailService → List PeerConnectionInfo
unfolding connection_of
get_peer_connections core_peers s =
    if not s.running || not (is_some s.transport) then [] else map connection_of core_peers

-- %d and %t
abbrev pub format_int : ℤ → Text
format_int (pos n) = format n
format_int (negsuc n) = b'-' ∷ format (suc n)

abbrev pub format_bool : Bool → Text
format_bool true = codes "true"
format_bool false = codes "false"

-- The object of one peer: the texts are not escaped.
unfoldable pub connection_json : PeerConnectionInfo → Text
unfolding format
connection_json peer =
    codes "{\"uri\":\""
    ++ peer.uri
    ++ codes "\",\"up\":"
    ++ format_bool peer.up
    ++ codes ",\"inbound\":"
    ++ format_bool peer.inbound
    ++ codes ",\"lastError\":\""
    ++ peer.last_error
    ++ codes "\",\"key\":\""
    ++ peer.key
    ++ codes "\",\"uptime\":"
    ++ format_int peer.uptime
    ++ codes ",\"latencyMs\":"
    ++ format_int peer.latency_ms
    ++ codes ",\"rxBytes\":"
    ++ format_int peer.rx_bytes
    ++ codes ",\"txBytes\":"
    ++ format_int peer.tx_bytes
    ++ codes ",\"rxRate\":"
    ++ format_int peer.rx_rate
    ++ codes ",\"txRate\":"
    ++ format_int peer.tx_rate
    ++ codes "}"

-- The peers after the first one
unfoldable pub more_connections : List PeerConnectionInfo → Text
unfolding connection_json
more_connections [] = codes "]"
more_connections (p ∷ ps) = b',' ∷ (connection_json p ++ more_connections ps)

abbrev pub connections_json : List PeerConnectionInfo → Text
unfolding connection_json more_connections
connections_json [] = codes "[]"
connections_json (p ∷ ps) = b'[' ∷ (connection_json p ++ more_connections ps)

-- GetPeerConnectionsJSON
unfoldable pub get_peer_connections_json : List PeerInfo → YggmailService → Text
unfolding get_peer_connections
get_peer_connections_json core_peers s = connections_json (get_peer_connections core_peers s)

-- GetConnectionStats
unfoldable pub get_connection_stats : YggmailService → Text
get_connection_stats s =
    if s.running
    then codes "Running: " ++ format_bool s.running ++ codes ", Peers: " ++ s.last_peers
    else codes "Service not running"

-- What stands between the URI and the error of a peer that is up and inbound.
abbrev between : Text
between = codes "\",\"up\":true,\"inbound\":true,\"lastError\":\""

-- Peers that differ have the same JSON: what a quotation mark in the URI begins may as well stand in the
-- error of another peer.
connection_json_ambiguous :
    (peer : PeerConnectionInfo) (a b c : Text)
    → connection_json
        (record peer { uri = a ++ between ++ b; up = true; inbound = true; last_error = c })
      ≡ connection_json
          (record peer { uri = a; up = true; inbound = true; last_error = b ++ between ++ c })
unfolding connection_json
connection_json_ambiguous peer a b c = simp append_assoc
