-- ===== src/Service/Discovery.antt =====
-- The peer discovery of mobile/yggmail.go over the package yggpeers: FindBestPeers,
-- FindAvailablePeersAsync, CheckCustomPeersAsync, GetAvailableRegions and the texts of peers. The
-- manager of the package is a parameter. The loop over the batches runs on fuel.
pub mod Batches
use yggmail_android.Base.{
  ℕ, zero, suc, ◌+◌, ◌-◌, ◌*◌, min, Bool, true, false, ◌&&◌, not, Option, none, some, List, [], ◌∷◌,
  ◌++◌, map, Text, Bytes, codes, same, any, filter, length, take, drop, ltb, leb, ◌==◌,
  if◌then◌else◌,
}
use yggmail_android.Base.Durations.{second}
use yggmail_android.Base.Int.{ℤ, pos, negsuc}
use yggmail_android.World.{
  Error, Result, ok, err, network_failed, out_of_fuel, panicked, parse_failed,
}
use yggmail_android.FileStore.Paths.{trim_space}
use yggmail_android.Service.Lifecycle.{split}

-- yggpeers.Peer; the round-trip time is in nanoseconds.
pub record Peer : Type 0 where
  pub address : Text
  pub protocol : Text
  pub host : Text
  pub port : Text
  pub region : Text
  pub rtt : ℕ
  pub available : Bool
  pub response_ms : ℤ
  pub last_seen : ℤ

-- yggpeers.FilterOptions
pub record FilterOptions : Type 0 where
  pub protocols : List Text
  pub regions : List Text
  pub only_available : Bool
  pub only_up : Bool
  pub max_rtt : ℕ

-- yggpeers.Manager
pub record Manager : Type 0 where
  pub get_peers : Option (List Peer)
  pub get_available_peers : FilterOptions → Option (List Peer)
  pub filter_peers : List Peer → FilterOptions → List Peer
  -- CheckPeers, which writes to the peers
  pub check_peers : List Peer → List Peer
  -- json.Marshal of peers, and json.Unmarshal of texts
  pub peer_json : Peer → Text
  pub peers_json : List Peer → Text
  pub texts_of : Text → Option (List Text)
  -- net.SplitHostPort
  pub split_host_port : Text → Option (Text × Text)

-- The list of protocols
unfoldable pub protocols_of : Text → List Text
unfolding split trim_space
protocols_of [] = []
protocols_of (c ∷ s) = map trim_space (split b',' (c ∷ s))

abbrev pub best_filter : Text → FilterOptions
unfolding protocols_of
best_filter protocols = record {
  protocols = protocols_of protocols;
  regions = [];
  only_available = true;
  only_up = false;
  max_rtt = 5 * second;
}

-- sorted[:count], where there are more; a negative count is out of range.
abbrev pub at_most : ℤ → List Peer → Result (List Peer)
at_most (pos n) ps = ok (if ltb n (length ps) then take n ps else ps)
at_most (negsuc n) ps = err panicked

abbrev pub to_json : Manager → Result (List Peer) → Result Text
to_json m (err e) = err e
to_json m (ok ps) = ok (m.peers_json ps)

-- FindBestPeers
unfoldable pub find_best_peers : Manager → ℤ → Text → Result Text
unfolding protocols_of
find_best_peers m count protocols = elim (m.get_available_peers (best_filter protocols)) [
  | none ↦ err network_failed
  | some ps ↦ to_json m (at_most count (m.filter_peers ps (best_filter protocols)))
]

-- matchesMaxRTT
unfoldable pub matches_max_rtt : Peer → ℕ → Bool
matches_max_rtt p max_rtt = if max_rtt == 0 then true else leb p.rtt max_rtt

abbrev pub millisecond : ℕ
millisecond = 1000000

abbrev pub rtt_limit : ℤ → ℕ
rtt_limit (pos zero) = 5 * second
rtt_limit (pos (suc n)) = suc n * millisecond
rtt_limit (negsuc _) = 5 * second

abbrev pub region_list : Text → List Text
region_list [] = []
region_list (c ∷ s) = (c ∷ s) ∷ []

abbrev pub discovery_filter : Text → Text → ℤ → FilterOptions
discovery_filter protocols region max_rtt_ms = record {
  protocols = protocols_of protocols;
  regions = region_list region;
  only_available = false;
  only_up = true;
  max_rtt = rtt_limit max_rtt_ms;
}

-- What the callback of the discovery is called with.
pub data PeerEvent : Type 0 where
  progress : (current total available : ℕ) → PeerEvent
  peer_available : Text → PeerEvent

abbrev pub prepend : ℕ × List Peer → Result (List (ℕ × List Peer)) → Result (List (ℕ × List Peer))
prepend b (err e) = err e
prepend b (ok bs) = ok (b ∷ bs)

-- The loop from `i` on: the end of each batch, and its peers. A size of 0 never comes to the end, and a
-- negative one makes bounds out of range.
unfoldable pub batches : ℕ → ℤ → List Peer → ℕ → Result (List (ℕ × List Peer))
batches zero size ps i = err out_of_fuel
batches (suc fuel) (negsuc n) ps i = if ltb i (length ps) then err panicked else ok []
batches (suc fuel) (pos n) ps i =
    let end = min (i + n) (length ps) in
    let rest = batches fuel (pos n) ps (i + n) in
    if ltb i (length ps) then prepend (end, take (end - i) (drop i ps)) rest else ok []

abbrev pub reported : ℕ → Peer → Bool
reported max_rtt p = p.available && matches_max_rtt p max_rtt

-- What is reported of the batches, from a number of available peers on.
unfoldable pub report_batches : Manager → ℕ → ℕ → ℕ → List (ℕ × List Peer) → List PeerEvent
unfolding matches_max_rtt
report_batches m total max_rtt available [] = []
report_batches m total max_rtt available ((end, batch) ∷ bs) =
    let good = filter (reported max_rtt) (m.check_peers batch) in
    let count = available + length good in
    map (λ p. peer_available (m.peer_json p)) good
    ++ progress end total count ∷ report_batches m total max_rtt count bs

abbrev pub events_of : Manager → ℕ → ℕ → Result (List (ℕ × List Peer)) → Result (List PeerEvent)
events_of m total max_rtt (err e) = err e
events_of m total max_rtt (ok bs) = ok (progress 0 total 0 ∷ report_batches m total max_rtt 0 bs)

-- FindAvailablePeersAsync, in its goroutine
unfoldable pub find_available_peers : ℕ → Manager → ℤ → Text → Text → ℤ → Result (List PeerEvent)
unfolding batches report_batches protocols_of
find_available_peers fuel m batch_size protocols region max_rtt_ms =
    let f = discovery_filter protocols region max_rtt_ms in
    elim m.get_peers [
      | none ↦ ok (progress 0 0 0 ∷ [])
      | some all ↦
          let ps = m.filter_peers all f in
          events_of m (length ps) f.max_rtt (batches fuel batch_size ps 0)
    ]

abbrev pub push_scheme : ℕ → Option (Text × Text) → Option (Text × Text)
push_scheme c none = none
push_scheme c (some (a, b)) = some (c ∷ a, b)

-- strings.SplitN(uri, "://", 2)
unfoldable pub split_scheme : Text → Option (Text × Text)
split_scheme [] = none
split_scheme (c ∷ s) =
    let rest = split_scheme s in
    if same (take 3 (c ∷ s)) (codes "://") then some ([], drop 3 (c ∷ s)) else push_scheme c rest

abbrev pub make_peer : Text → Text → Option (Text × Text) → Result Peer
make_peer uri protocol none = err parse_failed
make_peer uri protocol (some (host, port)) = ok (record {
  address = uri;
  protocol = protocol;
  host = host;
  port = port;
  region = [];
  rtt = 0;
  available = false;
  response_ms = pos 0;
  last_seen = pos 0;
})

-- parsePeerURI
unfoldable pub parse_peer_uri : Manager → Text → Result Peer
unfolding split_scheme
parse_peer_uri m uri = elim (split_scheme uri) [
  | none ↦ err parse_failed
  | some (protocol, host_port) ↦ make_peer uri protocol (m.split_host_port host_port)
]

abbrev pub keep_ok : Result Peer → List Peer
keep_ok (err _) = []
keep_ok (ok p) = p ∷ []

unfoldable pub parse_uris : Manager → List Text → List Peer
unfolding parse_peer_uri
parse_uris m [] = []
parse_uris m (u ∷ us) = keep_ok (parse_peer_uri m u) ++ parse_uris m us

-- What the callback of CheckCustomPeersAsync is called with: the peers that were checked, and the end.
pub record CustomCheck : Type 0 where
  pub checked : List (Text × (Bool × ℕ))
  pub available : ℕ
  pub total : ℕ

-- CheckCustomPeersAsync, in its goroutine; the round-trip time is in nanoseconds.
unfoldable pub check_custom_peers : Manager → Text → CustomCheck
unfolding parse_uris
check_custom_peers m json = elim (m.texts_of json) [
  | none ↦ record { checked = []; available = 0; total = 0 }
  | some uris ↦
      let peers = parse_uris m uris in
      let after = m.check_peers peers in
      record {
        checked = map (λ (p : Peer). (p.address, (p.available, p.rtt))) after;
        available = length (filter (λ p. p.available) after);
        total = length peers;
      }
]

-- The regions of GetAvailableRegions, each once; a Go map has no order of its own.
unfoldable pub regions_of : List Peer → List Text
regions_of [] = []
regions_of (p ∷ ps) =
    let rest = filter (λ r. not (same r p.region)) (regions_of ps) in
    if same p.region [] then rest else p.region ∷ rest
