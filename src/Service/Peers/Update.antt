-- ===== src/Service/Peers/Update.antt =====
-- UpdatePeers of mobile/yggmail.go against the set of the peers that is asked for.
use yggmail_android.Base.{
  ◌≡◌, refl, true, ◌&&◌, ◌||◌, not, some, List, [], ◌∷◌, Text, same, same→eq, All, Bool-cases, inl,
  inr, arith, if◌then◌else◌,
}
use yggmail_android.World.{ok}
use yggmail_android.Transport.{YggdrasilTransport}
use yggmail_android.Service.{YggmailService}
use yggmail_android.Service.Peers.{
  Core, found, parse_peers, remove_missing, add_missing, update_peers,
}

pub same_comm : (p q : Text) → same p q ≡ same q p
same_comm p q = elim (Bool-cases (same p q)) [
  | inl e ↦ cc (same→eq p q e)
  | inr e ↦ elim (Bool-cases (same q p)) [ inl f ↦ cc (same→eq q p f) | inr f ↦ cc ]
]

module _ (core : Core) where
  abbrev Parsed : List Text → Type 0
  Parsed = All (λ p. core.parses p ≡ true)

  removal_holds :
      (new : List Text) (p : Text) (c : core.State) (q : Text)
      → core.holds q (if not (found p new) && core.parses p then core.remove_peer p c else c)
        ≡ (core.holds q c && not (same q p && (not (found p new) && core.parses p)))
  removal_holds new p c q = ground (arith, core.holds-remove p q c, same_comm p q)

  remove_missing_holds :
      (new old : List Text) (c : core.State) (q : Text)
      → Parsed old
      → core.holds q (remove_missing core new old c)
        ≡ (core.holds q c && not (found q old && not (found q new)))
  unfolding remove_missing
  remove_missing_holds new [] c q _ = ground arith
  remove_missing_holds new (p ∷ old) c q (h, hs) =
      let d = (if not (found p new) && core.parses p then core.remove_peer p c else c) in
      elim (Bool-cases (same q p)) [
        | inl e ↦ ground (
          arith,
          e,
          h,
          same→eq q p e,
          removal_holds new p c q,
          remove_missing_holds new old d q hs,
        )
        | inr e ↦ ground (arith, e, h, removal_holds new p c q, remove_missing_holds new old d q hs)
      ]

  abbrev Addable : List Text → Type 0
  Addable = All (λ p. (core.parses p && core.accepts p) ≡ true)

  addition_holds :
      (old : List Text) (p : Text) (c : core.State) (q : Text)
      → core.holds q (if not (found p old) && core.parses p then core.add_peer p c else c)
        ≡ (core.holds q c || (same q p && (not (found p old) && (core.parses p && core.accepts p))))
  addition_holds old p c q = ground (arith, core.holds-add p q c, same_comm p q)

  add_missing_holds :
      (old new : List Text) (c : core.State) (q : Text)
      → Addable new
      → core.holds q (add_missing core old new c)
        ≡ (core.holds q c || (found q new && not (found q old)))
  unfolding add_missing
  add_missing_holds old [] c q _ = ground arith
  add_missing_holds old (p ∷ new) c q (h, hs) =
      let d = (if not (found p old) && core.parses p then core.add_peer p c else c) in
      elim (Bool-cases (same q p)) [
        | inl e ↦
            ground (
              arith,
              e,
              h,
              same→eq q p e,
              addition_holds old p c q,
              add_missing_holds old new d q hs,
            )
        | inr e ↦ ground (arith, e, h, addition_holds old p c q, add_missing_holds old new d q hs)
      ]

  -- The core is configured with exactly the peers of a configuration.
  abbrev pub IsConfigured : Text → core.State → Type 0
  IsConfigured peers c = (q : Text) → core.holds q c ≡ found q (parse_peers peers)

  -- On a running service whose core is configured with the last peers, UpdatePeers succeeds, stores the
  -- new configuration, and leaves the core configured with exactly its peers: it removes and adds the
  -- difference, where all peers are URIs and the core accepts the new ones.
  pub update_peers_exact :
      (peers : Text) (s : YggmailService) (t : YggdrasilTransport) (c : core.State)
      → s.running ≡ true
      → s.transport ≡ some t
      → All (λ p. core.parses p ≡ true) (parse_peers s.last_peers)
      → All (λ p. (core.parses p && core.accepts p) ≡ true) (parse_peers peers)
      → IsConfigured s.last_peers c
      → ((update_peers core peers s c).0 ≡ ok tt)
        × ((update_peers core peers s c).1.0 ≡ record s { last_peers = peers })
        × IsConfigured peers (update_peers core peers s c).1.1
  unfolding update_peers
  update_peers_exact peers s t c running transport old_parse new_parse synced =
      rw (running, transport) (refl, refl, holds)
    where
      old : List Text
      old = parse_peers s.last_peers

      new : List Text
      new = parse_peers peers

      holds :
          (q : Text)
          → core.holds q (add_missing core old new (remove_missing core new old c)) ≡ found q new
      holds q =
          let d = remove_missing core new old c in
          ground (
            arith,
            synced q,
            remove_missing_holds new old c q old_parse,
            add_missing_holds old new d q new_parse,
          )
