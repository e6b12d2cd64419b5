-- ===== src/Smtp/Access.antt =====
-- internal/smtpserver: whom the SMTP sessions accept.
use yggmail_android.Base.{
  ℕ, ◌≤◌, ◌↔◌, length, ◌≡◌, refl, ap, sym, ◌∙◌, Bool, true, false, ◌&&◌, Option, none, some, [],
  Text, Bytes, same, same→eq, same_refl, arith, ltb, if◌then◌else◌, Bool-cases, inl, inr,
}
use yggmail_android.World.{
  World, Result, ok, err, size_exceeded, not_allowed, invalid_state, unexpected_connection,
}
use yggmail_android.Address.{parse_address, hex_encode, hex_decode, create_address, public_key_size}
use yggmail_android.Smtp.Backend.{
  Backend, BackendMode, internal, external, ConnectionState, SessionRemote, check_claim,
  login_external, anonymous_login,
}
use yggmail_android.Smtp.Remote
use yggmail_android.Base.Int.{pos}
use yggmail_android.Storage.Config.{max_int64, config_set_max_message_size}
use yggmail_android.Storage.Limits.{max_size_round_trip}
use yggmail_android.Address.RoundTrip.{AreBytes, decode-encode, parse-create}

check_claim_sound :
    (remote hostname : Text) (o : Option Bytes) (s : SessionRemote)
    → check_claim remote hostname o ≡ ok s
    → (o ≡ some s.public) × (hostname ≡ hex_encode s.public) × (s.remote_addr ≡ some remote)
unfolding check_claim
check_claim_sound remote hostname none s h = cc
check_claim_sound remote hostname (some pks) s h =
    claim_fits (same hostname (hex_encode pks)) refl h
  where
    claim_fits :
        (t : Bool)
        → same hostname (hex_encode pks) ≡ t
        → (if t
            then ok (record { remote_addr = some remote; public = pks; from = [] })
            else err not_allowed)
          ≡ ok s
        → (some pks ≡ some s.public)
          × (hostname ≡ hex_encode s.public)
          × (s.remote_addr ≡ some remote)
    claim_fits false e k = cc
    claim_fits true e k =
        let equal : record { remote_addr = some remote; public = pks; from = [] } ≡ s = cc in
        (
          ap (λ (x : SessionRemote). some x.public) equal,
          same→eq hostname (hex_encode pks) e
              ∙ ap (λ (x : SessionRemote). hex_encode x.public) equal,
          sym (ap (λ (x : SessionRemote). x.remote_addr) equal),
        )

-- A node may be anonymous only at the external listener, under the host name that is the hex form of
-- the key it connects from; the session then has that key.
pub anonymous_login_sound :
    (b : Backend) (state : Option ConnectionState) (s : SessionRemote)
    → anonymous_login b state ≡ ok s
    → (b.mode ≡ external)
      × ((st : ConnectionState) × (remote : Text) × (state ≡ some st)
          × (st.remote_addr ≡ some remote)
          × (hex_decode remote ≡ some s.public)
          × (st.hostname ≡ hex_encode s.public)
          × (s.remote_addr ≡ some remote))
unfolding anonymous_login login_external
anonymous_login_sound b state s h = by_mode b.mode refl h
  where
    by_address :
        (st : ConnectionState) (o : Option Text)
        → st.remote_addr ≡ o
        → (elim o [
          | none ↦ err invalid_state
          | some remote ↦ check_claim remote st.hostname (hex_decode remote)
        ])
          ≡ ok s
        → (remote : Text) × (st.remote_addr ≡ some remote)
          × (hex_decode remote ≡ some s.public)
          × (st.hostname ≡ hex_encode s.public)
          × (s.remote_addr ≡ some remote)
    by_address st none e k = cc
    by_address st (some remote) e k =
        let (decoded, name, address) =
          check_claim_sound remote st.hostname (hex_decode remote) s k in
        (remote, e, decoded, name, address)

    by_state :
        (o : Option ConnectionState)
        → login_external o ≡ ok s
        → (st : ConnectionState) × (remote : Text) × (o ≡ some st)
          × (st.remote_addr ≡ some remote)
          × (hex_decode remote ≡ some s.public)
          × (st.hostname ≡ hex_encode s.public)
          × (s.remote_addr ≡ some remote)
    by_state none k = cc
    by_state (some st) k =
        let (remote, known, decoded, name, address) = by_address st st.remote_addr refl k in
        (st, remote, refl, known, decoded, name, address)

    by_mode :
        (mode : BackendMode)
        → b.mode ≡ mode
        → (elim mode [ internal ↦ err unexpected_connection | external ↦ login_external state ])
          ≡ ok s
        → (b.mode ≡ external)
          × ((st : ConnectionState) × (remote : Text) × (state ≡ some st)
              × (st.remote_addr ≡ some remote)
              × (hex_decode remote ≡ some s.public)
              × (st.hostname ≡ hex_encode s.public)
              × (s.remote_addr ≡ some remote))
    by_mode internal e k = cc
    by_mode external e k = (e, by_state state k)

pub mail_accepts :
    (s : SessionRemote) (from : Text) (size : ℕ) (pk : Bytes) (remote : Text) (w : World)
    → parse_address from ≡ ok pk
    → s.remote_addr ≡ some remote
    → Remote.mail s from size w ≡ (
      if same (hex_encode pk) remote
          then if ltb 0 size && Remote.over_limit size w
            then err size_exceeded
            else ok (record s { from = from })
          else err not_allowed,
      w,
    )
unfolding Remote.mail Remote.mail_parsed Remote.mail_checked Remote.check_sender
mail_accepts s from size pk remote w parsed known =
    ap (λ r. Remote.mail_parsed s from size r w) parsed
    ∙ ap (λ o. Remote.mail_checked s from size (Remote.check_sender o pk) w) known
    ∙ checked (same (hex_encode pk) remote)
  where
    checked :
        (t : Bool)
        → Remote.mail_checked s from size (if t then ok tt else err not_allowed) w ≡ (
          if t
              then if ltb 0 size && Remote.over_limit size w
                then err size_exceeded
                else ok (record s { from = from })
              else err not_allowed,
          w,
        )
    checked false = refl
    checked true = elim (Bool-cases (ltb 0 size && Remote.over_limit size w)) [
      | inl over ↦ rw over refl
      | inr fits ↦ rw fits refl
    ]

hex_encode-injective :
    (ks ls : Bytes) → AreBytes ks → AreBytes ls → hex_encode ks ≡ hex_encode ls → ks ≡ ls
hex_encode-injective ks ls ha hb e =
    let both : some ks ≡ some ls =
      sym (decode-encode ks ha) ∙ ap hex_decode e ∙ decode-encode ls hb in
    cc

-- MAIL FROM on a node whose size limit was set to a number: the address of a key, sent over a connection
-- from the node of a key, is accepted, with the sender kept in the session, exactly if the two keys are
-- the same and the announced size is at most the limit. Whether it is or not, the storage stays.
pub mail_limited :
    (s : SessionRemote) (pk node : Bytes) (limit size : ℕ) (w : World)
    → length pk ≡ public_key_size
    → AreBytes pk
    → AreBytes node
    → s.remote_addr ≡ some (hex_encode node)
    → limit ≤ max_int64
    → let w' = (config_set_max_message_size (pos limit) w).1 in
      ((Remote.mail s (create_address pk) size w').0 ≡ ok (record s { from = create_address pk })
        ↔ (pk ≡ node) × (size ≤ limit))
      × ((Remote.mail s (create_address pk) size w').1 ≡ w')
mail_limited s pk node limit size w len bytes node_bytes known small =
    ((accepted, accepts), ap (λ x. x.1) answer)
  where
    w' : World
    w' = (config_set_max_message_size (pos limit) w).1

    over : (ltb 0 size && Remote.over_limit size w') ≡ (ltb 0 size && ltb limit size)
    over =
        unfold Remote.over_limit in
        ap (λ l. ltb 0 size && Remote.is_too_large size l) (max_size_round_trip limit w small)

    verdict : Bool → Bool → Result SessionRemote
    verdict own big =
        if own
        then if big then err size_exceeded else ok (record s { from = create_address pk })
        else err not_allowed

    answer : Remote.mail s (create_address pk) size w' ≡ (
      verdict (same (hex_encode pk) (hex_encode node)) (ltb 0 size && Remote.over_limit size w'),
      w',
    )
    answer =
        mail_accepts s (create_address pk) size pk (hex_encode node) w' (parse-create pk len bytes)
          known

    allowed :
        (own big : Bool)
        → verdict own big ≡ ok (record s { from = create_address pk })
        → (own ≡ true) × (big ≡ false)
    allowed true false _ = (refl, refl)
    allowed true true k = cc
    allowed false big k = cc

    accepted :
        (Remote.mail s (create_address pk) size w').0 ≡ ok (record s { from = create_address pk })
        → (pk ≡ node) × (size ≤ limit)
    accepted h =
        let (own, fits) =
          allowed (same (hex_encode pk) (hex_encode node)) (ltb 0 size && Remote.over_limit size w')
            (sym (ap (λ x. x.0) answer) ∙ h) in
        let within : (ltb 0 size && ltb limit size) ≡ false = sym over ∙ fits in
        (
          hex_encode-injective pk node bytes node_bytes
              (same→eq (hex_encode pk) (hex_encode node) own),
          ground (arith, within),
        )

    accepts :
        (pk ≡ node) × (size ≤ limit)
        → (Remote.mail s (create_address pk) size w').0 ≡ ok (record s { from = create_address pk })
    accepts (e, le) =
        let own : same (hex_encode pk) (hex_encode node) ≡ true =
          ap (λ k. same (hex_encode pk) (hex_encode k)) (sym e) ∙ same_refl (hex_encode pk) in
        let fits : (ltb 0 size && Remote.over_limit size w') ≡ false = over ∙ ground (arith, le) in
        ap (λ x. x.0) answer
        ∙ ap (λ b. verdict b (ltb 0 size && Remote.over_limit size w')) own
        ∙ ap (verdict true) fits
