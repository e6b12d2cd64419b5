-- ===== src/Service/Identity.antt =====
-- Initialize of mobile/yggmail.go: the identity of the node, and what the call leaves.
use yggmail_android.Base.{
  ◌≡◌, refl, ap, ◌∙◌, sym, Option, none, some, [], ◌∷◌, Text, Bytes, length, same_refl, arith,
}
use yggmail_android.World.{World, ok}
use yggmail_android.World.Keeps.{err-not-ok}
use yggmail_android.Address.{hex_encode, hex_decode}
use yggmail_android.Storage.Config.{config_get, config_set, lookup, replace, or_empty}
use yggmail_android.Address.RoundTrip.{AreBytes, decode-encode, to_key_from-id}
use yggmail_android.Storage.Limits.{lookup-replace}
use yggmail_android.Service.{Platform}
use yggmail_android.Service.Lifecycle.{
  load_key, private_key_of, make_key, copy_key, private_key_entry, private_key_size,
}

-- A private key of crypto/ed25519: 64 bytes.
abbrev pub IsKey : Bytes → Type 0
IsKey sk = (length sk ≡ private_key_size) × AreBytes sk

-- What the package generates are keys.
abbrev pub GeneratesKeys : Platform → Type 0
GeneratesKeys env = (sk : Bytes) → env.generate_key ≡ some sk → IsKey sk

-- The hexadecimal form of a key is loaded as the key.
key_of_encoded :
    (env : Platform) (sk : Bytes) (w : World)
    → IsKey sk
    → private_key_of env (hex_encode sk) w ≡ (ok sk, w)
unfolding private_key_of hex_encode
key_of_encoded env [] w (n, _) = absurd (omega (arith, n))
key_of_encoded env (b ∷ bs) w (n, h) =
    rw (decode-encode (b ∷ bs) h, to_key_from-id private_key_size (b ∷ bs) n) refl

abbrev stored : World → Text
stored w = or_empty (lookup private_key_entry w.db.config)

copy_key_world : (o : Option Bytes) (w v : World) (sk : Bytes) → copy_key o w ≡ (ok sk, v) → v ≡ w
copy_key_world none w v sk h = absurd (err-not-ok _ sk (ap (λ x. x.0) h))
copy_key_world (some bs) w v sk h = sym (ap (λ x. x.1) h)

make_key_stores :
    (o : Option Bytes) (w v : World) (sk : Bytes)
    → make_key o w ≡ (ok sk, v)
    → (o ≡ some sk) × (stored v ≡ hex_encode sk)
unfolding make_key config_set
make_key_stores none w v sk h = absurd (err-not-ok _ sk (ap (λ x. x.0) h))
make_key_stores (some k) w v sk h =
    (ap some same_key, ap stored (sym (ap (λ x. x.1) h)) ∙ (read_back ∙ ap hex_encode same_key))
  where
    same_key : k ≡ sk
    same_key = cc (ap (λ x. x.0) h)

    read_back :
        or_empty (lookup private_key_entry (replace private_key_entry (hex_encode k) w.db.config))
        ≡ hex_encode k
    read_back =
        rw
          (
            lookup-replace private_key_entry private_key_entry (hex_encode k) w.db.config,
            same_refl private_key_entry,
          )
          refl

-- Once the identity is loaded or made, every later start of the service, on the same database, loads the
-- same private key.
pub load_key_again :
    (env later : Platform) (w v : World) (sk : Bytes)
    → GeneratesKeys env
    → load_key env w ≡ (ok sk, v)
    → load_key later v ≡ (ok sk, v)
unfolding load_key config_get private_key_of
load_key_again env later w v sk g h = by_stored (stored w) refl h
  where
    by_stored :
        (t : Text)
        → stored w ≡ t
        → private_key_of env t w ≡ (ok sk, v)
        → private_key_of later (stored v) v ≡ (ok sk, v)
    by_stored [] e k =
        let m = make_key_stores env.generate_key w v sk k in
        rw m.1 (key_of_encoded later sk v (g sk m.0))
    by_stored (c ∷ s) e k =
        let q = copy_key_world (hex_decode (c ∷ s)) w v sk k in
        ap (λ u. private_key_of later (stored u) u) q ∙ (ap (λ t. private_key_of later t w) e ∙ k)
