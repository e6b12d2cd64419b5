-- ===== src/Service/Restart.antt =====
-- What Initialize and Start of mobile/yggmail.go leave: the parts of the service, and its transport.
use mathlib.Core.Path.{subst}
use yggmail_android.Base.{
  ℕ, ◌≡◌, refl, ap, ◌∙◌, sym, Bool, true, false, not, none, some, List, [], ◌∷◌, Text, Bytes, codes,
  arith, if_both, ◌++◌, ◌||◌, same, same→eq, same_refl, Bool-cases, inl, inr, if◌then◌else◌,
}
use yggmail_android.World.{
  World, Db, MailboxRow, DiskStep, Result, ok, err, Error, already_initialized, nil_dereference,
  disk_failed, ◌>>◌,
}
use yggmail_android.Address.{create_address}
use yggmail_android.Transport.{
  Config, YggdrasilTransport, new_yggdrasil_transport, get_adaptive_quic_config,
}
use yggmail_android.Storage.Tables.{has_mailbox}
use yggmail_android.Storage.Mailboxes.{insert_mailbox, mailbox_create}
use yggmail_android.Service.{YggmailService, Platform, Called}
use yggmail_android.Service.Lifecycle.{
  initialize, start_service, load_key, peer_list, identify, keep_files, create_default_mailboxes,
  new_file_store, connect_and_serve, serve,
}

-- The transport of a configuration.
abbrev pub link : Config → List Text → Bool → Bool → YggdrasilTransport
link config peers is_active is_charging = record {
  name = create_address config.public_key;
  peers = peers;
  quic = get_adaptive_quic_config is_active is_charging;
  listening = true;
}

new_transport_connects :
    (env : Platform) (config : Config) (peers : List Text) (a c : Bool)
    → env.network.certifies ≡ true
    → env.network.connects peers ≡ true
    → new_yggdrasil_transport env.network create_address config peers a c
      ≡ ok (link config peers a c)
unfolding new_yggdrasil_transport
new_transport_connects env config peers a c h k = rw (h, k) refl

-- Start, on a service that is initialized and does not run, with at least one peer that the network
-- accepts, succeeds; the service then runs on a transport that is open and has exactly the trimmed
-- peers. So it does after Stop, too.
pub start_service_lem :
    (env : Platform) (now : ℕ) (peers p : Text) (ps : List Text) (config : Config)
    (s : YggmailService)
    → s.running ≡ false
    → s.storage ≡ true
    → s.config ≡ some config
    → peer_list peers ≡ p ∷ ps
    → env.network.certifies ≡ true
    → env.network.connects (p ∷ ps) ≡ true
    → ((start_service env now peers s).0 ≡ ok tt)
      × ((start_service env now peers s).1.running ≡ true)
      × ((start_service env now peers s).1.transport
          ≡ some (link config (p ∷ ps) s.is_active s.is_charging))
unfolding start_service
start_service_lem env now peers p ps config s r o c l h k =
    subst Started (sym started) (refl, refl, refl)
  where
    Started : Result (Unit {0}) × YggmailService → Type 0
    Started x =
        (x.0 ≡ ok tt)
        × (x.1.running ≡ true)
        × (x.1.transport ≡ some (link config (p ∷ ps) s.is_active s.is_charging))

    target : Result (Unit {0}) × YggmailService
    target = serve now peers s (ok (link config (p ∷ ps) s.is_active s.is_charging))

    started : start_service env now peers s ≡ target
    started =
        if_both (λ x. x ≡ target) s.running _ _ (λ e. cc)
          (λ _.
            if_both (λ x. x ≡ target) (not s.storage) _ _ (λ e. ground (arith, e, o))
              (λ _.
                ap (λ qs. connect_and_serve env now peers qs s.config s) l
                ∙ (ap (λ f. connect_and_serve env now peers (p ∷ ps) f s) c
                    ∙ ap (serve now peers s) (
                        new_transport_connects env config (p ∷ ps) s.is_active s.is_charging h k))))

-- Where Initialize, on a service that is closed and has no configuration, opens the database and fails on
-- the identity, as where the stored key is not hexadecimal, the storage stays open and the service has
-- no configuration still: if the next call is Initialize, it is refused, whatever has become of the
-- database, and if it is Start, with at least one peer, it dereferences a nil configuration.
pub initialize_failed :
    (env later : Platform) (now : ℕ) (peers p : Text) (ps : List Text) (s : YggmailService)
    (w v u : World) (e : Error)
    → s.storage ≡ false
    → s.running ≡ false
    → s.config ≡ none
    → env.opens ≡ true
    → load_key env w ≡ (err e, v)
    → peer_list peers ≡ p ∷ ps
    → let t = (initialize env s w).1.0 in
      ((initialize env s w).0 ≡ err e)
      × (t.storage ≡ true)
      × (t.config ≡ none)
      × ((initialize later t u).0 ≡ err already_initialized)
      × ((start_service later now peers t).0 ≡ err nil_dereference)
unfolding initialize start_service
initialize_failed env later now peers p ps s w v u e o r c k l q =
    subst Stuck (sym half_open) (refl, refl, c, refl, panics)
  where
    t : YggmailService
    t = record s { storage = true }

    Stuck : Called (Unit {0}) → Type 0
    Stuck x =
        (x.0 ≡ err e)
        × (x.1.0.storage ≡ true)
        × (x.1.0.config ≡ none)
        × ((initialize later x.1.0 u).0 ≡ err already_initialized)
        × ((start_service later now peers x.1.0).0 ≡ err nil_dereference)

    half_open : initialize env s w ≡ (err e, (t, v))
    half_open =
        if_both (λ x. x ≡ (err e, (t, v))) s.storage _ _ (λ h. cc)
          (λ _.
            if_both (λ x. x ≡ (err e, (t, v))) (not env.opens) _ _ (λ h. ground (arith, h, k))
              (λ _. ap (identify env t) l))

    panics : (start_service later now peers t).0 ≡ err nil_dereference
    panics =
        if_both (λ (x : Result (Unit {0}) × YggmailService). x.0 ≡ err nil_dereference) s.running _
          _ (λ h. cc)
          (λ _.
            ap (λ qs. (connect_and_serve later now peers qs s.config t).0) q
            ∙ ap (λ f. (connect_and_serve later now peers (p ∷ ps) f t).0) c)

has_mailbox-append_box :
    (m : Text) (bs : List MailboxRow) (b : MailboxRow)
    → has_mailbox m (bs ++ b ∷ []) ≡ (has_mailbox m bs || same b.mailbox m)
has_mailbox-append_box m [] b = ground arith
has_mailbox-append_box m (c ∷ bs) b = ground (arith, has_mailbox-append_box m bs b)

-- MailboxCreate makes its mailbox and keeps the other ones.
pub has_mailbox-mailbox_create :
    (m name : Text) (w : World)
    → has_mailbox m (mailbox_create name w).1.db.mailboxes
      ≡ (has_mailbox m w.db.mailboxes || same name m)
unfolding mailbox_create insert_mailbox
has_mailbox-mailbox_create m name w =
    let b : MailboxRow = record { mailbox = name; subscribed = true } in
    if_both (λ (d : Db). has_mailbox m d.mailboxes ≡ (has_mailbox m w.db.mailboxes || same name m))
      (has_mailbox name w.db.mailboxes) _ _
      (λ h. elim (Bool-cases (same name m)) [
        | inl e ↦ ground (arith, h, e, same→eq name m e)
        | inr e ↦ ground (arith, e)
      ])
      (λ _. has_mailbox-append_box m w.db.mailboxes b)

-- Initialize, on a service that is not initialized, whose identity is found and whose directory can be
-- made, succeeds; the service has a storage, the key pair and a file store, and the mailboxes INBOX,
-- Outbox and Sent exist.
pub initialize_lem :
    (env : Platform) (s : YggmailService) (w v : World) (sk : Bytes)
    → s.storage ≡ false
    → env.opens ≡ true
    → load_key env w ≡ (ok sk, v)
    → v.disk.refuses DiskStep.mkdir ≡ false
    → let x = initialize env s w in
      (x.0 ≡ ok tt)
      × (x.1.0.storage ≡ true)
      × (x.1.0.config ≡ some (record { public_key = env.public_of sk; private_key = sk }))
      × (x.1.0.file_store ≡ true)
      × (has_mailbox (codes "INBOX") x.1.1.db.mailboxes ≡ true)
      × (has_mailbox (codes "Outbox") x.1.1.db.mailboxes ≡ true)
      × (has_mailbox (codes "Sent") x.1.1.db.mailboxes ≡ true)
unfolding initialize
initialize_lem env s w v sk o k l d =
    subst Opened (sym opened) (refl, refl, refl, refl, has_inbox, has_outbox, has_sent)
  where
    a : World
    a = (mailbox_create (codes "INBOX") v).1

    b : World
    b = (mailbox_create (codes "Outbox") a).1

    c : World
    c = (mailbox_create (codes "Sent") b).1

    has_inbox : has_mailbox (codes "INBOX") c.db.mailboxes ≡ true
    has_inbox = ground (
      arith,
      has_mailbox-mailbox_create (codes "INBOX") (codes "Sent") b,
      has_mailbox-mailbox_create (codes "INBOX") (codes "Outbox") a,
      has_mailbox-mailbox_create (codes "INBOX") (codes "INBOX") v,
      same_refl (codes "INBOX"),
    )

    has_outbox : has_mailbox (codes "Outbox") c.db.mailboxes ≡ true
    has_outbox = ground (
      arith,
      has_mailbox-mailbox_create (codes "Outbox") (codes "Sent") b,
      has_mailbox-mailbox_create (codes "Outbox") (codes "Outbox") a,
      same_refl (codes "Outbox"),
    )

    has_sent : has_mailbox (codes "Sent") c.db.mailboxes ≡ true
    has_sent = ground (
      arith,
      has_mailbox-mailbox_create (codes "Sent") (codes "Sent") b,
      same_refl (codes "Sent"),
    )

    t : YggmailService
    t = record s {
      storage = true;
      config = some (record { public_key = env.public_of sk; private_key = sk });
    }

    Opened : Called (Unit {0}) → Type 0
    Opened x =
        (x.0 ≡ ok tt)
        × (x.1.0.storage ≡ true)
        × (x.1.0.config ≡ some (record { public_key = env.public_of sk; private_key = sk }))
        × (x.1.0.file_store ≡ true)
        × (has_mailbox (codes "INBOX") x.1.1.db.mailboxes ≡ true)
        × (has_mailbox (codes "Outbox") x.1.1.db.mailboxes ≡ true)
        × (has_mailbox (codes "Sent") x.1.1.db.mailboxes ≡ true)

    end : Called (Unit {0})
    end = (ok tt, (record t { file_store = true }, c))

    made : keep_files t ((create_default_mailboxes >> new_file_store) v) ≡ end
    made =
        unfold create_default_mailboxes mailbox_create new_file_store in
        ap (λ r. keep_files t (if r then err disk_failed else ok tt, c)) d

    opened : initialize env s w ≡ end
    opened =
        if_both (λ x. x ≡ end) s.storage _ _ (λ h. cc)
          (λ _.
            if_both (λ x. x ≡ end) (not env.opens) _ _ (λ h. ground (arith, h, k))
              (λ _. ap (identify env (record s { storage = true })) l ∙ made))
