-- ===== src/Imap/Access.antt =====
-- The login of internal/imapserver/backend.go: who is let in.
use yggmail_android.Base.{◌≡◌, refl, ap, sym, ◌∙◌, Bool, true, false, Text, Bytes, if◌then◌else◌}
use yggmail_android.World.{World, ok, fail, ◌>>=◌, wrong_domain, auth_required, nil_dereference}
use yggmail_android.World.Keeps.{resume-ok, err-not-ok}
use yggmail_android.Address.{parse_address, hex_encode}
use yggmail_android.Storage.Config.{config_try_password}
use yggmail_android.Imap.User.{is_foreign, greet, login}

greet-ok :
    (c : Bool) (pk : Bytes) (authed : Bool) (name : Text) (w w' : World)
    → greet c pk authed w ≡ (ok name, w')
    → (authed ≡ true) × (name ≡ hex_encode pk)
unfolding greet
greet-ok c pk false name w w' h = absurd (err-not-ok auth_required name (ap (λ x. x.0) h))
greet-ok false pk true name w w' h = absurd (err-not-ok nil_dereference name (ap (λ x. x.0) h))
greet-ok true pk true name w w' h = (refl, value name (hex_encode pk) (sym (ap (λ x. x.0) h)))
  where
    value : (s t : Text) → ok s ≡ ok t → s ≡ t
    value s t k = cc

-- Who logs in by IMAP has not given the address of another key, has passed the password check, and is
-- named by our key.
pub login_sound :
    (matches : Text → Text → Bool) (public_key : Bytes) (has_conn : Bool)
    (username password name : Text) (w w' : World)
    → login matches public_key has_conn username password w ≡ (ok name, w')
    → (is_foreign (parse_address username) public_key ≡ false)
      × ((config_try_password matches password w).0 ≡ ok true)
      × (name ≡ hex_encode public_key)
unfolding login
login_sound matches pk c username password name w w' h =
    by_name (is_foreign (parse_address username) pk) refl h
  where
    by_name :
        (t : Bool)
        → is_foreign (parse_address username) pk ≡ t
        → (if t then fail wrong_domain else (config_try_password matches password >>= greet c pk)) w
          ≡ (ok name, w')
        → (is_foreign (parse_address username) pk ≡ false)
          × ((config_try_password matches password w).0 ≡ ok true)
          × (name ≡ hex_encode pk)
    by_name true e k = absurd (err-not-ok wrong_domain name (ap (λ x. x.0) k))
    by_name false e k =
        let (authed, w1, e1, k1) =
          resume-ok (greet c pk) (config_try_password matches password w) name w' k in
        let (passed, named) = greet-ok c pk authed name w1 w' k1 in
        (e, ap (λ x. x.0) e1 ∙ ap ok passed, named)
