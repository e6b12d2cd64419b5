-- ===== src/Welcome.antt =====
-- internal/welcome/welcome.go: the welcome message of the first start. The text that go-message writes
-- for a user is a parameter.
use yggmail_android.Base.{ℕ, ◌≡◌, refl, ap, sym, ◌∙◌, false, [], ◌∷◌, Text, Bytes, codes, same_refl}
use yggmail_android.World.{World, ok, Action, pure, ◌>>=◌, ◌>>◌}
use yggmail_android.World.Keeps.{resume-ok, Keeps, bind-Keeps, pure-Keeps, query-Keeps}
use yggmail_android.Storage.Config.{config_get, config_set, lookup, or_empty}
use yggmail_android.Storage.Limits.{lookup-replace}
use yggmail_android.Storage.Keeps.{
  HasValidDb, mail_create-Keeps, mail_update_flags-Keeps, config_set-Keeps,
}
use yggmail_android.Storage.Mails.{mail_create, mail_update_flags}

abbrev pub onboarding_key : Text
onboarding_key = codes "onboarding_done"

abbrev inbox : Text
inbox = codes "INBOX"

-- The message, if there was none: any error is a panic.
unfoldable pub send_welcome : (Text → Bytes) → Text → Text → Action (Unit {0})
unfolding mail_create mail_update_flags config_set
send_welcome message user [] = do
  id ← mail_create inbox (message user)
  mail_update_flags inbox id false false false false
  config_set onboarding_key (codes "true")
send_welcome message user (c ∷ done) = pure tt

-- Onboard
unfoldable pub onboard : (Text → Bytes) → Text → Action (Unit {0})
unfolding config_get send_welcome
onboard message user = config_get onboarding_key >>= send_welcome message user

abbrev status : World → Text
status w = or_empty (lookup onboarding_key w.db.config)

done_by :
    (message : Text → Bytes) (user t : Text) (w v : World)
    → status w ≡ t
    → send_welcome message user t w ≡ (ok tt, v)
    → (c : ℕ) × (s : Text) × (status v ≡ c ∷ s)
unfolding send_welcome config_set
done_by message user (c ∷ s) w v e h = (c, s, ap status (sym (ap (λ x. x.1) h)) ∙ e)
done_by message user [] w v e h =
    let (id, w1, _, h1) = resume-ok _ (mail_create inbox (message user) w) tt v h in
    let (_, w2, _, h2) =
      resume-ok (λ _. config_set onboarding_key (codes "true"))
        (mail_update_flags inbox id false false false false w1) tt v h1 in
    (
      b't',
      codes "rue",
      ap status (sym (ap (λ x. x.1) h2))
          ∙ rw
              (
                lookup-replace onboarding_key onboarding_key (codes "true") w2.db.config,
                same_refl onboarding_key,
              )
              refl,
    )

-- Once Onboard succeeded, another Onboard, for whatever user, changes nothing: the welcome message is
-- sent once.
pub onboard_once :
    (message : Text → Bytes) (user later : Text) (w v : World)
    → onboard message user w ≡ (ok tt, v)
    → onboard message later v ≡ (ok tt, v)
unfolding onboard config_get send_welcome
onboard_once message user later w v h =
    let (c, s, e) = done_by message user (status w) w v refl h in
    ap (λ t. send_welcome message later t v) e ∙ refl

-- The welcome message keeps the constraints of the database.
pub onboard-Keeps : (message : Text → Bytes) (user : Text) → Keeps HasValidDb (onboard message user)
unfolding onboard
onboard-Keeps message user =
    bind-Keeps HasValidDb (config_get onboarding_key) (send_welcome message user)
      (unfold config_get in
        query-Keeps HasValidDb (λ d. ok (or_empty (lookup onboarding_key d.config))))
      sent
  where
    flagged :
        (id : ℕ)
        → Keeps HasValidDb (
            mail_update_flags inbox id false false false false
            >> config_set onboarding_key (codes "true"))
    flagged id =
        bind-Keeps HasValidDb (mail_update_flags inbox id false false false false) _
          (mail_update_flags-Keeps inbox id false false false false)
          (λ _. config_set-Keeps onboarding_key (codes "true"))

    sent : (t : Text) → Keeps HasValidDb (send_welcome message user t)
    sent [] =
        unfold send_welcome in
        bind-Keeps HasValidDb (mail_create inbox (message user)) _
          (mail_create-Keeps inbox (message user)) flagged
    sent (c ∷ t) = unfold send_welcome in pure-Keeps HasValidDb tt
