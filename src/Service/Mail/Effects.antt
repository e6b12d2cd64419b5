-- ===== src/Service/Mail/Effects.antt =====
-- What the mail methods of mobile/yggmail.go change and return.
use mathlib.Core.Option as Option
use yggmail_android.Base.{
  ℕ, ◌≡◌, refl, ap, sym, ◌∙◌, Bool, true, false, ◌&&◌, inl, inr, ◌⊎◌, Bool-cases, same→eq, Option,
  none, some, [], ◌∷◌, Text, Bytes, same, same_refl, ◌==◌, arith, if◌then◌else◌,
}
use yggmail_android.World.{
  World, MailRow, Result, ok, err, Action, wrong_password, pure, ◌>>=◌, resume,
}
use yggmail_android.FileStore.Paths.{trim_space}
use yggmail_android.Storage.Tables.{seq_of}
use yggmail_android.Storage.Config.{config_set_password, config_try_password, password_key}
use yggmail_android.Storage.Limits.{lookup-replace}
use yggmail_android.Storage.Contents.{in_table, mail_update_flags_lem}
use yggmail_android.Storage.Mails.{Mail, content_of, mail_select, mail_update_flags, select_row}
use yggmail_android.Service.{YggmailService, with_storage, with_storage_open}
use yggmail_android.Service.Mail.{
  set_password, verify_password, mark_mail_seen, get_mail_content, set_hash,
}

mail_select_found :
    (m : Text) (i : ℕ) (w : World) (r : MailRow)
    → in_table m i w ≡ some r
    → mail_select m i w ≡ (ok (select_row (seq_of m i w.db.mails 0) r), w)
unfolding mail_select
mail_select_found m i w r h = rw h refl

-- A method that selects a stored message first goes on with it.
with_selected {ℓ} :
    {A : Type ℓ} (m : Text) (i : ℕ) (s : YggmailService) (w : World) (r : MailRow)
    (f : ℕ × Mail → Action A)
    → s.storage ≡ true
    → in_table m i w ≡ some r
    → with_storage s (mail_select m i >>= f) w ≡ f (select_row (seq_of m i w.db.mails 0) r) w
with_selected m i s w r f o h =
    ap (λ g. g w) (with_storage_open s (mail_select m i >>= f) o)
    ∙ ap (resume f) (mail_select_found m i w r h)

-- MarkMailSeen, on a service with a storage and for a message that is stored, sets whether this message
-- is seen, and changes nothing else of it and no other message.
pub mark_mail_seen_lem :
    (m : Text) (i : ℕ) (seen : Bool) (s : YggmailService) (w : World) (r : MailRow)
    → s.storage ≡ true
    → in_table m i w ≡ some r
    → (n : Text) (j : ℕ)
    → in_table n j (mark_mail_seen m i seen s w).1
      ≡ (if same m n && i == j then some (record r { seen = seen }) else in_table n j w)
unfolding mark_mail_seen
mark_mail_seen_lem m i seen s w r o h n j =
    ap (λ (x : Result (Unit {0}) × World). in_table n j x.1)
      (with_selected m i s w r
        (λ x. mail_update_flags m i seen x.1.answered x.1.flagged x.1.deleted) o h)
    ∙ (mail_update_flags_lem m i seen r.answered r.flagged r.deleted w n j
        ∙ at_row (Bool-cases (same m n && i == j)))
  where
    row : (same m n && i == j) ≡ true → in_table n j w ≡ some r
    row t =
        let e : m ≡ n = same→eq m n (ground (arith, t)) in
        let f : i ≡ j = ground (arith, t) in
        ap (λ k. in_table k j w) (sym e) ∙ (ap (λ k. in_table m k w) (sym f) ∙ h)

    at_row :
        ((same m n && i == j) ≡ true) ⊎ ((same m n && i == j) ≡ false)
        → (if same m n && i == j
            then Option.map
                (λ (q : MailRow). record q {
                  seen = seen;
                  answered = r.answered;
                  flagged = r.flagged;
                  deleted = r.deleted;
                })
                (in_table n j w)
            else in_table n j w)
          ≡ (if same m n && i == j then some (record r { seen = seen }) else in_table n j w)
    at_row (inl t) = rw (t, row t) refl
    at_row (inr f) = rw f refl

-- GetMailContent of a message that is kept in a file is empty, and it reports success.
pub get_mail_content_file :
    (m : Text) (i : ℕ) (s : YggmailService) (w : World) (r : MailRow)
    → s.storage ≡ true
    → in_table m i w ≡ some r
    → r.mail ≡ none
    → (get_mail_content m i s w).0 ≡ ok []
unfolding get_mail_content
get_mail_content_file m i s w r o h e =
    ap (λ (x : Result Bytes × World). x.0) (with_selected m i s w r (λ x. pure x.1.mail) o h)
    ∙ ap (λ c. ok (content_of c)) e

-- With a comparison that accepts the password of a hash only, VerifyPassword, on a service with a
-- storage, accepts behind SetPassword exactly the password without its surrounding blanks.
pub verify-set_password :
    (hash : Text → Option Text) (matches : Text → Text → Bool) (password given : Text) (c : ℕ)
    (h : Text) (s : YggmailService) (w : World)
    → s.storage ≡ true
    → hash (trim_space password) ≡ some (c ∷ h)
    → ((p : Text) → matches (c ∷ h) p ≡ same (trim_space password) p)
    → (verify_password matches given s (set_password hash password s w).1).0
      ≡ (if same (trim_space password) given then ok true else err wrong_password)
unfolding verify_password set_password
verify-set_password hash matches password given c h s w o e k =
    ap (λ (a : Action (Unit {0})). (verify_password matches given s (a w).1).0)
      (with_storage_open s (set_hash (hash (trim_space password))) o ∙ ap set_hash e)
    ∙ (ap (λ (a : Action Bool). (a (set_hash (some (c ∷ h)) w).1).0)
          (with_storage_open s (config_try_password matches given) o)
        ∙ checked)
  where
    first : Result Bool × World → Result Bool
    first x = x.0

    accepted :
        (a b : Bool) (v : World)
        → a ≡ b
        → first (if a then (ok true, v) else (err wrong_password, v))
          ≡ (if b then ok true else err wrong_password)
    accepted true b v q = rw⁻¹ q refl
    accepted false b v q = rw⁻¹ q refl

    checked :
        (config_try_password matches given (config_set_password (c ∷ h) w).1).0
        ≡ (if same (trim_space password) given then ok true else err wrong_password)
    checked =
        unfold config_try_password config_set_password in
        rw (lookup-replace password_key password_key (c ∷ h) w.db.config, same_refl password_key)
          (accepted (matches (c ∷ h) given) (same (trim_space password) given) _ (k given))
