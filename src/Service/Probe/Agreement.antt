-- ===== src/Service/Probe/Agreement.antt =====
-- CheckRecipientMessageSizeLimit of mobile/yggmail.go against the MAIL handler of
-- internal/smtpserver/session_remote.go that it asks.
use yggmail_android.Base.{
  ℕ, ◌*◌, ◌||◌, ◌≡◌, refl, ap, ◌∙◌, Bool, true, false, ◌&&◌, not, none, some, Text, Bytes, length,
  same, same_refl, ltb, if◌then◌else◌, if_both,
}
use yggmail_android.Base.Int.{ℤ, pos, negsuc}
use yggmail_android.World.{World, Result, ok, err, Error, size_exceeded, not_allowed}
use yggmail_android.Address.{parse_address, hex_encode, create_address, public_key_size}
use yggmail_android.Address.RoundTrip.{AreBytes, parse-create}
use yggmail_android.Transport.{Config}
use yggmail_android.Smtp.Backend.{SessionRemote}
use yggmail_android.Smtp.Remote as Remote
use yggmail_android.Smtp.Access.{mail_accepts}
use yggmail_android.Service.{YggmailService}
use yggmail_android.Service.Probe.{
  MailReply, accepted, smtp_error, Recipient, MessageSizeLimitCheckResult, check_reply,
  check_dialogue, check_recipient_message_size_limit, our_address, checked_with,
}

-- MaxMessageBytes of the overlay server, which startOverlaySMTP sets: go-smtp answers a size above it
-- with the code 552, and does not ask the session.
abbrev pub max_message_bytes : ℕ
max_message_bytes = 500 * 1024 * 1024

-- The reply that an SMTP server makes of a session's result; go-smtp sends an error that is no
-- SMTPError with the code 451.
abbrev pub reply_of : (Error → Text) → Result SessionRemote → MailReply
reply_of describe (ok _) = accepted
reply_of describe (err e) = smtp_error 451 (describe e)

abbrev pub answered : (Error → Text) → Text → SessionRemote → World → Text → ℤ → MailReply
answered describe too_big session w from (pos n) =
    if ltb max_message_bytes n
    then smtp_error 552 too_big
    else reply_of describe (Remote.mail session from n w).0
answered describe too_big session w from (negsuc _) =
    reply_of describe (Remote.mail session from 0 w).0

-- A node of the network that answers as this program does; `too_big` is the text of go-smtp.
abbrev pub node_of : (Error → Text) → Text → SessionRemote → World → Recipient
node_of describe too_big session w = record {
  dial = none;
  greeting = none;
  hello = none;
  supports_size = true;
  mail = answered describe too_big session w;
}

can_send_of :
    (describe : Error → Text) (r : Text) (z : ℤ) (b : Bool) (s : SessionRemote)
    → (check_reply r z (reply_of describe (if b then err size_exceeded else ok s))).can_send ≡ not b
unfolding check_reply
can_send_of describe r z true s = refl
can_send_of describe r z false s = refl

-- The check of a message of a size agrees with the node that it asks, where that node runs this program
-- and knows the connection by the key of this one: the message can be sent exactly if its size is at most
-- 500 MB, which the node's server accepts, and not over the limit that the node has configured.
pub check_recipient_agrees :
    (nodes : Text → Recipient) (describe : Error → Text) (too_big recipient : Text) (rk : Bytes)
    (n : ℕ) (s : YggmailService) (config : Config) (session : SessionRemote) (w : World)
    → s.running ≡ true
    → s.config ≡ some config
    → length config.public_key ≡ public_key_size
    → AreBytes config.public_key
    → parse_address recipient ≡ ok rk
    → nodes (hex_encode rk) ≡ node_of describe too_big session w
    → session.remote_addr ≡ some (hex_encode config.public_key)
    → (r : MessageSizeLimitCheckResult) × (check_recipient_message_size_limit nodes recipient
          (pos n)
          s
        ≡ ok r)
      × (r.can_send ≡ not (ltb max_message_bytes n || (ltb 0 n && Remote.over_limit n w)))
unfolding check_recipient_message_size_limit check_dialogue create_address
check_recipient_agrees nodes describe too_big recipient rk n s config session w run c len bytes
      parsed node known =
    (
      check_dialogue config (nodes (hex_encode rk)) recipient (pos n),
      checked,
      ap (λ d. (check_dialogue config d recipient (pos n)).can_send) node
          ∙ (by_server (ltb max_message_bytes n)),
    )
  where
    same_sender :
        (t : Text)
        → (if same t t
            then if ltb 0 n && Remote.over_limit n w
              then err size_exceeded
              else ok (record session { from = our_address config })
            else err not_allowed)
          ≡ (if ltb 0 n && Remote.over_limit n w
              then err size_exceeded
              else ok (record session { from = our_address config }))
    same_sender t = rw (same_refl t) refl

    verdict : (Remote.mail session (our_address config) n w).0 ≡ (
        if ltb 0 n && Remote.over_limit n w
        then err size_exceeded
        else ok (record session { from = our_address config }))
    verdict =
        ap (λ x. x.0)
          (mail_accepts session (our_address config) n config.public_key
            (hex_encode config.public_key) w (parse-create config.public_key len bytes) known)
        ∙ same_sender (hex_encode config.public_key)

    by_server :
        (big : Bool)
        → (check_reply recipient (pos n) (
            if big
            then smtp_error 552 too_big
            else reply_of describe (Remote.mail session (our_address config) n w).0)).can_send
          ≡ not (big || (ltb 0 n && Remote.over_limit n w))
    by_server true = unfold check_reply in refl
    by_server false =
        ap (λ x. (check_reply recipient (pos n) (reply_of describe x)).can_send) verdict
        ∙ can_send_of describe recipient (pos n) (ltb 0 n && Remote.over_limit n w)
            (record session { from = our_address config })

    checked :
        check_recipient_message_size_limit nodes recipient (pos n) s
        ≡ ok (check_dialogue config (nodes (hex_encode rk)) recipient (pos n))
    checked =
        if_both (λ x. x ≡ ok (check_dialogue config (nodes (hex_encode rk)) recipient (pos n)))
          s.running _ _
          (λ _.
            ap (λ f. checked_with f nodes recipient (pos n) (parse_address recipient)) c
            ∙ ap (checked_with (some config) nodes recipient (pos n)) parsed)
          (λ e. cc)
