-- ===== src/Service/Probe.antt =====
-- CheckRecipientMessageSizeLimit of mobile/yggmail.go: the recipient's node is asked by MAIL FROM with
-- the size, before anything is sent. The connection and the SMTP client are parameters.
pub mod Agreement
use yggmail_android.Base.{
  ℕ, Bool, true, false, Option, none, some, List, [], ◌∷◌, ◌++◌, Text, Bytes, codes, ◌==◌,
  if◌then◌else◌,
}
use yggmail_android.Base.Int.{ℤ, pos}
use yggmail_android.World.{Result, ok, err, not_running, nil_dereference}
use yggmail_android.Address.{parse_address, hex_encode}
use yggmail_android.Transport.{Config}
use yggmail_android.Service.{YggmailService}

-- What the SMTP client returns of MAIL: nothing, an SMTPError with its code and message, or another
-- error.
pub data MailReply : Type 0 where
  accepted : MailReply
  smtp_error : ℕ → Text → MailReply
  other_error : Text → MailReply

-- The node of a recipient, as the client meets it: the error of each step, if it fails.
pub record Recipient : Type 0 where
  pub dial : Option Text
  pub greeting : Option Text
  pub hello : Option Text
  pub supports_size : Bool
  pub mail : Text → ℤ → MailReply

-- MessageSizeLimitCheckResult; the size is in bytes.
pub record MessageSizeLimitCheckResult : Type 0 where
  pub can_send : Bool
  pub error_message : Text
  pub recipient_addr : Text
  pub message_size : ℤ

abbrev pub answer : Bool → Text → Text → ℤ → MessageSizeLimitCheckResult
answer can text recipient size = record {
  can_send = can;
  error_message = text;
  recipient_addr = recipient;
  message_size = size;
}

-- The answer to MAIL FROM
unfoldable pub check_reply : Text → ℤ → MailReply → MessageSizeLimitCheckResult
check_reply recipient size accepted = answer true [] recipient size
check_reply recipient size (smtp_error code text) =
    if code == 552
    then answer false (codes "Recipient message size limit exceeded: " ++ text) recipient size
    else answer false (codes "Recipient rejected message: " ++ text) recipient size
check_reply recipient size (other_error text) =
    answer false (codes "Recipient rejected message: " ++ text) recipient size

-- A step that may fail, with the text that stands before its error
abbrev pub try_step :
    Option Text → Text → Text → ℤ → MessageSizeLimitCheckResult → MessageSizeLimitCheckResult
try_step none text recipient size next = next
try_step (some e) text recipient size next = answer false (text ++ e) recipient size

abbrev pub our_address : Config → Text
our_address c = hex_encode c.public_key ++ codes "@yggmail"

-- The dialogue with the node of a recipient
unfoldable pub check_dialogue : Config → Recipient → Text → ℤ → MessageSizeLimitCheckResult
unfolding check_reply hex_encode
check_dialogue config node recipient size =
    try_step node.dial (codes "Cannot connect to recipient: ") recipient size (
      try_step node.greeting (codes "SMTP connection failed: ") recipient size (
        try_step node.hello (codes "EHLO failed: ") recipient size (
          if node.supports_size
          then check_reply recipient size (node.mail (our_address config) size)
          else answer true [] recipient size)))

abbrev pub checked_with :
    Option Config
    → (Text → Recipient)
    → Text
    → ℤ
    → Result Bytes
    → Result MessageSizeLimitCheckResult
checked_with config nodes recipient size (err e) = err e
checked_with none nodes recipient size (ok pk) = err nil_dereference
checked_with (some c) nodes recipient size (ok pk) =
    ok (check_dialogue c (nodes (hex_encode pk)) recipient size)

-- CheckRecipientMessageSizeLimit
unfoldable pub check_recipient_message_size_limit :
    (Text → Recipient) → Text → ℤ → YggmailService → Result MessageSizeLimitCheckResult
unfolding check_dialogue parse_address
check_recipient_message_size_limit nodes recipient size s =
    if s.running
    then checked_with s.config nodes recipient size (parse_address recipient)
    else err not_running
