-- ===== src/Smtp/Remote.antt =====
-- internal/smtpserver/session_remote.go: mail that comes in from another node.
use yggmail_android.Base.{
  ℕ, ◌+◌, Bool, true, false, ◌&&◌, Option, none, some, ◌++◌, Text, Bytes, codes, same, length, ltb,
  take, drop, if◌then◌else◌,
}
use yggmail_android.Base.Int.{ℤ, exceeds}
use yggmail_android.World.{
  not_allowed, invalid_state, size_exceeded, wrong_recipient, read_failed, bad_message, World,
  Result, ok, err, Reader, Action, fail, ◌>>=◌, ◌>>◌, small_message_threshold,
}
use yggmail_android.Address.{parse_address, hex_encode}
use yggmail_android.Storage.Config.{config_get_max_message_size}
use yggmail_android.Storage.Mails.{
  mail_create, mail_create_from_stream, mail_select, mail_delete, mail_expunge_with_file_store,
}
use yggmail_android.Smtp.Backend.{Backend, SessionRemote}
use yggmail_android.Smtp.Codec.{Codec, render_fields}

abbrev pub inbox : Text
inbox = codes "INBOX"

-- A size against the limit; a limit that cannot be read is no limit.
abbrev pub is_too_large : ℕ → Result ℤ → Bool
is_too_large size (ok limit) = exceeds size limit
is_too_large size (err _) = false

-- Whether the configured limit is exceeded.
unfoldable pub over_limit : ℕ → World → Bool
unfolding config_get_max_message_size
over_limit size w = is_too_large size (config_get_max_message_size w).0

-- The sender must be the node at the other end.
unfoldable pub check_sender : Option Text → Bytes → Result (Unit {0})
unfolding hex_encode
check_sender none pk = err invalid_state
check_sender (some remote) pk = if same (hex_encode pk) remote then ok tt else err not_allowed

unfoldable pub mail_checked : SessionRemote → Text → ℕ → Result (Unit {0}) → Action SessionRemote
unfolding over_limit
mail_checked s from size (err e) w = (err e, w)
mail_checked s from size (ok _) w =
    if ltb 0 size && over_limit size w
    then (err size_exceeded, w)
    else (ok (record s { from = from }), w)

unfoldable pub mail_parsed : SessionRemote → Text → ℕ → Result Bytes → Action SessionRemote
unfolding mail_checked check_sender
mail_parsed s from size (err e) w = (err e, w)
mail_parsed s from size (ok pk) w = mail_checked s from size (check_sender s.remote_addr pk) w

-- SessionRemote.Mail; `size` is the SIZE parameter, 0 if there is none.
unfoldable pub mail : SessionRemote → Text → ℕ → Action SessionRemote
unfolding parse_address mail_parsed
mail s from size w = mail_parsed s from size (parse_address from) w

-- SessionRemote.Rcpt
unfoldable pub rcpt : Backend → Text → Result (Unit {0})
unfolding parse_address
rcpt b to = elim (parse_address to) [
  | err e ↦ err e
  | ok pk ↦ if same pk b.public_key then ok tt else err wrong_recipient
]

-- A message over the limit is deleted again: its mailbox is expunged.
unfoldable pub reject_over : Bool → ℕ → ℕ → Action ℕ
unfolding over_limit mail_delete mail_expunge_with_file_store
reject_over with_files id size w =
    if over_limit size w
    then (mail_delete inbox id
          >> mail_expunge_with_file_store with_files inbox
          >> fail size_exceeded)
        w
    else (ok id, w)

-- A large message goes through the file store; its size is read back.
unfoldable pub store_large : Reader → Action ℕ
unfolding mail_create_from_stream mail_select reject_over
store_large full = do
  id ← mail_create_from_stream inbox full
  (_, stored) ← mail_select inbox id
  reject_over true id stored.size

-- Any other message is read whole.
unfoldable pub store_small : Reader → Action ℕ
unfolding mail_create reject_over
store_small full =
    if full.broken
    then fail read_failed
    else (mail_create inbox full.content >>= λ id. reject_over false id (length full.content))

module _ (codec : Codec) where
  open codec use {Header, read, add, fields}

  -- The message with its two new header lines: `received` and `date` are made from the time.
  abbrev pub with_headers : Text → Text → Header × Bytes → Bytes
  with_headers received date (header, body) =
      render_fields
        (fields (add (codes "Delivery-Date") date (add (codes "Received") received header)))
      ++ body

  unfoldable pub store_parsed :
      Backend → Text → Text → Bool → Bool → Bytes → Option (Header × Bytes) → Action ℕ
  unfolding store_large store_small render_fields
  store_parsed b received date is_large broken remaining none = fail bad_message
  store_parsed b received date is_large broken remaining (some message) =
      let full : Reader = record {
        content = with_headers received date message ++ remaining;
        broken = broken;
      } in
      if is_large && (b.has_file_store && b.has_logger) then store_large full else store_small full

  -- SessionRemote.Data: the ID of the stored mail, of which the IMAP clients and the callback are told.
  unfoldable pub receive : Backend → Text → Text → Reader → Action ℕ
  unfolding over_limit store_parsed
  receive b received date r w =
      let limit = small_message_threshold + 1 in
      let peeked = take limit r.content in
      if r.broken && ltb (length r.content) limit
      then (err read_failed, w)
      else if over_limit (length peeked) w
      then (err size_exceeded, w)
      else store_parsed b received date (ltb small_message_threshold (length peeked)) r.broken
          (drop limit r.content) (read peeked) w
