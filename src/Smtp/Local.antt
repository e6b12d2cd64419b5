-- ===== src/Smtp/Local.antt =====
-- internal/smtpserver/session_local.go: mail that a local client sends.
use yggmail_android.Base.{
  Option, none, some, List, [], ◌∷◌, ◌++◌, Text, Bytes, codes, same, if◌then◌else◌,
}
use yggmail_android.World.{
  not_allowed, read_failed, bad_message, Result, ok, err, Reader, Action, fail,
}
use yggmail_android.Address.{parse_address}
use yggmail_android.Sender.Queues.{queue_for}
use yggmail_android.Smtp.Backend.{Backend, SessionLocal}
use yggmail_android.Smtp.Codec.{Codec, render_fields}

-- SessionLocal.Mail: the recipients are reset first, whatever comes of it.
unfoldable pub mail : Backend → SessionLocal → Text → Result (Unit {0}) × SessionLocal
unfolding parse_address
mail b s from =
    let s' = record s { rcpt = [] } in
    elim (parse_address from) [
      | err e ↦ (err e, s')
      | ok pk ↦
          if same pk b.public_key then (ok tt, record s' { from = from }) else (err not_allowed, s')
    ]

-- SessionLocal.Rcpt
unfoldable pub rcpt : SessionLocal → Text → SessionLocal
rcpt s to = record s { rcpt = s.rcpt ++ to ∷ [] }

-- SessionLocal.Reset
unfoldable pub reset : SessionLocal → SessionLocal
reset s = record s { rcpt = []; from = [] }

module _ (codec : Codec) where
  open codec use {Header, read, add, has, fields}

  -- The message with a Received line, and a Date line if it had none.
  abbrev pub with_headers : Text → Text → Header × Bytes → Bytes
  with_headers received date (header, body) =
      let h = add (codes "Received") received header in
      render_fields (fields (if has (codes "Date") h then h else add (codes "Date") date h)) ++ body

  unfoldable pub queue_parsed :
      Backend
      → (Text → Option Text)
      → SessionLocal
      → Text
      → Text
      → Option (Header × Bytes)
      → Action (List Text)
  unfolding queue_for render_fields
  queue_parsed b addr_spec s received date none = fail bad_message
  queue_parsed b addr_spec s received date (some message) =
      queue_for addr_spec b.has_file_store s.from s.rcpt (with_headers received date message)

  -- SessionLocal.Data
  unfoldable pub submit :
      Backend → (Text → Option Text) → SessionLocal → Text → Text → Reader → Action (List Text)
  unfolding queue_parsed
  submit b addr_spec s received date r =
      if r.broken
      then fail read_failed
      else queue_parsed b addr_spec s received date (read r.content)
