-- ===== src/Smtp/Keeps.antt =====
-- internal/smtpserver: the sessions, under the schema's constraints.
use yggmail_android.Base.{
  ℕ, ◌+◌, Bool, true, false, ◌&&◌, Option, none, some, Text, Bytes, ltb, length, take, drop,
  Bool-cases, inl, inr,
}
use yggmail_android.World.{Reader, fail, ◌>>◌, size_exceeded, small_message_threshold}
use yggmail_android.World.Keeps.{Keeps, bind-Keeps, fail-Keeps, query-Keeps, if-Keeps}
use yggmail_android.Storage.Mails.{
  mail_delete, mail_expunge_with_file_store, mail_create_from_stream, mail_create, mail_select,
}
use yggmail_android.Storage.Keeps.{
  HasValidDb, mail_create-Keeps, mail_create_from_stream-Keeps, mail_delete-Keeps,
  mail_expunge_with_file_store-Keeps,
}
use yggmail_android.Sender.Keeps.{queue_for-Keeps}
use yggmail_android.Smtp.Backend.{Backend, SessionLocal}
use yggmail_android.Smtp.Codec.{Codec}
use yggmail_android.Smtp.Remote.{
  inbox, over_limit, reject_over, store_large, store_small, store_parsed, receive,
}
use yggmail_android.Smtp.Local.{queue_parsed, submit}

drop_over-Keeps :
    (b : Bool) (id : ℕ)
    → Keeps HasValidDb
        (mail_delete inbox id >> mail_expunge_with_file_store b inbox >> fail {A = ℕ} size_exceeded)
drop_over-Keeps b id =
    bind-Keeps HasValidDb (mail_delete inbox id >> mail_expunge_with_file_store b inbox)
      (λ _. fail {A = ℕ} size_exceeded)
      (bind-Keeps HasValidDb (mail_delete inbox id) (λ _. mail_expunge_with_file_store b inbox)
        (mail_delete-Keeps inbox id) (λ _. mail_expunge_with_file_store-Keeps b inbox))
      (λ _. fail-Keeps HasValidDb size_exceeded)

reject_over-Keeps : (b : Bool) (id size : ℕ) → Keeps HasValidDb (reject_over b id size)
unfolding reject_over
reject_over-Keeps b id size = record {
  holds = λ w v. elim (Bool-cases (over_limit size w)) [
    | inr fits ↦ rw fits v
    | inl over ↦ rw over ((drop_over-Keeps b id).holds w v)
  ];
}

store_large-Keeps : (full : Reader) → Keeps HasValidDb (store_large full)
unfolding store_large mail_select
store_large-Keeps full =
    bind-Keeps HasValidDb (mail_create_from_stream inbox full) _
      (mail_create_from_stream-Keeps inbox full)
      (λ id.
        bind-Keeps HasValidDb (mail_select inbox id) _ (query-Keeps HasValidDb _)
          (λ r. reject_over-Keeps true id _))

store_small-Keeps : (full : Reader) → Keeps HasValidDb (store_small full)
unfolding store_small
store_small-Keeps full = if-Keeps HasValidDb full.broken _ _ (fail-Keeps HasValidDb _) (
    bind-Keeps HasValidDb (mail_create inbox full.content) _ (mail_create-Keeps inbox full.content)
      (λ id. reject_over-Keeps false id _))

module _ (codec : Codec) where
  open codec use {Header, read}

  store_parsed-Keeps :
      (b : Backend) (received date : Text) (is_large broken : Bool) (remaining : Bytes)
      (message : Option (Header × Bytes))
      → Keeps HasValidDb (store_parsed codec b received date is_large broken remaining message)
  unfolding store_parsed
  store_parsed-Keeps b received date is_large broken remaining none = fail-Keeps HasValidDb _
  store_parsed-Keeps b received date is_large broken remaining (some message) =
      if-Keeps HasValidDb (is_large && (b.has_file_store && b.has_logger)) _ _ (store_large-Keeps _)
        (store_small-Keeps _)

  -- DATA of a remote session keeps the constraints.
  pub receive-Keeps :
      (b : Backend) (received date : Text) (r : Reader)
      → Keeps HasValidDb (receive codec b received date r)
  unfolding receive
  receive-Keeps b received date r =
      let limit = small_message_threshold + 1 in
      let peeked = take limit r.content in
      let store =
        store_parsed-Keeps b received date (ltb small_message_threshold (length peeked)) r.broken
          (drop limit r.content) (read peeked) in
      record {
        holds = λ w v. elim (Bool-cases (r.broken && ltb (length r.content) limit)) [
          | inl cut ↦ rw cut v
          | inr whole ↦ elim (Bool-cases (over_limit (length peeked) w)) [
            | inl over ↦ rw (whole, over) v
            | inr fits ↦ rw (whole, fits) (store.holds w v)
          ]
        ];
      }

  queue_parsed-Keeps :
      (b : Backend) (addr_spec : Text → Option Text) (s : SessionLocal) (received date : Text)
      (message : Option (Header × Bytes))
      → Keeps HasValidDb (queue_parsed codec b addr_spec s received date message)
  unfolding queue_parsed
  queue_parsed-Keeps b addr_spec s received date none = fail-Keeps HasValidDb _
  queue_parsed-Keeps b addr_spec s received date (some message) =
      queue_for-Keeps addr_spec b.has_file_store s.from s.rcpt _

  -- DATA of a local session keeps the constraints.
  pub submit-Keeps :
      (b : Backend) (addr_spec : Text → Option Text) (s : SessionLocal) (received date : Text)
      (r : Reader)
      → Keeps HasValidDb (submit codec b addr_spec s received date r)
  unfolding submit
  submit-Keeps b addr_spec s received date r =
      if-Keeps HasValidDb r.broken _ _ (fail-Keeps HasValidDb _)
        (queue_parsed-Keeps b addr_spec s received date (read r.content))
