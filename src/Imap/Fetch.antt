-- ===== src/Imap/Fetch.antt =====
-- Mailbox.ListMessages of internal/imapserver/mailbox.go. The packages that parse headers and build the
-- parts of a reply are parameters.
use yggmail_android.Base.{
  ℕ, ◌+◌, ◌*◌, ◌%◌, ◌^◌, Bool, true, false, not, Option, none, some, List, [], ◌∷◌, ◌++◌, Text,
  Bytes, same, take, drop, if◌then◌else◌, codes,
}
use yggmail_android.World.{World, Result, ok, err, Reader, Action, ◌>>=◌}
use yggmail_android.FileStore.{read_mail}
use yggmail_android.Storage.Mails.{Mail, mail_select}
use yggmail_android.Imap.SeqSet.{Seq, get_ids_from_seq_set}

-- imap.FetchItem; `other` is any item that is the name of a body section, or none.
pub data FetchItem : Type 0 where
  envelope body body_structure flags internal_date rfc822_size uid : FetchItem
  other : Text → FetchItem

-- textproto.ReadHeader, backendutil and imap.ParseBodySectionName.
pub record FetchCodec : Type 1 where
  pub Header : Type 0
  pub Envelope : Type 0
  pub Structure : Type 0
  -- the header, and the bytes behind it
  pub read_header : Bytes → Option (Header × Bytes)
  pub fetch_envelope : Header → Option Envelope
  pub fetch_body_structure : Header → Bytes → Bool → Option Structure
  pub parse_section : Text → Option Text
  pub fetch_body_section : Header → Bytes → Text → Option Bytes

-- readerWithCloser: whether closeFn was called through it, and how often.
pub record ReaderWithCloser : Type 0 where
  pub closed : Bool
  pub calls : ℕ

abbrev pub peek_size : ℕ
peek_size = 64 * 1024

-- The first 64 KB for the header: the error of a reader that is shorter is ignored.
abbrev pub peeked : Bytes → Bytes
peeked = take peek_size

module _ (codec : FetchCodec) where
  -- imap.Message, as far as the items fill it.
  pub record Fetched : Type 0 where
    pub seq_num : ℕ
    pub uid : ℕ
    pub envelope : Option codec.Envelope
    pub body_structure : Option codec.Structure
    pub flags : List Text
    pub internal_date : Option ℕ
    pub size : ℕ
    pub sections : List (Text × Bytes)

  abbrev pub read_content : Result Reader → Option Bytes
  read_content (err _) = none
  read_content (ok r) = some r.content

  -- The source of the content: the file, or the blob.
  unfoldable pub source : Mail → World → Option Bytes
  unfolding read_mail
  source m w =
      if not (same m.mail_file []) then read_content (read_mail m.mail_file w).0 else some m.mail

  abbrev pub behind : Bytes → Option (codec.Header × Bytes) → Option (codec.Header × Bytes)
  behind rest none = none
  behind rest (some (h, b)) = some (h, b ++ rest)

  -- The header from the peeked bytes, and a reader of what follows it.
  abbrev pub parse_content : Option Bytes → Option (codec.Header × Bytes)
  parse_content none = none
  parse_content (some c) = behind (drop peek_size c) (codec.read_header (peeked c))

  -- get
  unfoldable pub get_message : Mail → World → Option (codec.Header × Bytes)
  unfolding source
  get_message m w = parse_content (source m w)

  abbrev pub add_flag : Bool → Text → List Text
  add_flag true t = t ∷ []
  add_flag false t = []

  unfoldable pub flag_names : Mail → List Text
  flag_names m =
      add_flag m.seen (codes "\\Seen")
      ++ add_flag m.answered (codes "\\Answered")
      ++ add_flag m.flagged (codes "\\Flagged")
      ++ add_flag m.deleted (codes "\\Deleted")

  abbrev pub with_envelope : Fetched → Option (codec.Header × Bytes) → Fetched
  with_envelope f none = f
  with_envelope f (some (h, _)) = record f { envelope = codec.fetch_envelope h }

  abbrev pub with_structure : Bool → Fetched → Option (codec.Header × Bytes) → Fetched
  with_structure extended f none = f
  with_structure extended f (some (h, b)) = record f {
    body_structure = codec.fetch_body_structure h b extended;
  }

  abbrev pub put_section : Fetched → Text → Option Bytes → Fetched
  put_section f s none = f
  put_section f s (some l) = record f { sections = f.sections ++ (s, l) ∷ [] }

  abbrev pub with_section : Fetched → Option Text → Option (codec.Header × Bytes) → Fetched
  with_section f none x = f
  with_section f (some s) none = f
  with_section f (some s) (some (h, b)) = put_section f s (codec.fetch_body_section h b s)

  -- The switch over an item
  unfoldable pub fetch_item : ℕ → Mail → World → Fetched → FetchItem → Fetched
  unfolding get_message flag_names
  fetch_item id m w f FetchItem.envelope = with_envelope f (get_message m w)
  fetch_item id m w f FetchItem.body = with_structure false f (get_message m w)
  fetch_item id m w f FetchItem.body_structure = with_structure true f (get_message m w)
  fetch_item id m w f FetchItem.flags = record f { flags = flag_names m }
  fetch_item id m w f FetchItem.internal_date = record f { internal_date = some m.date }
  fetch_item id m w f FetchItem.rfc822_size = record f { size = m.size % 2 ^ 32 }
  fetch_item id m w f FetchItem.uid = record f { uid = id % 2 ^ 32 }
  fetch_item id m w f (FetchItem.other item) =
      with_section f (codec.parse_section item) (get_message m w)

  unfoldable pub fetch_items : ℕ → Mail → World → List FetchItem → Fetched → Fetched
  unfolding fetch_item
  fetch_items id m w [] f = f
  fetch_items id m w (item ∷ items) f = fetch_items id m w items (fetch_item id m w f item)

  -- imap.NewMessage
  abbrev pub new_message : ℕ → Mail → Fetched
  new_message seq m = record {
    seq_num = seq % 2 ^ 32;
    uid = m.id % 2 ^ 32;
    envelope = none;
    body_structure = none;
    flags = [];
    internal_date = none;
    size = 0;
    sections = [];
  }

  abbrev pub reply_of : ℕ → List FetchItem → World → Result (ℕ × Mail) → List Fetched
  reply_of id items w (err _) = []
  reply_of id items w (ok (seq, m)) = fetch_items id m w items (new_message seq m) ∷ []

  -- The loop over the IDs: a message that cannot be selected is left out.
  unfoldable pub fetch_each : List FetchItem → List ℕ → Text → World → List Fetched
  unfolding mail_select fetch_items
  fetch_each items [] name w = []
  fetch_each items (id ∷ ids) name w =
      reply_of id items w (mail_select name id w).0 ++ fetch_each items ids name w

  -- ListMessages: the messages that are sent on the channel.
  unfoldable pub list_messages : ℕ → Bool → Text → List Seq → List FetchItem → Action (List Fetched)
  unfolding get_ids_from_seq_set fetch_each
  list_messages fuel by_uid name set items =
      get_ids_from_seq_set fuel by_uid name set >>= λ ids w. (ok (fetch_each items ids name w), w)

abbrev pub close_once : ReaderWithCloser → ReaderWithCloser
close_once r = if r.closed then r else record { closed = true; calls = r.calls + 1 }

-- The calls on a readerWithCloser: a Read, by whether it meets the end, and Close.
pub data ReaderCall : Type 0 where
  reads : Bool → ReaderCall
  closes : ReaderCall

-- Read and Close of readerWithCloser
unfoldable pub call_reader : ReaderCall → ReaderWithCloser → ReaderWithCloser
call_reader (reads at_end) r = if at_end then close_once r else r
call_reader closes r = close_once r

unfoldable pub call_reader_each : List ReaderCall → ReaderWithCloser → ReaderWithCloser
unfolding call_reader
call_reader_each [] r = r
call_reader_each (c ∷ cs) r = call_reader_each cs (call_reader c r)
