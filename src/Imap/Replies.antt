-- ===== src/Imap/Replies.antt =====
-- ListMessages of internal/imapserver/mailbox.go: what FETCH replies, and what it leaves.
use yggmail_android.Base.{
  ℕ, ◌≡◌, ◌≤◌, ◌⊎◌, inl, inr, ap, sym, ◌∙◌, length, take, drop, take-append-drop, length-append,
  length-take, append_assoc, ◌++◌, Option, none, refl, Bool, false, some, List, [], ◌∷◌, Text,
  Bytes, same, if◌then◌else◌, if_both, arith,
}
use yggmail_android.World.{World, DiskStep}
use yggmail_android.FileStore.{read_mail}
use yggmail_android.FileStore.Files.{lookup}
use yggmail_android.FileStore.Paths.{contains_dots}
use yggmail_android.Storage.Mails.{Mail}
use yggmail_android.Imap.SeqSet.{Seq, get_ids_from_seq_set}
use yggmail_android.Imap.Reads.{ReadOnly, bind-ReadOnly, get_ids_from_seq_set-ReadOnly}
use yggmail_android.Imap.Fetch.{
  peek_size, behind, parse_content, FetchItem, FetchCodec, ReaderWithCloser, source, get_message,
  list_messages, call_reader_each, call_reader, ReaderCall, reads, closes, close_once,
}

module _ (codec : FetchCodec) where
  -- FETCH changes nothing, whatever it replies.
  pub list_messages-ReadOnly :
      (fuel : ℕ) (uid : Bool) (name : Text) (set : List Seq) (items : List FetchItem)
      → ReadOnly (list_messages codec fuel uid name set items)
  unfolding list_messages
  list_messages-ReadOnly fuel uid name set items =
      bind-ReadOnly (get_ids_from_seq_set fuel uid name set) _
        (get_ids_from_seq_set-ReadOnly fuel uid name set) (λ ids. record { same_world = λ w. refl })

  -- What textproto.ReadHeader does: the bytes that it returns are the end of those that it gets.
  abbrev pub SplitsHeader : Type 0
  SplitsHeader =
      (c : Bytes) (h : codec.Header) (b : Bytes)
      → codec.read_header c ≡ some (h, b)
      → (head : Bytes) × (c ≡ head ++ b)

  -- The content of a message, in the database or in a file that can be read.
  abbrev pub IsKept : Mail → World → Bytes → Type 0
  IsKept m w content =
      ((m.mail_file ≡ []) × (m.mail ≡ content))
      ⊎ ((same m.mail_file [] ≡ false)
          × (contains_dots m.mail_file ≡ false)
          × (lookup m.mail_file w.disk.files ≡ some content)
          × (w.disk.refuses DiskStep.read ≡ false))

  source-IsKept :
      (m : Mail) (w : World) (content : Bytes)
      → IsKept m w content
      → source codec m w ≡ some content
  unfolding source read_mail same
  source-IsKept m w content (inl (f, e)) = rw (f, e) refl
  source-IsKept m w content (inr (f, d, l, r)) = rw (f, d, l, r) refl

  -- What is fetched of a content
  abbrev pub IsEndOf : Bytes → codec.Header → Bytes → Type 0
  IsEndOf content h body =
      (head : Bytes) × (content ≡ head ++ body)
      × (length head ≤ peek_size)
      × (b : Bytes) × (codec.read_header (take peek_size content) ≡ some (h, b))

  parsed-IsEndOf :
      (content : Bytes) (h : codec.Header) (body : Bytes) (x : Option (codec.Header × Bytes))
      → SplitsHeader
      → codec.read_header (take peek_size content) ≡ x
      → behind codec (drop peek_size content) x ≡ some (h, body)
      → IsEndOf content h body
  parsed-IsEndOf content h body none splits e k = cc
  parsed-IsEndOf content h body (some (g, b)) splits e k =
      let fetched : ◌≡◌ {A = codec.Header × Bytes} (g, b ++ drop peek_size content) (h, body) =
        cc in
      let header : g ≡ h = ap (λ x. x.0) fetched in
      let (head, parts) = splits (take peek_size content) g b e in
      (
        head,
        sym (take-append-drop peek_size content)
            ∙ ap (λ c. c ++ drop peek_size content) parts
            ∙ append_assoc head b (drop peek_size content)
            ∙ ap (λ x. head ++ x.1) fetched,
        omega (
          arith,
          length-take peek_size content,
          length-append head b,
          ap (λ (c : Bytes). length c) parts,
        ),
        b,
        e ∙ ap (λ g'. some (g', b)) header,
      )

  -- Where the header is split off as textproto does it: a message that is fetched, from the database or
  -- from a file, has the header that the first 64 KB have, and its body is the whole rest of the
  -- content behind at most 64 KB: no byte is lost or repeated where the peeked bytes end.
  pub get_message_whole :
      (m : Mail) (content : Bytes) (h : codec.Header) (body : Bytes) (w : World)
      → SplitsHeader
      → IsKept m w content
      → get_message codec m w ≡ some (h, body)
      → IsEndOf content h body
  unfolding get_message
  get_message_whole m content h body w splits kept e =
      parsed-IsEndOf content h body (codec.read_header (take peek_size content)) splits refl
        (ap (parse_content codec) (sym (source-IsKept m w content kept)) ∙ e)

-- The file is not closed twice, and it is closed where the reader says so.
abbrev pub IsClosedOnce : ReaderWithCloser → Type 0
IsClosedOnce r = r.calls ≡ (if r.closed then 1 else 0)

close_once-IsClosedOnce : (r : ReaderWithCloser) → IsClosedOnce r → IsClosedOnce (close_once r)
close_once-IsClosedOnce r h = if_both IsClosedOnce r.closed _ _ (λ _. h) (λ e. ground (arith, e, h))

-- However a reader is read and closed, its close function is called at most once: exactly once if the end
-- was met or Close was called.
pub call_reader_each-IsClosedOnce :
    (cs : List ReaderCall) (r : ReaderWithCloser)
    → IsClosedOnce r
    → IsClosedOnce (call_reader_each cs r)
unfolding call_reader_each call_reader
call_reader_each-IsClosedOnce [] r h = h
call_reader_each-IsClosedOnce (reads at_end ∷ cs) r h =
    call_reader_each-IsClosedOnce cs (if at_end then close_once r else r)
      (if_both IsClosedOnce at_end _ _ (λ _. close_once-IsClosedOnce r h) (λ _. h))
call_reader_each-IsClosedOnce (closes ∷ cs) r h =
    call_reader_each-IsClosedOnce cs (close_once r) (close_once-IsClosedOnce r h)
