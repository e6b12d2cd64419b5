-- ===== src/Imap/Notify.antt =====
-- internal/imapserver/notify.go: the untagged responses to the connections when mail comes in, and the
-- heartbeat of mobile/yggmail.go. A connection is the mailbox that its client has selected.
use yggmail_android.Base.{
  ℕ, zero, suc, ◌+◌, ◌==◌, ◌≡◌, refl, ap, ◌∙◌, Bool, true, false, Option, none, some, List, [], ◌∷◌,
  map, Text, codes, same, if◌then◌else◌,
}
use yggmail_android.Base.Int.{ℤ, pos, negsuc}
use yggmail_android.World.{World, Result, ok, err}
use yggmail_android.Storage.Mails.{mail_count}
use yggmail_android.Service.{YggmailService}

-- imap.StatusResp, of the types that NotifyNew makes
pub data StatusResp : Type 0 where
  exists : ℕ → StatusResp
  recent : ℕ → StatusResp
  status_inbox : ℤ → ℕ → StatusResp

-- id + 1
abbrev pub next_of : ℤ → ℤ
next_of (pos n) = pos (n + 1)
next_of (negsuc zero) = pos 0
next_of (negsuc (suc n)) = negsuc n

-- id == -1
abbrev pub is_heartbeat : ℤ → Bool
is_heartbeat (pos _) = false
is_heartbeat (negsuc n) = n == 0

abbrev pub is_inbox : Option Text → Bool
is_inbox none = false
is_inbox (some name) = same name (codes "INBOX")

-- The responses to one connection
unfoldable pub notify_conn : ℤ → ℕ → Option Text → List StatusResp
notify_conn id count c =
    if is_inbox c
    then if is_heartbeat id then exists count ∷ [] else exists count ∷ recent 1 ∷ []
    else status_inbox (next_of id) count ∷ []

-- NotifyNew
unfoldable pub notify_new : ℤ → ℕ → List (Option Text) → List (List StatusResp)
unfolding notify_conn
notify_new id count = map (notify_conn id count)

-- IMAPNotify.Capabilities
abbrev pub capabilities : Bool → List Text
capabilities authenticated = if authenticated then codes "NOTIFY" ∷ [] else []

abbrev pub beat : List (Option Text) → Result ℕ → List (List StatusResp)
beat conns (err _) = map (λ _. []) conns
beat conns (ok count) = notify_new (negsuc 0) count conns

-- sendHeartbeat of the service
unfoldable pub send_heartbeat : YggmailService → List (Option Text) → World → List (List StatusResp)
unfolding notify_new mail_count
send_heartbeat s conns w =
    if s.running
    then if s.imap_server then beat conns (mail_count (codes "INBOX") w).0 else map (λ _. []) conns
    else map (λ _. []) conns

-- On a running service with an IMAP server, a heartbeat tells a client in INBOX the number of messages
-- there, and every other client that the next UID of INBOX is 0.
pub send_heartbeat_lem :
    (s : YggmailService) (conns : List (Option Text)) (w : World) (n : ℕ)
    → s.running ≡ true
    → s.imap_server ≡ true
    → (mail_count (codes "INBOX") w).0 ≡ ok n
    → send_heartbeat s conns w
      ≡ map (λ c. if is_inbox c then exists n ∷ [] else status_inbox (pos 0) n ∷ []) conns
unfolding send_heartbeat notify_new
send_heartbeat_lem s conns w n r i h = rw (r, i) (ap (beat conns) h ∙ each conns)
  where
    each :
        (cs : List (Option Text))
        → map (notify_conn (negsuc 0) n) cs
          ≡ map (λ c. if is_inbox c then exists n ∷ [] else status_inbox (pos 0) n ∷ []) cs
    each [] = refl
    each (c ∷ cs) = ap (λ t. notify_conn (negsuc 0) n c ∷ t) (each cs)
