-- ===== src/Examples.antt =====
-- Concrete states and runs: a small mail server's storage, on which the theorems are applied.
mod Files
mod Mails
mod Sessions
mod Platform
mod Services
use yggmail_android.Base.{
  ℕ, ◌≡◌, refl, Bool, true, false, Option, none, some, List, [], ◌∷◌, Text, Bytes, codes, replicate,
}
use yggmail_android.World.{
  World, Db, Disk, DiskStep, MailRow, MailboxRow, QueueRow, Reader, small_message_threshold,
}
use yggmail_android.Storage.Invariant.{IsValid}
use yggmail_android.Storage.Keeps.{HasValidDb}

abbrev pub inbox : Text
inbox = codes "INBOX"

abbrev pub outbox : Text
outbox = codes "Outbox"

abbrev pub letter : MailRow
letter = record {
  mailbox = inbox;
  id = 1;
  mail = some (codes "hi");
  mail_file = none;
  size = 2;
  datetime = 5;
  seen = false;
  answered = false;
  flagged = false;
  deleted = true;
}

abbrev pub draft : MailRow
draft = record letter { mailbox = outbox; deleted = false }

abbrev pub filed : MailRow
filed = record draft { id = 2; mail = none; mail_file = some (codes "Outbox/2.eml") }

abbrev pub box : Text → MailboxRow
box m = record { mailbox = m; subscribed = true }

abbrev pub sound_disk : Disk
sound_disk = record { files = []; refuses = λ _. false; temp_suffix = codes "7" }

abbrev pub server : World
server = record {
  db = record {
    config = [];
    mailboxes = box inbox ∷ box outbox ∷ [];
    mails = letter ∷ draft ∷ filed ∷ [];
    queue = [];
  };
  disk = sound_disk;
  now = 9;
}

pub server-valid : HasValidDb server
unfolding yggmail_android.Base.same
server-valid = record {
  mailbox_exists = (refl, (refl, (refl, tt)));
  one_content = (refl, (refl, (refl, tt)));
  increasing = ((refl, (refl, tt)), ((refl, tt), (tt, tt)));
  mail_exists = tt;
}

abbrev pub note : Reader
note = record { content = codes "note"; broken = false }

abbrev pub reply : Reader
reply = record { content = codes "reply"; broken = false }

-- 10 MB of one letter
abbrev pub film : Reader
film = record { content = replicate small_message_threshold b'f'; broken = false }
