-- ===== src/Imap.antt =====
-- internal/imapserver: the IMAP backend over the storage.
pub mod SeqSet
pub mod Mailbox
pub mod User
pub mod Reads
pub mod Keeps
pub mod Folders
pub mod Access
pub mod Flags
pub mod Ranges
pub mod Fetch
pub mod Replies
pub mod Notify
