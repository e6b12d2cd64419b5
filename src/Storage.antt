-- ===== src/Storage.antt =====
-- internal/storage/sqlite3 (and the interface of internal/storage/storage.go).
pub mod Tables
pub mod Rows
pub mod Invariant
pub mod Renaming
pub mod Mailboxes
pub mod Queue
pub mod Mails
pub mod Moves
pub mod Config
pub mod Contents
pub mod Moving
pub mod Limits
pub mod Deletion
pub mod Sequence
pub mod Streams
pub mod Keeps
pub mod Migration
pub mod Schema
pub mod Writer
pub mod Upgrade
pub mod Migrated
