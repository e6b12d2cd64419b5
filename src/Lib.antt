-- ===== src/Lib.antt =====
-- Yggmail for Android: a mail server on every node, which exchanges mail over the Yggdrasil network
-- and serves it to local clients by IMAP and SMTP.
--
-- The parts and the files that model them:
--   World            the state that the parts share: the database's tables as lists of rows, the mail
--                    directory as a map of files with the system calls that fail, and the clock; a call
--                    returns a result and the new state. World.Keeps has rules for what calls keep.
--   Base             lists, texts, decimals, integers and durations over the native numbers.
--   Address          internal/utils/address.go.
--   FileStore        internal/storage/filestore/filestore.go (StoreMail, ReadMail, DeleteMail, MoveMail,
--                    CleanupOrphanedFiles and the sizes); the file names are in FileStore.Paths.
--   Storage          internal/storage/sqlite3: the SQL statements with their constraints and cascades
--                    in Storage.Tables, and the methods of storage.Storage in Mailboxes, Mails, Moves,
--                    Queue and Config; the schema's migration in Schema, that of large messages to
--                    files in Migration, and the writer's goroutines in Writer.
--   Imap             internal/imapserver: mailbox.go (Mailbox, Fetch), user.go, notify.go and the login
--                    of backend.go.
--   Sender           internal/smtpsender/sender.go: QueueFor and QueueForStream (Queues), the classes of
--                    errors and the backoff (Retry), and Queue.run (Delivery).
--   Smtp             internal/smtpserver: who may log in (Backend) and the two sessions (Remote, Local).
--   Transport        internal/transport: the settings of a transport, and the byte that starts a stream.
--   Service          mobile/yggmail.go: the record YggmailService; Initialize, Start, Stop and Close in
--                    Lifecycle, the mail methods in Mail and Limits, the heartbeat in Power, the peers in
--                    Peers, Connections and Discovery, the question to a recipient's node in Probe. Machine has its
--                    calls as one state machine, and Phases the contract that it implements.
--   Command, Welcome, Logging
--                    cmd/yggmail/main.go up to its servers, internal/welcome/welcome.go and
--                    internal/logging/largemail_logger.go.
--   System           the whole program as a step relation between states.
--   Examples         concrete states, on which the theorems are applied.
-- The SMTP sessions, the IMAP commands and the service call the storage, which calls the file store; a
-- session of a local client and SendMail queue their mail in the Outbox, and a run of a queue moves it
-- to Sent. The service asks a recipient's node by the command MAIL that the remote session handles.
--
-- Bounds and fuel: message IDs are natural numbers, below 2 ^ 31 in the program. The loop over a
-- range of a sequence set runs on fuel, since its uint32 counter wraps around; Imap.Ranges says what
-- fuel is enough, and for which range none is. The loop over batches of peers runs on fuel, too; more
-- fuel than there are peers is enough. All other loops follow lists. The random factor of the backoff
-- is a number of thousandths. Times of the service are nanoseconds; the products that an int64 cannot
-- hold wrap around.
--
-- Parameters, for code of other packages: net/mail's parsers, bcrypt, the message and header parsers
-- of go-message, go-imap's backendutil, and the network with the SMTP client's dialogue, as a function
-- that returns an error's text or none; the core of Yggdrasil as a set of peers with its laws, the
-- manager of yggpeers, the generator of ed25519 keys, and whether the database can be opened. Of the
-- database engine, LENGTH of a message, which counts the characters of a text and the bytes of a blob,
-- and whether the UPDATE of the background migration fails (World.Engine). Rows are numbered in the
-- order of insertion, as the view `inboxes` yields them.
--
-- Not modelled: engine and I/O failures of SQLite, but for the UPDATE of the background migration, and
-- the interleaving of a call with others (a call is one step, but for the two parts of
-- MailCreateFromStream in Storage.Streams.Interleaved and the writer's goroutines), the waiting between
-- runs, the set-up of the go-imap and go-smtp servers, the lines of logs, the speeds of large messages
-- and other floating point, the callbacks of the application, from which transport the overlay server
-- accepts, and the text of the welcome message. Texts are ASCII where Go folds case or trims blanks. A
-- nil slice is an empty one.
pub mod Base
pub mod World
pub mod Address
pub mod FileStore
pub mod Storage
pub mod Imap
pub mod Sender
pub mod Smtp
pub mod System
pub mod Examples
pub mod Transport
pub mod Service
pub mod Welcome
pub mod Logging
pub mod Command
