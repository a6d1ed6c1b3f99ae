-- ===== src/Msg.antt =====
-- software/Femtiki/source/kernel/msg.c: messages, mailboxes, services and requests.
pub mod Pool
pub mod Queue
pub mod Threads
pub mod Mailbox
pub mod Send
pub mod Wait
pub mod Service
pub mod Request
pub mod Locks
pub mod Empty
