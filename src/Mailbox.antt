-- ===== src/Mailbox.antt =====
-- dude/net/mailbox.py: messages that wait to be sent or answered.
pub mod Types
pub mod Machine
pub mod Waiting
