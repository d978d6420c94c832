-- ===== src/Mailbox.antt =====
-- crates/mailbox: the keys of mailbox messages, their matching against dependencies, and the queue.
-- An address is its bytes, a label or another string is its bytes, a 256-bit number is a number.
pub mod Types
pub mod Wire
pub mod Matching
pub mod Queue
pub mod Routing
pub mod Overrides
mod Tests
