-- ===== src/Ops.antt =====
-- dude/store/ops.py: the operations of a transaction.
mod Types
mod Encode
pub mod Decode
pub mod RoundTrip
pub mod Effects
pub use Types.*
unfoldable pub use Encode.*
