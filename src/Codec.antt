-- ===== src/Codec.antt =====
-- dude/core/codec.py: the canonical encoding in which everything is hashed, signed and sent.
mod Syntax
mod Decimal
pub mod Access
pub mod Encode
pub mod Decode
pub mod Tokens
pub mod Reading
pub mod Plain
mod Sorted
pub mod Trip
pub mod RoundTrip
pub mod Branches
pub mod Canonical
pub mod Ends
pub use Syntax.*
unfoldable pub use Decimal.*
