-- ===== src/Round.antt =====
-- dude/consensus/round.py: the round in which nodes agree on the transactions of a block.
pub mod Types
pub mod Slice
pub mod Machine
pub mod Close
pub mod Valid
pub mod Preserve
pub mod Finish
pub mod Agreement
pub mod Reach
pub mod Wire
pub mod RoundTrip
