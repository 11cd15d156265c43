-- ===== src/Settle.antt =====
-- dude/store/settle.py: what a transaction may do, and what a batch settles.
pub mod Evaluate
pub mod Screen
pub mod Rounds
pub mod Stable
pub mod Raised
pub mod Runs
pub mod Rows
