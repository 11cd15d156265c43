-- ===== src/SettleRound.antt =====
-- dude/consensus/settle_round.py: the members of a roster sign the anchors that settling a ratified
-- slice led to.
pub mod Types
pub mod Machine
pub mod Valid
pub mod Reach
pub mod Total
pub mod Shares
pub mod Authorized
pub mod Wire
pub mod RoundTrip
