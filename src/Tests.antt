-- ===== src/Tests.antt =====
-- Runs of the definitions on small inputs, and the theorems at inputs that meet their hypotheses.
mod Toy
mod Smt
mod Tree
mod Chain
mod Framing
mod Raised
mod Codec
mod Quorum
mod Settle
mod Round
mod SettleRound
mod Ops
mod Mailbox
mod Mempool
