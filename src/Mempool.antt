-- ===== src/Mempool.antt =====
-- dude/consensus/mempool.py: transactions that wait for a block.
pub mod Machine
pub mod Admit
pub mod Evict
