-- ===== src/Layer.antt =====
-- dude/store/layer.py: readers, buffered writes over a reader, and guards.
pub mod Overlay
pub mod Delta
