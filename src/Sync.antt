-- ===== src/Sync.antt =====
-- The channels of sync/mpsc/.
pub mod Oneshot
