-- ===== src/Hash.antt =====
-- The hash table of collections/hash/.
pub mod Table
pub mod Map
pub mod Resize
