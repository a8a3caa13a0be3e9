-- ===== src/Metastore.antt =====
-- The metadata of objects and their placement, proxy/server/metastore: the life of an object's
-- metadata (Meta, Flags), the versions of objects (Store), and the placement by Clock LRU (Lru).
pub mod Meta
pub mod Flags
pub mod Store
pub mod Lru
pub mod Placement
pub mod Placer
