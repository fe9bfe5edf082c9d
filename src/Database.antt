-- ===== src/Database.antt =====
-- The database: the tables of common/src/database/{sqlite,postgres}.rs and the schema's migrations.
pub mod Heartbeats
pub mod Bookmarks
pub mod Schema
pub mod Stats
