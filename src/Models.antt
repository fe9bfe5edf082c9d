-- ===== src/Models.antt =====
-- The models of files that an administrator reads and writes: common/src/models and
-- common/src/transformers.
pub mod FilesPath
pub mod Export
pub mod Config
