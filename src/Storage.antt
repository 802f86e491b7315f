-- ===== src/Storage.antt =====
-- src/storage.rs: the directories of the tables of an exom.
pub mod Swap
