-- ===== src/Session.antt =====
-- The directory of one exom: its exom.json (src/exom.rs) and its branch table, and the functions of
-- src/brain.rs that gate writes to it: `precheck_write`, `claim_branch`, `create_branch`,
-- `session_join`, `session_new`, `mirror_session_meta_to_disk`.
pub mod Exom
pub mod Claims
pub mod Gate
pub mod Start
pub mod Laws
pub mod Founder
mod Tests
