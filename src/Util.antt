-- ===== src/Util.antt =====
-- btdt/src/util
pub mod Close
pub mod HumanBytes
pub mod Http
