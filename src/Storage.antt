-- ===== src/Storage.antt =====
-- internal/storage: the workers that write positions and scores behind the hub's back.
pub mod Positions
pub mod Scores
