-- ===== src/Synthetic.antt =====
-- internal/synthetic: the clients that play by themselves.
pub mod Behavior
pub mod Naming
