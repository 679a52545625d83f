-- ===== src/Game.antt =====
-- internal/game: the authoritative world, the AOI index and the collectibles. No locks and no
-- goroutines: the hub's actor loop is the only caller.
pub mod Geometry
pub mod Appearance
pub mod Aoi
pub mod Collectibles
pub mod Regions
pub mod World
