-- ===== src/Realtime/Hub.antt =====
-- internal/realtime/hub.go: the hub, the only owner of the world, the AOI index, the collectible
-- field and the connections. State holds its state and the sends, Clients what happens to a
-- connection, Collects the collectibles, Broadcast the ticks, Leaderboard the ranking, and Actor
-- the loop over the events.
pub mod State
pub mod Core
pub mod Clients
pub mod Collects
pub mod Broadcast
pub mod Leaderboard
pub mod Actor
