-- ===== src/Lib.antt =====
-- A model of map-walker, a server for a shared map on which players walk, see their neighbours and
-- collect items, with the theorems that make its core correct.
--
-- The program. The authoritative world (internal/game/world.go) holds the players and moves them by
-- their inputs, 20 times a second. The area-of-interest index (internal/game/aoi.go) keeps who sees
-- whom: the hub inserts, moves and removes players and sends the changes to the clients. The
-- collectible field (internal/game/collectible.go, with the regions of collectible_config.go) spawns
-- the items that players pick up and replaces them after a delay. Positions and scores go to two
-- background workers (internal/storage/persistence.go, position_batch.go, score_persistence.go and
-- score.go) that write them to the database. Ten times a second the replication builder
-- (internal/realtime/replication_builder.go) turns what has happened into one message for each client,
-- which messages.go brings into its final form.
-- The hub (internal/realtime/hub.go) is the only owner of all these: it handles the registrations,
-- inputs, collect requests and ticks one after the other.
--
-- The files.
--   Prelude and its children: shared names; Map, Set and MultiMap for Go's maps, Sort for setKeys,
--   Float for float64 and math, Int for int and int64, Word for the wrap-around of machine integers.
--   Game.Geometry: CellCoord, AOIConfig and Config, local coordinates, cells and radii.
--   Game.Appearance: internal/game/appearance.go.
--   Game.Aoi: AOIIndex. A method keeps its name in lower case with underscores; RecalculateRelationships
--   is recalculate, and the private recalculateRelationships is recalculate_relationships. The loops
--   of enterScanNineCells and leaveCheckExistingNeighbors are scan_candidates and collect_left.
--   Game.World: World, one function per method.
--   Game.Collectibles: CollectibleField and collectibleGrid, whose cells are a MultiMap.
--   Game.Regions: validateAndConvertRegions and what it calls.
--   Storage.Positions: PersistenceWorker, with SavePositionChunk as one call that succeeds or fails.
--   Storage.Scores: ScorePersister, with SaveScore on a table of scores.
--   Realtime.Messages: ReplicationChanges and NormalizeReplicationChanges.
--   Realtime.Builder: ReplicationBuilder.Build and hubReader, with one function per loop of Build.
--   Realtime.Dispatcher: ReplicationDispatcher, as steps on its queues and counters.
--   Realtime.Hub: State holds the hub and its sends, Clients registerClient, removeClient,
--   sendInitialization and the position updates, Collects processCollect, the replacements and what
--   players see of the items, Broadcast broadcastReplication, Leaderboard buildLeaderboard, and Actor
--   the cases of Run as handle, the stop, and runs over sequences of events.
--   Synthetic.Behavior: Behavior of internal/synthetic/behavior.go with its hash and its placement.
--   Synthetic.Naming: internal/synthetic/naming.go.
--   Accounts: Service of internal/auth/service.go with its validations, over the tables that
--   internal/storage/users.go and sessions.go use.
--   The child modules of each hold its theorems; Tests runs the models at concrete inputs.
--
-- How the code is modelled. Go maps are association lists whose order stands for the order of
-- range, so that what is proved of a given map holds for every order; a map that a function builds
-- itself and then ranges over, as filterAndCollapse does, has the order of insertion only. A method
-- that changes its receiver returns the new one. Option is the result of a method that can panic;
-- none is a nil dereference, an index out of range or an IntN of a bound that is not positive. Ids
-- are natural numbers. float64 and the package math are a parameter, with no law but those that two
-- records name. OrderLaws: the square of a difference does not depend on its sign, and of three
-- numbers in order the last is not below the first. UnitLaws: the differences of 0 and 1 are zero
-- exactly where they should be. The random source is the parameter of its draws. The database is a
-- parameter that says which of its calls succeed, in order. A connection of the hub is a number,
-- and what the encoder and the connections take is a parameter by the number of the attempt. uint64
-- counters wrap; the theorems that need fresh ids bound next_id by 2^64. The hub's scores are the
-- bits of an int64: an award wraps them, comparisons read them as what they are below 2^63, and the
-- theorem on the award asks for a score below 2^63 - 1. The number of ticks of a synthetic client
-- and the coordinates of cells, an int in the source, are without a bound. Since ids are natural
-- numbers, the branch of Submit for a negative recipient has no counterpart. Of logStats the
-- durations, the share of skipped scans and the byte counts are left out.
--
-- Fuel. apply_bulk takes the number of updates as fuel, and each round takes at least one update.
-- drain_all and persist_sync take the number of attempts before the stop signal: the code's loops
-- have no other bound. place_attempts is the code's own limit of ten.
--
-- Not modelled. The channels of the hub and the methods that other goroutines call, BuildConcrete,
-- the manager and the provisioner of the synthetic clients, the SQL statements, HTTP, websockets and
-- JSON, the benchmarks and the commands.
-- The workers are modelled by their operations, not by the select loops that choose among them.
pub mod Prelude
pub mod Game
pub mod Storage
pub mod Realtime
pub mod Synthetic
pub mod Accounts
mod Tests
