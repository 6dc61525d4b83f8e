-- ===== src/Module/Pool.antt =====
-- The warm engines of internal/module/pool.go. A slot's instances are numbered in the order in which
-- they were built; what starts an engine, and whether one answers, is a result that comes with the
-- call, since it is another program's.
pub mod Slot
pub mod Testers
pub mod Overlap
pub mod Ports
pub mod Bisect
pub mod Run
pub mod Pins
pub mod Batch
pub mod Tests
