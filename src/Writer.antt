-- ===== src/Writer.antt =====
-- pkg/beaconclient/databasewrite.go: what the program writes to the database.
pub mod KnownGaps
pub mod Transact
pub mod Reorgs
pub mod Slot
pub mod Kept
