-- ===== src/Ome.antt =====
-- pkg/ome: the matching engine of one trading pair.
pub mod Structs
pub mod Worker
pub mod Match
pub mod Tickets
pub mod ToBank
pub mod Saving
pub mod Start
pub mod Queries
