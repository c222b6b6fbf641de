-- ===== src/Bank.antt =====
-- pkg/bank: the bank of one coin.
pub mod Structs
pub mod Worker
pub mod Orders
pub mod Changes
pub mod Messages
pub mod Assets
pub mod Saving
pub mod ToOme
pub mod Start
pub mod FromOme
pub mod Acks
pub mod Connections
