-- ===== src/Extern.antt =====
-- What the program calls and does not implement, as records of operations with the laws that it
-- relies on.
pub mod Json
pub mod BTree
pub mod Decimal
pub mod Clock
pub mod Floats
pub mod KeyValue
