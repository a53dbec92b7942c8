-- ===== src/Tests.antt =====
-- Concrete runs of the program's code, at which the theorems are applied.
pub mod Vectors
pub mod Sockets
pub mod Network
pub mod Memory
pub mod Trees
pub mod Clients
pub mod Lists
pub mod Pointers
pub mod Codecs
pub mod Messages
pub mod Streams
pub mod Tables
pub mod Peers
pub mod Locks
pub mod Variants
