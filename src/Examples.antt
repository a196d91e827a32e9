-- ===== src/Examples.antt =====
-- The theorems on concrete states, in a module for each part.
pub mod Fixtures
pub mod Packets
pub mod Messages
pub mod Tables
pub mod Ciphers
pub mod Forwarding
pub mod Clients
pub mod Queues
pub mod Chunks
pub mod Rounds
pub mod Contexts
pub mod Programs
