-- ===== src/Examples.antt =====
-- The theorems at concrete inputs of the server: sample packets and sessions, and their runs.
pub mod Data
pub mod Packets
pub mod Sessions
pub mod Completions
pub mod Servers
pub mod Clients
pub mod Managers
pub mod Requests
pub mod Tables
pub mod Systems
pub mod Programs
pub mod Older
pub mod Locks
