-- ===== src/Older.antt =====
-- Include/*.h: an older copy of the library's headers, which no project includes. Its inline code, and
-- what its packets are to the server of YServerCore. The bodies that its classes only declare are in no
-- file.
pub mod Packets
pub mod Headers
pub mod Sessions
pub mod Managers
pub mod Logs
pub mod Classes
pub mod Compatible
pub mod Printed
