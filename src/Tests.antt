-- ===== src/Tests.antt =====
-- The theorems of the other modules at concrete inputs.
pub mod Bytes
pub mod Calls
pub mod Cleared
pub mod Echoes
pub mod Codecs
pub mod Timers
pub mod Configs
pub mod Channels
pub mod Connections
pub mod Logs
pub mod Loggers
pub mod Loops
pub mod Packets
pub mod HttpConnections
pub mod Requests
pub mod Routes
pub mod Servers
pub mod Sessions
pub mod Locks
pub mod Threads
pub mod Yamls
