-- ===== src/Net.antt =====
-- server/library/network: epoll, channels, the event loop and connections.
pub mod Epoll
pub mod Channel
pub mod Socket
pub mod Listener
pub mod Connection
pub mod Loop
