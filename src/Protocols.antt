-- ===== src/Protocols.antt =====
-- libs/Protocols: the protocols that are spoken over a socket.
pub mod Simple
pub mod Ftp
pub mod Http
