-- ===== src/Protocols/Ftp.antt =====
-- libs/Protocols/ProtocolFtp.cpp: the FTP server's side of a session.
pub mod State
pub mod Commands
pub mod Data
pub mod Session
pub mod Quiet
