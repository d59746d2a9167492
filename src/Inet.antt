-- ===== src/Inet.antt =====
-- libs/Inet: sockets over plain descriptors and over OpenSSL.
pub mod Os
pub mod Socket
pub mod Io
pub mod Ctx
pub mod Connect
