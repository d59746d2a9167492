-- ===== src/Protocols/Http.antt =====
-- libs/Protocols/ProtocolHttp.cpp: an HTTP server's side of one exchange, and a client's.
pub mod State
pub mod Sending
pub mod Request
pub mod Resource
pub mod Response
pub mod Client
pub mod Quiet
