-- ===== src/Tests.antt =====
-- Concrete runs of the model.
mod Wire
mod Sockets
mod Messages
mod Files
mod Http
mod Ftp
mod Programs
mod Muxer
mod Servers
mod Sessions
mod People
