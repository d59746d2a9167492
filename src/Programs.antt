-- ===== src/Programs.antt =====
-- The programs of src/.
pub mod Echo
pub mod Muxer
pub mod Server
pub mod Client
pub mod Person
