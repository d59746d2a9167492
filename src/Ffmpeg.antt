-- ===== src/Ffmpeg.antt =====
-- libs/Ffmpeg: a synthetic sound and picture, encoded and written to a file.
pub mod Library
pub mod State
pub mod Streams
pub mod Loops
pub mod Image
pub mod Frames
