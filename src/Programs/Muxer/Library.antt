-- ===== src/Programs/Muxer/Library.antt =====
-- The functions of libavformat that `main` of src/muxer.cpp calls: parameters.
use socket_program.Base.{ℕ, ℤ, Bytes, Bool, Option, List}
use socket_program.Ffmpeg.Library.{Av}

-- The context of the file is in the world. `alloc_output` takes the name of a format, if there is one, and that of
-- the file, and tells whether there is a context then; `video_codec`, `audio_codec` and `has_no_file`
-- are read from its format.
pub record Container (av : Av) : Type 1 where
  pub register_all : av.World → av.World
  pub alloc_output : Option Bytes → Bytes → av.World → Bool × av.World
  pub video_codec : av.World → ℕ
  pub audio_codec : av.World → ℕ
  pub has_no_file : av.World → Bool
  pub dump_format : Bytes → av.World → av.World
  pub io_open : Bytes → av.World → ℤ × av.World
  pub io_close : av.World → av.World
  pub write_header : List (Bytes × Bytes) → av.World → ℤ × av.World
  pub write_trailer : av.World → av.World
  pub free_context : av.World → av.World
