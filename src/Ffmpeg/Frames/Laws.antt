-- ===== src/Ffmpeg/Frames/Laws.antt =====
-- What the muxer relies on in FFmpeg.
use socket_program.Base.{
  ℕ, ℤ, suc, ◌*◌, ◌/◌, ◌≤◌, ◌<◌, ltb, ◌≡◌, ◌⊎◌, Option, none, some, is_negative,
}
use socket_program.Ffmpeg.Library.{Av, Rational, Frame, Packet, CodecContext}
use socket_program.Ffmpeg.Image.Filling.{HasRoom}

-- Room for the three planes of a picture in YUV420P.
abbrev pub HoldsPicture : Frame → ℕ → ℕ → Type 0
HoldsPicture f width height =
    HasRoom f 0 width height
    × HasRoom f 1 (width / 2) (height / 2)
    × HasRoom f 2 (width / 2) (height / 2)

-- The frames that an encoder was given and has not made packets of.
pub record Encoder (World : Type 0) (delayed : World → ℕ)
    (encode : CodecContext → Option Frame → World → (ℤ × Option Packet) × World) : Type 0 where
  -- A frame adds one to them at most.
  pub takes :
      (c : CodecContext) (f : Frame) (w : World) → delayed (encode c (some f) w).1 ≤ suc (delayed w)
  -- Without a frame the encoder gives a packet of one of them, or has none.
  pub flushes :
      (c : CodecContext) (w : World)
      → let r = encode c none w in
        ((r.0.1 ≡ none) × (delayed r.1 ≤ delayed w)) ⊎ (delayed r.1 < delayed w)

-- Times are compared as fractions. A frame that is made writable keeps its room. The encoders are two:
-- what one does, and what is done beside them, does not change what the other holds.
pub record Codecs (av : Av) : Type 0 where
  pub held_video : av.World → ℕ
  pub held_audio : av.World → ℕ
  pub compare_lem :
      (a b : ℕ) (s t : Rational)
      → 0 < s.den
      → 0 < t.den
      → is_negative (av.compare_ts a s b t) ≡ ltb (a * s.num * t.den) (b * t.num * s.den)
  pub video : Encoder av.World held_video av.encode_video
  pub audio : Encoder av.World held_audio av.encode_audio
  pub video_keeps :
      (c : CodecContext) (f : Option Frame) (w : av.World)
      → held_audio (av.encode_video c f w).1 ≡ held_audio w
  pub audio_keeps :
      (c : CodecContext) (f : Option Frame) (w : av.World)
      → held_video (av.encode_audio c f w).1 ≡ held_video w
  pub writable_room :
      (f : Frame) (width height : ℕ) (w : av.World)
      → HoldsPicture f width height
      → HoldsPicture (av.frame_make_writable f w).0.1 width height
  pub writable_keeps :
      (f : Frame) (w : av.World)
      → let w' = (av.frame_make_writable f w).1 in
        (held_video w' ≡ held_video w) × (held_audio w' ≡ held_audio w)
  pub convert_keeps :
      (swr : Option ℕ) (out in' : Frame) (n m : ℕ) (w : av.World)
      → let w' = (av.swr_convert swr out n in' m w).1 in
        (held_video w' ≡ held_video w) × (held_audio w' ≡ held_audio w)
  pub write_keeps :
      (p : Packet) (w : av.World)
      → let w' = (av.interleaved_write p w).1 in
        (held_video w' ≡ held_video w) × (held_audio w' ≡ held_audio w)
