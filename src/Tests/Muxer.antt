-- ===== src/Tests/Muxer.antt =====
-- The muxer on a toy of FFmpeg: its encoders make a packet of each frame at once.
use socket_program.Base.{
  ℕ, suc, ◌+◌, ◌*◌, ◌/◌, ◌%◌, ◌==◌, ltb, ℤ, pos, minus_one, is_negative, ◌≡◌, refl, inl, Bool, true,
  false, Option, none, some, [], ◌∷◌, arith, if◌then◌else◌, Ensures, exited,
}
use socket_program.Ffmpeg.Library.{
  Av, audio, video, Rational, Plane, Frame, Codec, CodecContext, Stream, Packet,
}
use socket_program.Ffmpeg.State.{OutputStream, new_output, over}
use socket_program.Ffmpeg.Streams.{add_stream, open_video}
use socket_program.Ffmpeg.Streams.Opening.{Opens, open_video-Ready}
use socket_program.Ffmpeg.Streams.Choice.{add_stream-Sounds, SoundsWith}
use socket_program.Ffmpeg.Image.{fill_yuv_image}
use socket_program.Ffmpeg.Image.Filling.{Painted, fill_yuv_image-Painted}
use socket_program.Ffmpeg.Frames.{get_audio_frame, get_video_frame}
use socket_program.Ffmpeg.Frames.Laws.{Encoder, Codecs}
use socket_program.Ffmpeg.Frames.Video.{VideoReady, Drew, get_video_frame-Shows}
use socket_program.Ffmpeg.Frames.Audio.{AudioReady, Played, get_audio_frame-Plays}
use socket_program.Ffmpeg.Frames.Audio.Steps.{Stops}
use socket_program.Programs.Muxer.{Encoding, mux_loop}
use socket_program.Programs.Muxer.Interleaving.{Over, mux_loop-Ends}

abbrev blank : Plane
blank = record { size = 4000; at = λ k. 0 }

abbrev blank_frame : Frame
blank_frame = record {
  format = 0;
  channel_layout = 3;
  sample_rate = 44100;
  nb_samples = 1000;
  width = 8;
  height = 4;
  pts = 0;
  linesize = λ p. 16;
  planes = λ p. blank;
}

abbrev mp2 : Codec
mp2 = record {
  type = audio;
  sample_fmts = none;
  supported_samplerates = some (48000 ∷ 44100 ∷ 0 ∷ []);
  channel_layouts = some (4 ∷ 0 ∷ []);
  has_variable_frame_size = false;
}

abbrev mpeg1 : Codec
mpeg1 = record {
  type = video;
  sample_fmts = none;
  supported_samplerates = none;
  channel_layouts = none;
  has_variable_frame_size = false;
}

abbrev context_for : Codec → CodecContext
context_for codec = record {
  codec = codec;
  codec_id = 0;
  bit_rate = 0;
  sample_fmt = 0;
  sample_rate = 44100;
  channel_layout = 3;
  channels = 2;
  frame_size = 1000;
  width = 8;
  height = 4;
  time_base = over 1 25;
  gop_size = 0;
  pix_fmt = 0;
  max_b_frames = 0;
  mb_decision = 0;
  has_global_header = false;
}

abbrev packet : Packet
packet = record { stream_index = 0; pts = pos 0; dts = pos 0; duration = pos 0; content = [] }

abbrev encoded : CodecContext → Option Frame → ℕ → (ℤ × Option Packet) × ℕ
encoded c none w = ((pos 0, none), w)
encoded c (some f) w = ((pos 0, some packet), w)

abbrev compared : ℕ → Rational → ℕ → Rational → ℤ
compared a s b t = if ltb (a * s.num * t.den) (b * t.num * s.den) then minus_one else pos 1

-- The three planes of a picture in YUV420P.
abbrev with_buffer : Frame → Frame
with_buffer f = record f {
  linesize = λ p. f.width;
  planes = λ p. record {
    size = if p == 0 then f.height * f.width else f.height / 2 * f.width;
    at = λ k. 0;
  };
}

-- The world counts the packets that were written. Codec 1 is of sound, the others are of pictures.
abbrev toy : Av
toy = record {
  World = ℕ;
  Float = ℕ;
  float_zero = 0;
  float_add = ◌+◌;
  tone = pos;
  tone_step = λ rate. 1;
  tone_drift = λ rate. 1;
  sample_fmt_fltp = 8;
  sample_fmt_s16 = 1;
  layout_stereo = 3;
  pix_fmt_yuv420p = 0;
  codec_none = 0;
  codec_mpeg1video = 2;
  codec_mpeg2video = 3;
  nb_channels = λ layout. 2;
  compare_ts = compared;
  rescale_up = λ a b c. a;
  rescale_q = λ a s t. a;
  packet_rescale = λ p s t. p;
  find_encoder = λ id w. (if ltb id 2 then some mp2 else some mpeg1, w);
  new_stream = λ w. (some (record { id = 0; index = 0; time_base = over 0 1 }), w);
  nb_streams = λ w. 1;
  wants_global_header = λ w. true;
  alloc_context = λ codec w. (some (context_for codec), w);
  frame_alloc = λ w. (some blank_frame, w);
  frame_get_buffer = λ f align w. ((pos 0, with_buffer f), w);
  frame_make_writable = λ f w. ((pos 0, f), w);
  frame_free = λ f w. w;
  codec_open = λ c codec opt w. ((pos 0, c), w);
  parameters_from_context = λ st c w. (pos 0, w);
  context_free = λ c w. w;
  swr_alloc = λ w. (some 1, w);
  swr_set_options = λ p channels rate from to w. w;
  swr_init = λ p w. (pos 0, w);
  swr_delay = λ p rate w. 0;
  swr_convert = λ p out n sound m w. ((pos 0, out), w);
  swr_free = λ p w. w;
  sws_context = λ width height fmt w. (some 2, w);
  sws_scale = λ p from height to w. (to, w);
  sws_free = λ p w. w;
  encode_audio = encoded;
  encode_video = encoded;
  interleaved_write = λ p w. (pos 0, suc w);
}

negative_if : (b : Bool) → is_negative (if b then minus_one else pos 1) ≡ b
negative_if true = refl
negative_if false = refl

toy-Encoder : Encoder ℕ (λ w. 0) encoded
toy-Encoder = record { takes = λ c f w. omega arith; flushes = λ c w. inl (refl, omega arith) }

toy-Codecs : Codecs toy
toy-Codecs = record {
  held_video = λ w. 0;
  held_audio = λ w. 0;
  compare_lem = λ a b s t hs ht. negative_if (ltb (a * s.num * t.den) (b * t.num * s.den));
  video = toy-Encoder;
  audio = toy-Encoder;
  video_keeps = λ c f w. refl;
  audio_keeps = λ c f w. refl;
  writable_room = λ f width height w h. h;
  writable_keeps = λ f w. (refl, refl);
  convert_keeps = λ swr out sound n m w. (refl, refl);
  write_keeps = λ p w. (refl, refl);
}

abbrev stream : Stream
stream = record { id = 0; index = 0; time_base = over 1 25 }

abbrev pictures : OutputStream toy
pictures = record (new_output toy stream (context_for mpeg1)) {
  next_pts = 248;
  frame = some blank_frame;
}

abbrev sounds : OutputStream toy
sounds = record (new_output toy stream (context_for mp2)) {
  frame = some blank_frame;
  tmp_frame = some blank_frame;
}

pictures-Ready : VideoReady toy toy-Codecs pictures
pictures-Ready = record {
  rate = refl;
  format = refl;
  buffer = blank_frame;
  has_buffer = refl;
  room = ((omega arith, omega arith), (omega arith, omega arith), (omega arith, omega arith));
  within = omega arith;
}

sounds-Ready : AudioReady toy toy-Codecs sounds
sounds-Ready = record {
  sound = blank_frame;
  has_sound = refl;
  some_samples = omega arith;
  room = omega arith;
  buffer = blank_frame;
  has_buffer = refl;
  base_num = omega arith;
  base_den = omega arith;
}

abbrev both : Encoding toy
both = record {
  video_st = some pictures;
  audio_st = some sounds;
  encode_video = true;
  encode_audio = true;
}

mux_loop-Ends_example :
    Ensures (Over toy toy-Codecs) (Stops toy toy-Codecs) (mux_loop toy 1000 both 0)
unfolding toy-Codecs
mux_loop-Ends_example =
    mux_loop-Ends toy toy-Codecs 1000 both 0 ((pictures-Ready, inl refl), (sounds-Ready, inl refl))
      (omega arith)

add_stream-Sounds_example : Ensures (SoundsWith toy mp2) (λ e w'. e ≡ exited) (add_stream toy 1 0)
add_stream-Sounds_example = add_stream-Sounds toy 1 mp2 0 refl refl

get_video_frame-Shows_example :
    Ensures (Drew toy toy-Codecs pictures 0) (λ e w'. e ≡ exited) (get_video_frame toy pictures 0)
get_video_frame-Shows_example =
    get_video_frame-Shows toy toy-Codecs pictures 0 pictures-Ready (omega arith)

get_audio_frame-Plays_example :
    Ensures (Played toy toy-Codecs sounds sounds-Ready 0) (λ e w'. ⊥) (get_audio_frame toy sounds 0)
get_audio_frame-Plays_example = get_audio_frame-Plays toy toy-Codecs sounds 0 sounds-Ready refl

fill_yuv_image-Painted_example :
    (new : Frame) × (fill_yuv_image blank_frame 3 8 4 ≡ some new)
    × (new.linesize ≡ blank_frame.linesize)
    × Painted blank 16 8 4 (λ y x. (x + y + 3 * 3) % 256) (new.planes 0)
    × Painted blank 16 (8 / 2) (4 / 2) (λ y x. (128 + y + 3 * 2) % 256) (new.planes 1)
    × Painted blank 16 (8 / 2) (4 / 2) (λ y x. (64 + x + 3 * 5) % 256) (new.planes 2)
fill_yuv_image-Painted_example =
    fill_yuv_image-Painted blank_frame 3 8 4 (omega arith, omega arith) (omega arith, omega arith)
      (omega arith, omega arith)

toy-Opens : Opens toy
toy-Opens = record {
  open_keeps = λ c codec opt w. (refl, refl);
  buffer_room = λ f align w okay yuv.
      ((omega arith, omega arith), (omega arith, omega arith), (omega arith, omega arith));
}

open_video-Ready_example :
    Ensures
      (λ o w. VideoReady toy toy-Codecs o × (o.next_pts ≡ 0))
      (λ e w. e ≡ exited)
      (open_video toy mpeg1 (new_output toy stream (context_for mpeg1)) [] 0)
open_video-Ready_example =
    open_video-Ready toy toy-Codecs toy-Opens mpeg1 (new_output toy stream (context_for mpeg1)) [] 0
      refl refl refl
