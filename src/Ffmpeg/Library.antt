-- ===== src/Ffmpeg/Library.antt =====
-- The types of FFmpeg that libs/Ffmpeg/muxer.cpp fills or reads, as far as it does, and the functions
-- of FFmpeg that it calls: parameters, which act on a world. An object behind a pointer is its record, and
-- a null pointer is `none`; contexts that the program only passes on are numbers.
use socket_program.Base.{ℕ, ℤ, Bytes, Bool, Option, List}

pub data MediaType : Type 0 where
  audio video other : MediaType

pub record Rational : Type 0 where
  pub num : ℕ
  pub den : ℕ

-- A buffer: how many elements it has, and the elements.
pub record Plane : Type 0 where
  pub size : ℕ
  pub at : ℕ → ℕ

-- `data[p]` is `planes p`: bytes of a picture, while plane 0 of a sound has `int16_t` elements.
pub record Frame : Type 0 where
  pub format : ℕ
  pub channel_layout : ℕ
  pub sample_rate : ℕ
  pub nb_samples : ℕ
  pub width : ℕ
  pub height : ℕ
  pub pts : ℕ
  pub linesize : ℕ → ℕ
  pub planes : ℕ → Plane

-- The lists end at a 0.
pub record Codec : Type 0 where
  pub type : MediaType
  pub sample_fmts : Option (List ℕ)
  pub supported_samplerates : Option (List ℕ)
  pub channel_layouts : Option (List ℕ)
  pub has_variable_frame_size : Bool

pub record CodecContext : Type 0 where
  pub codec : Codec
  pub codec_id : ℕ
  pub bit_rate : ℕ
  pub sample_fmt : ℕ
  pub sample_rate : ℕ
  pub channel_layout : ℕ
  pub channels : ℕ
  pub frame_size : ℕ
  pub width : ℕ
  pub height : ℕ
  pub time_base : Rational
  pub gop_size : ℕ
  pub pix_fmt : ℕ
  pub max_b_frames : ℕ
  pub mb_decision : ℕ
  pub has_global_header : Bool

pub record Stream : Type 0 where
  pub id : ℕ
  pub index : ℕ
  pub time_base : Rational

pub record Packet : Type 0 where
  pub stream_index : ℕ
  pub pts : ℤ
  pub dts : ℤ
  pub duration : ℤ
  pub content : Bytes

-- The names of formats and codecs are FFmpeg's; so are the floating point numbers here, with
-- `tone t` for `(int)(sin(t) * 10000)`, and `tone_step` and `tone_drift` for the two quotients of 2 * M_PI *
-- 110.0 that `open_audio` starts with. Counts that the program adds up are natural numbers.
pub record Av : Type 1 where
  pub World : Type 0
  pub Float : Type 0
  pub float_zero : Float
  pub float_add : Float → Float → Float
  pub tone : Float → ℤ
  pub tone_step : ℕ → Float
  pub tone_drift : ℕ → Float
  pub sample_fmt_fltp : ℕ
  pub sample_fmt_s16 : ℕ
  pub layout_stereo : ℕ
  pub pix_fmt_yuv420p : ℕ
  pub codec_none : ℕ
  pub codec_mpeg1video : ℕ
  pub codec_mpeg2video : ℕ
  pub nb_channels : ℕ → ℕ
  pub compare_ts : ℕ → Rational → ℕ → Rational → ℤ
  pub rescale_up : ℕ → ℕ → ℕ → ℕ
  pub rescale_q : ℕ → Rational → Rational → ℕ
  pub packet_rescale : Packet → Rational → Rational → Packet
  pub find_encoder : ℕ → World → Option Codec × World
  pub new_stream : World → Option Stream × World
  pub nb_streams : World → ℕ
  pub wants_global_header : World → Bool
  pub alloc_context : Codec → World → Option CodecContext × World
  pub frame_alloc : World → Option Frame × World
  pub frame_get_buffer : Frame → ℕ → World → (ℤ × Frame) × World
  pub frame_make_writable : Frame → World → (ℤ × Frame) × World
  pub frame_free : Option Frame → World → World
  pub codec_open : CodecContext → Codec → List (Bytes × Bytes) → World → (ℤ × CodecContext) × World
  pub parameters_from_context : Stream → CodecContext → World → ℤ × World
  pub context_free : CodecContext → World → World
  pub swr_alloc : World → Option ℕ × World
  pub swr_set_options : ℕ → ℕ → ℕ → ℕ → ℕ → World → World
  pub swr_init : ℕ → World → ℤ × World
  pub swr_delay : Option ℕ → ℕ → World → ℕ
  pub swr_convert : Option ℕ → Frame → ℕ → Frame → ℕ → World → (ℤ × Frame) × World
  pub swr_free : Option ℕ → World → World
  pub sws_context : ℕ → ℕ → ℕ → World → Option ℕ × World
  pub sws_scale : Option ℕ → Frame → ℕ → Frame → World → Frame × World
  pub sws_free : Option ℕ → World → World
  pub encode_audio : CodecContext → Option Frame → World → (ℤ × Option Packet) × World
  pub encode_video : CodecContext → Option Frame → World → (ℤ × Option Packet) × World
  pub interleaved_write : Packet → World → ℤ × World
