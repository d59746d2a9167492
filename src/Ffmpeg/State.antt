-- ===== src/Ffmpeg/State.antt =====
-- `OutputStream` of libs/Ffmpeg/muxer.h, and the constants of that file.
use socket_program.Base.{ℕ, Option, none}
use socket_program.Ffmpeg.Library.{Av, Rational, Frame, Stream, CodecContext}

module _ (av : Av) where
  -- The two pointers that `add_stream` sets are their objects; the others are null until the stream is
  -- opened.
  pub record OutputStream : Type 0 where
    pub st : Stream
    pub enc : CodecContext
    pub next_pts : ℕ
    pub samples_count : ℕ
    pub frame : Option Frame
    pub tmp_frame : Option Frame
    pub t : av.Float
    pub tincr : av.Float
    pub tincr2 : av.Float
    pub sws_ctx : Option ℕ
    pub swr_ctx : Option ℕ

  abbrev pub new_output : Stream → CodecContext → OutputStream
  new_output st enc = record {
    st = st;
    enc = enc;
    next_pts = 0;
    samples_count = 0;
    frame = none;
    tmp_frame = none;
    t = av.float_zero;
    tincr = av.float_zero;
    tincr2 = av.float_zero;
    sws_ctx = none;
    swr_ctx = none;
  }

abbrev pub stream_duration : ℕ
stream_duration = 10

abbrev pub stream_frame_rate : ℕ
stream_frame_rate = 25

abbrev pub over : ℕ → ℕ → Rational
over n d = record { num = n; den = d }
