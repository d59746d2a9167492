-- ===== src/Ffmpeg/Streams.antt =====
-- Adding, opening and closing a stream (libs/Ffmpeg/muxer.cpp). `exit(1)` is thrown; the streams are passed
-- on and returned.
pub mod Choice
pub mod Opening
use socket_program.Base.{
  ℕ, ◌-◌, ◌==◌, is_negative, true, Option, none, some, List, [], ◌∷◌, Bytes, if◌then◌else◌,
}
use socket_program.Base.{Run, ◌>>=◌, ◌>>◌, pure, throw, exited}
use socket_program.Inet.Os.{call, call_void}
use socket_program.Ffmpeg.Library.{
  Av, MediaType, audio, video, other, Frame, Codec, CodecContext, Stream,
}
use socket_program.Ffmpeg.State.{OutputStream, new_output, stream_frame_rate, over}

-- `list[0]`, where a list ends at a 0.
abbrev pub first : List ℕ → ℕ
first [] = 0
first (x ∷ xs) = x

-- `for (i = 0; list[i]; i++) if (list[i] == wanted) result = wanted;`
unfoldable pub scan_list : ℕ → ℕ → List ℕ → ℕ
scan_list wanted result [] = result
scan_list wanted result (x ∷ xs) =
    let rest = scan_list wanted (if x == wanted then wanted else result) xs in
    if x == 0 then result else rest

-- What `add_stream` takes from a list of the codec, or without one.
unfoldable pub choose : ℕ → Option (List ℕ) → ℕ
unfolding scan_list
choose wanted none = wanted
choose wanted (some xs) = scan_list wanted (first xs) xs

-- `exit(1)` for a null pointer, or for a negative result.
unfoldable pub or_exit : {S A : Type 0} → Option A → Run S A
or_exit none = throw exited
or_exit (some a) = pure a

module _ (av : Av) where
  open av use {World}

  unfoldable pub audio_context : Codec → CodecContext → CodecContext
  unfolding choose
  audio_context codec c =
      let layout = choose av.layout_stereo codec.channel_layouts in
      record c {
        sample_fmt = elim codec.sample_fmts [ none ↦ av.sample_fmt_fltp | some fs ↦ first fs ];
        bit_rate = 64000;
        sample_rate = choose 44100 codec.supported_samplerates;
        channel_layout = layout;
        channels = av.nb_channels layout;
      }

  unfoldable pub video_context : ℕ → CodecContext → CodecContext
  video_context codec_id c = record c {
    codec_id = codec_id;
    bit_rate = 400000;
    width = 352;
    height = 288;
    time_base = over 1 stream_frame_rate;
    gop_size = 12;
    pix_fmt = av.pix_fmt_yuv420p;
    max_b_frames = if codec_id == av.codec_mpeg2video then 2 else c.max_b_frames;
    mb_decision = if codec_id == av.codec_mpeg1video then 2 else c.mb_decision;
  }

  -- The switch over the type of the codec: the context, and the time base of the stream.
  unfoldable pub configure : MediaType → ℕ → Codec → Stream → CodecContext → Stream × CodecContext
  unfolding audio_context video_context
  configure audio codec_id codec st c =
      let c' = audio_context codec c in (record st { time_base = over 1 c'.sample_rate }, c')
  configure video codec_id codec st c =
      (record st { time_base = over 1 stream_frame_rate }, video_context codec_id c)
  configure other codec_id codec st c = (st, c)

  -- `add_stream`: the stream and the codec that it found.
  unfoldable pub add_stream : ℕ → Run World (OutputStream av × Codec)
  unfolding configure or_exit
  add_stream codec_id = do
    found ← call (av.find_encoder codec_id)
    codec ← or_exit found
    made ← call av.new_stream
    st ← or_exit made
    count ← λ w. pure (av.nb_streams w) w
    context ← call (av.alloc_context codec)
    c ← or_exit context
    separate ← λ w. pure (av.wants_global_header w) w
    let set = configure codec.type codec_id codec (record st { id = count - 1 }) c
    let enc = if separate then record set.1 { has_global_header = true } else set.1
    pure (new_output av set.0 enc, codec)

  -- `alloc_audio_frame`
  unfoldable pub alloc_audio_frame : ℕ → ℕ → ℕ → ℕ → Run World Frame
  unfolding or_exit
  alloc_audio_frame fmt layout rate nb_samples = do
    made ← call av.frame_alloc
    blank ← or_exit made
    let frame : Frame = record blank {
      format = fmt;
      channel_layout = layout;
      sample_rate = rate;
      nb_samples = nb_samples;
    }
    if nb_samples == 0 then pure frame else (do
      r ← call (av.frame_get_buffer frame 0)
      if is_negative r.0 then throw exited else pure r.1)

  -- `alloc_picture`
  unfoldable pub alloc_picture : ℕ → ℕ → ℕ → Run World (Option Frame)
  alloc_picture fmt width height = do
    made ← call av.frame_alloc
    elim made [
      | none ↦ pure none
      | some blank ↦ do
        let picture : Frame = record blank { format = fmt; width = width; height = height }
        r ← call (av.frame_get_buffer picture 32)
        if is_negative r.0 then throw exited else pure (some r.1)
    ]

  -- `open_audio`. The options go to the codec in a copy.
  unfoldable pub open_audio :
      Codec → OutputStream av → List (Bytes × Bytes) → Run World (OutputStream av)
  unfolding alloc_audio_frame or_exit
  open_audio codec ost opt = do
    r ← call (av.codec_open ost.enc codec opt)
    if is_negative r.0 then throw exited else (do
      let c = r.1
      let nb_samples = if c.codec.has_variable_frame_size then 10000 else c.frame_size
      frame ← alloc_audio_frame c.sample_fmt c.channel_layout c.sample_rate nb_samples
      tmp ← alloc_audio_frame av.sample_fmt_s16 c.channel_layout c.sample_rate nb_samples
      copied ← call (av.parameters_from_context ost.st c)
      if is_negative copied then throw exited else (do
        swr_made ← call av.swr_alloc
        swr ← or_exit swr_made
        call_void (av.swr_set_options swr c.channels c.sample_rate av.sample_fmt_s16 c.sample_fmt)
        ready ← call (av.swr_init swr)
        if is_negative ready
            then throw exited
            else pure (record ost {
              enc = c;
              t = av.float_zero;
              tincr = av.tone_step c.sample_rate;
              tincr2 = av.tone_drift c.sample_rate;
              frame = some frame;
              tmp_frame = some tmp;
              swr_ctx = some swr;
            })))

  -- The picture that `open_video` makes besides when the codec wants another format.
  unfoldable pub second_picture : CodecContext → Run World (Option Frame)
  unfolding alloc_picture or_exit
  second_picture c = if c.pix_fmt == av.pix_fmt_yuv420p then pure none else (do
    made ← alloc_picture av.pix_fmt_yuv420p c.width c.height
    tmp ← or_exit made
    pure (some tmp))

  -- `open_video`
  unfoldable pub open_video :
      Codec → OutputStream av → List (Bytes × Bytes) → Run World (OutputStream av)
  unfolding alloc_picture second_picture or_exit
  open_video codec ost opt = do
    r ← call (av.codec_open ost.enc codec opt)
    if is_negative r.0 then throw exited else (do
      let c = r.1
      made ← alloc_picture c.pix_fmt c.width c.height
      frame ← or_exit made
      tmp ← second_picture c
      copied ← call (av.parameters_from_context ost.st c)
      let opened = record ost { enc = c; frame = some frame; tmp_frame = tmp }
      if is_negative copied then throw exited else pure opened)

  -- `close_stream`, which leaves null pointers behind that nothing reads.
  unfoldable pub close_stream : OutputStream av → Run World (Unit {0})
  close_stream ost = do
    call_void (av.context_free ost.enc)
    call_void (av.frame_free ost.frame)
    call_void (av.frame_free ost.tmp_frame)
    call_void (av.sws_free ost.sws_ctx)
    call_void (av.swr_free ost.swr_ctx)
