-- ===== src/Ffmpeg/Frames.antt =====
-- Making, encoding and writing a frame (libs/Ffmpeg/muxer.cpp).
pub mod Laws
pub mod Video
pub mod Rounds
pub mod Sound
pub mod Audio
use socket_program.Base.{
  ℕ, suc, ◌+◌, ◌==◌, ℤ, word, is_negative, Bool, true, false, not, Option, none, some,
  if◌then◌else◌,
}
use socket_program.Base.{Run, ◌>>=◌, pure, throw, undefined, exited, aborted}
use socket_program.Inet.Os.{call}
use socket_program.Ffmpeg.Library.{Av, Rational, Plane, Frame, Packet, Stream}
use socket_program.Ffmpeg.State.{OutputStream, stream_duration, over}
use socket_program.Ffmpeg.Streams.{or_exit}
use socket_program.Ffmpeg.Loops.{for_up, store}
use socket_program.Ffmpeg.Image.{fill_yuv_image}

-- Memory outside a buffer.
abbrev pub or_fault : {S A : Type 0} → Option A → Run S A
or_fault none = undefined
or_fault (some a) = pure a

-- The sound that is left to make: `t`, `tincr`, the buffer, and the place of `q` in it.
pub record Synth (Float : Type 0) : Type 0 where
  pub t : Float
  pub tincr : Float
  pub plane : Plane
  pub q : ℕ

module _ (av : Av) where
  open av use {World}

  -- The test for more frames of `get_audio_frame` and `get_video_frame`.
  unfoldable pub is_over : ℕ → Rational → Bool
  is_over pts time_base = not (is_negative (av.compare_ts pts time_base stream_duration (over 1 1)))

  -- `write_frame`; `log_packet` does nothing.
  unfoldable pub write_frame : Rational → Stream → Packet → Run World ℤ
  write_frame time_base st pkt =
      let rescaled = av.packet_rescale pkt time_base st.time_base in
      call (av.interleaved_write (record rescaled { stream_index = st.index }))

  -- `*q++ = v`, with `v` narrowed to 16 bits.
  unfoldable pub put_sample : ℤ → Synth av.Float → Option (Synth av.Float)
  unfolding store
  put_sample v s = elim (store s.q (word 0x1_0000 v) s.plane) [
    | none ↦ none
    | some plane ↦ some (record s { plane = plane; q = suc s.q })
  ]

  -- A round of the loop over the samples: one value for every channel.
  unfoldable pub put_sound : ℕ → av.Float → Synth av.Float → Option (Synth av.Float)
  unfolding for_up put_sample
  put_sound channels tincr2 s = elim (for_up channels 0 (λ i. put_sample (av.tone s.t)) s) [
    | none ↦ none
    | some s' ↦
        some (record s' { t = av.float_add s'.t s'.tincr; tincr = av.float_add s'.tincr tincr2 })
  ]

  -- `get_audio_frame`
  unfoldable pub get_audio_frame : OutputStream av → Run World (Option Frame × OutputStream av)
  unfolding is_over for_up put_sound
  get_audio_frame ost = do
    frame ← or_fault ost.tmp_frame
    if is_over ost.next_pts ost.enc.time_base then pure (none, ost) else (do
      made ← or_fault (
          for_up frame.nb_samples 0 (λ j. put_sound ost.enc.channels ost.tincr2)
            (record { t = ost.t; tincr = ost.tincr; plane = frame.planes 0; q = 0 }))
      let sound : Frame = record frame {
        planes = λ p. if p == 0 then made.plane else frame.planes p;
        pts = ost.next_pts;
      }
      pure (
        some sound,
        record ost {
          t = made.t;
          tincr = made.tincr;
          tmp_frame = some sound;
          next_pts = ost.next_pts + frame.nb_samples;
        },
      ))

  -- The end of `write_audio_frame` and of `write_video_frame`: `some` is a packet that was got. The
  -- result is whether the encoding is finished.
  unfoldable pub put_encoded : OutputStream av → Bool → ℤ × Option Packet → Run World Bool
  unfolding write_frame
  put_encoded ost has_frame r = if is_negative r.0 then throw exited else elim r.1 [
    | none ↦ pure (not has_frame)
    | some pkt ↦ do
      ret ← write_frame ost.enc.time_base ost.st pkt
      if is_negative ret then throw exited else pure false
  ]

  -- The conversion of a sound in `write_audio_frame`, to the frame for the encoder.
  unfoldable pub convert_sound : Frame → OutputStream av → Run World (Frame × OutputStream av)
  convert_sound sound ost = do
    let rate = ost.enc.sample_rate
    delay ← λ w. pure (av.swr_delay ost.swr_ctx rate w) w
    let count = av.rescale_up (delay + sound.nb_samples) rate rate
    if not (count == sound.nb_samples) then throw aborted else (do
      frame ← or_fault ost.frame
      writable ← call (av.frame_make_writable frame)
      if is_negative writable.0 then throw exited else (do
        r ← call (av.swr_convert ost.swr_ctx writable.1 count sound sound.nb_samples)
        if is_negative r.0 then throw exited else (do
          let out : Frame = record r.1 {
            pts = av.rescale_q ost.samples_count (over 1 rate) ost.enc.time_base;
          }
          pure (out, record ost { frame = some out; samples_count = ost.samples_count + count }))))

  -- `write_audio_frame`: whether the encoding is finished, and the stream.
  unfoldable pub write_audio_frame : OutputStream av → Run World (Bool × OutputStream av)
  unfolding get_audio_frame convert_sound put_encoded
  write_audio_frame ost = do
    got ← get_audio_frame ost
    elim got.0 [
      | none ↦ do
        r ← call (av.encode_audio got.1.enc none)
        finished ← put_encoded got.1 false r
        pure (finished, got.1)
      | some sound ↦ do
        out ← convert_sound sound got.1
        r ← call (av.encode_audio out.1.enc (some out.0))
        finished ← put_encoded out.1 true r
        pure (finished, out.1)
    ]

  -- The scaling context of `get_video_frame`, made at the first use.
  unfoldable pub scaling : OutputStream av → Run World (Option ℕ)
  unfolding or_exit
  scaling ost = elim ost.sws_ctx [
    | some p ↦ pure (some p)
    | none ↦ do
      made ← call (av.sws_context ost.enc.width ost.enc.height ost.enc.pix_fmt)
      p ← or_exit made
      pure (some p)
  ]

  -- The picture of `get_video_frame` in the format of the codec.
  unfoldable pub draw : Frame → OutputStream av → Run World (Frame × OutputStream av)
  unfolding scaling fill_yuv_image
  draw frame ost =
      let c = ost.enc in
      if c.pix_fmt == av.pix_fmt_yuv420p
      then (do
        picture ← or_fault (fill_yuv_image frame ost.next_pts c.width c.height)
        pure (picture, ost))
      else (do
        sws ← scaling ost
        tmp ← or_fault ost.tmp_frame
        picture ← or_fault (fill_yuv_image tmp ost.next_pts c.width c.height)
        scaled ← call (av.sws_scale sws picture c.height frame)
        pure (scaled, record ost { sws_ctx = sws; tmp_frame = some picture }))

  -- `get_video_frame`
  unfoldable pub get_video_frame : OutputStream av → Run World (Option Frame × OutputStream av)
  unfolding is_over draw
  get_video_frame ost = if is_over ost.next_pts ost.enc.time_base then pure (none, ost) else (do
    frame ← or_fault ost.frame
    writable ← call (av.frame_make_writable frame)
    if is_negative writable.0 then throw exited else (do
      drawn ← draw writable.1 ost
      let picture : Frame = record drawn.0 { pts = ost.next_pts }
      pure (some picture, record drawn.1 { frame = some picture; next_pts = suc ost.next_pts })))

  -- `write_video_frame`: whether the encoding is finished, and the stream.
  unfoldable pub write_video_frame : OutputStream av → Run World (Bool × OutputStream av)
  unfolding get_video_frame put_encoded
  write_video_frame ost = do
    got ← get_video_frame ost
    r ← call (av.encode_video got.1.enc got.0)
    finished ← put_encoded got.1 (elim got.0 [ none ↦ false | some f ↦ true ]) r
    pure (finished, got.1)
