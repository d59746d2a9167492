-- ===== src/Ffmpeg/Streams/Opening.antt =====
-- `open_video` of libs/Ffmpeg/muxer.cpp.
use socket_program.Base.{
  ℕ, ◌==◌, is_negative, ◌≡◌, refl, sym, ap, subst, ◌∙◌, ◌⊎◌, inl, inr, true, false, Bool-cases,
  Option, Option-cases, none, some, List, Bytes, arith, if◌then◌else◌,
}
use socket_program.Base.{exited, done, Run, Ensures, Ensures-bind, ◌>>=◌, pure, throw}
use socket_program.Inet.Os.{call}
use socket_program.Ffmpeg.Library.{Av, Frame, Codec, CodecContext}
use socket_program.Ffmpeg.State.{OutputStream, over}
use socket_program.Ffmpeg.Streams.{or_exit, alloc_picture, second_picture, open_video}
use socket_program.Ffmpeg.Frames.Laws.{HoldsPicture, Codecs}
use socket_program.Ffmpeg.Frames.Video.{VideoReady}

-- Opening a codec keeps what was chosen for it, and a picture that got its buffer has the room that its
-- format and size want.
pub record Opens (av : Av) : Type 0 where
  pub open_keeps :
      (c : CodecContext) (codec : Codec) (opt : List (Bytes × Bytes)) (w : av.World)
      → let c' = (av.codec_open c codec opt w).0.1 in
        (c'.time_base ≡ c.time_base) × (c'.pix_fmt ≡ c.pix_fmt)
  pub buffer_room :
      (f : Frame) (align : ℕ) (w : av.World)
      → is_negative (av.frame_get_buffer f align w).0.0 ≡ false
      → (f.format == av.pix_fmt_yuv420p) ≡ true
      → HoldsPicture (av.frame_get_buffer f align w).0.1 f.width f.height

module _ (av : Av) (laws : Codecs av) (opens : Opens av) where
  open av use {World}

  -- No picture, or one with room.
  abbrev Made : ℕ → ℕ → Option Frame → Type 0
  Made width height made =
      (made ≡ none) ⊎ ((f : Frame) × (made ≡ some f) × HoldsPicture f width height)

  alloc_picture-Made :
      (fmt width height : ℕ) (w : World)
      → (fmt == av.pix_fmt_yuv420p) ≡ true
      → Ensures
          (λ made w'. Made width height made)
          (λ e w'. e ≡ exited)
          (alloc_picture av fmt width height w)
  unfolding alloc_picture
  alloc_picture-Made fmt width height w yuv = elim (Option-cases (av.frame_alloc w).0) [
    | inl e ↦ rw (e, Ensures) (inl refl)
    | inr (blank, e) ↦
        let w' : World = (av.frame_alloc w).1 in
        let picture : Frame = record blank { format = fmt; width = width; height = height } in
        rw (e, Ensures)
          (elim (Bool-cases (is_negative (av.frame_get_buffer picture 32 w').0.0)) [
            | inl bad ↦ rw (bad, Ensures) refl
            | inr okay ↦
                rw (okay, Ensures) (inr (_, refl, opens.buffer_room picture 32 w' okay yuv))
          ])
  ]

  -- What is left to do with the pictures.
  abbrev finish :
      OutputStream av → CodecContext → Frame → Option Frame → Run World (OutputStream av)
  finish ost c frame tmp = do
    copied ← call (av.parameters_from_context ost.st c)
    if is_negative copied
        then throw exited
        else pure (record ost { enc = c; frame = some frame; tmp_frame = tmp })

  finish-Ready :
      (ost : OutputStream av) (c : CodecContext) (frame : Frame) (tmp : Option Frame) (w : World)
      → c.time_base ≡ over 1 25
      → (c.pix_fmt == av.pix_fmt_yuv420p) ≡ true
      → ost.next_pts ≡ 0
      → HoldsPicture frame c.width c.height
      → Ensures
          (λ o w'. VideoReady av laws o × (o.next_pts ≡ 0))
          (λ e w'. e ≡ exited)
          (finish ost c frame tmp w)
  finish-Ready ost c frame tmp w rate format start room =
      elim (Bool-cases (is_negative (av.parameters_from_context ost.st c w).0)) [
        | inl bad ↦ rw (bad, Ensures) refl
        | inr okay ↦
            rw (okay, Ensures)
              (
                record {
                  rate = rate;
                  format = format;
                  buffer = frame;
                  has_buffer = refl;
                  room = room;
                  within = rw start (omega arith);
                },
                start,
              )
      ]

  second_picture-Same :
      (c : CodecContext) (w : World)
      → (c.pix_fmt == av.pix_fmt_yuv420p) ≡ true
      → second_picture av c w ≡ done none w
  unfolding second_picture
  second_picture-Same c w format = rw format refl

  some_eq : {A : Type 0} (a b : A) → some a ≡ some b → a ≡ b
  some_eq a b e = cc

  none-some : {A : Type 0} (a : A) → some a ≡ none → ⊥
  none-some a e = cc

  -- The picture that `open_video` got, and the rest of it.
  with_picture :
      (ost : OutputStream av) (c : CodecContext) (made : Option Frame) (w : World)
      → c.time_base ≡ over 1 25
      → (c.pix_fmt == av.pix_fmt_yuv420p) ≡ true
      → ost.next_pts ≡ 0
      → Made c.width c.height made
      → Ensures
          (λ o w'. VideoReady av laws o × (o.next_pts ≡ 0))
          (λ e w'. e ≡ exited)
          ((or_exit made >>= λ frame. second_picture av c >>= finish ost c frame) w)
  unfolding or_exit
  with_picture ost c none w rate format start m = refl
  with_picture ost c (some frame) w rate format start (inl e) = absurd (none-some frame e)
  with_picture ost c (some frame) w rate format start (inr (g, e, room)) =
      subst
        (λ o.
          Ensures (λ o' w'. VideoReady av laws o' × (o'.next_pts ≡ 0)) (λ x w'. x ≡ exited)
            (((λ _. o) >>= finish ost c frame) w))
        (sym (second_picture-Same c w format))
        (finish-Ready ost c frame none w rate format start
          (subst (λ f. HoldsPicture f c.width c.height) (sym (some_eq frame g e)) room))

  -- `open_video` on a stream that `add_stream` has set up for pictures gives a stream that is ready for
  -- `write_video_frame`, with the codec's size and at the same picture, or exits. The library keeps what
  -- was chosen for a codec, and gives a picture the room for its format and size.
  pub open_video-Ready :
      (codec : Codec) (ost : OutputStream av) (opt : List (Bytes × Bytes)) (w : World)
      → ost.enc.time_base ≡ over 1 25
      → (ost.enc.pix_fmt == av.pix_fmt_yuv420p) ≡ true
      → ost.next_pts ≡ 0
      → Ensures
          (λ o w'. VideoReady av laws o × (o.next_pts ≡ 0))
          (λ e w'. e ≡ exited)
          (open_video av codec ost opt w)
  unfolding open_video
  open_video-Ready codec ost opt w rate format start =
      let c : CodecContext = (av.codec_open ost.enc codec opt w).0.1 in
      let w' : World = (av.codec_open ost.enc codec opt w).1 in
      let kept = opens.open_keeps ost.enc codec opt w in
      let yuv : (c.pix_fmt == av.pix_fmt_yuv420p) ≡ true =
        ap (λ f. f == av.pix_fmt_yuv420p) kept.1 ∙ format in
      elim (Bool-cases (is_negative (av.codec_open ost.enc codec opt w).0.0)) [
        | inl bad ↦ rw (bad, Ensures) refl
        | inr okay ↦
            rw (okay, Ensures)
              (Ensures-bind (λ made v. Made c.width c.height made) (λ e v. e ≡ exited)
                (λ o v. VideoReady av laws o × (o.next_pts ≡ 0)) (λ e v. e ≡ exited)
                (alloc_picture av c.pix_fmt c.width c.height)
                (λ made. or_exit made >>= λ frame. second_picture av c >>= finish ost c frame) w'
                (alloc_picture-Made c.pix_fmt c.width c.height w' yuv)
                (λ made v m. with_picture ost c made v (kept.0 ∙ rate) yuv start m) (λ e v x. x))
      ]
