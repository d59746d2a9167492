-- ===== src/Ffmpeg/Frames/Video.antt =====
-- The pictures of libs/Ffmpeg/muxer.cpp.
use socket_program.Base.{
  ◌%◌, ℕ, suc, ◌+◌, ◌-◌, ◌*◌, ◌/◌, ◌≤◌, ◌<◌, ltb, ltb→lt, not-ltb→le, ◌==◌, ◌≡◌, refl, ap, ◌∙◌, ◌⊎◌,
  inl, inr, Bool, true, false, not, Bool-cases, Option, none, some, is_negative, arith, lt→ltb,
}
use socket_program.Base.{exited, Ensures, Ensures-bind, ◌>>=◌, pure}
use socket_program.Inet.Os.{call}
use socket_program.Ffmpeg.Library.{Av, Frame}
use socket_program.Ffmpeg.State.{OutputStream, over}
use socket_program.Ffmpeg.Image.Filling.{Painted, fill_yuv_image-Painted}
use socket_program.Ffmpeg.Frames.{is_over, draw, get_video_frame, put_encoded, write_video_frame}
use socket_program.Ffmpeg.Frames.Laws.{HoldsPicture, Codecs}
use socket_program.Ffmpeg.Frames.Rounds.{
  is_last, is_last-frame, running, running_le, Put, put_encoded-Put,
}

module _ (av : Av) (laws : Codecs av) where
  open av use {World}

  -- A stream that `add_stream` and `open_video` have set up, before its end or at it.
  pub record VideoReady (ost : OutputStream av) : Type 0 where
    pub rate : ost.enc.time_base ≡ over 1 25
    pub format : (ost.enc.pix_fmt == av.pix_fmt_yuv420p) ≡ true
    pub buffer : Frame
    pub has_buffer : ost.frame ≡ some buffer
    pub room : HoldsPicture buffer ost.enc.width ost.enc.height
    pub within : ost.next_pts ≤ 250

  -- A picture with the pixels of the image of a number, and nothing else changed in its planes.
  abbrev pub Shows : ℕ → ℕ → ℕ → Frame → Type 0
  Shows i width height f =
      (blank : Frame) × (f.linesize ≡ blank.linesize)
      × Painted (blank.planes 0) (blank.linesize 0) width height (λ y x. (x + y + i * 3) % 256)
          (f.planes 0)
      × Painted (blank.planes 1) (blank.linesize 1) (width / 2) (height / 2)
          (λ y x. (128 + y + i * 2) % 256) (f.planes 1)
      × Painted (blank.planes 2) (blank.linesize 2) (width / 2) (height / 2)
          (λ y x. (64 + x + i * 5) % 256) (f.planes 2)

  video_over :
      (ost : OutputStream av)
      → VideoReady ost
      → is_over av ost.next_pts ost.enc.time_base ≡ not (ltb ost.next_pts 250)
  unfolding is_over
  video_over ost ok =
      let law =
        laws.compare_lem ost.next_pts 10 (over 1 25) (over 1 1) (omega arith) (omega arith) in
      rw (ok.rate, law) (ap not (ground arith))

  -- Painting keeps the room.
  room_after :
      (f new : Frame) (width height : ℕ) (v0 v1 v2 : ℕ → ℕ → ℕ)
      → HoldsPicture f width height
      → new.linesize ≡ f.linesize
      → Painted (f.planes 0) (f.linesize 0) width height v0 (new.planes 0)
      → Painted (f.planes 1) (f.linesize 1) (width / 2) (height / 2) v1 (new.planes 1)
      → Painted (f.planes 2) (f.linesize 2) (width / 2) (height / 2) v2 (new.planes 2)
      → HoldsPicture new width height
  room_after f new width height v0 v1 v2 ((a, b), (c, d), (e, g)) lines p0 p1 p2 =
      rw (lines, p0.0, p1.0, p2.0) ((a, b), (c, d), (e, g))

  -- What `get_video_frame` gives before the end of the stream.
  abbrev pub Drew : OutputStream av → World → Option Frame × OutputStream av → World → Type 0
  Drew ost w r w' =
      (f : Frame) × (r.0 ≡ some f)
      × (f.pts ≡ ost.next_pts)
      × Shows ost.next_pts ost.enc.width ost.enc.height f
      × (r.1.next_pts ≡ suc ost.next_pts)
      × VideoReady r.1
      × (laws.held_video w' ≡ laws.held_video w)
      × (laws.held_audio w' ≡ laws.held_audio w)

  -- `get_video_frame` before the 250th picture, on a stream that is set up, exits or gives the picture
  -- of the next number, with this number as its time, and leaves the stream set up for the one after it.
  pub get_video_frame-Shows :
      (ost : OutputStream av) (w : World)
      → VideoReady ost
      → ost.next_pts < 250
      → Ensures (Drew ost w) (λ e w'. e ≡ exited) (get_video_frame av ost w)
  unfolding get_video_frame draw
  get_video_frame-Shows ost w ok more =
      rw (video_over ost ok, lt→ltb ost.next_pts 250 more, ok.has_buffer)
        (elim (Bool-cases (is_negative (av.frame_make_writable ok.buffer w).0.0)) [
          | inl failed ↦ rw (failed, Ensures) refl
          | inr fine ↦
              let f = (av.frame_make_writable ok.buffer w).0.1 in
              let room = laws.writable_room ok.buffer ost.enc.width ost.enc.height w ok.room in
              let same = laws.writable_keeps ok.buffer w in
              let (new, ran, lines, p0, p1, p2) =
                fill_yuv_image-Painted f ost.next_pts ost.enc.width ost.enc.height room.0 room.1
                  room.2 in
              rw (fine, Ensures, ok.format, ran)
                (
                  record new { pts = ost.next_pts },
                  refl,
                  refl,
                  (f, lines, p0, p1, p2),
                  refl,
                  record {
                    rate = ok.rate;
                    format = ok.format;
                    buffer = record new { pts = ost.next_pts };
                    has_buffer = refl;
                    room = room_after f new ost.enc.width ost.enc.height _ _ _ room lines p0 p1 p2;
                    within = more;
                  },
                  same.0,
                  same.1,
                )
        ])

  -- The pictures that are left to make, twice, with those that the encoder holds, and the last round.
  abbrev pub video_left : ℕ → World → Bool → ℕ
  video_left pts w finished = 2 * (250 - pts) + laws.held_video w + running finished

  -- What a round does to the stream.
  abbrev pub VideoStep : OutputStream av → World → Bool × OutputStream av → World → Type 0
  VideoStep ost w r w' =
      VideoReady r.1
      × (video_left r.1.next_pts w' r.0 < video_left ost.next_pts w false)
      × ((r.0 ≡ false) ⊎ (r.1.next_pts ≡ 250))
      × (laws.held_audio w' ≡ laws.held_audio w)

  -- `write_video_frame` on a stream that is set up exits, or gets nearer to the end of the stream and is
  -- finished only there.
  pub write_video_frame-Steps :
      (ost : OutputStream av) (w : World)
      → VideoReady ost
      → Ensures (VideoStep ost w) (λ e w'. e ≡ exited) (write_video_frame av ost w)
  unfolding write_video_frame
  write_video_frame-Steps ost w ok = elim (Bool-cases (ltb ost.next_pts 250)) [
    | inl more ↦
        Ensures-bind (Drew ost w) (λ e w'. e ≡ exited) _ _ (get_video_frame av ost) _ w
          (get_video_frame-Shows ost w ok (ltb→lt _ _ more))
          (λ got w1 (f, e, time, shows, next, ready, v, a).
            with_frame got.1 f got.0 w1 e next ready v a)
          (λ e w' h. h)
    | inr over ↦
        rw (get_video_frame, video_over ost ok, over)
          (let r = av.encode_video ost.enc none w in
            Ensures-bind (Put av laws false r.0.1 r.1) (λ e w'. e ≡ exited) _ _
              (put_encoded av ost false r.0) (λ finished. pure (finished, ost)) r.1
              (put_encoded-Put av laws ost false r.0.0 r.0.1 r.1)
              (λ finished w' (e, v, a). (
                ok,
                at_end finished w' (laws.video.flushes ost.enc w) e v,
                inr (omega (arith, ok.within, not-ltb→le ost.next_pts 250 over)),
                a ∙ laws.video_keeps ost.enc none w,
              ))
              (λ e w' h. h))
  ]
    where
      at_end :
          (finished : Bool) (w' : World)
          → let r = av.encode_video ost.enc none w in
            ((r.0.1 ≡ none) × (laws.held_video r.1 ≤ laws.held_video w))
              ⊎ (laws.held_video r.1 < laws.held_video w)
            → finished ≡ is_last false r.0.1
            → laws.held_video w' ≡ laws.held_video r.1
            → video_left ost.next_pts w' finished < video_left ost.next_pts w false
      at_end finished w' (inl (got, le)) e v = rw (e, got) (omega (arith, le, v))
      at_end finished w' (inr lt) e v = omega (arith, lt, v, running_le finished)

      with_frame :
          (o : OutputStream av) (f : Frame) (g : Option Frame) (w1 : World)
          → g ≡ some f
          → o.next_pts ≡ suc ost.next_pts
          → VideoReady o
          → laws.held_video w1 ≡ laws.held_video w
          → laws.held_audio w1 ≡ laws.held_audio w
          → Ensures
              (VideoStep ost w)
              (λ e w'. e ≡ exited)
              ((do
                r ← call (av.encode_video o.enc g)
                finished ← put_encoded av o (elim g [ none ↦ false | some f ↦ true ]) r
                pure (finished, o))
                w1)
      with_frame o f none w1 e next ready v a = absurd (cc e)
      with_frame o f0 (some f) w1 e next ready v a =
          (let r = av.encode_video o.enc (some f) w1 in
            Ensures-bind (Put av laws true r.0.1 r.1) (λ e w'. e ≡ exited) _ _
              (put_encoded av o true r.0) (λ finished. pure (finished, o)) r.1
              (put_encoded-Put av laws o true r.0.0 r.0.1 r.1)
              (λ finished w' (last, v', a').
                let alive = last ∙ is_last-frame r.0.1 in
                (
                  ready,
                  rw alive (omega (arith, next, v, v', laws.video.takes o.enc f w1, ready.within)),
                  inl alive,
                  a' ∙ laws.video_keeps o.enc (some f) w1 ∙ a,
                ))
              (λ e w' h. h))
