-- ===== src/Programs/Muxer/Interleaving.antt =====
-- The loop of src/muxer.cpp that encodes the two streams.
use mathlib.Core.Bool.{true≢false}
use socket_program.Base.{
  ℕ, zero, suc, ◌+◌, ◌<◌, ◌≡◌, refl, sym, ◌⊎◌, inl, inr, Bool, true, false, not, ◌&&◌, ◌||◌,
  Bool-cases, Option, none, some, arith, if◌then◌else◌,
}
use socket_program.Base.{exited, pure, Ensures, Ensures-bind}
use socket_program.Ffmpeg.Library.{Av}
use socket_program.Ffmpeg.State.{OutputStream}
use socket_program.Ffmpeg.Frames.{write_audio_frame, write_video_frame}
use socket_program.Ffmpeg.Frames.Laws.{Codecs}
use socket_program.Ffmpeg.Frames.Video.{VideoReady, VideoStep, video_left, write_video_frame-Steps}
use socket_program.Ffmpeg.Frames.Audio.{AudioReady, goes_on}
use socket_program.Ffmpeg.Frames.Audio.Steps.{AudioStep, audio_left, Stops, write_audio_frame-Steps}
use socket_program.Programs.Muxer.{
  Encoding, is_video_behind, is_video_next, step_video, step_audio, mux_loop,
}

module _ (av : Av) (laws : Codecs av) where
  open av use {World}

  -- A stream that is there is set up, and encoded to its end if it is not encoded any more.
  abbrev pub VideoPart : Option (OutputStream av) → Bool → Type 0
  VideoPart none encode = encode ≡ false
  VideoPart (some o) encode = VideoReady av laws o × ((encode ≡ true) ⊎ (o.next_pts ≡ 250))

  abbrev pub AudioPart : Option (OutputStream av) → Bool → Type 0
  AudioPart none encode = encode ≡ false
  AudioPart (some o) encode = AudioReady av laws o × ((encode ≡ true) ⊎ (goes_on av laws o ≡ false))

  abbrev pub Prepared : Encoding av → Type 0
  Prepared e = VideoPart e.video_st e.encode_video × AudioPart e.audio_st e.encode_audio

  -- What is left to do.
  abbrev pub video_total : Option (OutputStream av) → World → Bool → ℕ
  video_total none w encode = laws.held_video w
  video_total (some o) w encode = video_left av laws o.next_pts w (not encode)

  abbrev pub audio_total : Option (OutputStream av) → World → Bool → ℕ
  audio_total none w encode = laws.held_audio w
  audio_total (some o) w encode = audio_left av laws o w (not encode)

  abbrev pub total : Encoding av → World → ℕ
  total e w = video_total e.video_st w e.encode_video + audio_total e.audio_st w e.encode_audio

  -- A round of the loop.
  abbrev Round : Encoding av → World → Encoding av → World → Type 0
  Round e w e' w' = Prepared e' × (total e' w' < total e w)

  video_total_keep :
      (o : Option (OutputStream av)) (b : Bool) (w w' : World)
      → laws.held_video w' ≡ laws.held_video w
      → video_total o w' b ≡ video_total o w b
  video_total_keep none b w w' h = h
  video_total_keep (some o) b w w' h = rw h refl

  audio_total_keep :
      (o : Option (OutputStream av)) (b : Bool) (w w' : World)
      → laws.held_audio w' ≡ laws.held_audio w
      → audio_total o w' b ≡ audio_total o w b
  audio_total_keep none b w w' h = h
  audio_total_keep (some o) b w w' h = rw h refl

  not-not : (b : Bool) → not (not b) ≡ b
  not-not true = refl
  not-not false = refl

  running_or : {X : Type 0} {b : Bool} → (b ≡ false) ⊎ X → (not b ≡ true) ⊎ X
  running_or (inl e) = inl (rw e refl)
  running_or (inr x) = inr x

  ||-false : (a b : Bool) → (a || b) ≡ false → (a ≡ false) × (b ≡ false)
  ||-false true b h = absurd (true≢false h)
  ||-false false b h = (refl, h)

  step_video_with :
      (v a : Option (OutputStream av)) (b : Bool) (w : World)
      → VideoPart v true
      → AudioPart a b
      → let e : Encoding av = record {
        video_st = v;
        audio_st = a;
        encode_video = true;
        encode_audio = b;
      } in
        Ensures (Round e w) (Stops av laws) (step_video av e w)
  unfolding step_video
  step_video_with none a b w hv ha = absurd (true≢false hv)
  step_video_with (some o) a b w hv ha =
      Ensures-bind (VideoStep av laws o w) (λ e w'. e ≡ exited) _ _ (write_video_frame av o)
        (λ r.
          pure (record {
            video_st = some r.1;
            audio_st = a;
            encode_video = not r.0;
            encode_audio = b;
          }))
        w (write_video_frame-Steps av laws o w hv.0)
        (λ r w' (ready, less, end, held). (
          ((ready, running_or end), ha),
          rw (not-not r.0) (omega (arith, less, audio_total_keep a b w w' held)),
        ))
        (λ e w' h. inl h)

  step_audio_with :
      (v a : Option (OutputStream av)) (b : Bool) (w : World)
      → VideoPart v b
      → AudioPart a true
      → let e : Encoding av = record {
        video_st = v;
        audio_st = a;
        encode_video = b;
        encode_audio = true;
      } in
        Ensures (Round e w) (Stops av laws) (step_audio av e w)
  unfolding step_audio
  step_audio_with v none b w hv ha = absurd (true≢false ha)
  step_audio_with v (some o) b w hv ha =
      Ensures-bind (AudioStep av laws o w) (Stops av laws) _ _ (write_audio_frame av o)
        (λ r.
          pure (record {
            video_st = v;
            audio_st = some r.1;
            encode_video = b;
            encode_audio = not r.0;
          }))
        w (write_audio_frame-Steps av laws o w ha.0)
        (λ r w' (ready, less, end, same, held). (
          (hv, (ready, running_or end)),
          rw (not-not r.0) (omega (arith, less, video_total_keep v b w w' held)),
        ))
        (λ e w' h. h)

  -- A round on the variables.
  round :
      (v a : Option (OutputStream av)) (bv ba next : Bool) (w : World)
      → VideoPart v bv
      → AudioPart a ba
      → (bv || ba) ≡ true
      → next ≡ (bv && (not ba || is_video_behind av v a))
      → let e : Encoding av = record {
        video_st = v;
        audio_st = a;
        encode_video = bv;
        encode_audio = ba;
      } in
        Ensures (Round e w) (Stops av laws) ((if next then step_video av e else step_audio av e) w)
  round v a true ba true w hv ha some_left h = step_video_with v a ba w hv ha
  round v a false ba true w hv ha some_left h = absurd (true≢false h)
  round v a bv true false w hv ha some_left h = step_audio_with v a bv w hv ha
  round v a true false false w hv ha some_left h = absurd (true≢false (sym h))
  round v a false false false w hv ha some_left h = absurd (true≢false (sym some_left))

  -- The streams at the end.
  abbrev pub Over : Encoding av → World → Type 0
  Over e w = (e.encode_video ≡ false) × (e.encode_audio ≡ false) × Prepared e

  -- The loop over two streams that are set up, with more rounds than there are frames and samples left
  -- to make, twice, and frames in the encoders, comes to an end: it exits, fails the assertion, or
  -- leaves both streams encoded to their ends.
  pub mux_loop-Ends :
      (fuel : ℕ) (e : Encoding av) (w : World)
      → Prepared e
      → total e w < fuel
      → Ensures Over (Stops av laws) (mux_loop av fuel e w)
  unfolding mux_loop
  mux_loop-Ends zero e w s more = absurd (omega arith)
  mux_loop-Ends (suc fuel) e w s more = elim (Bool-cases (e.encode_video || e.encode_audio)) [
    | inl left ↦
        rw (left, Ensures)
          (Ensures-bind (Round e w) (Stops av laws) _ _
            (if is_video_next av e then step_video av e else step_audio av e) (mux_loop av fuel) w
            (round e.video_st e.audio_st e.encode_video e.encode_audio _ w s.0 s.1 left refl)
            (λ e' w' (s', less). mux_loop-Ends fuel e' w' s' (omega (arith, less))) (λ x w' h. h))
    | inr none_left ↦
        rw (none_left, Ensures)
          (
            (||-false e.encode_video e.encode_audio none_left).0,
            (||-false e.encode_video e.encode_audio none_left).1,
            s,
          )
  ]
