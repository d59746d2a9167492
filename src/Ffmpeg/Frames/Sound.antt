-- ===== src/Ffmpeg/Frames/Sound.antt =====
-- The sound that `get_audio_frame` of libs/Ffmpeg/muxer.cpp makes.
use socket_program.Base.{ℕ, zero, suc, ◌+◌, ◌*◌, ◌≤◌, ◌<◌, word, ◌≡◌, refl, subst, sym, some, arith}
use socket_program.Ffmpeg.Library.{Av, Plane}
use socket_program.Ffmpeg.Loops.{for_up, for_up_lem, store}
use socket_program.Ffmpeg.Image.Pixels.{Drawn, Drawn-start, store-Drawn, Drawn-row}
use socket_program.Ffmpeg.Image.Filling.{Painted, Drawn-Painted}
use socket_program.Ffmpeg.Frames.{Synth, put_sample, put_sound}

module _ (av : Av) (t tincr tincr2 : av.Float) where
  -- The two numbers of the generator before a sample.
  abbrev pub phase : ℕ → av.Float × av.Float
  phase zero = (t, tincr)
  phase (suc j) = (av.float_add (phase j).0 (phase j).1, av.float_add (phase j).1 tincr2)

  -- The value of a sample, for every channel.
  abbrev pub sample : ℕ → ℕ → ℕ
  sample j i = word 0x1_0000 (av.tone (phase j).0)

  module _ (old : Plane) (channels count : ℕ) (room : count * channels ≤ old.size) where
    record Made (j i : ℕ) (s : Synth av.Float) : Type 0 where
      place : s.q ≡ j * channels + i
      time : s.t ≡ (phase j).0
      step : s.tincr ≡ (phase j).1
      drawn : Drawn old channels channels sample j i s.plane

    put_sample-Made :
        (j i : ℕ) (s : Synth av.Float)
        → j < count
        → i < channels
        → Made j i s
        → (s' : Synth av.Float) × (put_sample av (av.tone (phase j).0) s ≡ some s')
          × Made j (suc i) s'
    unfolding put_sample
    put_sample-Made j i s lt lt' m =
        let (p, ran, d) =
          store-Drawn old channels channels sample j i count s.plane lt' (omega arith) lt room
            m.drawn in
        let there : store s.q (sample j i) s.plane ≡ some p =
          subst (λ q. store q (sample j i) s.plane ≡ some p) (sym m.place) ran in
        (
          record s { plane = p; q = suc s.q },
          rw (put_sample, there) refl,
          record { place = omega (arith, m.place); time = m.time; step = m.step; drawn = d },
        )

    put_sound-Made :
        (j : ℕ) (s : Synth av.Float)
        → j < count
        → Made j 0 s
        → (s' : Synth av.Float) × (put_sound av channels tincr2 s ≡ some s') × Made (suc j) 0 s'
    unfolding put_sound
    put_sound-Made j s lt m =
        let (s', ran, m') =
          for_up_lem (Made j) (λ i. put_sample av (av.tone (phase j).0)) channels 0 channels s
            (omega arith) (λ i s0 lt' m0. put_sample-Made j i s0 lt lt' m0) m in
        let there : for_up channels 0 (λ i. put_sample av (av.tone s.t)) s ≡ some s' =
          subst (λ x. for_up channels 0 (λ i. put_sample av (av.tone x)) s ≡ some s') (sym m.time)
            ran in
        (
          record s' { t = av.float_add s'.t s'.tincr; tincr = av.float_add s'.tincr tincr2 },
          rw (put_sound, there) refl,
          record {
            place = omega (arith, m'.place);
            time = rw (m'.time, m'.step) refl;
            step = rw m'.step refl;
            drawn = Drawn-row old channels channels sample j s'.plane m'.drawn;
          },
        )

    -- The loop over the samples stays within the buffer and gives every sample its value in all
    -- channels.
    pub sound-Painted :
        (s' : Synth av.Float) × (for_up count 0
            (λ j. put_sound av channels tincr2)
            (record { t = t; tincr = tincr; plane = old; q = 0 })
          ≡ some s')
        × Painted old channels channels count sample s'.plane
    sound-Painted =
        let (s', ran, m) =
          for_up_lem (λ j s. Made j 0 s) (λ j. put_sound av channels tincr2) count 0 count _
            (omega arith) (λ j s lt m. put_sound-Made j s lt m)
            (record {
              place = omega arith;
              time = refl;
              step = refl;
              drawn = Drawn-start old channels channels sample;
            }) in
        (s', ran, Drawn-Painted old channels channels count sample s'.plane m.drawn)
