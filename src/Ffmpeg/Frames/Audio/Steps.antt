-- ===== src/Ffmpeg/Frames/Audio/Steps.antt =====
-- A round of `write_audio_frame` (libs/Ffmpeg/muxer.cpp).
use socket_program.Base.{
  ℕ, ◌+◌, ◌-◌, ◌*◌, ◌≤◌, ◌<◌, ltb→lt, ◌==◌, ◌≡◌, refl, sym, ap, ◌∙◌, ◌⊎◌, inl, inr, Bool, true,
  false, Bool-cases, Option, none, some, is_negative, arith,
}
use socket_program.Base.{Exn, exited, aborted, subst, Ensures, Ensures-bind, Run, ◌>>=◌, pure}
use socket_program.Inet.Os.{call}
use socket_program.Ffmpeg.Library.{Av, Frame}
use socket_program.Ffmpeg.State.{OutputStream, over}
use socket_program.Ffmpeg.Frames.{put_encoded}
use socket_program.Ffmpeg.Frames.Laws.{Codecs}
use native.Mathlib.Nat.{mul-le-mul_left}
use socket_program.Ffmpeg.Frames.{get_audio_frame, convert_sound, write_audio_frame}
use socket_program.Ffmpeg.Frames.Rounds.{
  is_last, is_last-frame, running, running_le, Put, put_encoded-Put,
}
use socket_program.Ffmpeg.Frames.Audio.{
  AudioReady, audio_end, goes_on, Played, get_audio_frame-Plays, get_audio_frame-End,
}

module _ (av : Av) (laws : Codecs av) where
  open av use {World}

  -- The conversion exits, fails its assertion, or changes the frame for the encoder alone.
  abbrev Converted : OutputStream av → World → Frame × OutputStream av → World → Type 0
  Converted ost w r w' =
      AudioReady av laws r.1
      × (r.1.next_pts ≡ ost.next_pts)
      × (r.1.enc ≡ ost.enc)
      × (laws.held_video w' ≡ laws.held_video w)
      × (laws.held_audio w' ≡ laws.held_audio w)

  abbrev pub Stops : Exn → World → Type 0
  Stops e w = (e ≡ exited) ⊎ (e ≡ aborted)

  convert_sound-Ready :
      (sound : Frame) (ost : OutputStream av) (w : World)
      → AudioReady av laws ost
      → Ensures (Converted ost w) Stops (convert_sound av sound ost w)
  unfolding convert_sound
  convert_sound-Ready sound ost w ok =
      let rate = ost.enc.sample_rate in
      let count = av.rescale_up (av.swr_delay ost.swr_ctx rate w + sound.nb_samples) rate rate in
      elim (Bool-cases (count == sound.nb_samples)) [
        | inr differs ↦ rw (differs, Ensures) (inr refl)
        | inl same ↦
            rw (same, ok.has_buffer)
              (elim (Bool-cases (is_negative (av.frame_make_writable ok.buffer w).0.0)) [
                | inl bad ↦ rw (bad, Ensures) (inl refl)
                | inr good ↦ rw good (
                    let f = (av.frame_make_writable ok.buffer w).0.1 in
                    let w1 = (av.frame_make_writable ok.buffer w).1 in
                    let kept = laws.writable_keeps ok.buffer w in
                    let kept' = laws.convert_keeps ost.swr_ctx f sound count sound.nb_samples w1 in
                    elim (Bool-cases (
                      is_negative
                        (av.swr_convert ost.swr_ctx f count sound sound.nb_samples w1).0.0)) [
                          | inl bad ↦ rw (bad, Ensures) (inl refl)
                          | inr fine ↦
                              rw (fine, Ensures)
                                (
                                  record {
                                    sound = ok.sound;
                                    has_sound = ok.has_sound;
                                    some_samples = ok.some_samples;
                                    room = ok.room;
                                    buffer =
                                        record (av.swr_convert ost.swr_ctx f count sound
                                          sound.nb_samples w1).0.1 {
                                            pts =
                                                av.rescale_q ost.samples_count (over 1 rate)
                                                  ost.enc.time_base;
                                          };
                                    has_buffer = refl;
                                    base_num = ok.base_num;
                                    base_den = ok.base_den;
                                  },
                                  refl,
                                  refl,
                                  kept'.0 ∙ kept.0,
                                  kept'.1 ∙ kept.1,
                                )
                        ])
              ])
      ]

  before_end :
      (ost : OutputStream av)
      → AudioReady av laws ost
      → goes_on av laws ost ≡ true
      → ost.next_pts < audio_end av laws ost
  before_end ost ok more = omega (arith, ltb→lt _ _ more, mul-le-mul_left ost.next_pts ok.base_num)

  -- The samples that are left to make, twice, with the frames that the encoder holds, and the last round.
  abbrev pub audio_left : OutputStream av → World → Bool → ℕ
  audio_left ost w finished =
      2 * (audio_end av laws ost - ost.next_pts) + laws.held_audio w + running finished

  -- What a round does to the stream.
  abbrev pub AudioStep : OutputStream av → World → Bool × OutputStream av → World → Type 0
  AudioStep ost w r w' =
      AudioReady av laws r.1
      × (audio_left r.1 w' r.0 < audio_left ost w false)
      × ((r.0 ≡ false) ⊎ (goes_on av laws r.1 ≡ false))
      × (r.1.enc ≡ ost.enc)
      × (laws.held_video w' ≡ laws.held_video w)

  audio_at_end :
      (ost : OutputStream av) (w : World)
      → AudioReady av laws ost
      → goes_on av laws ost ≡ false
      → Ensures (AudioStep ost w) Stops (
          (do
            r ← call (av.encode_audio ost.enc none)
            finished ← put_encoded av ost false r
            pure (finished, ost))
            w)
  audio_at_end ost w ok over =
      let r = av.encode_audio ost.enc none w in
      Ensures-bind (Put av laws false r.0.1 r.1) (λ e w'. e ≡ exited) _ _
        (put_encoded av ost false r.0) (λ finished. pure (finished, ost)) r.1
        (put_encoded-Put av laws ost false r.0.0 r.0.1 r.1)
        (λ finished w' (e, v, a). (
          ok,
          at_end finished w' (laws.audio.flushes ost.enc w) e a,
          inr over,
          refl,
          v ∙ laws.audio_keeps ost.enc none w,
        ))
        (λ e w' h. inl h)
    where
      at_end :
          (finished : Bool) (w' : World)
          → let r = av.encode_audio ost.enc none w in
            ((r.0.1 ≡ none) × (laws.held_audio r.1 ≤ laws.held_audio w))
              ⊎ (laws.held_audio r.1 < laws.held_audio w)
            → finished ≡ is_last false r.0.1
            → laws.held_audio w' ≡ laws.held_audio r.1
            → audio_left ost w' finished < audio_left ost w false
      at_end finished w' (inl (got, le)) e v = rw (e, got) (omega (arith, le, v))
      at_end finished w' (inr lt) e v = omega (arith, lt, v, running_le finished)

  audio_with :
      (sound : Frame) (ost o : OutputStream av) (w w1 : World)
      → ost.next_pts < audio_end av laws ost
      → ost.next_pts < o.next_pts
      → o.enc ≡ ost.enc
      → AudioReady av laws o
      → laws.held_video w1 ≡ laws.held_video w
      → laws.held_audio w1 ≡ laws.held_audio w
      → Ensures (AudioStep ost w) Stops (
          (do
            r ← call (av.encode_audio o.enc (some sound))
            finished ← put_encoded av o true r
            pure (finished, o))
            w1)
  audio_with sound ost o w w1 before next same ready v a =
      let r = av.encode_audio o.enc (some sound) w1 in
      Ensures-bind (Put av laws true r.0.1 r.1) (λ e w'. e ≡ exited) _ _ (put_encoded av o true r.0)
        (λ finished. pure (finished, o)) r.1 (put_encoded-Put av laws o true r.0.0 r.0.1 r.1)
        (λ finished w' (last, v', a').
          let alive = last ∙ is_last-frame r.0.1 in
          let end : audio_end av laws o ≡ audio_end av laws ost = rw same refl in
          (
            ready,
            rw alive (omega (arith, end, before, next, a, a', laws.audio.takes o.enc sound w1)),
            inl alive,
            same,
            v' ∙ laws.audio_keeps o.enc (some sound) w1 ∙ v,
          ))
        (λ e w' h. inl h)

  -- The round after `get_audio_frame`.
  abbrev audio_rest : Option Frame × OutputStream av → Run World (Bool × OutputStream av)
  audio_rest got = elim got.0 [
    | none ↦ do
      r ← call (av.encode_audio got.1.enc none)
      finished ← put_encoded av got.1 false r
      pure (finished, got.1)
    | some sound ↦ do
      out ← convert_sound av sound got.1
      r ← call (av.encode_audio out.1.enc (some out.0))
      finished ← put_encoded av out.1 true r
      pure (finished, out.1)
  ]

  audio_played :
      (ost o : OutputStream av) (ok : AudioReady av laws ost) (f : Frame) (g : Option Frame)
      (w w1 : World)
      → ost.next_pts < audio_end av laws ost
      → g ≡ some f
      → ost.next_pts < o.next_pts
      → o.enc ≡ ost.enc
      → AudioReady av laws o
      → w1 ≡ w
      → Ensures (AudioStep ost w) Stops (audio_rest (g, o) w1)
  audio_played ost o ok f none w w1 before e next same ready still = absurd (cc e)
  audio_played ost o ok f (some sound) w w1 before e next same ready still =
      Ensures-bind (Converted o w1) Stops _ _ (convert_sound av sound o)
        (λ out. do
          r ← call (av.encode_audio out.1.enc (some out.0))
          finished ← put_encoded av out.1 true r
          pure (finished, out.1))
        w1 (convert_sound-Ready sound o w1 ready)
        (λ out w2 (ready', pts, enc, v, a).
          audio_with out.0 ost out.1 w w2 before (omega (arith, pts, next)) (enc ∙ same) ready'
            (v ∙ ap laws.held_video still) (a ∙ ap laws.held_audio still))
        (λ e w2 h. h)

  -- `write_audio_frame` on a stream that is set up exits or fails its assertion, or gets nearer to the
  -- end of the stream and is finished only there.
  pub write_audio_frame-Steps :
      (ost : OutputStream av) (w : World)
      → AudioReady av laws ost
      → Ensures (AudioStep ost w) Stops (write_audio_frame av ost w)
  unfolding write_audio_frame
  write_audio_frame-Steps ost w ok = elim (Bool-cases (goes_on av laws ost)) [
    | inl more ↦
        Ensures-bind (Played av laws ost ok w) (λ e w'. ⊥) _ _ (get_audio_frame av ost) audio_rest w
          (get_audio_frame-Plays av laws ost w ok more)
          (λ got w1 (f, e, time, plays, next, some_samples, enc, ready, still).
            audio_played ost got.1 ok f got.0 w w1 (before_end ost ok more) e
              (omega (arith, next, some_samples)) enc ready still)
          (λ e w' h. absurd h)
    | inr over ↦
        Ensures-bind (λ got w'. (got ≡ (none, ost)) × (w' ≡ w)) (λ e w'. ⊥) _ _
          (get_audio_frame av ost) audio_rest w (get_audio_frame-End av laws ost w ok over)
          (λ got w1 (e, still).
            subst (λ g. Ensures (AudioStep ost w) Stops (audio_rest g w1)) (sym e)
              (subst (λ v. Ensures (AudioStep ost w) Stops (audio_rest (none, ost) v)) (sym still)
                (audio_at_end ost w ok over)))
          (λ e w' h. absurd h)
  ]
