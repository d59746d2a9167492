-- ===== src/Ffmpeg/Frames/Audio.antt =====
-- The sounds of libs/Ffmpeg/muxer.cpp.
pub mod Steps
use socket_program.Base.{
  ◌%◌, ℕ, zero, suc, ◌+◌, ◌-◌, ◌*◌, ◌/◌, ◌≤◌, ◌<◌, ltb, ltb→lt, not-ltb→le, ◌==◌, ◌≡◌, refl, sym,
  ap, ◌∙◌, ◌⊎◌, inl, inr, Bool, true, false, not, Bool-cases, Option, none, some, is_negative,
  arith, ℤ, lt→ltb,
}
use socket_program.Base.{
  Exn, exited, aborted, ◌>>◌, subst, Ensures, Ensures-bind, Run, ◌>>=◌, pure, throw, if◌then◌else◌,
}
use socket_program.Inet.Os.{call}
use socket_program.Ffmpeg.Library.{Av, Frame, Packet}
use socket_program.Ffmpeg.State.{OutputStream, over}
use socket_program.Ffmpeg.Image.Filling.{Painted, fill_yuv_image-Painted}
use socket_program.Ffmpeg.Frames.{
  is_over, draw, get_video_frame, put_encoded, write_frame, write_video_frame,
}
use socket_program.Ffmpeg.Frames.Laws.{HoldsPicture, Codecs}
use native.Mathlib.Nat.{mul-le-mul_left}
use socket_program.Ffmpeg.Frames.{or_fault, get_audio_frame, convert_sound, write_audio_frame}
use socket_program.Ffmpeg.Frames.Rounds.{
  is_last, is_last-frame, running, running_le, Put, put_encoded-Put,
}
use socket_program.Ffmpeg.Frames.Sound.{sample, sound-Painted}

-- What follows a pointer that is not null.
or_fault_lem :
    {S A B : Type 0} (P : B → S → Type 0) (Q : Exn → S → Type 0) (o : Option A) (k : A → Run S B)
    (s : S) (a : A)
    → o ≡ some a
    → ((a' : A) → Ensures P Q (k a' s))
    → Ensures P Q ((or_fault o >>= k) s)
or_fault_lem P Q none k s a e h = absurd (cc e)
or_fault_lem P Q (some a') k s a e h = h a'

module _ (av : Av) (laws : Codecs av) where
  open av use {World}

  -- A stream that `add_stream` and `open_audio` have set up, with a time base that is not 0 and frames
  -- that are not empty.
  pub record AudioReady (ost : OutputStream av) : Type 0 where
    pub sound : Frame
    pub has_sound : ost.tmp_frame ≡ some sound
    pub some_samples : 0 < sound.nb_samples
    pub room : sound.nb_samples * ost.enc.channels ≤ (sound.planes 0).size
    pub buffer : Frame
    pub has_buffer : ost.frame ≡ some buffer
    pub base_num : 0 < ost.enc.time_base.num
    pub base_den : 0 < ost.enc.time_base.den

  -- The end of the stream: 10 seconds.
  abbrev pub audio_end : OutputStream av → ℕ
  audio_end ost = 10 * ost.enc.time_base.den

  abbrev pub goes_on : OutputStream av → Bool
  goes_on ost = ltb (ost.next_pts * ost.enc.time_base.num * 1) (10 * 1 * ost.enc.time_base.den)

  audio_over :
      (ost : OutputStream av)
      → AudioReady ost
      → is_over av ost.next_pts ost.enc.time_base ≡ not (goes_on ost)
  unfolding is_over
  audio_over ost ok =
      rw (laws.compare_lem ost.next_pts 10 ost.enc.time_base (over 1 1) ok.base_den (omega arith))
        refl

  -- What `get_audio_frame` gives before the end of the stream.
  abbrev pub Played :
      (ost : OutputStream av)
      → AudioReady ost
      → World
      → Option Frame × OutputStream av
      → World
      → Type 0
  Played ost ok w r w' =
      (f : Frame) × (r.0 ≡ some f)
      × (f.pts ≡ ost.next_pts)
      × Painted (ok.sound.planes 0) ost.enc.channels ost.enc.channels f.nb_samples
          (sample av ost.t ost.tincr ost.tincr2) (f.planes 0)
      × (r.1.next_pts ≡ ost.next_pts + f.nb_samples)
      × (0 < f.nb_samples)
      × (r.1.enc ≡ ost.enc)
      × AudioReady r.1
      × (w' ≡ w)

  -- `get_audio_frame` on a stream that is set up and has not reached its end gives the next sound, with its
  -- place as its time and every sample in all channels, and leaves the stream set up for the one after it.
  pub get_audio_frame-Plays :
      (ost : OutputStream av) (w : World)
      → (ok : AudioReady ost) → goes_on ost ≡ true
      → Ensures (Played ost ok w) (λ e w'. ⊥) (get_audio_frame av ost w)
  unfolding get_audio_frame
  get_audio_frame-Plays ost w ok more =
      let (made, ran, painted) =
        sound-Painted av ost.t ost.tincr ost.tincr2 (ok.sound.planes 0) ost.enc.channels
          ok.sound.nb_samples ok.room in
      rw (ok.has_sound, audio_over ost ok, more, ran)
        (
          record ok.sound {
            planes = λ p. if p == 0 then made.plane else ok.sound.planes p;
            pts = ost.next_pts;
          },
          refl,
          refl,
          painted,
          refl,
          ok.some_samples,
          refl,
          record {
            sound = record ok.sound {
              planes = λ p. if p == 0 then made.plane else ok.sound.planes p;
              pts = ost.next_pts;
            };
            has_sound = refl;
            some_samples = ok.some_samples;
            room = rw painted.0 ok.room;
            buffer = ok.buffer;
            has_buffer = ok.has_buffer;
            base_num = ok.base_num;
            base_den = ok.base_den;
          },
          refl,
        )

  -- At the end of the stream there is no frame.
  pub get_audio_frame-End :
      (ost : OutputStream av) (w : World)
      → AudioReady ost
      → goes_on ost ≡ false
      → Ensures (λ got w'. (got ≡ (none, ost)) × (w' ≡ w)) (λ e w'. ⊥) (get_audio_frame av ost w)
  unfolding get_audio_frame
  get_audio_frame-End ost w ok over =
      or_fault_lem _ _ ost.tmp_frame _ w ok.sound ok.has_sound
        (λ f. rw (audio_over ost ok, over) (refl, refl))
