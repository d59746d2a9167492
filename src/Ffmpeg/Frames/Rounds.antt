-- ===== src/Ffmpeg/Frames/Rounds.antt =====
-- The end of a round of `write_audio_frame` or `write_video_frame`.
use socket_program.Base.{
  ℕ, ◌≤◌, ◌≡◌, refl, inl, inr, Bool, true, false, not, Bool-cases, Option, none, some, is_negative,
  arith, ℤ,
}
use socket_program.Base.{exited, Ensures, ◌>>=◌, pure, throw, if◌then◌else◌}
use socket_program.Inet.Os.{call}
use socket_program.Ffmpeg.Library.{Av, Packet}
use socket_program.Ffmpeg.State.{OutputStream}
use socket_program.Ffmpeg.Frames.{put_encoded, write_frame}
use socket_program.Ffmpeg.Frames.Laws.{Codecs}

-- A round is the last one when there was no frame for the encoder and no packet from it.
abbrev pub is_last : Bool → Option Packet → Bool
is_last has_frame none = not has_frame
is_last has_frame (some p) = false

pub is_last-frame : (p : Option Packet) → is_last true p ≡ false
is_last-frame none = refl
is_last-frame (some p) = refl

abbrev pub running : Bool → ℕ
running finished = if finished then 0 else 1

pub running_le : (b : Bool) → running b ≤ 1
running_le true = omega arith
running_le false = omega arith

module _ (av : Av) (laws : Codecs av) where
  open av use {World}

  abbrev pub Put : Bool → Option Packet → World → Bool → World → Type 0
  Put has_frame packet w finished w' =
      (finished ≡ is_last has_frame packet)
      × (laws.held_video w' ≡ laws.held_video w)
      × (laws.held_audio w' ≡ laws.held_audio w)

  pub put_encoded-Put :
      (ost : OutputStream av) (has_frame : Bool) (ret : ℤ) (packet : Option Packet) (w : World)
      → Ensures
          (Put has_frame packet w)
          (λ e w'. e ≡ exited)
          (put_encoded av ost has_frame (ret, packet) w)
  unfolding put_encoded write_frame
  put_encoded-Put ost has_frame ret none w = elim (Bool-cases (is_negative ret)) [
    | inl bad ↦ rw (bad, Ensures) refl
    | inr good ↦ rw (good, Ensures) (refl, refl, refl)
  ]
  put_encoded-Put ost has_frame ret (some p) w = elim (Bool-cases (is_negative ret)) [
    | inl bad ↦ rw (bad, Ensures) refl
    | inr good ↦ rw good (
        written (record (av.packet_rescale p ost.enc.time_base ost.st.time_base) {
          stream_index = ost.st.index;
        }))
  ]
    where
      written :
          (q : Packet)
          → Ensures
              (Put has_frame (some p) w)
              (λ e w'. e ≡ exited)
              ((do
                ret ← call (av.interleaved_write q)
                if is_negative ret then throw exited else pure false)
                w)
      written q = elim (Bool-cases (is_negative (av.interleaved_write q w).0)) [
        | inl bad ↦ rw (bad, Ensures) refl
        | inr good ↦ rw (good, Ensures) (let same = laws.write_keeps q w in (refl, same.0, same.1))
      ]
