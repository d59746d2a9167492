-- ===== src/Programs/Muxer.antt =====
-- src/muxer.cpp: writes ten seconds of synthetic sound and picture to a file.
pub mod Library
pub mod Interleaving
use socket_program.Base.{
  ℕ, zero, suc, ◌==◌, ℤ, pos, is_nonpos, is_negative, Bool, true, false, not, ◌&&◌, ◌||◌, Option,
  none, some, List, [], ◌∷◌, length, drop, Bytes, codes, is_prefix, if◌then◌else◌,
}
use socket_program.Base.{Run, ◌>>=◌, ◌>>◌, pure, undefined, diverged}
use socket_program.Inet.Os.{call, call_void}
use socket_program.Ffmpeg.Library.{Av, Codec}
use socket_program.Ffmpeg.State.{OutputStream}
use socket_program.Ffmpeg.Streams.{add_stream, open_audio, open_video, close_stream}
use socket_program.Ffmpeg.Frames.{write_audio_frame, write_video_frame}
use Library.{Container}

abbrev is_some : {A : Type 0} → Option A → Bool
is_some none = false
is_some (some a) = true

-- `!strcmp(a, b)`
abbrev same_text : Bytes → Bytes → Bool
same_text a b = length a == length b && is_prefix a b

-- The settings that the loop over the arguments makes, in order.
unfoldable pub options : List Bytes → List (Bytes × Bytes)
unfolding is_prefix
options (name ∷ value ∷ rest) =
    if same_text name (codes "-flags") || same_text name (codes "-fflags")
    then (drop 1 name, value) ∷ options rest
    else options rest
options _ = []

module _ (av : Av) where
  open av use {World}

  -- The variables of the loop of `main`: a stream is there if `have_video` or `have_audio` is set.
  pub record Encoding : Type 0 where
    pub video_st : Option (OutputStream av)
    pub audio_st : Option (OutputStream av)
    pub encode_video : Bool
    pub encode_audio : Bool

  -- `av_compare_ts(...) <= 0` on the two streams.
  abbrev pub is_video_behind : Option (OutputStream av) → Option (OutputStream av) → Bool
  is_video_behind (some v) (some a) =
      is_nonpos (av.compare_ts v.next_pts v.enc.time_base a.next_pts a.enc.time_base)
  is_video_behind _ _ = true

  -- The choice of the stream to encode.
  abbrev pub is_video_next : Encoding → Bool
  is_video_next e = e.encode_video && (not e.encode_audio || is_video_behind e.video_st e.audio_st)

  unfoldable pub step_video : Encoding → Run World Encoding
  step_video e = elim e.video_st [
    | none ↦ undefined
    | some ost ↦ do
      r ← write_video_frame av ost
      pure (record e { video_st = some r.1; encode_video = not r.0 })
  ]

  unfoldable pub step_audio : Encoding → Run World Encoding
  step_audio e = elim e.audio_st [
    | none ↦ undefined
    | some ost ↦ do
      r ← write_audio_frame av ost
      pure (record e { audio_st = some r.1; encode_audio = not r.0 })
  ]

  -- `while (encode_video || encode_audio)`
  unfoldable pub mux_loop : ℕ → Encoding → Run World Encoding
  unfolding step_video step_audio
  mux_loop zero e w = diverged
  mux_loop (suc fuel) e w = elim (e.encode_video || e.encode_audio) [
    | false ↦ pure e w
    | true ↦ (do e' ← if is_video_next e then step_video e else step_audio e; mux_loop fuel e') w
  ]

  -- A stream of the default codec of the format, if it has one.
  unfoldable pub add_default : ℕ → Run World (Option (OutputStream av × Codec))
  add_default codec =
      if codec == av.codec_none
      then pure none
      else (do made ← add_stream av codec; pure (some made))

  unfoldable pub open_with :
      (Codec → OutputStream av → List (Bytes × Bytes) → Run World (OutputStream av))
      → List (Bytes × Bytes)
      → Option (OutputStream av × Codec)
      → Run World (Option (OutputStream av))
  open_with open_stream opt none = pure none
  open_with open_stream opt (some (ost, codec)) = do
    opened ← open_stream codec ost opt
    pure (some opened)

  unfoldable pub close_with : Option (OutputStream av) → Run World (Unit {0})
  close_with none = pure tt
  close_with (some ost) = close_stream av ost

  module _ (file : Container av) where
    -- `main` from the header of the file on.
    unfoldable pub write_file : ℕ → List (Bytes × Bytes) → Encoding → Run World ℤ
    unfolding mux_loop close_with
    write_file fuel opt e = do
      header ← call (file.write_header opt)
      if is_negative header then pure (pos 1) else (do
        over ← mux_loop fuel e
        call_void file.write_trailer
        close_with over.video_st
        close_with over.audio_st
        no_file ← λ w. pure (file.has_no_file w) w
        if no_file then pure tt else call_void file.io_close
        call_void file.free_context
        pure (pos 0))

    -- `main` from the context of the file on.
    unfoldable pub fill_file : ℕ → Bytes → List (Bytes × Bytes) → Run World ℤ
    unfolding write_file add_default open_with
    fill_file fuel filename opt = do
      video_codec ← λ w. pure (file.video_codec w) w
      video ← add_default video_codec
      audio_codec ← λ w. pure (file.audio_codec w) w
      audio ← add_default audio_codec
      video_st ← open_with (open_video av) opt video
      audio_st ← open_with (open_audio av) opt audio
      call_void (file.dump_format filename)
      no_file ← λ w. pure (file.has_no_file w) w
      opened ← if no_file then pure (pos 0) else call (file.io_open filename)
      let e : Encoding = record {
        video_st = video_st;
        audio_st = audio_st;
        encode_video = is_some video_st;
        encode_audio = is_some audio_st;
      }
      if is_negative opened then pure (pos 1) else write_file fuel opt e

    -- `main` on `argv`
    unfoldable pub mux_main : ℕ → List Bytes → Run World ℤ
    unfolding fill_file options
    mux_main fuel argv = do
      call_void file.register_all
      elim argv [
        | _ ∷ filename ∷ rest ↦ do
          made ← call (file.alloc_output none filename)
          has_context ←
              if made then pure true else call (file.alloc_output (some (codes "mpeg")) filename)
          if has_context then fill_file fuel filename (options rest) else pure (pos 1)
        | _ ↦ pure (pos 1)
      ]
