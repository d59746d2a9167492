-- ===== src/Ffmpeg/Streams/Choice.antt =====
-- What `add_stream` of libs/Ffmpeg/muxer.cpp chooses.
use socket_program.Base.{Option-cases}
use socket_program.Base.{
  ℕ, ◌==◌, ◌≡◌, refl, inl, inr, Bool, true, false, ◌||◌, Bool-cases, Option, none, some, List, [],
  ◌∷◌, if◌then◌else◌,
}
use socket_program.Base.{exited, Ensures}
use socket_program.Ffmpeg.Library.{Av, MediaType, audio, video, other, Codec, CodecContext, Stream}
use socket_program.Ffmpeg.State.{OutputStream, new_output, over}
use socket_program.Ffmpeg.Streams.{
  first, scan_list, choose, or_exit, audio_context, configure, add_stream,
}

-- Whether a list that ends at a 0 has the number.
abbrev pub is_listed : ℕ → List ℕ → Bool
is_listed n [] = false
is_listed n (x ∷ xs) = if x == 0 then false else x == n || is_listed n xs

-- The number that is wanted, if there is no list or the list has it, and else the first of the list.
abbrev pub preferred : ℕ → Option (List ℕ) → ℕ
preferred wanted none = wanted
preferred wanted (some xs) = if is_listed wanted xs then wanted else first xs

scan_list-listed :
    (wanted result : ℕ) (xs : List ℕ)
    → scan_list wanted result xs ≡ (if is_listed wanted xs then wanted else result)
unfolding scan_list
scan_list-listed wanted result [] = refl
scan_list-listed wanted result (x ∷ xs) = elim (Bool-cases (x == 0)) [
  | inl e ↦ rw e refl
  | inr e ↦ rw e (elim (Bool-cases (x == wanted)) [
    | inl same ↦ rw (same, scan_list-listed wanted wanted xs) (both (is_listed wanted xs))
    | inr differs ↦ rw (differs, scan_list-listed wanted result xs) refl
  ])
]
  where
    both : (b : Bool) → (if b then wanted else wanted) ≡ wanted
    both true = refl
    both false = refl

choose-preferred :
    (wanted : ℕ) (list : Option (List ℕ)) → choose wanted list ≡ preferred wanted list
unfolding choose
choose-preferred wanted none = refl
choose-preferred wanted (some xs) = scan_list-listed wanted (first xs) xs

module _ (av : Av) where
  open av use {World}

  -- A stream of sound.
  abbrev pub Sounds : Codec → OutputStream av → Type 0
  Sounds codec ost =
      (ost.enc.sample_rate ≡ preferred 44100 codec.supported_samplerates)
      × (ost.enc.channel_layout ≡ preferred av.layout_stereo codec.channel_layouts)
      × (ost.enc.channels ≡ av.nb_channels ost.enc.channel_layout)
      × (ost.st.time_base ≡ over 1 ost.enc.sample_rate)
      × (ost.next_pts ≡ 0)

  -- The flag for separate headers does not matter for these.
  abbrev flagged : Bool → CodecContext → CodecContext
  flagged separate c = if separate then record c { has_global_header = true } else c

  configure-Sounds :
      (kind : MediaType) (codec_id : ℕ) (codec : Codec) (st : Stream) (c : CodecContext) (b : Bool)
      → kind ≡ audio
      → let set = configure av kind codec_id codec st c in
        Sounds codec (new_output av set.0 (flagged b set.1))
  unfolding configure audio_context
  configure-Sounds audio codec_id codec st c true e = (
    choose-preferred 44100 codec.supported_samplerates,
    choose-preferred av.layout_stereo codec.channel_layouts,
    refl,
    refl,
    refl,
  )
  configure-Sounds audio codec_id codec st c false e = (
    choose-preferred 44100 codec.supported_samplerates,
    choose-preferred av.layout_stereo codec.channel_layouts,
    refl,
    refl,
    refl,
  )
  configure-Sounds video codec_id codec st c b e = absurd (cc e)
  configure-Sounds other codec_id codec st c b e = absurd (cc e)

  -- The stream, and the codec that the program goes on with.
  abbrev pub SoundsWith : Codec → OutputStream av × Codec → World → Type 0
  SoundsWith codec r w = (r.1 ≡ codec) × Sounds codec r.0

  -- `add_stream` for an encoder of sound exits or makes a stream with the rate 44100 and the layout
  -- for stereo, or where the encoder has a list without them, with the first of the list; with as many
  -- channels as the layout has, and a time base of one sample.
  pub add_stream-Sounds :
      (codec_id : ℕ) (codec : Codec) (w : World)
      → (av.find_encoder codec_id w).0 ≡ some codec
      → codec.type ≡ audio
      → Ensures (SoundsWith codec) (λ e w'. e ≡ exited) (add_stream av codec_id w)
  unfolding add_stream or_exit
  add_stream-Sounds codec_id codec w found kind =
      rw (found, or_exit)
        (elim (Option-cases (av.new_stream (av.find_encoder codec_id w).1).0) [
          | inl e ↦ rw (e, Ensures) refl
          | inr (st, e) ↦
              rw (e, or_exit)
                (elim (Option-cases
                  (av.alloc_context codec (av.new_stream (av.find_encoder codec_id w).1).1).0) [
                    | inl e' ↦ rw (e', Ensures) refl
                    | inr (c, e') ↦
                        rw (e', Ensures)
                          (refl, configure-Sounds codec.type codec_id codec _ c _ kind)
                  ])
        ])
