-- ===== src/Ffmpeg/Loops.antt =====
-- The counting loops of libs/Ffmpeg/muxer.cpp, and the stores into its buffers.
use socket_program.Base.{
  ℕ, zero, suc, ◌+◌, ◌<◌, ◌≡◌, refl, Option, none, some, ltb, ◌==◌, if◌then◌else◌, arith,
}
use socket_program.Ffmpeg.Library.{Plane}

-- `for (k = i; k < i + n; k++)`: `none` is a body that leaves a buffer.
unfoldable pub for_up : {S : Type 0} → ℕ → ℕ → (ℕ → S → Option S) → S → Option S
for_up zero i body s = some s
for_up (suc n) i body s = elim (body i s) [ none ↦ none | some s' ↦ for_up n (suc i) body s' ]

-- `data[i] = v`
unfoldable pub store : ℕ → ℕ → Plane → Option Plane
store i v p =
    if ltb i p.size then some (record p { at = λ k. if k == i then v else p.at k }) else none

-- The rule of the loop: a body that goes through and keeps an invariant.
module _ {S : Type 0} (P : ℕ → S → Type 0) (body : ℕ → S → Option S) where
  abbrev pub Goes : ℕ → S → Type 0
  Goes j s = (s' : S) × (body j s ≡ some s') × P (suc j) s'

  pub for_up_lem :
      (n i j : ℕ) (s : S)
      → i + n ≡ j
      → ((k : ℕ) (s' : S) → k < j → P k s' → Goes k s')
      → P i s
      → (s' : S) × (for_up n i body s ≡ some s') × P j s'
  unfolding for_up
  for_up_lem zero i j s e keep h = let e' : i ≡ j = omega arith in rw (← e') (s, refl, h)
  for_up_lem (suc n) i j s e keep h =
      let (s', ran, h') = keep i s (omega arith) h in
      rw (ran, for_up) (for_up_lem n (suc i) j s' (omega arith) keep h')
