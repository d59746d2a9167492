-- ===== src/Ffmpeg/Image/Pixels.antt =====
-- Pixels of a plane painted row by row.
use native.Mathlib.Nat.{mul-le-mul_right}
use socket_program.Base.{
  ℕ, true, false, suc, ◌+◌, ◌*◌, ◌≤◌, ◌<◌, ◌≡◌, refl, ◌≢◌, ◌⊎◌, inl, inr, some, ◌==◌, lt→ltb,
  if◌then◌else◌, arith,
}
use socket_program.Ffmpeg.Library.{Plane}
use socket_program.Ffmpeg.Loops.{store}

-- A pixel that comes before the one in row y and column x.
abbrev pub Before : ℕ → ℕ → ℕ → ℕ → Type 0
Before y x y' x' = (y' < y) ⊎ ((y' ≡ y) × (x' < x))

==_self : (a : ℕ) → (a == a) ≡ true
==_self a = ground arith

==_ne : (a b : ℕ) → a ≢ b → (a == b) ≡ false
==_ne a b h = ground arith

-- A pixel before the next one is before this one, or this one.
Before-step : (y x y' x' : ℕ) → Before y (suc x) y' x' → Before y x y' x' ⊎ ((y' ≡ y) × (x' ≡ x))
Before-step y x y' x' b = ground arith

Before-widen : (y x y' x' : ℕ) → Before y x y' x' → Before y (suc x) y' x'
Before-widen y x y' x' b = ground arith

Before-row : (w y y' x' : ℕ) → x' < w → Before (suc y) 0 y' x' → Before y w y' x'
Before-row w y y' x' lt b = ground arith

Before-end : (w y y' x' : ℕ) → Before y w y' x' → Before (suc y) 0 y' x'
Before-end w y y' x' b = ground arith

-- Rows of w pixels, `ls` bytes apart.
module _ (old : Plane) (ls w : ℕ) (v : ℕ → ℕ → ℕ) where
  -- The pixels before row y and column x have their values, and no other byte has changed.
  pub record Drawn (y x : ℕ) (new : Plane) : Type 0 where
    pub size : new.size ≡ old.size
    pub inside : (y' x' : ℕ) → x' < w → Before y x y' x' → new.at (y' * ls + x') ≡ v y' x'
    pub outside :
        (k : ℕ) → ((y' x' : ℕ) → x' < w → Before y x y' x' → k ≢ y' * ls + x') → new.at k ≡ old.at k

  pub Drawn-start : Drawn 0 0 old
  Drawn-start = record {
    size = refl;
    inside = λ y' x' lt b. absurd (nothing y' x' b);
    outside = λ k h. refl;
  }
    where
      nothing : (y' x' : ℕ) → ¬ Before 0 0 y' x'
      nothing y' x' (inl h) = omega arith
      nothing y' x' (inr h) = omega arith

  row_le : (y' y : ℕ) → y' < y → y' * ls + ls ≤ y * ls
  row_le y' y h = omega (arith, mul-le-mul_right ls h)

  -- Different pixels are different bytes.
  apart : (y x y' x' : ℕ) → w ≤ ls → x' < w → Before y x y' x' → y' * ls + x' ≢ y * ls + x
  apart y x y' x' wide lt (inl h) e = omega (arith, row_le y' y h)
  apart y x y' x' wide lt (inr (e', h)) e = let same : y' * ls ≡ y * ls = rw e' refl in omega arith

  -- The value of one more pixel.
  pub store-Drawn :
      (y x h : ℕ) (p : Plane)
      → x < w
      → w ≤ ls
      → y < h
      → h * ls ≤ old.size
      → Drawn y x p
      → (p' : Plane) × (store (y * ls + x) (v y x) p ≡ some p') × Drawn y (suc x) p'
  unfolding store
  store-Drawn y x h p lt wide row room d =
      rw (lt→ltb (y * ls + x) p.size (omega (arith, row_le y h row, d.size))) (
        record p { at = λ k. if k == y * ls + x then v y x else p.at k },
        refl,
        record {
          size = d.size;
          inside = λ y' x' lt' b. elim (Before-step y x y' x' b) [
            | inl earlier ↦
                rw (==_ne _ _ (apart y x y' x' wide lt' earlier)) (d.inside y' x' lt' earlier)
            | inr (ey, ex) ↦ rw (ey, ex, ==_self) refl
          ];
          outside = λ k far.
              rw (==_ne k _ (far y x lt (inr (refl, omega arith))))
                (d.outside k (λ y' x' lt' b. far y' x' lt' (Before-widen y x y' x' b)));
        },
      )

  -- A row is followed by the next one.
  pub Drawn-row : (y : ℕ) (p : Plane) → Drawn y w p → Drawn (suc y) 0 p
  Drawn-row y p d = record {
    size = d.size;
    inside = λ y' x' lt b. d.inside y' x' lt (Before-row w y y' x' lt b);
    outside = λ k far. d.outside k (λ y' x' lt b. far y' x' lt (Before-end w y y' x' b));
  }
