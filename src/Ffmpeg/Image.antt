-- ===== src/Ffmpeg/Image.antt =====
-- `fill_yuv_image` of libs/Ffmpeg/muxer.cpp.

pub mod Pixels
pub mod Filling
use socket_program.Base.{ℕ, ◌+◌, ◌*◌, ◌/◌, ◌%◌, Option, none, some, ◌==◌, if◌then◌else◌}
use socket_program.Ffmpeg.Library.{Frame}
use socket_program.Ffmpeg.Loops.{for_up, store}

infixl 5 ◌>>=◌
abbrev ◌>>=◌ : {A B : Type 0} → Option A → (A → Option B) → Option B
none >>= f = none
some a >>= f = f a

-- A byte of a plane of the picture. The sums are far below 2 ^ 31: the index of the image is 250 at most.
abbrev put_pixel : Frame → ℕ → ℕ → ℕ → ℕ → Option Frame
put_pixel pict p y x v = do
  plane ← store (y * pict.linesize p + x) (v % 256) (pict.planes p)
  some (record pict { planes = λ q. if q == p then plane else pict.planes q })

unfoldable pub luma_row : ℕ → ℕ → ℕ → Frame → Option Frame
unfolding for_up store
luma_row i width y = for_up width 0 (λ x pict. put_pixel pict 0 y x (x + y + i * 3))

unfoldable pub chroma_row : ℕ → ℕ → ℕ → Frame → Option Frame
unfolding for_up store
chroma_row i width y = for_up (width / 2) 0 (λ x pict. do
  blue ← put_pixel pict 1 y x (128 + y + i * 2)
  put_pixel blue 2 y x (64 + x + i * 5))

unfoldable pub fill_yuv_image : Frame → ℕ → ℕ → ℕ → Option Frame
unfolding luma_row chroma_row
fill_yuv_image pict i width height = do
  luma ← for_up height 0 (luma_row i width) pict
  for_up (height / 2) 0 (chroma_row i width) luma
