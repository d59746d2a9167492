-- ===== src/Ffmpeg/Image/Filling.antt =====
-- `fill_yuv_image` against the picture that it should leave.
use socket_program.Base.{
  ◌==◌, if◌then◌else◌, ℕ, suc, ◌+◌, ◌*◌, ◌/◌, ◌%◌, ◌≤◌, ◌<◌, ◌≡◌, refl, ◌≢◌, inl, Option, some,
  arith,
}
use socket_program.Ffmpeg.Library.{Plane, Frame}
use socket_program.Ffmpeg.Loops.{for_up_lem}
use socket_program.Ffmpeg.Image.{◌>>=◌, put_pixel, luma_row, chroma_row, fill_yuv_image}
use socket_program.Ffmpeg.Image.Pixels.{Before, Drawn, Drawn-start, store-Drawn, Drawn-row}

-- A plane whose first w bytes of h rows are painted, with every other byte as it was.
abbrev pub Painted : Plane → ℕ → ℕ → ℕ → (ℕ → ℕ → ℕ) → Plane → Type 0
Painted old ls w h v new =
    (new.size ≡ old.size)
    × ((y x : ℕ) → y < h → x < w → new.at (y * ls + x) ≡ v y x)
    × ((k : ℕ) → ((y x : ℕ) → y < h → x < w → k ≢ y * ls + x) → new.at k ≡ old.at k)

pub Drawn-Painted :
    (old : Plane) (ls w h : ℕ) (v : ℕ → ℕ → ℕ) (new : Plane)
    → Drawn old ls w v h 0 new
    → Painted old ls w h v new
Drawn-Painted old ls w h v new d = (
  d.size,
  λ y x ly lx. d.inside y x lx (inl ly),
  λ k far. d.outside k (λ y x lx b. far y x (ends y x b) lx),
)
  where
    ends : (y x : ℕ) → Before h 0 y x → y < h
    ends y x b = ground arith

-- A plane of the frame has room for h rows of w bytes.
abbrev pub HasRoom : Frame → ℕ → ℕ → ℕ → Type 0
HasRoom f p w h = (w ≤ f.linesize p) × (h * f.linesize p ≤ (f.planes p).size)

module _ (orig : Frame) (i width height : ℕ) where
  abbrev luma : ℕ → ℕ → ℕ
  luma y x = (x + y + i * 3) % 256

  abbrev blue : ℕ → ℕ → ℕ
  blue y x = (128 + y + i * 2) % 256

  abbrev red : ℕ → ℕ → ℕ
  red y x = (64 + x + i * 5) % 256

  -- In the luma loops, and in the chroma loops.
  record Luma (y x : ℕ) (f : Frame) : Type 0 where
    lines : f.linesize ≡ orig.linesize
    first : Drawn (orig.planes 0) (orig.linesize 0) width luma y x (f.planes 0)
    second : f.planes 1 ≡ orig.planes 1
    third : f.planes 2 ≡ orig.planes 2

  record Chroma (y x : ℕ) (f : Frame) : Type 0 where
    lines : f.linesize ≡ orig.linesize
    first : Drawn (orig.planes 0) (orig.linesize 0) width luma height 0 (f.planes 0)
    second : Drawn (orig.planes 1) (orig.linesize 1) (width / 2) blue y x (f.planes 1)
    third : Drawn (orig.planes 2) (orig.linesize 2) (width / 2) red y x (f.planes 2)

  luma_row_lem :
      (y : ℕ) (f : Frame)
      → HasRoom orig 0 width height
      → y < height
      → Luma y 0 f
      → (f' : Frame) × (luma_row i width y f ≡ some f') × Luma (suc y) 0 f'
  unfolding luma_row
  luma_row_lem y f room row d =
      let (f', ran, d') =
        for_up_lem (Luma y) (λ x pict. put_pixel pict 0 y x (x + y + i * 3)) width 0 width f
          (omega arith) step d in
      (
        f',
        ran,
        record {
          lines = d'.lines;
          first = Drawn-row _ _ _ _ y _ d'.first;
          second = d'.second;
          third = d'.third;
        },
      )
    where
      step :
          (x : ℕ) (s : Frame)
          → x < width
          → Luma y x s
          → (s' : Frame) × (put_pixel s 0 y x (x + y + i * 3) ≡ some s') × Luma y (suc x) s'
      step x s lt e =
          let (p, ran, drawn) =
            store-Drawn (orig.planes 0) (orig.linesize 0) width luma y x height (s.planes 0) lt
              room.0 row room.1 e.first in
          rw (e.lines, ran)
            (
              record s { linesize = orig.linesize; planes = λ q. if q == 0 then p else s.planes q },
              refl,
              record { lines = refl; first = drawn; second = e.second; third = e.third },
            )

  chroma_row_lem :
      (y : ℕ) (f : Frame)
      → HasRoom orig 1 (width / 2) (height / 2)
      → HasRoom orig 2 (width / 2) (height / 2)
      → y < height / 2
      → Chroma y 0 f
      → (f' : Frame) × (chroma_row i width y f ≡ some f') × Chroma (suc y) 0 f'
  unfolding chroma_row
  chroma_row_lem y f room_1 room_2 row d =
      let (f', ran, d') =
        for_up_lem (Chroma y) body (width / 2) 0 (width / 2) f (omega arith) step d in
      (
        f',
        ran,
        record {
          lines = d'.lines;
          first = d'.first;
          second = Drawn-row _ _ _ _ y _ d'.second;
          third = Drawn-row _ _ _ _ y _ d'.third;
        },
      )
    where
      body : ℕ → Frame → Option Frame
      body x pict = do
        b ← put_pixel pict 1 y x (128 + y + i * 2)
        put_pixel b 2 y x (64 + x + i * 5)

      step :
          (x : ℕ) (s : Frame)
          → x < width / 2
          → Chroma y x s
          → (s' : Frame) × (body x s ≡ some s') × Chroma y (suc x) s'
      step x s lt e =
          let (p, ran, drawn) =
            store-Drawn (orig.planes 1) (orig.linesize 1) (width / 2) blue y x (height / 2)
              (s.planes 1) lt room_1.0 row room_1.1 e.second in
          let (q, ran', drawn') =
            store-Drawn (orig.planes 2) (orig.linesize 2) (width / 2) red y x (height / 2)
              (s.planes 2) lt room_2.0 row room_2.1 e.third in
          rw (e.lines, ran, ran')
            (
              record s {
                linesize = orig.linesize;
                planes = λ k. if k == 2 then q else if k == 1 then p else s.planes k;
              },
              refl,
              record { lines = refl; first = e.first; second = drawn; third = drawn' },
            )

-- `fill_yuv_image` on a frame with room for the three planes of a picture of the given size stores no
-- byte outside them. Every pixel gets its value, and no other byte of the planes changes.
pub fill_yuv_image-Painted :
    (pict : Frame) (i width height : ℕ)
    → HasRoom pict 0 width height
    → HasRoom pict 1 (width / 2) (height / 2)
    → HasRoom pict 2 (width / 2) (height / 2)
    → (new : Frame) × (fill_yuv_image pict i width height ≡ some new)
      × (new.linesize ≡ pict.linesize)
      × Painted
          (pict.planes 0)
          (pict.linesize 0)
          width
          height
          (λ y x. (x + y + i * 3) % 256)
          (new.planes 0)
      × Painted
          (pict.planes 1)
          (pict.linesize 1)
          (width / 2)
          (height / 2)
          (λ y x. (128 + y + i * 2) % 256)
          (new.planes 1)
      × Painted
          (pict.planes 2)
          (pict.linesize 2)
          (width / 2)
          (height / 2)
          (λ y x. (64 + x + i * 5) % 256)
          (new.planes 2)
unfolding fill_yuv_image
fill_yuv_image-Painted pict i width height room_0 room_1 room_2 =
    let (mid, ran, l) =
      for_up_lem (λ y f. Luma pict i width height y 0 f) (luma_row i width) height 0 height pict
        (omega arith) (λ y f row l. luma_row_lem pict i width height y f room_0 row l)
        (record { lines = refl; first = Drawn-start _ _ _ _; second = refl; third = refl }) in
    let (new, ran', c) =
      for_up_lem (λ y f. Chroma pict i width height y 0 f) (chroma_row i width) (height / 2) 0
        (height / 2) mid (omega arith)
        (λ y f row c. chroma_row_lem pict i width height y f room_1 room_2 row c)
        (record {
          lines = l.lines;
          first = l.first;
          second = rw l.second (Drawn-start _ _ _ _);
          third = rw l.third (Drawn-start _ _ _ _);
        }) in
    rw (ran, ran')
      (
        new,
        refl,
        c.lines,
        Drawn-Painted _ _ _ _ _ _ c.first,
        Drawn-Painted _ _ _ _ _ _ c.second,
        Drawn-Painted _ _ _ _ _ _ c.third,
      )
