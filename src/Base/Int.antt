-- ===== src/Base/Int.antt =====
-- C's signed integers, the widths that the program narrows them to, and `size_t` arithmetic.
use Prim.Native.Nat.{ℕ, suc, ◌+◌, ◌-◌, ◌*◌, ◌%◌, ◌<◌, ◌≤◌}
use mathlib.Core.Path.{◌≡◌}
use mathlib.Core.Bool.{Bool, true, false}
use native.Mathlib.Omega.{arith}
use socket_program.Base.Tests.{ltb, leb, ◌==◌, if◌then◌else◌}

-- `negsuc n` is -(n + 1).
pub data ℤ : Type 0 where
  pos : ℕ → ℤ
  negsuc : ℕ → ℤ

abbrev pub minus_one : ℤ
minus_one = negsuc 0

-- `a == b`, `a <= 0` and `a < 0` on C integers.
infix 50 ◌==ℤ◌
abbrev pub ◌==ℤ◌ : ℤ → ℤ → Bool
pos a ==ℤ pos b = a == b
pos a ==ℤ negsuc b = false
negsuc a ==ℤ pos b = false
negsuc a ==ℤ negsuc b = a == b

abbrev pub is_nonpos : ℤ → Bool
is_nonpos (pos n) = n == 0
is_nonpos (negsuc n) = true

abbrev pub is_negative : ℤ → Bool
is_negative (pos n) = false
is_negative (negsuc n) = true

-- The pattern of an integer in a word below `m`.
abbrev pub word : ℕ → ℤ → ℕ
word m (pos n) = n % m
word m (negsuc n) = m - 1 - n % m

abbrev pub from_word : ℕ → ℤ
from_word w = if ltb w 0x8000_0000 then pos w else negsuc (0xffff_ffff - w)

-- Conversion to `int`, which keeps the low 32 bits.
abbrev pub to_int : ℤ → ℤ
to_int z = from_word (word 0x1_0000_0000 z)

abbrev pub size_mod : ℕ
size_mod = 0x1_0000_0000_0000_0000

-- `a += z` for a `size_t` a.
abbrev pub add_size : ℕ → ℤ → ℕ
add_size a z = (a + word size_mod z) % size_mod

pub to_int_small : (n : ℕ) → n < 0x8000_0000 → to_int (pos n) ≡ pos n
to_int_small n h = ground arith

pub add_size_small : (a n : ℕ) → a + n < size_mod → add_size a (pos n) ≡ a + n
add_size_small a n h = ground arith

pub not-is_nonpos : (n : ℕ) → 0 < n → is_nonpos (pos n) ≡ false
not-is_nonpos n h = ground arith

pub word_small : (m n : ℕ) → n < m → word m (pos n) ≡ n
word_small m n h = grind arith

pub not-zero : (n : ℕ) → 0 < n → (pos n ==ℤ pos 0) ≡ false
not-zero n h = ground arith

abbrev pub pos_part : ℤ → ℕ
pos_part (pos n) = n
pos_part (negsuc n) = 0

abbrev pub neg_part : ℤ → ℕ
neg_part (pos n) = 0
neg_part (negsuc n) = suc n

-- a - b, as an integer.
abbrev pub sub_ℕ : ℕ → ℕ → ℤ
sub_ℕ a b = if leb b a then pos (a - b) else negsuc (b - a - 1)

infixl 65 ◌+ℤ◌
infixl 70 ◌*ℤ◌
unfoldable pub ◌+ℤ◌ : ℤ → ℤ → ℤ
a +ℤ b = sub_ℕ (pos_part a + pos_part b) (neg_part a + neg_part b)

unfoldable pub ◌*ℤ◌ : ℤ → ℤ → ℤ
a *ℤ b =
    sub_ℕ (pos_part a * pos_part b + neg_part a * neg_part b)
      (pos_part a * neg_part b + neg_part a * pos_part b)

-- a - b for C integers that stay in their range.
infixl 65 ◌-ℤ◌
unfoldable pub ◌-ℤ◌ : ℤ → ℤ → ℤ
a -ℤ b = sub_ℕ (pos_part a + neg_part b) (neg_part a + pos_part b)

pub add_pos : (a b : ℕ) → pos a +ℤ pos b ≡ pos (a + b)
unfolding ◌+ℤ◌
add_pos a b = ground arith

pub sub_pos : (a b : ℕ) → b ≤ a → pos a -ℤ pos b ≡ pos (a - b)
unfolding ◌-ℤ◌
sub_pos a b h = ground arith

pub mul_pos : (a b : ℕ) → pos a *ℤ pos b ≡ pos (a * b)
unfolding ◌*ℤ◌
mul_pos a b = ground arith

-- Whether an `int` holds the number.
abbrev pub fits_int : ℤ → Bool
fits_int (pos n) = ltb n 0x8000_0000
fits_int (negsuc n) = ltb n 0x8000_0000

-- What `%d` stores on a 64-bit machine: the number as a saturated `long`, narrowed to `int`.
abbrev pub clamp_long : ℤ → ℤ
clamp_long (pos n) = if ltb n 0x8000_0000_0000_0000 then pos n else pos 0x7fff_ffff_ffff_ffff
clamp_long (negsuc n) =
    if ltb n 0x8000_0000_0000_0000 then negsuc n else negsuc 0x7fff_ffff_ffff_ffff

-- `a - b` for `size_t`, of numbers below 2 ^ 64.
abbrev pub sub_size : ℕ → ℕ → ℕ
sub_size a b = (a + size_mod - b) % size_mod
