-- ===== src/Base/Decimal.antt =====
-- The decimal digits of a number, printed by `std::to_string` and read by `%d`.
use Prim.Native.Nat.{ℕ, zero, suc, ◌+◌, ◌-◌, ◌*◌, ◌/◌, ◌%◌, ◌<◌}
use mathlib.Core.Path.{◌≡◌, refl, sym, ap, ◌∙◌}
use mathlib.Core.Logic.{inl, inr}
use mathlib.Core.Bool.{Bool, true, false, not}
use mathlib.Core.Option.{some}
use mathlib.Core.List.{[], ◌∷◌, ◌++◌}
use native.Mathlib.Omega.{arith}
use socket_program.Base.Tests.{ltb, ◌==◌, Bool-cases, ltb→lt, not-ltb→le, not-true}
use socket_program.Base.Int.{pos, to_int_small}
use socket_program.Base.Text.{
  Bytes, digits_onto, to_string, is_digit, is_space, scan_digits, scan_natural, scan_sign, scan_int,
  c_str, skip_spaces, stored, unsigned,
}

-- No digit comes next.
abbrev pub ends : Bytes → Bool
ends [] = true
ends (c ∷ s) = not (is_digit c)

scan_digits-ends : (n : ℕ) (s : Bytes) → ends s ≡ true → scan_digits n s ≡ (n, s)
unfolding scan_digits
scan_digits-ends n [] h = refl
scan_digits-ends n (c ∷ s) h = rw (not-true (is_digit c) h) refl

scan_digits-digit :
    (n d : ℕ) (s : Bytes) → d < 10 → scan_digits n ((48 + d) ∷ s) ≡ scan_digits (n * 10 + d) s
unfolding scan_digits
scan_digits-digit n d s small =
    let e : 48 + d - 48 ≡ d = omega arith in
    let digit : is_digit (48 + d) ≡ true = ground arith in rw (digit, e) refl

-- The digits are read as the number, whatever comes behind them.
scan_digits-digits_onto :
    (fuel n : ℕ) (rest : Bytes)
    → n < fuel
    → scan_digits 0 (digits_onto fuel n rest) ≡ scan_digits n rest
unfolding digits_onto
scan_digits-digits_onto zero n rest enough = absurd (omega arith)
scan_digits-digits_onto (suc fuel) n rest enough = elim (Bool-cases (ltb n 10)) [
  | inl small ↦ rw small (
      scan_digits-digit 0 n rest (omega (arith, ltb→lt n 10))
      ∙ ap (λ k. scan_digits k rest) (omega arith))
  | inr large ↦ rw large (
      scan_digits-digits_onto fuel (n / 10) ((48 + n % 10) ∷ rest) (omega (arith, not-ltb→le n 10))
      ∙ (scan_digits-digit (n / 10) (n % 10) rest (omega arith)
          ∙ ap (λ k. scan_digits k rest) (omega arith)))
]

digits_onto-append :
    (fuel n : ℕ) (rest more : Bytes)
    → digits_onto fuel n rest ++ more ≡ digits_onto fuel n (rest ++ more)
unfolding digits_onto
digits_onto-append zero n rest more = refl
digits_onto-append (suc fuel) n rest more = elim (Bool-cases (ltb n 10)) [
  | inl small ↦ rw small refl
  | inr large ↦ rw large (digits_onto-append fuel (n / 10) ((48 + n % 10) ∷ rest) more)
]

-- The first digit.
digits_onto-first :
    (fuel n : ℕ) (rest : Bytes)
    → n < fuel
    → (d : ℕ) × (tail : Bytes) × (d < 10) × (digits_onto fuel n rest ≡ (48 + d) ∷ tail)
unfolding digits_onto
digits_onto-first zero n rest enough = absurd (omega arith)
digits_onto-first (suc fuel) n rest enough = elim (Bool-cases (ltb n 10)) [
  | inl small ↦ rw small (n, rest, ltb→lt n 10 small, refl)
  | inr large ↦
      rw large
        (digits_onto-first fuel (n / 10) ((48 + n % 10) ∷ rest) (omega (arith, not-ltb→le n 10)))
]

scan_int-digit :
    (d : ℕ) (tail : Bytes)
    → d < 10
    → scan_int ((48 + d) ∷ tail) ≡ stored (unsigned (some (scan_digits 0 ((48 + d) ∷ tail))))
unfolding scan_int scan_sign scan_natural skip_spaces
scan_int-digit d tail small =
    let digit : is_digit (48 + d) ≡ true = ground arith in
    let no_space : is_space (48 + d) ≡ false = ground arith in
    let no_minus : (48 + d == 45) ≡ false = ground arith in
    let no_plus : (48 + d == 43) ≡ false = ground arith in
    rw (no_space, no_minus, no_plus, digit) refl

-- `%d` reads back what `std::to_string` prints of a number below 2 ^ 31, where no digit follows.
pub scan_int-to_string :
    (n : ℕ) (rest : Bytes)
    → n < 0x8000_0000
    → ends rest ≡ true
    → scan_int (to_string n ++ rest) ≡ some (pos n, rest)
unfolding to_string
scan_int-to_string n rest small h =
    let (d, tail, digit, e) = digits_onto-first (suc n) n rest (omega arith) in
    let range : ltb n 0x8000_0000_0000_0000 ≡ true = ground arith in
    ap scan_int (digits_onto-append (suc n) n [] rest ∙ e)
    ∙ (scan_int-digit d tail digit
        ∙ (ap (λ s. stored (unsigned (some (scan_digits 0 s)))) (sym e)
            ∙ (ap (λ r. stored (unsigned (some r)))
                  (scan_digits-digits_onto (suc n) n rest (omega arith) ∙ scan_digits-ends n rest h)
                ∙ rw range (ap (λ z. some (z, rest)) (to_int_small n small)))))

pub scan_int-space : (s : Bytes) → scan_int (32 ∷ s) ≡ scan_int s
unfolding scan_int skip_spaces
scan_int-space s = refl

c_str-digits_onto :
    (fuel n : ℕ) (rest : Bytes) → c_str (digits_onto fuel n rest) ≡ digits_onto fuel n (c_str rest)
unfolding digits_onto c_str
c_str-digits_onto zero n rest = refl
c_str-digits_onto (suc fuel) n rest =
    let digit : (48 + n == 0) ≡ false = ground arith in
    let last : (48 + n % 10 == 0) ≡ false = ground arith in
    elim (Bool-cases (ltb n 10)) [
      | inl small ↦ rw (small, digit) refl
      | inr large ↦ rw large (
          c_str-digits_onto fuel (n / 10) ((48 + n % 10) ∷ rest)
          ∙ ap (digits_onto fuel (n / 10)) (rw last refl))
    ]

-- A printed number has no NUL in it.
pub c_str-to_string :
    (n : ℕ) (rest : Bytes) → c_str (to_string n ++ rest) ≡ to_string n ++ c_str rest
unfolding to_string
c_str-to_string n rest =
    ap c_str (digits_onto-append (suc n) n [] rest)
    ∙ (c_str-digits_onto (suc n) n rest ∙ sym (digits_onto-append (suc n) n [] (c_str rest)))
