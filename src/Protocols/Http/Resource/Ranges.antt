-- ===== src/Protocols/Http/Resource/Ranges.antt =====
-- The Range header of a request against its printed form.
use socket_program.Base.Decimal.{scan_int-to_string, c_str-to_string}
use socket_program.Base.{
  ℕ, ◌<◌, ℤ, pos, ◌≡◌, refl, ap, ◌∙◌, Bool, true, not, ◌&&◌, &&-true, not-true, Option, none, some,
  List, [], ◌∷◌, ◌++◌, Bytes, codes, to_string, c_str, contains, is_prefix, scan_int, scan_text,
  scan_sign, skip_spaces, arith,
}
use socket_program.Protocols.Http.State.{Http}
use socket_program.Protocols.Http.Resource.{set_low, scan_end, scan_range, read_range}

-- The line that asks for the bytes from a position on.
abbrev pub range_line : ℕ → Bytes
range_line n = codes "Range: bytes=" ++ (to_string n ++ codes "-")

-- None of the lines is about a range.
abbrev pub no_range : List Bytes → Bool
no_range [] = true
no_range (line ∷ lines) = not (contains (codes "Range: bytes=") line) && no_range lines

set_low-pos : (old n : ℕ) → old < 0x1_0000_0000 → n < 0x8000_0000 → set_low old (pos n) ≡ n
set_low-pos old n small small' = omega arith

module _ {W : Type 0} where
  scan_range-step :
      (s s₁ : Bytes) (z : ℤ) (h : Http W)
      → scan_int s ≡ some (z, s₁)
      → scan_range s h ≡ scan_end s₁ (record h { range_start = set_low h.range_start z })
  unfolding scan_range
  scan_range-step s s₁ z h e =
      ap
        (λ (r : Option (ℤ × Bytes)). elim r [
          | none ↦ h
          | some (y, s') ↦ scan_end s' (record h { range_start = set_low h.range_start y })
        ])
        e

  scan_range-start :
      (n : ℕ) (h : Http W)
      → h.range_start < 0x1_0000_0000
      → n < 0x8000_0000
      → scan_range (c_str (to_string n ++ codes "-")) h ≡ record h { range_start = n }
  unfolding c_str scan_text scan_int scan_sign skip_spaces
  scan_range-start n h old small =
      ap (λ s. scan_range s h) (c_str-to_string n (codes "-"))
      ∙ (scan_range-step (to_string n ++ codes "-") (codes "-") (pos n) h
            (scan_int-to_string n (codes "-") small refl)
          ∙ ap (λ k. record h { range_start = k }) (set_low-pos h.range_start n old small))

  -- A request whose last header asks for the bytes from a position below 2 ^ 31 on, and no other header
  -- for a range: the range starts there, if it started below 2 ^ 32 before, and is marked as one.
  pub read_range-range_line :
      (front : List Bytes) (n : ℕ) (h : Http W)
      → no_range front ≡ true
      → h.range_start < 0x1_0000_0000
      → n < 0x8000_0000
      → read_range (front ++ range_line n ∷ []) h ≡ record h { range_start = n; is_range = true }
  unfolding read_range contains is_prefix
  read_range-range_line [] n h others old small =
      ap (λ (g : Http W). record g { is_range = true }) (scan_range-start n h old small)
  read_range-range_line (line ∷ front) n h others old small =
      let (first, rest) = &&-true _ _ others in
      rw (not-true (contains (codes "Range: bytes=") line) first, read_range)
        (read_range-range_line front n h rest old small)
