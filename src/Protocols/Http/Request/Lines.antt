-- ===== src/Protocols/Http/Request/Lines.antt =====
-- `_ReadLine` against `std::string::find`.
use socket_program.Base.{
  ℕ, suc, ℤ, pos, minus_one, ◌≡◌, refl, ◌==◌, ◌&&◌, arith, Bool-cases, inl, inr, Option, none, some,
  [], ◌∷◌, Bytes, cr_lf, find, find_from, is_prefix,
}
use socket_program.Protocols.Http.Request.{read_line_from, read_line}

abbrev position : Option ℕ → ℤ
position none = minus_one
position (some n) = pos n

read_line_from-find_from : (i : ℕ) (s : Bytes) → read_line_from i s ≡ position (find_from i cr_lf s)
unfolding read_line_from find_from is_prefix
read_line_from-find_from i [] = refl
read_line_from-find_from i (c ∷ []) = ground arith
read_line_from-find_from i (c ∷ d ∷ s) =
    let same : is_prefix cr_lf (c ∷ d ∷ s) ≡ (c == 13 && d == 10) = ground arith in
    elim (Bool-cases (c == 13 && d == 10)) [
      | inl e ↦ rw (same, e) refl
      | inr e ↦ rw (same, e) (read_line_from-find_from (suc i) (d ∷ s))
    ]

-- `_ReadLine` returns the position of the first CR LF, which is where `find` finds it, and -1 if
-- there is none.
pub read_line-find : (s : Bytes) → read_line s ≡ position (find cr_lf s)
unfolding read_line find
read_line-find s = read_line_from-find_from 0 s
