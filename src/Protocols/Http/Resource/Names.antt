-- ===== src/Protocols/Http/Resource/Names.antt =====
-- The file name for a path with a question mark.
use socket_program.Base.{
  ℕ, suc, ◌+◌, ◌≡◌, refl, ap, ◌∙◌, sym, ◌==◌, true, not, ◌&&◌, Bool, &&-true, not-true, some, [],
  ◌∷◌, ◌++◌, length, drop, length-append, drop-append, append_assoc, Bytes, codes, find, find_from,
  is_prefix, arith,
}
use socket_program.Protocols.Http.Resource.{file_name, full_name}

-- No question mark.
abbrev pub is_plain : Bytes → Bool
is_plain [] = true
is_plain (c ∷ s) = not (63 == c) && is_plain s

find_from-append :
    (i : ℕ) (s q : Bytes)
    → is_plain s ≡ true
    → find_from i (codes "?") (s ++ 63 ∷ q) ≡ some (i + length s)
unfolding find_from is_prefix
find_from-append i [] q h = ap some (omega arith)
find_from-append i (c ∷ s) q h =
    let (first, rest) = &&-true _ _ h in
    rw (not-true (63 == c) first) (find_from-append (suc i) s q rest ∙ ap some (omega arith))

-- For a path with a question mark that is not at its start, the file name is made of the byte before
-- the question mark and all that follows, and not of what is before it.
pub file_name-query :
    (s : Bytes) (c : ℕ) (q : Bytes)
    → is_plain (s ++ c ∷ []) ≡ true
    → file_name ((s ++ c ∷ []) ++ 63 ∷ q) ≡ some (full_name (c ∷ 63 ∷ q))
unfolding file_name find
file_name-query s c q h =
    let path : Bytes = (s ++ c ∷ []) ++ 63 ∷ q in
    let where' : find_from 0 (codes "?") path ≡ some (suc (length s)) =
      find_from-append 0 (s ++ c ∷ []) q h ∙ ap some (omega (arith, length-append s (c ∷ []))) in
    let all : length s + 0 ≡ length s = omega arith in
    let cut : drop (length s) path ≡ c ∷ 63 ∷ q =
      ap (drop (length s)) (append_assoc s (c ∷ []) (63 ∷ q))
      ∙ (ap (λ n. drop n (s ++ c ∷ 63 ∷ q)) (sym all) ∙ drop-append 0 s (c ∷ 63 ∷ q)) in
    rw (where', file_name, cut) refl
