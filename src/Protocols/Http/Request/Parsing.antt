-- ===== src/Protocols/Http/Request/Parsing.antt =====
-- `_ParseRequestHeader` against a printer of requests.
use socket_program.Base.{
  ℕ, suc, ◌+◌, ◌<◌, pos, ◌≡◌, refl, ap, ◌∙◌, ◌==◌, Bool, true, false, not, ◌&&◌, &&-true, not-true,
  some, [], ◌∷◌, ◌++◌, length, Bytes, cr_lf, c_str, is_space, span_word, scan_word, skip_spaces,
  arith,
}
use socket_program.Protocols.Http.Request.{read_line, read_line_from}

-- A word of a request: no white space and no NUL.
abbrev pub is_word : Bytes → Bool
is_word [] = true
is_word (c ∷ s) = (not (is_space c) && not (c == 0)) && is_word s

-- A line: no carriage return.
abbrev pub is_line : Bytes → Bool
is_line [] = true
is_line (c ∷ s) = not (c == 13) && is_line s

read_line_from-append :
    (i : ℕ) (line rest : Bytes)
    → is_line line ≡ true
    → read_line_from i (line ++ (cr_lf ++ rest)) ≡ pos (i + length line)
unfolding read_line_from
read_line_from-append i [] rest h = ap pos (omega arith)
read_line_from-append i (c ∷ []) rest h =
    rw (not-true (c == 13) (&&-true _ _ h).0) (ap pos (omega arith))
read_line_from-append i (c ∷ d ∷ line) rest h =
    let (no_cr, h') = &&-true (not (c == 13)) (is_line (d ∷ line)) h in
    rw (not-true (c == 13) no_cr)
      (read_line_from-append (suc i) (d ∷ line) rest h' ∙ ap pos (omega arith))

-- The first CR LF ends the line.
pub read_line-append :
    (line rest : Bytes)
    → is_line line ≡ true
    → read_line (line ++ (cr_lf ++ rest)) ≡ pos (length line)
unfolding read_line
read_line-append line rest h = read_line_from-append 0 line rest h ∙ ap pos (omega arith)

pub is_word-parts :
    (c : ℕ) (s : Bytes)
    → is_word (c ∷ s) ≡ true
    → (is_space c ≡ false) × ((c == 0) ≡ false) × (is_word s ≡ true)
is_word-parts c s h =
    let (first, rest) = &&-true _ _ h in
    let (no_space, no_nul) = &&-true _ _ first in (not-true _ no_space, not-true _ no_nul, rest)

span_word-append :
    (word : Bytes) (c : ℕ) (rest : Bytes)
    → is_word word ≡ true
    → is_space c ≡ true
    → span_word (word ++ c ∷ rest) ≡ (word, c ∷ rest)
unfolding span_word
span_word-append [] c rest h e = rw e
span_word-append (b ∷ word) c rest h e =
    let (no_space, no_nul, h') = is_word-parts b word h in
    rw (no_space, span_word-append word c rest h' e) refl

span_word-all : (word : Bytes) → is_word word ≡ true → span_word word ≡ (word, [])
unfolding span_word
span_word-all [] h = refl
span_word-all (b ∷ word) h =
    let (no_space, no_nul, h') = is_word-parts b word h in rw (no_space, span_word-all word h') refl

pub scan_word-append :
    (word rest : Bytes)
    → 0 < length word
    → is_word word ≡ true
    → scan_word (word ++ 32 ∷ rest) ≡ some (word, 32 ∷ rest)
unfolding scan_word skip_spaces
scan_word-append [] rest nonempty h = absurd (omega arith)
scan_word-append (b ∷ word) rest nonempty h =
    let (no_space, no_nul, h') = is_word-parts b word h in
    rw (no_space, span_word-append (b ∷ word) 32 rest h refl) refl

pub scan_word-space : (s : Bytes) → scan_word (32 ∷ s) ≡ scan_word s
unfolding scan_word skip_spaces
scan_word-space s = refl

pub scan_word-all :
    (word : Bytes) → 0 < length word → is_word word ≡ true → scan_word word ≡ some (word, [])
unfolding scan_word skip_spaces
scan_word-all [] nonempty h = absurd (omega arith)
scan_word-all (b ∷ word) nonempty h =
    let (no_space, no_nul, h') = is_word-parts b word h in
    rw (no_space, span_word-all (b ∷ word) h) refl

pub c_str-append : (word s : Bytes) → is_word word ≡ true → c_str (word ++ s) ≡ word ++ c_str s
unfolding c_str
c_str-append [] s h = refl
c_str-append (b ∷ word) s h =
    let (no_space, no_nul, h') = is_word-parts b word h in rw (no_nul, c_str-append word s h') refl
