-- ===== src/Base/Text.antt =====
-- Texts as lists of bytes: `std::string::find`, C strings, `std::to_string`, and the directives of
-- `sscanf` that the program uses.
use Prim.Native.Char.{code}
use Prim.Native.String.{String}
use Prim.Native.Nat.{ℕ, zero, suc, ◌+◌, ◌-◌, ◌*◌, ◌/◌, ◌%◌}
use mathlib.Core.Bool.{Bool, true, false, ◌&&◌, ◌||◌}
use mathlib.Core.Option.{Option, none, some}
use mathlib.Core.List.{List, [], ◌∷◌}
use socket_program.Base.Tests.{ltb, leb, ◌==◌, if◌then◌else◌}
use socket_program.Base.Int.{ℤ, pos, negsuc, to_int, clamp_long}

abbrev pub Bytes : Type 0
Bytes = List ℕ

-- The bytes of an ASCII literal.
abbrev pub codes : String → Bytes
codes String.[] = []
codes (String.◌∷◌ c s) = code c ∷ codes s

abbrev pub cr_lf : Bytes
cr_lf = 13 ∷ 10 ∷ []

unfoldable pub is_prefix : Bytes → Bytes → Bool
is_prefix [] s = true
is_prefix (p ∷ ps) [] = false
is_prefix (p ∷ ps) (c ∷ s) = p == c && is_prefix ps s

-- `s.find(p)`; `none` is `npos`.
unfoldable pub find_from : ℕ → Bytes → Bytes → Option ℕ
find_from i p [] = if is_prefix p [] then some i else none
find_from i p (c ∷ s) = if is_prefix p (c ∷ s) then some i else find_from (suc i) p s

unfoldable pub find : Bytes → Bytes → Option ℕ
unfolding find_from is_prefix
find p s = find_from 0 p s

-- `s.find(p) != npos`
unfoldable pub contains : Bytes → Bytes → Bool
unfolding is_prefix
contains p [] = is_prefix p []
contains p (c ∷ s) = is_prefix p (c ∷ s) || contains p s

-- The C string that starts here: the bytes before the first NUL.
unfoldable pub c_str : Bytes → Bytes
c_str [] = []
c_str (c ∷ s) = if c == 0 then [] else c ∷ c_str s

-- `std::to_string` of a natural number, most significant digit first.
unfoldable pub digits_onto : ℕ → ℕ → Bytes → Bytes
digits_onto zero n rest = rest
digits_onto (suc fuel) n rest =
    let more = digits_onto fuel (n / 10) ((48 + n % 10) ∷ rest) in
    if ltb n 10 then (48 + n) ∷ rest else more

unfoldable pub to_string : ℕ → Bytes
unfolding digits_onto
to_string n = digits_onto (suc n) n []

unfoldable pub to_string_ℤ : ℤ → Bytes
unfolding to_string
to_string_ℤ (pos n) = to_string n
to_string_ℤ (negsuc n) = 45 ∷ to_string (suc n)

-- `isspace` in the C locale.
abbrev pub is_space : ℕ → Bool
is_space c = c == 32 || (leb 9 c && leb c 13)

abbrev pub is_digit : ℕ → Bool
is_digit c = leb 48 c && leb c 57

unfoldable pub skip_spaces : Bytes → Bytes
skip_spaces [] = []
skip_spaces (c ∷ s) = if is_space c then skip_spaces s else c ∷ s

-- An ordinary directive: the text must come next.
unfoldable pub scan_text : Bytes → Bytes → Option Bytes
scan_text [] s = some s
scan_text (p ∷ ps) [] = none
scan_text (p ∷ ps) (c ∷ s) = if p == c then scan_text ps s else none

-- The longest run of bytes that are no white space, and what follows.
unfoldable pub span_word : Bytes → Bytes × Bytes
span_word [] = ([], [])
span_word (c ∷ s) = let (w, rest) = span_word s in if is_space c then ([], c ∷ s) else (c ∷ w, rest)

abbrev nonempty_word : Bytes × Bytes → Option (Bytes × Bytes)
nonempty_word ([], rest) = none
nonempty_word (c ∷ w, rest) = some (c ∷ w, rest)

-- `%s`: `none` is a matching or input failure.
unfoldable pub scan_word : Bytes → Option (Bytes × Bytes)
unfolding span_word skip_spaces
scan_word s = nonempty_word (span_word (skip_spaces s))

-- The digits that come next, read onto a value.
unfoldable pub scan_digits : ℕ → Bytes → ℕ × Bytes
scan_digits n [] = (n, [])
scan_digits n (c ∷ s) =
    let rest = scan_digits (n * 10 + (c - 48)) s in if is_digit c then rest else (n, c ∷ s)

unfoldable pub scan_natural : Bytes → Option (ℕ × Bytes)
unfolding scan_digits
scan_natural [] = none
scan_natural (c ∷ s) = if is_digit c then some (scan_digits 0 (c ∷ s)) else none

abbrev negated : Option (ℕ × Bytes) → Option (ℤ × Bytes)
negated none = none
negated (some (zero, s)) = some (pos 0, s)
negated (some (suc n, s)) = some (negsuc n, s)

abbrev pub unsigned : Option (ℕ × Bytes) → Option (ℤ × Bytes)
unsigned none = none
unsigned (some (n, s)) = some (pos n, s)

unfoldable pub scan_sign : Bytes → Option (ℤ × Bytes)
unfolding scan_natural
scan_sign [] = none
scan_sign (c ∷ s) =
    if c == 45
    then negated (scan_natural s)
    else if c == 43
    then unsigned (scan_natural s)
    else unsigned (scan_natural (c ∷ s))

abbrev pub stored : Option (ℤ × Bytes) → Option (ℤ × Bytes)
stored none = none
stored (some (z, s)) = some (to_int (clamp_long z), s)

-- `%d`
unfoldable pub scan_int : Bytes → Option (ℤ × Bytes)
unfolding scan_sign skip_spaces
scan_int s = stored (scan_sign (skip_spaces s))
