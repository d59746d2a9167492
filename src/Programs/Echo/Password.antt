-- ===== src/Programs/Echo/Password.antt =====
-- `password_cb` of src/sserver.cpp, which OpenSSL calls with a buffer for a password.
use socket_program.Base.{
  List, ℕ, zero, suc, ◌+◌, ◌-◌, ◌≤◌, ◌<◌, ℤ, pos, to_int, to_int_small, ◌==◌, ◌≡◌, refl, ap, ◌∙◌,
  Bool-cases, inl, inr, Option, some, [], ◌∷◌, ◌++◌, length, take, replicate, length-append,
  length-take_le, Bytes, c_str, if◌then◌else◌, arith,
}
use socket_program.Base.{Run, done, fault, Ensures}

-- `strncpy`: the bytes that it stores, always n of them. The bytes of the source end at a NUL.
unfoldable pub strncpy : ℕ → Bytes → Bytes
strncpy zero s = []
strncpy (suc n) [] = replicate (suc n) 0
strncpy (suc n) (c ∷ s) = if c == 0 then replicate (suc n) 0 else c ∷ strncpy n s

-- `buf[size - 1] = '\0'` on a buffer of `size` bytes.
unfoldable pub end_at : ℕ → Bytes → Bytes
end_at size buf = take (size - 1) buf ++ 0 ∷ []

-- On the `size` bytes of the buffer. With no room at all the last store is outside the buffer, and a
-- negative size is a huge one for `strncpy`; a null password is read.
unfoldable pub password_cb : ℤ → Option Bytes → Run Bytes ℤ
unfolding strncpy end_at
password_cb (pos (suc n)) (some password) buf =
    let filled = end_at (suc n) (strncpy (suc n) password) in
    done (to_int (pos (length (c_str filled)))) filled
password_cb _ _ buf = fault

length-replicate : (n : ℕ) → length (replicate {A = ℕ} n 0) ≡ n
length-replicate zero = refl
length-replicate (suc n) = ap suc (length-replicate n)

take-replicate : (m n : ℕ) → m ≤ n → c_str (take m (replicate n 0) ++ 0 ∷ []) ≡ []
unfolding c_str
take-replicate zero n h = refl
take-replicate (suc m) zero h = absurd (omega arith)
take-replicate (suc m) (suc n) h = refl

-- The C string that is left in the buffer.
c_str-strncpy :
    (m : ℕ) (s : Bytes) → c_str (take m (strncpy (suc m) s) ++ 0 ∷ []) ≡ take m (c_str s)
unfolding strncpy c_str
c_str-strncpy zero s = refl
c_str-strncpy (suc m) [] = refl
c_str-strncpy (suc m) (c ∷ s) = elim (Bool-cases (c == 0)) [
  | inl e ↦ rw e refl
  | inr e ↦ rw (e, e) (ap (◌∷◌ c) (c_str-strncpy m s))
]

length-strncpy : (m : ℕ) (s : Bytes) → length (strncpy m s) ≡ m
unfolding strncpy
length-strncpy zero s = refl
length-strncpy (suc m) [] = length-replicate (suc m)
length-strncpy (suc m) (c ∷ s) = elim (Bool-cases (c == 0)) [
  | inl e ↦ rw e (length-replicate (suc m))
  | inr e ↦ rw e (ap suc (length-strncpy m s))
]

length-take : {A : Type 0} (n : ℕ) (xs : List A) → length (take n xs) ≤ n
length-take zero xs = omega arith
length-take (suc n) [] = omega arith
length-take (suc n) (x ∷ xs) = omega (arith, length-take n xs)

-- `password_cb` with room for n bytes, n below 2 ^ 31 and not 0, fills exactly these n bytes with a C
-- string, the longest first part of the password that fits with its NUL, and returns its length,
-- which is less than n.
pub password_cb-Fits :
    (n : ℕ) (password buf : Bytes)
    → 0 < n
    → n < 0x8000_0000
    → Ensures
        (λ ret filled.
          (length filled ≡ n)
          × (c_str filled ≡ take (n - 1) (c_str password))
          × (ret ≡ pos (length (c_str filled)))
          × (length (c_str filled) < n))
        (λ e filled. ⊥)
        (password_cb (pos n) (some password) buf)
unfolding password_cb end_at
password_cb-Fits zero password buf some_room small = absurd (omega arith)
password_cb-Fits (suc n) password buf some_room small =
    let e : suc n - 1 ≡ n = omega arith in
    let kept = c_str-strncpy n password in
    let few = length-take n (c_str password) in
    rw (e, kept)
      (
        length-append (take n (strncpy (suc n) password)) (0 ∷ [])
            ∙ ap (λ k. k + 1)
                (length-take_le n (strncpy (suc n) password)
                  (omega (arith, length-strncpy (suc n) password)))
            ∙ omega arith,
        refl,
        to_int_small _ (omega arith),
        omega arith,
      )
