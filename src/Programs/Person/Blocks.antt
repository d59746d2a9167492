-- ===== src/Programs/Person/Blocks.antt =====
-- What the heap operations of src/Person.cpp do to the set of blocks.
use socket_program.Base.{
  ℕ, suc, ◌==◌, ==_iff, leb, Bool, true, false, Bool-cases, Option, Option-cases, none, some, inl,
  inr, ◌≡◌, refl, sym, ap, subst, ◌∙◌, arith, Bytes, length, if◌then◌else◌,
}
use socket_program.Base.{Ensures}
use mathlib.Core.Path.{fun_ext}
use mathlib.Core.Bool.{true≢false}
use socket_program.Programs.Person.Memory.{Block, Heap, put, Alloc, Fresh, new_block, strcpy}
use socket_program.Programs.Person.{new_text}

==_self : (n : ℕ) → (n == n) ≡ true
==_self n = (==_iff n n).1 refl

==_eq : (a b : ℕ) → (a == b) ≡ true → a ≡ b
==_eq a b h = (==_iff a b).0 h

pub put_here : (p : ℕ) (b : Option Block) (h : Heap) → put p b h p ≡ b
put_here p b h = rw (==_self p) refl

if_same :
    {A : Type 0} (c : Bool) (x y z : A)
    → (if c then x else (if c then y else z)) ≡ (if c then x else z)
if_same true x y z = refl
if_same false x y z = refl

pub put-put : (p : ℕ) (b c : Option Block) (h : Heap) → put p b (put p c h) ≡ put p b h
put-put p b c h = fun_ext λ x. if_same (x == p) b c (h x)

if_comm :
    {A : Type 0} (c d : Bool) (x z : A)
    → (if c then x else (if d then x else z)) ≡ (if d then x else (if c then x else z))
if_comm true true x z = refl
if_comm true false x z = refl
if_comm false true x z = refl
if_comm false false x z = refl

pub put_comm : (p q : ℕ) (h : Heap) → put p none (put q none h) ≡ put q none (put p none h)
put_comm p q h = fun_ext λ x. if_comm (x == p) (x == q) none (h x)

pub put_same : (p : ℕ) (b : Option Block) (h : Heap) → h p ≡ b → put p b h ≡ h
put_same p b h e = fun_ext λ x. elim (Bool-cases (x == p)) [
  | inl is ↦ rw is (sym e ∙ ap h (sym (==_eq x p is)))
  | inr other ↦ rw other refl
]

-- A block lives at the address.
abbrev pub Live : Heap → ℕ → Type 0
Live h p = (b : Block) × (h p ≡ some b)

none-some : {A : Type 0} (a : A) → none ≡ some a → ⊥
none-some a e = cc

-- What lives where an address was cleared is another address, and lives without that too.
pub Live-other : (p q : ℕ) (h : Heap) → Live (put p none h) q → ((q == p) ≡ false) × Live h q
Live-other p q h (b, e) = elim (Bool-cases (q == p)) [
  | inl is ↦ absurd (none-some b (sym (rw is refl) ∙ e))
  | inr other ↦ (other, (b, sym (rw other refl) ∙ e))
]

pub Live-still : (p q : ℕ) (h : Heap) → (q == p) ≡ false → Live h q → Live (put p none h) q
Live-still p q h other (b, e) = (b, rw other e)

pub ==_false : (a b : ℕ) → (a == b) ≡ false → (b == a) ≡ false
==_false a b h = elim (Bool-cases (b == a)) [
  | inl e ↦ absurd (true≢false (sym (==_self a) ∙ subst (λ c. (a == c) ≡ false) (==_eq b a e) h))
  | inr e ↦ e
]

leb_self : (n : ℕ) → leb n n ≡ true
leb_self n = ground arith

-- New memory for a text is a block that did not live, and all that is new.
pub new_text-Fresh :
    (alloc : Alloc) (fresh : Fresh alloc) (s : Bytes) (h : Heap)
    → Ensures
        (λ p h'.
          (h' p ≡ some (record { size = suc (length s); text = some s })) × (put p none h' ≡ h))
        (λ e h'. h' ≡ h)
        (new_text alloc s h)
unfolding new_text new_block strcpy
new_text-Fresh alloc fresh s h = elim (Option-cases (alloc h (suc (length s)))) [
  | inl e ↦ rw (e, Ensures) refl
  | inr (p, e) ↦
      let raw : Option Block = some (record { size = suc (length s); text = none }) in
      let full : Option Block = some (record { size = suc (length s); text = some s }) in
      rw (e, Ensures, ==_self p, leb_self (suc (length s)))
        (
          put_here p full (put p raw h),
          put-put p none full (put p raw h)
              ∙ (put-put p none raw h ∙ put_same p none h (fresh h (suc (length s)) p e)),
        )
]
