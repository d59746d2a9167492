-- ===== src/Inet/Connect/Sets.antt =====
-- Sets of descriptors that are made of one after the other.
use socket_program.Base.{
  ℤ, minus_one, ◌==ℤ◌, ◌≡◌, refl, sym, ap, subst, ◌∙◌, Bool, true, false, Bool-cases, inl, inr,
  List, [], ◌∷◌, ◌++◌, if◌then◌else◌,
}
use mathlib.Core.Path.{fun_ext}
use mathlib.Core.Bool.{true≢false}
use socket_program.Inet.Connect.Descriptors.{FdSet, with_fd, with_fd-with_fd, ==ℤ_self, ==ℤ_eq}

abbrev pub opened : FdSet → List ℤ → FdSet
opened base [] = base
opened base (fd ∷ fds) = with_fd (opened base fds) fd true

-- Each is valid and was not open before.
abbrev pub AllFresh : FdSet → List ℤ → Type 0
AllFresh base [] = Unit {0}
AllFresh base (fd ∷ fds) =
    ((fd ==ℤ minus_one) ≡ false) × (opened base fds fd ≡ false) × AllFresh base fds

-- One of them, and the rest.
pub record Picked (base : FdSet) (fd : ℤ) (all rest : List ℤ) : Type 0 where
  pub valid : (fd ==ℤ minus_one) ≡ false
  pub closed : opened base rest fd ≡ false
  pub split : opened base all ≡ with_fd (opened base rest) fd true
  pub fresh : AllFresh base rest

either_way :
    (a b y : Bool)
    → (if b then true else (if a then true else y)) ≡ (if a then true else (if b then true else y))
either_way true true y = refl
either_way true false y = refl
either_way false true y = refl
either_way false false y = refl

neither : (b y : Bool) → (if b then true else y) ≡ false → (b ≡ false) × (y ≡ false)
neither true y h = absurd (true≢false h)
neither false y h = (refl, h)

==ℤ_false : (a b : ℤ) → (a ==ℤ b) ≡ false → (b ==ℤ a) ≡ false
==ℤ_false a b h = elim (Bool-cases (b ==ℤ a)) [
  | inl e ↦ absurd (true≢false (sym (==ℤ_self a) ∙ subst (λ c. (a ==ℤ c) ≡ false) (==ℤ_eq b a e) h))
  | inr e ↦ e
]

with_fd_comm :
    (f : FdSet) (a b : ℤ) → with_fd (with_fd f a true) b true ≡ with_fd (with_fd f b true) a true
with_fd_comm f a b = fun_ext λ x. either_way (x ==ℤ a) (x ==ℤ b) (f x)

pub pick :
    (base : FdSet) (xs : List ℤ) (fd : ℤ) (ys : List ℤ)
    → AllFresh base (xs ++ fd ∷ ys)
    → Picked base fd (xs ++ fd ∷ ys) (xs ++ ys)
pick base [] fd ys (valid, closed, fresh) = record {
  valid = valid;
  closed = closed;
  split = refl;
  fresh = fresh;
}
pick base (x ∷ xs) fd ys (valid, closed, fresh) =
    let p = pick base xs fd ys fresh in
    let free =
      neither (x ==ℤ fd) (opened base (xs ++ ys) x) (sym (ap (λ f. f x) p.split) ∙ closed) in
    record {
      valid = p.valid;
      closed = rw (==ℤ_false x fd free.0) p.closed;
      split = ap (λ f. with_fd f x true) p.split ∙ with_fd_comm (opened base (xs ++ ys)) fd x;
      fresh = (valid, free.1, p.fresh);
    }

-- A set is another one with a valid descriptor that is not in that.
abbrev pub Adds : FdSet → ℤ → FdSet → Type 0
Adds base fd now = ((fd ==ℤ minus_one) ≡ false) × (base fd ≡ false) × (now ≡ with_fd base fd true)

-- What is not open where a descriptor was added is another one.
pub Adds-other :
    (base now : FdSet) (fd d : ℤ)
    → Adds base fd now
    → now d ≡ false
    → ((d ==ℤ fd) ≡ false) × (base d ≡ false)
Adds-other base now fd d (valid, closed, opens) out =
    neither (d ==ℤ fd) (base d) (sym (ap (λ f. f d) opens) ∙ out)

-- A second descriptor, told from the set with it on.
pub Adds-more :
    (base now later : FdSet) (fd d : ℤ)
    → Adds base fd now
    → Adds now d later
    → Adds (with_fd base d true) fd later
Adds-more base now later fd d (valid, closed, opens) (valid', out, opens') =
    let (other, _) = Adds-other base now fd d (valid, closed, opens) out in
    (
      valid,
      rw (==ℤ_false d fd other) closed,
      opens' ∙ (ap (λ f. with_fd f d true) opens ∙ with_fd_comm base fd d),
    )

-- And without it again.
pub Adds-less :
    (base now : FdSet) (fd d : ℤ)
    → Adds (with_fd base d true) fd now
    → base d ≡ false
    → Adds base fd (with_fd now d false)
Adds-less base now fd d (valid, closed, opens) out =
    let (other, closed') = neither (fd ==ℤ d) (base fd) closed in
    (
      valid,
      closed',
      ap (λ f. with_fd f d false) (opens ∙ with_fd_comm base d fd)
          ∙ with_fd-with_fd (with_fd base fd true) d (rw (==ℤ_false fd d other) out),
    )

pub opened-append :
    (base : FdSet) (xs ys : List ℤ) → opened base (xs ++ ys) ≡ opened (opened base ys) xs
opened-append base [] ys = refl
opened-append base (x ∷ xs) ys = ap (λ f. with_fd f x true) (opened-append base xs ys)

pub AllFresh-append :
    (base : FdSet) (xs ys : List ℤ)
    → AllFresh base ys
    → AllFresh (opened base ys) xs
    → AllFresh base (xs ++ ys)
AllFresh-append base [] ys fresh fresh' = fresh
AllFresh-append base (x ∷ xs) ys fresh (valid, closed, fresh') = (
  valid,
  ap (λ f. f x) (opened-append base xs ys) ∙ closed,
  AllFresh-append base xs ys fresh fresh',
)
