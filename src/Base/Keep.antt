-- ===== src/Base/Keep.antt =====
-- What a computation leaves as it was, whether it returns or throws, and the rules for it. Nothing is said
-- of a computation that has no end.
use socket_program.Base.Effects.{
  Exn, Outcome, done, threw, fault, diverged, Run, ◌>>=◌, ◌>>◌, try_catch, on_part, Ensures,
}
use mathlib.Core.Bool.{Bool, true, false}
use socket_program.Base.Tests.{if◌then◌else◌}

abbrev pub Leaves : {S A : Type 0} → (S → Type 0) → Outcome S A → Type 0
Leaves I (done a s) = I s
Leaves I (threw e s) = I s
Leaves I fault = Unit {0}
Leaves I diverged = Unit {0}

pub Ensures-Leaves :
    {S A : Type 0} (I : S → Type 0) (o : Outcome S A)
    → Ensures (λ a s. I s) (λ e s. ⊥) o
    → Leaves I o
Ensures-Leaves I (done a s) h = h
Ensures-Leaves I (threw e s) h = absurd h
Ensures-Leaves I fault h = absurd h
Ensures-Leaves I diverged h = absurd h

module _ {S A : Type 0} where
  -- From what holds where it returns and where it throws.
  pub Leaves-ensured :
      (P : A → S → Type 0) (Q : Exn → S → Type 0) (I : S → Type 0) (o : Outcome S A)
      → Ensures P Q o
      → ((a : A) (s : S) → P a s → I s)
      → ((e : Exn) (s : S) → Q e s → I s)
      → Leaves I o
  Leaves-ensured P Q I (done a s) h f g = f a s h
  Leaves-ensured P Q I (threw e s) h f g = g e s h
  Leaves-ensured P Q I fault h f g = absurd h
  Leaves-ensured P Q I diverged h f g = absurd h

  pub Leaves-map :
      {I J : S → Type 0} → ((s : S) → I s → J s) → (o : Outcome S A) → Leaves I o → Leaves J o
  Leaves-map f (done a s) h = f s h
  Leaves-map f (threw e s) h = f s h
  Leaves-map f fault h = tt
  Leaves-map f diverged h = tt

  pub Leaves-both :
      (I J : S → Type 0) (o : Outcome S A) → Leaves I o → Leaves J o → Leaves (λ s. I s × J s) o
  Leaves-both I J (done a s) h k = (h, k)
  Leaves-both I J (threw e s) h k = (h, k)
  Leaves-both I J fault h k = tt
  Leaves-both I J diverged h k = tt

  pub Leaves-any : (o : Outcome S A) → Leaves (λ s. Unit {0}) o
  Leaves-any (done a s) = tt
  Leaves-any (threw e s) = tt
  Leaves-any fault = tt
  Leaves-any diverged = tt

module _ {S A B : Type 0} where
  pub Leaves-bind :
      (I : S → Type 0) (m : Run S A) (k : A → Run S B) (s : S)
      → Leaves I (m s)
      → ((a : A) (s' : S) → I s' → Leaves I (k a s'))
      → Leaves I ((m >>= k) s)
  Leaves-bind I m k s h next = on (m s) h
    where
      on : (o : Outcome S A) → Leaves I o → Leaves I (((λ _. o) >>= k) s)
      on (done a s') h = next a s' h
      on (threw e s') h = h
      on fault h = tt
      on diverged h = tt

  pub Leaves-then :
      (I : S → Type 0) (m : Run S A) (k : Run S B) (s : S)
      → Leaves I (m s)
      → ((s' : S) → I s' → Leaves I (k s'))
      → Leaves I ((m >> k) s)
  Leaves-then I m k s h next = on (m s) h
    where
      on : (o : Outcome S A) → Leaves I o → Leaves I (((λ _. o) >> k) s)
      on (done a s') h = next s' h
      on (threw e s') h = h
      on fault h = tt
      on diverged h = tt

module _ {S A B : Type 0} where
  -- From one property to another on the way.
  pub Leaves-chain :
      (I J : S → Type 0) (m : Run S A) (k : Run S B) (s : S)
      → Leaves I (m s)
      → ((s' : S) → I s' → J s')
      → ((s' : S) → I s' → Leaves J (k s'))
      → Leaves J ((m >> k) s)
  Leaves-chain I J m k s h stop next = on (m s) h
    where
      on : (o : Outcome S A) → Leaves I o → Leaves J (((λ _. o) >> k) s)
      on (done a s') h = next s' h
      on (threw e s') h = stop s' h
      on fault h = tt
      on diverged h = tt

module _ {S A : Type 0} where
  pub Leaves-catch :
      (I : S → Type 0) (m : Run S A) (k : Exn → Run S A) (s : S)
      → Leaves I (m s)
      → ((e : Exn) (s' : S) → I s' → Leaves I (k e s'))
      → Leaves I (try_catch m k s)
  Leaves-catch I m k s h handle = on (m s) h
    where
      on : (o : Outcome S A) → Leaves I o → Leaves I (try_catch (λ _. o) k s)
      on (done a s') h = h
      on (threw e s') h = handle e s' h
      on fault h = tt
      on diverged h = tt

  pub Leaves-if :
      (I : S → Type 0) (b : Bool) (m k : Run S A) (s : S)
      → Leaves I (m s)
      → Leaves I (k s)
      → Leaves I ((if b then m else k) s)
  Leaves-if I true m k s h h' = h
  Leaves-if I false m k s h h' = h'

  -- Where the test stands before the state is given.
  pub Leaves-choice :
      (I : S → Type 0) (b : Bool) (o p : Outcome S A)
      → Leaves I o
      → Leaves I p
      → Leaves I (if b then o else p)
  Leaves-choice I true o p h h' = h
  Leaves-choice I false o p h h' = h'

module _ {S T A : Type 0} where
  pub Leaves-part :
      (J : S → Type 0) (I : T → Type 0) (get : T → S) (put : T → S → T) (m : Run S A) (t : T)
      → Leaves J (m (get t))
      → ((s : S) → J s → I (put t s))
      → Leaves I (on_part get put m t)
  Leaves-part J I get put m t h back = on (m (get t)) h
    where
      on : (o : Outcome S A) → Leaves J o → Leaves I (on_part get put (λ _. o) t)
      on (done a s) h = back s h
      on (threw e s) h = back s h
      on fault h = tt
      on diverged h = tt

-- What holds where a computation throws.
abbrev pub Raises : {S A : Type 0} → (S → Type 0) → Outcome S A → Type 0
Raises F (done a s) = Unit {0}
Raises F (threw e s) = F s
Raises F fault = Unit {0}
Raises F diverged = Unit {0}

module _ {S A : Type 0} where
  pub Ensures-Raises :
      (P : A → S → Type 0) (Q : Exn → S → Type 0) (F : S → Type 0) (o : Outcome S A)
      → Ensures P Q o
      → Raises F o
      → Ensures P (λ e s. Q e s × F s) o
  Ensures-Raises P Q F (done a s) h r = h
  Ensures-Raises P Q F (threw e s) h r = (h, r)
  Ensures-Raises P Q F fault h r = h
  Ensures-Raises P Q F diverged h r = h

  pub Raises-choice :
      (F : S → Type 0) (b : Bool) (m k : Run S A) (s : S)
      → Raises F (m s)
      → Raises F (k s)
      → Raises F ((if b then m else k) s)
  Raises-choice F true m k s h h' = h
  Raises-choice F false m k s h h' = h'

module _ {S A B : Type 0} where
  pub Raises-bind :
      (F : S → Type 0) (m : Run S A) (k : A → Run S B) (s : S)
      → Raises F (m s)
      → ((a : A) (s' : S) → Raises F (k a s'))
      → Raises F ((m >>= k) s)
  Raises-bind F m k s h next = on (m s) h
    where
      on : (o : Outcome S A) → Raises F o → Raises F (((λ _. o) >>= k) s)
      on (done a s') h = next a s'
      on (threw e s') h = h
      on fault h = tt
      on diverged h = tt

  pub Raises-then :
      (F : S → Type 0) (m : Run S A) (k : Run S B) (s : S)
      → Raises F (m s)
      → ((s' : S) → Raises F (k s'))
      → Raises F ((m >> k) s)
  Raises-then F m k s h next = on (m s) h
    where
      on : (o : Outcome S A) → Raises F o → Raises F (((λ _. o) >> k) s)
      on (done a s') h = next s'
      on (threw e s') h = h
      on fault h = tt
      on diverged h = tt
