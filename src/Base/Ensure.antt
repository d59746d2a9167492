-- ===== src/Base/Ensure.antt =====
-- The rules of `Ensures`, by which a property of a computation is proved from those of its parts.
use socket_program.Base.Effects.{
  Exn, Outcome, done, threw, fault, diverged, Run, ◌>>=◌, ◌>>◌, try_catch, on_part, Ensures,
}

module _ {S A : Type 0} where
  -- A weaker postcondition.
  pub Ensures-mono :
      (P P' : A → S → Type 0) (Q Q' : Exn → S → Type 0) (o : Outcome S A)
      → Ensures P Q o
      → ((a : A) (s : S) → P a s → P' a s)
      → ((e : Exn) (s : S) → Q e s → Q' e s)
      → Ensures P' Q' o
  Ensures-mono P P' Q Q' (done a s) h p q = p a s h
  Ensures-mono P P' Q Q' (threw e s) h p q = q e s h
  Ensures-mono P P' Q Q' fault h p q = absurd h
  Ensures-mono P P' Q Q' diverged h p q = absurd h

module _ {S A B : Type 0} where
  -- A sequence: what the first part leaves on a return is what the second part starts from.
  pub Ensures-bind :
      (P : A → S → Type 0) (Q : Exn → S → Type 0) (P' : B → S → Type 0) (Q' : Exn → S → Type 0)
      (m : Run S A) (k : A → Run S B) (s : S)
      → Ensures P Q (m s)
      → ((a : A) (s' : S) → P a s' → Ensures P' Q' (k a s'))
      → ((e : Exn) (s' : S) → Q e s' → Q' e s')
      → Ensures P' Q' ((m >>= k) s)
  Ensures-bind P Q P' Q' m k s h step fail = on (m s) h
    where
      on : (o : Outcome S A) → Ensures P Q o → Ensures P' Q' (((λ _. o) >>= k) s)
      on (done a s') h = step a s' h
      on (threw e s') h = fail e s' h
      on fault h = absurd h
      on diverged h = absurd h

  pub Ensures-then :
      (P : A → S → Type 0) (Q : Exn → S → Type 0) (P' : B → S → Type 0) (Q' : Exn → S → Type 0)
      (m : Run S A) (k : Run S B) (s : S)
      → Ensures P Q (m s)
      → ((a : A) (s' : S) → P a s' → Ensures P' Q' (k s'))
      → ((e : Exn) (s' : S) → Q e s' → Q' e s')
      → Ensures P' Q' ((m >> k) s)
  Ensures-then P Q P' Q' m k s h step fail = on (m s) h
    where
      on : (o : Outcome S A) → Ensures P Q o → Ensures P' Q' (((λ _. o) >> k) s)
      on (done a s') h = step a s' h
      on (threw e s') h = fail e s' h
      on fault h = absurd h
      on diverged h = absurd h

module _ {S A : Type 0} where
  -- A handler starts from what the exception leaves.
  pub Ensures-catch :
      (P : A → S → Type 0) (Q : Exn → S → Type 0) (P' : A → S → Type 0) (Q' : Exn → S → Type 0)
      (m : Run S A) (k : Exn → Run S A) (s : S)
      → Ensures P Q (m s)
      → ((a : A) (s' : S) → P a s' → P' a s')
      → ((e : Exn) (s' : S) → Q e s' → Ensures P' Q' (k e s'))
      → Ensures P' Q' (try_catch m k s)
  Ensures-catch P Q P' Q' m k s h pass handle = on (m s) h
    where
      on : (o : Outcome S A) → Ensures P Q o → Ensures P' Q' (try_catch (λ _. o) k s)
      on (done a s') h = pass a s' h
      on (threw e s') h = handle e s' h
      on fault h = absurd h
      on diverged h = absurd h

-- A computation on a part of the state.
module _ {S T A : Type 0} where
  pub Ensures-part :
      (P : A → S → Type 0) (Q : Exn → S → Type 0) (P' : A → T → Type 0) (Q' : Exn → T → Type 0)
      (get : T → S) (put : T → S → T) (m : Run S A) (t : T)
      → Ensures P Q (m (get t))
      → ((a : A) (s : S) → P a s → P' a (put t s))
      → ((e : Exn) (s : S) → Q e s → Q' e (put t s))
      → Ensures P' Q' (on_part get put m t)
  Ensures-part P Q P' Q' get put m t h pass fail = on (m (get t)) h
    where
      on : (o : Outcome S A) → Ensures P Q o → Ensures P' Q' (on_part get put (λ _. o) t)
      on (done a s) h = pass a s h
      on (threw e s) h = fail e s h
      on fault h = absurd h
      on diverged h = absurd h
