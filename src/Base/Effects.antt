-- ===== src/Base/Effects.antt =====
-- Effects of the C++ code: a call returns, throws, runs into undefined behaviour, or does not come
-- to an end within its fuel. The state that an exception leaves behind is kept.
use mathlib.Core.Bool.{Bool, true, false}

-- The exceptions that the program raises, one for each message; `length_error`, `out_of_range` and `no_memory`
-- are the standard library's, and no `std::runtime_error`. `exited` is `exit(1)` and `aborted` a failed
-- assertion; the programs that use them have no handlers.
pub data Exn : Type 0 where
  bad_socket close_failed bad_ctx ssl_new_failed : Exn
  moved_socket select_failed read_timeout read_failed ssl_read_failed : Exn
  write_failed shutdown_failed connect_failed ssl_connect_failed : Exn
  ctx_new_failed certificate_failed private_key_failed key_mismatch : Exn
  bind_failed listen_failed accept_failed ssl_accept_failed : Exn
  nothing_received length_error out_of_range no_memory : Exn
  exited aborted : Exn

-- Whether `catch(std::runtime_error&)` takes it.
abbrev pub is_runtime_error : Exn → Bool
is_runtime_error length_error = false
is_runtime_error out_of_range = false
is_runtime_error no_memory = false
is_runtime_error exited = false
is_runtime_error aborted = false
is_runtime_error _ = true

pub data Outcome (S : Type 0) (A : Type 0) : Type 0 where
  done : A → S → Outcome S A
  threw : Exn → S → Outcome S A
  fault : Outcome S A
  diverged : Outcome S A

abbrev pub Run : Type 0 → Type 0 → Type 0
Run S A = S → Outcome S A

module _ {S : Type 0} where
  infixl 5 ◌>>=◌ ◌>>◌
  abbrev pub ◌>>=◌ : {A B : Type 0} → Run S A → (A → Run S B) → Run S B
  ◌>>=◌ m f s = elim (m s) [
    | done a s' ↦ f a s'
    | threw e s' ↦ threw e s'
    | fault ↦ fault
    | diverged ↦ diverged
  ]

  abbrev pub ◌>>◌ : {A B : Type 0} → Run S A → Run S B → Run S B
  ◌>>◌ m k s = elim (m s) [
    | done a s' ↦ k s'
    | threw e s' ↦ threw e s'
    | fault ↦ fault
    | diverged ↦ diverged
  ]

  abbrev pub pure : {A : Type 0} → A → Run S A
  pure a s = done a s

  abbrev pub throw : {A : Type 0} → Exn → Run S A
  throw e s = threw e s

  abbrev pub undefined : {A : Type 0} → Run S A
  undefined s = fault

  -- `try { m } catch(...) { h }`, the handler told what was thrown.
  abbrev pub try_catch : {A : Type 0} → Run S A → (Exn → Run S A) → Run S A
  try_catch m h s = elim (m s) [
    | done a s' ↦ done a s'
    | threw e s' ↦ h e s'
    | fault ↦ fault
    | diverged ↦ diverged
  ]

  abbrev pub modify : (S → S) → Run S (Unit {0})
  modify f s = done tt (f s)

-- The call came to an end, by a return or by an exception.
abbrev pub Ends : {S A : Type 0} → Outcome S A → Type 0
Ends (done a s) = Unit {0}
Ends (threw e s) = Unit {0}
Ends fault = ⊥
Ends diverged = ⊥

-- What holds of the result and state on a return, and of the exception and state on a throw.
abbrev pub Ensures : {S A : Type 0} → (A → S → Type 0) → (Exn → S → Type 0) → Outcome S A → Type 0
Ensures P Q (done a s) = P a s
Ensures P Q (threw e s) = Q e s
Ensures P Q fault = ⊥
Ensures P Q diverged = ⊥

-- A computation over one part of a larger state.
abbrev pub on_part : {S T A : Type 0} → (T → S) → (T → S → T) → Run S A → Run T A
on_part get put m t = elim (m (get t)) [
  | done a s ↦ done a (put t s)
  | threw e s ↦ threw e (put t s)
  | fault ↦ fault
  | diverged ↦ diverged
]
