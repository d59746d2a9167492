-- ===== src/Inet/Connect/Descriptors.antt =====
-- What the sockets rely on in the system's calls for the set of the open descriptors, as POSIX
-- documents it.
use mathlib.Core.Path.{fun_ext}
use socket_program.Base.{
  ℕ, ℤ, pos, negsuc, minus_one, ◌==ℤ◌, ◌≡◌, ◌⊎◌, Bool, true, false, Bytes, arith, if◌then◌else◌,
  Ensures,
}
use socket_program.Inet.Os.{Os, SslMode}
use socket_program.Inet.Socket.{shutdown_loop}

abbrev pub FdSet : Type 0
FdSet = ℤ → Bool

abbrev pub with_fd : FdSet → ℤ → Bool → FdSet
with_fd f fd b x = if x ==ℤ fd then b else f x

-- A call that makes a descriptor gives one that was not open, and opens it; or it fails with -1.
abbrev pub Made : FdSet → ℤ → FdSet → Type 0
Made before ret after =
    ((ret ≡ minus_one) × (after ≡ before))
    ⊎ (((ret ==ℤ minus_one) ≡ false) × (before ret ≡ false) × (after ≡ with_fd before ret true))

-- The last law says that `SSL_shutdown` gives something other than 0 within the rounds of the fuel.
pub record Descriptors (os : Os) (fuel : ℕ) : Type 1 where
  pub is_open : os.World → FdSet
  pub socket_lem : (w : os.World) → let r = os.socket w in Made (is_open w) r.0 (is_open r.1)
  pub accept_lem :
      (fd : ℤ) (w : os.World) → let r = os.accept fd w in Made (is_open w) r.0 (is_open r.1)
  pub close_lem :
      (fd : ℤ) (w : os.World)
      → is_open w fd ≡ true
      → let r = os.close fd w in (r.0 ≡ pos 0) × (is_open r.1 ≡ with_fd (is_open w) fd false)
  pub connect_keeps :
      (fd : ℤ) (host : Bytes) (port : ℕ) (w : os.World)
      → is_open (os.connect fd host port w).1 ≡ is_open w
  pub connect_invalid :
      (host : Bytes) (port : ℕ) (w : os.World)
      → ((os.connect minus_one host port w).0 ==ℤ pos 0) ≡ false
  pub reuse_keeps : (fd : ℤ) (w : os.World) → is_open (os.set_reuse_addr fd w) ≡ is_open w
  pub bind_keeps : (fd : ℤ) (port : ℕ) (w : os.World) → is_open (os.bind fd port w).1 ≡ is_open w
  pub bind_invalid : (port : ℕ) (w : os.World) → ((os.bind minus_one port w).0 ==ℤ pos 0) ≡ false
  pub listen_keeps :
      (fd : ℤ) (backlog : ℕ) (w : os.World) → is_open (os.listen fd backlog w).1 ≡ is_open w
  pub ssl_new_keeps : (ctx : ℕ) (w : os.World) → is_open (os.ssl_new ctx w).1 ≡ is_open w
  pub set_fd_keeps : (p : ℕ) (fd : ℤ) (w : os.World) → is_open (os.ssl_set_fd p fd w).1 ≡ is_open w
  pub set_mode_keeps :
      (p : ℕ) (mode : SslMode) (w : os.World) → is_open (os.ssl_set_mode p mode w) ≡ is_open w
  pub ssl_accept_keeps : (p : ℕ) (w : os.World) → is_open (os.ssl_accept p w).1 ≡ is_open w
  pub ssl_free_keeps : (p : ℕ) (w : os.World) → is_open (os.ssl_free p w) ≡ is_open w
  pub certificate_keeps :
      (p : ℕ) (file : Bytes) (w : os.World)
      → is_open (os.ctx_use_certificate p file w).1 ≡ is_open w
  pub private_key_keeps :
      (p : ℕ) (file : Bytes) (w : os.World)
      → is_open (os.ctx_use_private_key p file w).1 ≡ is_open w
  pub check_keeps : (p : ℕ) (w : os.World) → is_open (os.ctx_check_private_key p w).1 ≡ is_open w
  pub shutdown_lem :
      (p : ℕ) (w : os.World)
      → Ensures (λ u w'. is_open w' ≡ is_open w) (λ e w'. ⊥) (shutdown_loop os fuel p w)

pub ==ℤ_self : (z : ℤ) → (z ==ℤ z) ≡ true
==ℤ_self (pos n) = ground arith
==ℤ_self (negsuc n) = ground arith

pub ==ℤ_eq : (a b : ℤ) → (a ==ℤ b) ≡ true → a ≡ b
==ℤ_eq (pos a) (pos b) h = ground arith
==ℤ_eq (pos a) (negsuc b) h = cc
==ℤ_eq (negsuc a) (pos b) h = cc
==ℤ_eq (negsuc a) (negsuc b) h = ground arith

-- To open a descriptor that was not open and to close it again changes nothing.
pub with_fd-with_fd : (f : FdSet) (fd : ℤ) → f fd ≡ false → with_fd (with_fd f fd true) fd false ≡ f
with_fd-with_fd f fd fresh = fun_ext λ x. ground (arith, ==ℤ_eq x fd)
