-- ===== src/Inet/Os.antt =====
-- The system calls and the OpenSSL functions that libs/Inet/Socket.cpp and Socket.tpp make. Their
-- code is not the program's, so they are parameters: functions on the state of the world.
use socket_program.Base.{ℕ, ℤ, Bytes, Option, Bool, Run, done}

-- The two modes that `newSSL` sets.
pub data SslMode : Type 0 where
  auto_retry partial_write : SslMode

-- Descriptors, returned codes and the counts that OpenSSL takes are C integers. Pointers to `SSL`
-- and `SSL_CTX` objects are numbers, and a null pointer is `none`. A call that fills a buffer gives
-- its return value with the bytes that it stored.
pub record Os : Type 1 where
  pub World : Type 0
  pub socket : World → ℤ × World
  pub set_reuse_addr : ℤ → World → World
  pub bind : ℤ → ℕ → World → ℤ × World
  pub listen : ℤ → ℕ → World → ℤ × World
  pub accept : ℤ → World → ℤ × World
  pub connect : ℤ → Bytes → ℕ → World → ℤ × World
  pub select : ℤ → ℤ → World → ℤ × World
  pub read : ℤ → ℕ → World → (ℤ × Bytes) × World
  pub write : ℤ → Bytes → World → ℤ × World
  pub shutdown_write : ℤ → World → ℤ × World
  pub close : ℤ → World → ℤ × World
  pub ssl_new : ℕ → World → Option ℕ × World
  pub ssl_set_fd : ℕ → ℤ → World → ℤ × World
  pub ssl_set_mode : ℕ → SslMode → World → World
  pub ssl_connect : ℕ → World → ℤ × World
  pub ssl_accept : ℕ → World → ℤ × World
  pub ssl_read : ℕ → ℤ → World → (ℤ × Bytes) × World
  pub ssl_write : ℕ → ℤ → Bytes → World → ℤ × World
  pub ssl_shutdown : ℕ → World → ℤ × World
  pub ssl_free : ℕ → World → World
  pub ctx_new : Bool → World → Option ℕ × World
  pub ctx_use_certificate : ℕ → Bytes → World → ℤ × World
  pub ctx_use_private_key : ℕ → Bytes → World → ℤ × World
  pub ctx_check_private_key : ℕ → World → ℤ × World
  pub ctx_free : ℕ → World → World

-- A system call as a computation.
abbrev pub call : {W A : Type 0} → (W → A × W) → Run W A
call f w = let (a, w') = f w in done a w'

abbrev pub call_void : {W : Type 0} → (W → W) → Run W (Unit {0})
call_void f w = done tt (f w)
