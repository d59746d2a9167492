-- ===== src/Inet/Socket.antt =====
-- libs/Inet/Socket.h and Socket.cpp: `BaseSocket`, `SSLSocket` and the parts of `IOSocket` that
-- change the object. A class and its bases are one record; a method is a computation over the object
-- and the world.
pub mod Moves
use socket_program.Base.{ℕ, zero, suc, ℤ, pos, minus_one, ◌==ℤ◌, Option, none, some, if◌then◌else◌}
use socket_program.Base.{
  bad_socket, close_failed, bad_ctx, ssl_new_failed, shutdown_failed, Outcome, on_part, done, threw,
  fault, diverged, Run, ◌>>=◌, ◌>>◌, pure, throw, try_catch,
}
use socket_program.Inet.Os.{Os, auto_retry, partial_write, call, call_void}

-- An `SSLCtx` object, reached by pointer: its `m_ctx`.
pub record SslCtx : Type 0 where
  pub ctx : Option ℕ

pub record SslSocket : Type 0 where
  pub socket : ℤ
  pub ssl : Option ℕ
  pub sslctx : Option SslCtx

abbrev pub invalid_socket : ℤ
invalid_socket = minus_one

-- `SSLSocket(int socket, SSLCtx* ctx)`, and `BaseSocket(int socket)` under it, which only logs a
-- bad descriptor.
abbrev pub new_socket : ℤ → Option SslCtx → SslSocket
new_socket fd ctx = record { socket = fd; ssl = none; sslctx = ctx }

-- `swap`, which exchanges the three members.
unfoldable pub swap : SslSocket → SslSocket → SslSocket × SslSocket
swap a b = (
  record { socket = b.socket; ssl = b.ssl; sslctx = b.sslctx },
  record { socket = a.socket; ssl = a.ssl; sslctx = a.sslctx },
)

-- The move constructor: the new object, and what is left of the source. `m_sslctx` of the new object
-- is not initialised before the swap, so its value, `junk`, ends up in the source.
unfoldable pub move : Option SslCtx → SslSocket → SslSocket × SslSocket
unfolding swap
move junk source =
    let (source', this) = swap source (new_socket invalid_socket junk) in (this, source')

-- Move assignment: `this` and the source after it.
unfoldable pub move_assign : SslSocket → SslSocket → SslSocket × SslSocket
unfolding swap
move_assign this source = let (source', this') = swap source this in (this', source')

-- An object in use, with the world.
pub record Held (W : Type 0) : Type 0 where
  pub object : SslSocket
  pub world : W

-- A computation on the world, from a method.
abbrev pub outside : {W A : Type 0} → Run W A → Run (Held W) A
outside = on_part (λ h. h.world) (λ h w. record h { world = w })

abbrev pub set_socket : {W : Type 0} → ℤ → Run (Held W) (Unit {0})
set_socket fd h = done tt (record { object = record h.object { socket = fd }; world = h.world })

abbrev pub set_ssl : {W : Type 0} → Option ℕ → Run (Held W) (Unit {0})
set_ssl p h = done tt (record { object = record h.object { ssl = p }; world = h.world })

-- The object is gone at the end of the call.
abbrev pub forget : {W A : Type 0} → Outcome (Held W) A → Outcome W A
forget (done a h) = done a h.world
forget (threw e h) = threw e h.world
forget fault = fault
forget diverged = diverged

module _ (os : Os) where
  open os use {World}

  -- `BaseSocket::close`
  unfoldable pub close : Run (Held World) (Unit {0})
  close h =
      if h.object.socket ==ℤ invalid_socket
      then threw bad_socket h
      else (do
        state ← outside (call (os.close h.object.socket))
        if state ==ℤ invalid_socket then throw close_failed else set_socket invalid_socket)
          h

  -- `BaseSocket::~BaseSocket`
  unfoldable pub destroy_base : Run (Held World) (Unit {0})
  unfolding close
  destroy_base h =
      if h.object.socket ==ℤ invalid_socket then done tt h else try_catch close (λ e. pure tt) h

  -- `newSSL` after `SSL_new`.
  unfoldable pub attach : Option ℕ → Run (Held World) ℤ
  attach none h = threw ssl_new_failed h
  attach (some p) h =
      (do
        outside (call (os.ssl_set_fd p h.object.socket))
        outside (call_void (os.ssl_set_mode p auto_retry))
        outside (call_void (os.ssl_set_mode p partial_write))
        pure (pos 0))
        h

  -- `SSLSocket::newSSL`. The object that `m_sslctx` points to is read first.
  unfoldable pub new_ssl : Run (Held World) ℤ
  unfolding attach
  new_ssl h = elim h.object.sslctx [
    | none ↦ fault
    | some c ↦ elim c.ctx [
      | none ↦ threw bad_ctx h
      | some ctx ↦ (do p ← outside (call (os.ssl_new ctx)); set_ssl p; attach p) h
    ]
  ]

  -- The loop of `closeSSL`: `SSL_shutdown` is called until it returns something other than 0.
  unfoldable pub shutdown_loop : ℕ → ℕ → Run World (Unit {0})
  shutdown_loop zero p w = diverged
  shutdown_loop (suc fuel) p w =
      let (ret, w') = os.ssl_shutdown p w in
      let again = shutdown_loop fuel p w' in if ret ==ℤ pos 0 then again else done tt w'

  -- `SSLSocket::closeSSL`
  unfoldable pub close_ssl : ℕ → Run (Held World) (Unit {0})
  close_ssl fuel h = elim h.object.ssl [
    | none ↦ done tt h
    | some p ↦
        (do outside (shutdown_loop fuel p); outside (call_void (os.ssl_free p)); set_ssl none) h
  ]

  -- `SSLSocket::~SSLSocket` and then `BaseSocket::~BaseSocket`; the object is gone.
  unfoldable pub destroy : ℕ → SslSocket → Run World (Unit {0})
  unfolding close_ssl destroy_base
  destroy fuel s w =
      let ended = (do close_ssl fuel; destroy_base) (record { object = s; world = w }) in
      forget ended

  -- `putClose` after `closeSSL`.
  unfoldable pub close_write : Run (Held World) (Unit {0})
  close_write h =
      (do
        ret ← outside (call (os.shutdown_write h.object.socket))
        if ret ==ℤ pos 0 then pure tt else throw shutdown_failed)
        h

  -- `IOSocket::putClose`
  unfoldable pub put_close : ℕ → Run (Held World) (Unit {0})
  unfolding close_ssl close_write
  put_close fuel = do close_ssl fuel; close_write

  -- The body of a constructor: where it throws, the bases that are built are destroyed.
  unfoldable pub constructing : ℕ → Run (Held World) (Unit {0}) → SslSocket → Run World SslSocket
  constructing fuel body s w = elim (body (record { object = s; world = w })) [
    | done _ h ↦ done h.object h.world
    | threw e h ↦ (do destroy fuel h.object; throw e) h.world
    | fault ↦ fault
    | diverged ↦ diverged
  ]
