-- ===== src/Inet/Connect.antt =====
-- `ConnectSocket` and `ServerSocket` (libs/Inet/Socket.cpp): how descriptors come into being.
pub mod Descriptors
pub mod Sets
pub mod Balance
pub mod Leaks
pub mod Server
pub mod Accept
use socket_program.Base.{
  ℕ, ℤ, pos, minus_one, ◌==ℤ◌, is_nonpos, word, Option, none, some, if◌then◌else◌, Bytes, codes,
}
use socket_program.Base.{
  Exn, moved_socket, connect_failed, ssl_connect_failed, bind_failed, listen_failed, accept_failed,
  ssl_accept_failed, is_runtime_error, done, fault, Run, ◌>>=◌, ◌>>◌, pure, throw, try_catch,
}
use socket_program.Inet.Os.{Os, call, call_void}
use socket_program.Inet.Socket.{
  SslCtx, SslSocket, Held, outside, new_socket, invalid_socket, move, close, new_ssl, close_ssl,
  constructing, destroy,
}
use socket_program.Inet.Ctx.{load_file}

-- `htons(port)` keeps 16 bits.
abbrev pub port_bits : ℤ → ℕ
port_bits = word 0x1_0000

abbrev pub max_connection_backlog : ℕ
max_connection_backlog = 5

module _ (os : Os) where
  open os use {World}

  abbrev pub close_and_throw : Exn → Run (Held World) (Unit {0})
  close_and_throw e = do close os; throw e

  -- `SSL_connect(getSSL())`, where a null pointer is undefined behaviour.
  unfoldable pub handshake : Run (Held World) (Unit {0})
  handshake h = elim h.object.ssl [
    | none ↦ fault
    | some p ↦
        (do
          ret ← outside (call (os.ssl_connect p))
          if ret ==ℤ minus_one then close_and_throw ssl_connect_failed else pure tt)
          h
  ]

  -- The end of the constructor: a client without a context is done.
  unfoldable pub secure_client : Run (Held World) (Unit {0})
  unfolding handshake
  secure_client h = elim h.object.sslctx [
    | none ↦ done tt h
    | some c ↦ (do try_catch (new_ssl os) (λ e. pure (pos 0)); handshake) h
  ]

  -- The constructor's body.
  unfoldable pub connect_body : Bytes → ℤ → Run (Held World) (Unit {0})
  unfolding secure_client
  connect_body host port h =
      (do
        ret ← outside (call (os.connect h.object.socket host (port_bits port)))
        if ret ==ℤ pos 0 then secure_client else close_and_throw connect_failed)
        h

  -- `ConnectSocket(std::string const& host, int port, SSLCtx* ctx)`
  unfoldable pub connect_socket : ℕ → Bytes → ℤ → Option SslCtx → Run World SslSocket
  unfolding connect_body
  connect_socket fuel host port ctx = do
    fd ← call os.socket
    let (this, temporary) = move none (new_socket fd ctx)
    destroy os fuel temporary
    constructing os fuel (connect_body host port) this

  -- `LoadFile` inside `ServerSocket`: on an error `closeSSL` runs and the error goes on.
  unfoldable pub secure_server : ℕ → Run (Held World) (Unit {0})
  secure_server fuel h = elim h.object.sslctx [
    | none ↦ done tt h
    | some c ↦
        try_catch (outside (load_file os c (codes "example.crt") (codes "example.key")))
          (λ e. if is_runtime_error e then (do close_ssl os fuel; throw e) else throw e) h
  ]

  unfoldable pub server_body : ℕ → ℤ → Run (Held World) (Unit {0})
  unfolding secure_server
  server_body fuel port h =
      (do
        outside (call_void (os.set_reuse_addr h.object.socket))
        bound ← outside (call (os.bind h.object.socket (port_bits port)))
        if bound ==ℤ pos 0
            then (do
              listening ← outside (call (os.listen h.object.socket max_connection_backlog))
              if listening ==ℤ pos 0 then secure_server fuel else close_and_throw listen_failed)
            else close_and_throw bind_failed)
        h

  -- `ServerSocket(int port, SSLCtx* ctx)`
  unfoldable pub server_socket : ℕ → ℤ → Option SslCtx → Run World SslSocket
  unfolding server_body
  server_socket fuel port ctx = do
    fd ← call os.socket
    constructing os fuel (server_body fuel port) (new_socket fd ctx)

  -- `SSL_accept(newssl.getSSL())`
  unfoldable pub accept_handshake : Run (Held World) (Unit {0})
  accept_handshake h = elim h.object.ssl [
    | none ↦ fault
    | some p ↦
        (do
          ret ← outside (call (os.ssl_accept p))
          if is_nonpos ret then throw ssl_accept_failed else pure tt)
          h
  ]

  -- What `accept` does to `newssl`.
  unfoldable pub accept_body : Run (Held World) (Unit {0})
  unfolding accept_handshake
  accept_body h = elim h.object.sslctx [
    | none ↦ done tt h
    | some c ↦ (do new_ssl os; accept_handshake) h
  ]

  -- `ServerSocket::accept`. The result is moved out of the local `newssl`, whose destructor runs
  -- also where an exception leaves the function.
  unfoldable pub accept : ℕ → SslSocket → Run World SslSocket
  unfolding accept_body
  accept fuel server = if server.socket ==ℤ invalid_socket then throw moved_socket else do
    fd ← call (os.accept server.socket)
    if fd ==ℤ minus_one then throw accept_failed else (do
      newssl ← constructing os fuel accept_body (new_socket fd server.sslctx)
      pure (move none newssl).0)
