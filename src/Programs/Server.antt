-- ===== src/Programs/Server.antt =====
-- src/server.cpp and src/ftpServer.cpp: servers with a thread for each client.
pub mod Accepting
pub mod Threads
pub mod Leftover
use socket_program.Base.{
  ℕ, ℤ, pos, ◌==ℤ◌, Bool, true, false, Option, none, some, List, [], ◌∷◌, ◌++◌, ◌≡◌, Bytes, c_str,
  scan_int, if◌then◌else◌,
}
use socket_program.Base.{
  Exn, exited, Outcome, done, threw, fault, diverged, Run, ◌>>=◌, ◌>>◌, pure, throw, try_catch,
}
use socket_program.Inet.Os.{Os}
use socket_program.Inet.Socket.{SslCtx, SslSocket, move, destroy}
use socket_program.Inet.Ctx.{new_ctx}
use socket_program.Inet.Connect.{server_socket, accept}
use socket_program.Protocols.Simple.{Reserve}
use socket_program.Protocols.Http.State.{Http, Site, new_http, destroy_http}
use socket_program.Protocols.Http.Request.{recv_request}
use socket_program.Protocols.Http.Response.{send_response}
use socket_program.Protocols.Ftp.State.{Ftp, new_ftp}
use socket_program.Protocols.Ftp.Data.{Host}
use socket_program.Protocols.Ftp.Session.{start_protocol}

-- `atoi`, which gives 0 for a text that is no number.
abbrev pub atoi : Bytes → ℤ
atoi s = elim (scan_int (c_str s)) [ none ↦ pos 0 | some (n, rest) ↦ n ]

-- The arguments of `main`: the port, or `PrintUsage`, which exits.
unfoldable pub port_of : {S : Type 0} → List Bytes → Run S ℤ
unfolding scan_int c_str
port_of (name ∷ port ∷ []) = pure (atoi port)
port_of _ = throw exited

-- `std::string message` holds 15 bytes without memory of its own.
abbrev pub message_capacity : ℕ
message_capacity = 15

-- The descriptor of the session's socket is closed where the thread's function ends.
unfoldable pub end_session :
    {W P : Type 0}
    → (P → SslSocket)
    → (P → W)
    → (SslSocket → Run W (Unit {0}))
    → Outcome P (Unit {0})
    → Outcome W (Unit {0})
end_session socket world destroy_it (done u p) = destroy_it (socket p) (world p)
end_session socket world destroy_it (threw e p) = (do destroy_it (socket p); throw e) (world p)
end_session socket world destroy_it fault = fault
end_session socket world destroy_it diverged = diverged

-- `~ProtocolHttp` at the end of its block, also where an exception leaves it.
unfoldable pub destroyed_with : {W A : Type 0} → Site W → Outcome (Http W) A → Outcome (Http W) A
unfolding destroy_http
destroyed_with site (done a h) = done a (destroy_http site h)
destroyed_with site (threw e h) = threw e (destroy_http site h)
destroyed_with site fault = fault
destroyed_with site diverged = diverged

module _ (os : Os) (fuel : ℕ) where
  open os use {World}

  -- The thread of src/server.cpp. Whatever is thrown is caught.
  unfoldable pub http_session : Reserve → Site World → SslSocket → Run World (Unit {0})
  unfolding end_session destroyed_with
  http_session reserve site s w =
      end_session (λ h. h.socket) (λ h. h.world) (destroy os fuel)
        (try_catch
          (λ h.
            destroyed_with site (
              (do recv_request os reserve message_capacity; send_response os site fuel; pure tt) h))
          (λ e. pure tt) (new_http s w))

  -- The thread of src/ftpServer.cpp. `~ProtocolFtp` only logs: a data connection that is left stays open.
  unfoldable pub ftp_session : Host World → Reserve → ℕ → SslSocket → Run World (Unit {0})
  unfolding end_session
  ftp_session host reserve rounds s w =
      end_session (λ f. f.control) (λ f. f.world) (destroy os fuel)
        (try_catch (start_protocol os host reserve fuel message_capacity rounds) (λ e. pure tt)
          (new_ftp s w))

  -- `server.accept()`, with the result moved into the thread, and what is left of it destroyed.
  unfoldable pub accept_one : SslSocket → Run World SslSocket
  accept_one server = do
    s ← accept os fuel server
    let (argument, left) = move none s
    destroy os fuel left
    pure argument

  -- `main` up to the loop: the listening socket. `SSLCtx` is made outside the try block.
  unfoldable pub listening : ℤ → Run World SslSocket
  listening port =
      if port ==ℤ pos 443
      then (do c ← new_ctx os true; server_socket os fuel port (some c))
      else server_socket os fuel port none
