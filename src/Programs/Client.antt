-- ===== src/Programs/Client.antt =====
-- src/client.cpp: sends the lines of a file to an HTTP server, and reads the answer.
pub mod Descriptors
use socket_program.Base.{ℕ, ℤ, pos, Option, none, some, List, [], ◌∷◌, Bytes, c_str}
use socket_program.Base.{exited, Run, ◌>>=◌, ◌>>◌, pure, throw, try_catch}
use socket_program.Inet.Os.{Os, call}
use socket_program.Inet.Socket.{SslSocket, destroy}
use socket_program.Inet.Connect.{connect_socket}
use socket_program.Protocols.Simple.{Reserve}
use socket_program.Protocols.Ftp.Data.{Host}
use socket_program.Protocols.Http.State.{Http, Site, new_http, set_request_host}
use socket_program.Protocols.Http.Client.{send_request_fd, recv_message}
use socket_program.Programs.Server.{atoi, message_capacity, destroyed_with, end_session}

-- The loop over the addresses of a host: the last one is taken, and without any the name stays.
unfoldable pub last_address : Bytes → List Bytes → Bytes
last_address host [] = host
last_address host (address ∷ more) = last_address address more

module _ (os : Os) (reserve : Reserve) (site : Site os.World) (host : Host os.World) where
  open os use {World}

  -- The requests on a connection. The file has at most `lines` lines and the answer at most `reads`
  -- reads.
  unfoldable pub exchange : ℕ → ℕ → Bytes → Bytes → Run (Http World) (Unit {0})
  exchange lines reads name doc = do
    set_request_host name
    send_request_fd os reserve site lines doc
    recv_message os reserve site reads message_capacity
    pure tt

  unfoldable pub client_session : ℕ → ℕ → ℕ → Bytes → Bytes → SslSocket → Run World (Unit {0})
  unfolding exchange destroyed_with end_session
  client_session fuel lines reads name doc s w =
      end_session (λ h. h.socket) (λ h. h.world) (destroy os fuel)
        (destroyed_with site (exchange lines reads name doc (new_http s w)))

  unfoldable pub talk : ℕ → ℕ → ℕ → Bytes → ℤ → Bytes → Bytes → Run World (Unit {0})
  unfolding client_session
  talk fuel lines reads address port name doc =
      try_catch
        (do
          s ← connect_socket os fuel address port none
          client_session fuel lines reads name doc s)
        (λ e. pure tt)

  -- `main`. What it prints, and the sleep of 10 seconds before the socket is closed, are left out.
  unfoldable pub client_main : ℕ → ℕ → ℕ → List Bytes → Run World ℤ
  unfolding talk last_address
  client_main fuel lines reads (program ∷ name ∷ port ∷ doc ∷ []) = do
    found ← call (host.get_host_by_name (c_str name))
    let address : Bytes = elim found [ none ↦ name | some addresses ↦ last_address name addresses ]
    talk fuel lines reads address (atoi port) name doc
    pure (pos 0)
  client_main fuel lines reads _ = throw exited
