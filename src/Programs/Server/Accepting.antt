-- ===== src/Programs/Server/Accepting.antt =====
-- What src/server.cpp and src/ftpServer.cpp give to a thread.
use socket_program.Base.{ℕ, minus_one, ◌==ℤ◌, ◌≡◌, true, false, none}
use socket_program.Base.{◌>>◌, pure, Ensures, Ensures-bind}
use socket_program.Inet.Os.{Os}
use socket_program.Inet.Socket.{SslSocket, move, destroy}
use socket_program.Inet.Socket.Moves.{move-HandsOver}
use socket_program.Inet.Connect.{accept}
use socket_program.Inet.Connect.Descriptors.{with_fd, Descriptors}
use socket_program.Inet.Connect.Accept.{accept-Owns}
use socket_program.Programs.Server.{accept_one}

module _ (os : Os) (fuel : ℕ) (fds : Descriptors os fuel) where
  open os use {World}

  -- A round of the accept loop gives the thread an object that owns the one new descriptor, which is valid
  -- and was not open before, with nothing else opened or closed by what is left of it in `main`; or it
  -- throws, and what is open is what was open before.
  pub accept_one-Owns :
      (server : SslSocket) (w : World)
      → Ensures
          (λ s w'.
            ((s.socket ==ℤ minus_one) ≡ false)
            × (fds.is_open w s.socket ≡ false)
            × (fds.is_open w' ≡ with_fd (fds.is_open w) s.socket true))
          (λ e w'. fds.is_open w' ≡ fds.is_open w)
          (accept_one os fuel server w)
  unfolding accept_one
  accept_one-Owns server w =
      Ensures-bind _ _ _ _ (accept os fuel server)
        (λ s. do destroy os fuel (move none s).1; pure (move none s).0) w
        (accept-Owns os fuel fds server w)
        (λ s w' owns.
          let moved = move-HandsOver os fuel none s w' in rw (moved.1, moved.0, Ensures) owns)
        (λ e w' same. same)
