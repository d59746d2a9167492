-- ===== src/Programs/Server/Threads.antt =====
-- The threads of src/server.cpp: what they leave open when they end.
use socket_program.Base.{ℕ, ℤ, minus_one, ◌==ℤ◌, ◌≡◌, refl, true, false, inr}
use socket_program.Base.{
  Run, Outcome, done, threw, fault, diverged, ◌>>◌, pure, throw, Leaves, Leaves-then, Leaves-catch,
  Ensures-Leaves,
}
use socket_program.Inet.Os.{Os}
use socket_program.Inet.Socket.{SslSocket, destroy}
use socket_program.Inet.Io.Quiet.{Still}
use socket_program.Inet.Connect.Descriptors.{FdSet, with_fd, Descriptors}
use socket_program.Inet.Connect.Balance.{destroy-Released}
use socket_program.Protocols.Simple.{Reserve}
use socket_program.Protocols.Http.State.{Http, Site, new_http}
use socket_program.Protocols.Http.Request.{recv_request}
use socket_program.Protocols.Http.Response.{send_response}
use socket_program.Protocols.Http.Quiet.{On, recv_request-Leaves}
use socket_program.Protocols.Http.Quiet.Sending.{SiteFiles, send_response-Leaves, destroy_http-Base}
use socket_program.Programs.Server.{message_capacity, destroyed_with, end_session, http_session}

module _ (os : Os) (fuel : ℕ) (fds : Descriptors os fuel) where
  open os use {World}

  -- A session that ends has closed the descriptor that it was given, and left no other open.
  abbrev pub GivesBack : (SslSocket → Run World (Unit {0})) → Type 0
  GivesBack session =
      (before : FdSet) (s : SslSocket) (w : World)
      → ((s.socket ==ℤ minus_one) ≡ false)
      → before s.socket ≡ false
      → fds.is_open w ≡ with_fd before s.socket true
      → Leaves (λ w'. fds.is_open w' ≡ before) (session s w)

  pub destroy-Leaves :
      (before : FdSet) (fd : ℤ) (s : SslSocket) (w : World)
      → ((fd ==ℤ minus_one) ≡ false)
      → before fd ≡ false
      → s.socket ≡ fd
      → fds.is_open w ≡ with_fd before fd true
      → Leaves (λ v. fds.is_open v ≡ before) (destroy os fuel s w)
  destroy-Leaves before fd s w valid closed e i =
      Ensures-Leaves _ (destroy os fuel s w)
        (destroy-Released os fuel fds before s w (inr (rw e valid, rw e closed, rw e i)))

  -- The socket of a thread is destroyed at its end.
  pub ended-Leaves :
      {P : Type 0} (socket : P → SslSocket) (world : P → World) (I : P → Type 0)
      (K : World → Type 0) (o : Outcome P (Unit {0}))
      → Leaves I o
      → ((p : P) → I p → Leaves K (destroy os fuel (socket p) (world p)))
      → Leaves K (end_session socket world (destroy os fuel) o)
  unfolding end_session
  ended-Leaves socket world I K (done u p) i close = close p i
  ended-Leaves socket world I K (threw x p) i close =
      Leaves-then K (destroy os fuel (socket p)) (throw x) (world p) (close p i) (λ v k. k)
  ended-Leaves socket world I K fault i close = tt
  ended-Leaves socket world I K diverged i close = tt

  pub end_session-Leaves :
      (before : FdSet) (fd : ℤ) (o : Outcome (Http World) (Unit {0}))
      → ((fd ==ℤ minus_one) ≡ false)
      → before fd ≡ false
      → Leaves (λ h. (h.socket.socket ≡ fd) × (fds.is_open h.world ≡ with_fd before fd true)) o
      → Leaves
          (λ v. fds.is_open v ≡ before)
          (end_session (λ h. h.socket) (λ h. h.world) (destroy os fuel) o)
  end_session-Leaves before fd o valid closed l =
      ended-Leaves (λ h. h.socket) (λ h. h.world)
        (λ h. (h.socket.socket ≡ fd) × (fds.is_open h.world ≡ with_fd before fd true))
        (λ v. fds.is_open v ≡ before) o l
        (λ h (e, i). destroy-Leaves before fd h.socket h.world valid closed e i)

  -- `~ProtocolHttp` at the end of its block.
  pub destroyed-Leaves :
      {A : Type 0} (site : Site World) (files : SiteFiles site fds.is_open)
      (still : (set : FdSet) → Still os (λ w. fds.is_open w ≡ set)) (base : FdSet) (fd : ℤ)
      (o : Outcome (Http World) A)
      → Leaves (On os fds.is_open base still fd) o
      → Leaves (λ h. (h.socket.socket ≡ fd) × (fds.is_open h.world ≡ base)) (destroyed_with site o)
  unfolding destroyed_with
  destroyed-Leaves site files still base fd (done a h) i =
      destroy_http-Base os fds.is_open base still fd site files fuel h i
  destroyed-Leaves site files still base fd (threw e h) i =
      destroy_http-Base os fds.is_open base still fd site files fuel h i
  destroyed-Leaves site files still base fd fault i = tt
  destroyed-Leaves site files still base fd diverged i = tt

  module _ (reserve : Reserve) (site : Site World)
      (still : (set : FdSet) → Still os (λ w. fds.is_open w ≡ set))
      (files : SiteFiles site fds.is_open) where
    -- The thread of the HTTP server, where calls on open sockets and the clock open and close no
    -- descriptor, and opening a file gives one that was not open, or fails: when it ends, also by an
    -- exception, it has closed the descriptor that it was given and the one of the file that it
    -- opened, and left no other open.
    pub http_session-GivesBack : GivesBack (http_session os fuel reserve site)
    unfolding http_session
    http_session-GivesBack before s w valid closed opens =
        let base : FdSet = with_fd before s.socket true in
        let J = On os fds.is_open base still s.socket in
        let answer : Run (Http World) (Unit {0}) = (do send_response os site fuel; pure tt) in
        let both : Run (Http World) (Unit {0}) = (do
          recv_request os reserve message_capacity
          send_response os site fuel
          pure tt) in
        end_session-Leaves before s.socket _ valid closed (
          Leaves-catch (λ h. (h.socket.socket ≡ s.socket) × (fds.is_open h.world ≡ base))
            (λ h. destroyed_with site (both h)) (λ e. pure tt) (new_http s w)
            (destroyed-Leaves site files still base s.socket (both (new_http s w)) (
              Leaves-then J (recv_request os reserve message_capacity) answer (new_http s w)
                (recv_request-Leaves os fds.is_open base still s.socket reserve message_capacity
                  (new_http s w) (refl, opens))
                (λ h i.
                  Leaves-then J (send_response os site fuel) (pure tt) h
                    (send_response-Leaves os fds.is_open base still s.socket site files fuel h i)
                    (λ h' i'. i'))))
            (λ e h i. i))
