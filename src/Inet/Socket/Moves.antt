-- ===== src/Inet/Socket/Moves.antt =====
-- The move constructor and the move assignment of `SSLSocket`.
use socket_program.Base.{ℕ, ◌≡◌, refl, done, Option}
use socket_program.Inet.Os.{Os}
use socket_program.Inet.Socket.{SslCtx, SslSocket, swap, move, destroy, close_ssl, destroy_base}

-- The move constructor makes an object that is the one moved from, whatever its members, and what is
-- left of that one has nothing to release: its destructor makes no system call.
pub move-HandsOver :
    (os : Os) (fuel : ℕ) (junk : Option SslCtx) (s : SslSocket) (w : os.World)
    → ((move junk s).0 ≡ s) × (destroy os fuel (move junk s).1 w ≡ done tt w)
unfolding move swap destroy close_ssl destroy_base
move-HandsOver os fuel junk s w = (refl, refl)
