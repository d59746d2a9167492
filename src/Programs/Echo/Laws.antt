-- ===== src/Programs/Echo/Laws.antt =====
-- What the loop of src/sserver.cpp relies on in `SSL_read`, `SSL_write` and `SSL_get_error`.
use socket_program.Base.{ℕ, ◌<◌, ℤ, pos, ◌==ℤ◌, is_nonpos, ◌≡◌, true, false, length, Bytes}
use socket_program.Inet.Os.{Os}
use socket_program.Inet.Io.Transport.{Outgoing, Incoming}
use socket_program.Programs.Echo.{ssl_error_none}
use socket_program.Programs.Echo.Library.{Openssl}

-- `SSL_get_error` tells that there was no error exactly for a positive result. It moves no byte, and
-- reading and writing do not move the bytes of the other direction.
pub record Duplex (os : Os) (lib : Openssl os) (out : Outgoing os) (inc : Incoming os)
    : Type 1 where
  pub error_none :
      (p n : ℕ) (w : os.World)
      → 0 < n
      → ((lib.ssl_get_error p (pos n) w).0 ==ℤ ssl_error_none) ≡ true
  pub error_some :
      (p : ℕ) (r : ℤ) (w : os.World)
      → is_nonpos r ≡ true
      → ((lib.ssl_get_error p r w).0 ==ℤ ssl_error_none) ≡ false
  pub error_sends :
      (p : ℕ) (r : ℤ) (w : os.World) → out.secure (lib.ssl_get_error p r w).1 p ≡ out.secure w p
  pub error_takes :
      (p : ℕ) (r : ℤ) (w : os.World) → inc.secure (lib.ssl_get_error p r w).1 p ≡ inc.secure w p
  pub read_sends :
      (p room : ℕ) (w : os.World) → out.secure (os.ssl_read p (pos room) w).1 p ≡ out.secure w p
  pub write_takes :
      (p : ℕ) (rest : Bytes) (w : os.World)
      → inc.secure (os.ssl_write p (pos (length rest)) rest w).1 p ≡ inc.secure w p
