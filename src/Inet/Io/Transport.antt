-- ===== src/Inet/Io/Transport.antt =====
-- What `putMessage` and `getMessage` rely on in `write`, `read`, `SSL_write` and `SSL_read`, as POSIX
-- and OpenSSL document them for blocking descriptors.
use socket_program.Base.{
  ℕ, ◌≤◌, ◌<◌, ℤ, pos, minus_one, is_nonpos, ◌≡◌, ◌⊎◌, true, none, some, ◌++◌, length, take, [],
  Bytes,
}
use socket_program.Inet.Os.{Os}
use socket_program.Inet.Socket.{SslSocket}

-- A count within the buffer was taken, or the call failed and nothing was.
abbrev pub Took : Bytes → ℤ → Bytes → Bytes → Type 0
Took rest ret before after =
    (n : ℕ) × (ret ≡ pos n) × (0 < n) × (n ≤ length rest) × (after ≡ before ++ take n rest)

-- The bytes that a peer was sent so far, over a descriptor and over a session.
pub record Outgoing (os : Os) : Type 1 where
  pub plain : os.World → ℤ → Bytes
  pub secure : os.World → ℕ → Bytes
  pub write_lem :
      (fd : ℤ) (rest : Bytes) (w : os.World)
      → 0 < length rest
      → let r = os.write fd rest w in
        Took rest r.0 (plain w fd) (plain r.1 fd)
        ⊎ ((r.0 ≡ minus_one) × (plain r.1 fd ≡ plain w fd))
  pub ssl_write_lem :
      (p : ℕ) (rest : Bytes) (w : os.World)
      → 0 < length rest
      → let r = os.ssl_write p (pos (length rest)) rest w in
        Took rest r.0 (secure w p) (secure r.1 p)
        ⊎ ((is_nonpos r.0 ≡ true) × (secure r.1 p ≡ secure w p))

-- What the peer of a socket was sent.
abbrev pub sent : {os : Os} → Outgoing os → SslSocket → os.World → Bytes
sent out s w = elim s.ssl [ none ↦ out.plain w s.socket | some p ↦ out.secure w p ]

-- A read stored the next bytes of the stream, and none only at its end.
abbrev pub Gave : ℕ → ℤ × Bytes → Bytes → Bytes → Type 0
Gave room r before after =
    (r.0 ≡ pos (length r.1))
    × (length r.1 ≤ room)
    × (before ≡ r.1 ++ after)
    × ((0 < length r.1) ⊎ (before ≡ []))

-- The bytes that a peer has for the program and that it has not read, over a descriptor and over a
-- session.
pub record Incoming (os : Os) : Type 1 where
  pub plain : os.World → ℤ → Bytes
  pub secure : os.World → ℕ → Bytes
  pub select_lem :
      (fd timeout fd' : ℤ) (w : os.World) → plain (os.select fd timeout w).1 fd' ≡ plain w fd'
  pub read_lem :
      (fd : ℤ) (room : ℕ) (w : os.World)
      → 0 < room
      → let r = os.read fd room w in
        Gave room r.0 (plain w fd) (plain r.1 fd)
        ⊎ ((r.0.0 ≡ minus_one) × (plain r.1 fd ≡ plain w fd))
  pub ssl_read_lem :
      (p room : ℕ) (w : os.World)
      → 0 < room
      → let r = os.ssl_read p (pos room) w in
        (Gave room r.0 (secure w p) (secure r.1 p) × (0 < length r.0.1))
        ⊎ ((is_nonpos r.0.0 ≡ true) × (secure r.1 p ≡ secure w p))

-- What the peer of a socket has sent and the program has not read.
abbrev pub pending : {os : Os} → Incoming os → SslSocket → os.World → Bytes
pending inc s w = elim s.ssl [ none ↦ inc.plain w s.socket | some p ↦ inc.secure w p ]
