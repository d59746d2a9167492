-- ===== src/Inet/Io.antt =====
-- `IOSocket::putMessage` (libs/Inet/Socket.cpp) and `IOSocket::getMessage` (libs/Inet/Socket.tpp).
-- Neither changes the object.
pub mod Transport
pub mod Delivery
pub mod Stream
pub mod Quiet
use socket_program.Base.{
  ℕ, zero, suc, ◌-◌, ℤ, pos, minus_one, ◌==ℤ◌, is_nonpos, to_int, word, size_mod, add_size, Bool,
  true, false, none, some, [], ◌++◌, length, drop, ltb, if◌then◌else◌, Bytes,
}
use socket_program.Base.{
  moved_socket, select_failed, read_timeout, read_failed, ssl_read_failed, write_failed, done,
  diverged, Run, ◌>>=◌, pure, throw,
}
use socket_program.Inet.Os.{Os, call}
use socket_program.Inet.Socket.{SslSocket}

-- What `scanForEnd` is called with: the count of the last read, and the bytes that it stored.
abbrev pub Scan : Type 0
Scan = ℕ → Bytes → Bool

-- The scanner of every caller but `recvRequest`: stop after the first read.
abbrev pub scan_any : Scan
scan_any n chunk = true

module _ (os : Os) where
  open os use {World}

  -- One `SSL_write` or `write` of the bytes that are left, with its error exits.
  unfoldable pub put_once : SslSocket → Bytes → Run World ℤ
  put_once s rest = elim s.ssl [
    | some p ↦ do
      put ← call (os.ssl_write p (to_int (pos (length rest))) rest)
      if is_nonpos put then throw write_failed else pure put
    | none ↦ do
      ret ← call (os.write s.socket rest)
      let put = to_int ret
      if put ==ℤ minus_one then throw write_failed else pure put
  ]

  -- The loop of `putMessage`, from `dataWritten`.
  unfoldable pub put_loop : ℕ → SslSocket → Bytes → ℕ → Run World ℤ
  put_loop zero s buffer written w = diverged
  put_loop (suc fuel) s buffer written w = elim (ltb written (length buffer)) [
    | false ↦ done (pos 0) w
    | true ↦
        (do put ← put_once s (drop written buffer); put_loop fuel s buffer (add_size written put)) w
  ]

  -- `IOSocket::putMessage`. A round that makes progress writes a byte, so one more round than there
  -- are bytes is enough.
  unfoldable pub put_message : SslSocket → Bytes → Run World ℤ
  put_message s buffer = put_loop (suc (length buffer)) s buffer 0

  -- The `read` of `getMessage`, with its error exit.
  unfoldable pub read_once : SslSocket → ℕ → Run World (ℤ × Bytes)
  read_once s room = do
    r ← call (os.read s.socket room)
    let get = to_int r.0
    if get ==ℤ minus_one then throw read_failed else pure (get, r.1)

  -- What the loop of `getMessage` does with the value of `select`.
  unfoldable pub read_ready : SslSocket → ℕ → ℤ → Run World (ℤ × Bytes)
  unfolding read_once
  read_ready s room state =
      if state ==ℤ minus_one
      then throw select_failed
      else if state ==ℤ pos 0
      then throw read_timeout
      else read_once s room

  -- One `SSL_read` or `read` into the room that is left, with its error exits.
  unfoldable pub get_once : SslSocket → ℕ → ℤ → Run World (ℤ × Bytes)
  unfolding read_ready
  get_once s room timeout = elim s.ssl [
    | some p ↦ do
      r ← call (os.ssl_read p (to_int (pos room)))
      if is_nonpos r.0 then throw ssl_read_failed else pure r
    | none ↦ do
      state ← if timeout ==ℤ minus_one then pure (pos 1) else call (os.select s.socket timeout)
      read_ready s room state
  ]

  -- The end of a round: `again` is the loop.
  unfoldable pub get_next :
      Scan → ℕ → Bytes → ℤ × Bytes → (ℕ → Bytes → Run World (ℕ × Bytes)) → Run World (ℕ × Bytes)
  get_next scan data_read buffer r again =
      let data_read' = add_size data_read r.0 in
      let buffer' = buffer ++ r.1 in
      if r.0 ==ℤ pos 0
      then pure (data_read, buffer)
      else if scan (word size_mod r.0) r.1
      then pure (data_read', buffer')
      else again data_read' buffer'

  -- The loop of `getMessage`, from `dataRead` and the bytes that the buffer holds. It returns both.
  unfoldable pub get_loop : ℕ → SslSocket → ℕ → ℤ → Scan → ℕ → Bytes → Run World (ℕ × Bytes)
  unfolding get_next
  get_loop zero s size timeout scan data_read buffer w = diverged
  get_loop (suc fuel) s size timeout scan data_read buffer w = elim (ltb data_read size) [
    | false ↦ done (data_read, buffer) w
    | true ↦
        (do
          r ← get_once s (size - data_read) timeout
          get_next scan data_read buffer r (get_loop fuel s size timeout scan))
          w
  ]

  -- `IOSocket::getMessage`: the number of bytes read, and the bytes.
  unfoldable pub get_message : SslSocket → ℕ → ℤ → Scan → Run World (ℕ × Bytes)
  get_message s size timeout scan =
      if s.socket ==ℤ pos 0
      then throw moved_socket
      else get_loop (suc size) s size timeout scan 0 []
