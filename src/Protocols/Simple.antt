-- ===== src/Protocols/Simple.antt =====
-- libs/Protocols/ProtocolSimple.cpp: whole messages over a socket, with no protocol.
pub mod Stream
pub mod Quiet
use socket_program.Base.{
  Option, none, some, ℕ, zero, suc, ◌+◌, ◌-◌, ◌*◌, ◌/◌, minus_one, size_mod, ◌==◌, [], ◌++◌,
  if◌then◌else◌, Bytes,
}
use socket_program.Base.{diverged, Run, ◌>>=◌, ◌>>◌, pure, modify, on_part, throw, no_memory}
use socket_program.Inet.Os.{Os}
use socket_program.Inet.Socket.{SslSocket}
use socket_program.Inet.Io.{scan_any, put_message, get_message}

-- What `std::string` leaves to the library: the capacity that `reserve` gives, from the old one and
-- the one asked for, or none where there is no memory for it and it throws.
abbrev pub Reserve : Type 0
Reserve = ℕ → ℕ → Option ℕ

-- The string that `recvMessage` fills, with the world.
pub record Reading (W : Type 0) : Type 0 where
  pub message : Bytes
  pub world : W

-- `message.capacity() - 1` in `size_t`.
abbrev pub data_max : ℕ → ℕ
data_max capacity = if capacity == 0 then size_mod - 1 else capacity - 1

-- `message.reserve(n)` from a capacity.
abbrev pub reserved : {S : Type 0} → Option ℕ → Run S ℕ
reserved none = throw no_memory
reserved (some capacity) = pure capacity

-- `message.capacity()*1.5 + 10`
abbrev pub grown : ℕ → ℕ
grown capacity = capacity * 3 / 2 + 10

module _ (os : Os) where
  -- `ProtocolSimple::sendMessage`
  abbrev pub send_message : SslSocket → Bytes → Run os.World (Unit {0})
  send_message s message = do put_message os s message; pure tt

module _ (os : Os) (reserve : Reserve) where
  open os use {World}

  abbrev reading : {A : Type 0} → Run World A → Run (Reading World) A
  reading = on_part (λ r. r.world) (λ r w. record r { world = w })

  -- The end of a round, with the bytes that came: `again` is the loop with the new capacity.
  unfoldable pub recv_next :
      ℕ → ℕ × Bytes → (ℕ → Run (Reading World) (Unit {0})) → Run (Reading World) (Unit {0})
  recv_next capacity got again = do
    modify (λ t. record t { message = t.message ++ got.1 })
    if got.0 == 0
        then pure tt
        else (do capacity' ← reserved (reserve capacity (grown capacity)); again capacity')

  -- The loop of `recvMessage`. The message is kept at its `dataRead` bytes, which is the length that
  -- `StringSizer` gives the string at the end of a round and when an exception passes.
  unfoldable pub recv_loop : ℕ → SslSocket → ℕ → ℕ → Run (Reading World) (Unit {0})
  unfolding recv_next
  recv_loop zero s capacity data_read r = diverged
  recv_loop (suc fuel) s capacity data_read r =
      (do
        got ← reading (get_message os s (data_max capacity - data_read) minus_one scan_any)
        recv_next capacity got λ capacity'. recv_loop fuel s capacity' (data_read + got.0))
        r

  -- `ProtocolSimple::recvMessage`, into a string of the given capacity.
  unfoldable pub recv_message : ℕ → SslSocket → ℕ → Run (Reading World) (Unit {0})
  unfolding recv_loop
  recv_message fuel s capacity = do
    modify (λ t. record t { message = [] })
    recv_loop fuel s capacity 0
