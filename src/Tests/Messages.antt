-- ===== src/Tests/Messages.antt =====
-- The theorems on whole messages, applied to runs of the test machine.
use socket_program.Base.{
  ltb, if◌then◌else◌, ℕ, ◌≤◌, ◌<◌, pos, ◌≡◌, refl, none, some, [], ◌++◌, codes, arith, Bytes,
  Ensures,
}
use socket_program.Inet.Socket.{SslSocket}
use socket_program.Protocols.Simple.{Reserve, recv_message}
use socket_program.Protocols.Simple.Stream.{Bounded, recv_message-Whole}
use socket_program.Tests.Wire.{wire, wire_incoming, start}

abbrev client : SslSocket
client = record { socket = pos 2; ssl = none; sslctx = none }

-- A string library with memory for a mebibyte.
abbrev mebibyte : Reserve
mebibyte old asked = if ltb asked 0x10_0000 then some asked else none

mebibyte_range :
    (old asked given : ℕ)
    → mebibyte old asked ≡ some given
    → (asked ≤ given) × (given < 0x8000_0000)
mebibyte_range old asked given e = ground arith

mebibyte-Bounded : Bounded mebibyte
mebibyte-Bounded = record { reserve_lem = λ old asked e. mebibyte_range old asked _ e }

recv_message-Whole_example :
    Ensures
      (λ u r. (r.message ≡ codes "hello") × (r.world.inbox ≡ []))
      (λ e r. (lost : Bytes) × (codes "hello" ≡ (r.message ++ lost) ++ r.world.inbox))
      (recv_message wire mebibyte 6 client 15
        (record { message = codes "old"; world = start (codes "hello") }))
unfolding wire_incoming
recv_message-Whole_example =
    recv_message-Whole wire wire_incoming mebibyte mebibyte-Bounded client (codes "hello") 6 15
      (start (codes "hello")) (codes "old") refl (omega arith) (omega arith) (omega arith) refl
