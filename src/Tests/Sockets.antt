-- ===== src/Tests/Sockets.antt =====
-- The theorems on sockets, applied to runs of the test machine.
use socket_program.Base.{
  done, inr, ◌≤◌, ◌<◌, pos, minus_one, ◌==ℤ◌, ◌≡◌, refl, false, true, none, some, ◌++◌, length,
  take, codes, arith, Ensures, write_failed, [],
}
use socket_program.Inet.Socket.{move, SslSocket, destroy}
use socket_program.Inet.Socket.Moves.{move-HandsOver}
use socket_program.Inet.Io.{put_message, get_message, scan_any}
use socket_program.Inet.Io.Delivery.{put_message-Delivers}
use socket_program.Inet.Io.Stream.{Stopped, get_message-Reads}
use socket_program.Inet.Connect.{connect_socket, server_socket, accept}
use socket_program.Inet.Connect.Descriptors.{with_fd}
use socket_program.Inet.Connect.Balance.{destroy-Released}
use socket_program.Inet.Connect.Leaks.{connect_socket-Owns}
use socket_program.Inet.Connect.Server.{server_socket-Owns}
use socket_program.Inet.Connect.Accept.{accept-Owns}
use socket_program.Tests.Wire.{World, wire, wire_outgoing, wire_incoming, wire_descriptors, start}

abbrev plain_client : SslSocket
plain_client = record { socket = pos 2; ssl = none; sslctx = none }

abbrev secure_client : SslSocket
secure_client = record { socket = pos 2; ssl = some 0; sslctx = none }

abbrev secure_server : SslSocket
secure_server = record { socket = pos 2; ssl = none; sslctx = some (record { ctx = some 0 }) }

put_message-Delivers_example :
    Ensures
      (λ r w'. (r ≡ pos 0) × (w'.outbox ≡ codes "hello"))
      (λ e w'. (n : _) × (e ≡ write_failed) × (n < 5) × (w'.outbox ≡ take n (codes "hello")))
      (put_message wire plain_client (codes "hello") (start []))
unfolding wire_outgoing
put_message-Delivers_example =
    put_message-Delivers wire wire_outgoing plain_client (codes "hello") (start []) (omega arith)

get_message-Reads_example :
    Ensures
      (λ r w'.
        (r.0 ≡ length r.1)
        × (r.0 ≤ 3)
        × (codes "hello" ≡ r.1 ++ w'.inbox)
        × Stopped wire wire_incoming secure_client 3 scan_any r w')
      (λ e w'. (got : _) × (length got < 3) × (codes "hello" ≡ got ++ w'.inbox))
      (get_message wire secure_client 3 minus_one scan_any (start (codes "hello")))
unfolding wire_incoming
get_message-Reads_example =
    get_message-Reads wire wire_incoming secure_client 3 minus_one scan_any (start (codes "hello"))
      (omega arith) refl

-- A descriptor that was not open is open.
abbrev Opened : SslSocket → World → World → Type 0
Opened s w w' =
    ((s.socket ==ℤ minus_one) ≡ false)
    × (w.is_open s.socket ≡ false)
    × (w'.is_open ≡ with_fd w.is_open s.socket true)

connect_socket-Owns_example :
    Ensures
      (λ s w'. Opened s (start []) w')
      (λ e w'. w'.is_open ≡ (start []).is_open)
      (connect_socket wire 1 (codes "127.0.0.1") (pos 80) none (start []))
unfolding wire_descriptors
connect_socket-Owns_example =
    connect_socket-Owns wire 1 wire_descriptors (codes "127.0.0.1") (pos 80) (start [])

server_socket-Owns_example :
    Ensures
      (λ s w'. Opened s (start []) w')
      (λ e w'. w'.is_open ≡ (start []).is_open)
      (server_socket wire 1 (pos 8080) (some (record { ctx = some 0 })) (start []))
unfolding wire_descriptors
server_socket-Owns_example =
    server_socket-Owns wire 1 wire_descriptors (pos 8080) (some (record { ctx = some 0 }))
      (start [])

accept-Owns_example :
    Ensures
      (λ s w'. Opened s (start []) w')
      (λ e w'. w'.is_open ≡ (start []).is_open)
      (accept wire 1 secure_server (start []))
unfolding wire_descriptors
accept-Owns_example = accept-Owns wire 1 wire_descriptors secure_server (start [])

-- The machine with one more descriptor open.
abbrev one_open : World
one_open = record (start []) { is_open = with_fd (start []).is_open (pos 3) true }

destroy-Released_example :
    Ensures
      (λ u w'. w'.is_open ≡ (start []).is_open)
      (λ e w'. ⊥)
      (destroy wire 1 (record { socket = pos 3; ssl = some 0; sslctx = none }) one_open)
unfolding wire_descriptors
destroy-Released_example =
    destroy-Released wire 1 wire_descriptors (start []).is_open
      (record { socket = pos 3; ssl = some 0; sslctx = none }) one_open (inr (refl, refl, refl))

move-HandsOver_example :
    ((move none secure_client).0 ≡ secure_client)
    × (destroy wire 1 (move none secure_client).1 one_open ≡ done tt one_open)
move-HandsOver_example = move-HandsOver wire 1 none secure_client one_open
