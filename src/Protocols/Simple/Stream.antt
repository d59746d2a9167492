-- ===== src/Protocols/Simple/Stream.antt =====
-- `ProtocolSimple::recvMessage` against the stream of bytes that the peer sends.
use socket_program.Base.{
  ℕ, zero, suc, ◌+◌, ◌-◌, ◌≤◌, ◌<◌, pos, minus_one, ◌==ℤ◌, ◌==◌, ◌≡◌, refl, sym, ◌∙◌, ap, inl, inr,
  false, some, Option-cases, [], ◌∷◌, ◌++◌, length, length-append, append_assoc, append-nil, Bytes,
  arith,
}
use socket_program.Base.{Run, Ensures, Ensures-bind, Ensures-part}
use socket_program.Inet.Os.{Os}
use socket_program.Inet.Socket.{SslSocket}
use socket_program.Inet.Io.{scan_any, get_message}
use socket_program.Inet.Io.Transport.{Incoming, pending}
use socket_program.Inet.Io.Stream.{Stopped, get_message-Reads}
use socket_program.Protocols.Simple.{
  Reserve, Reading, data_max, grown, reading, recv_next, recv_loop, recv_message,
}

-- `reserve` gives what is asked for or more, or throws; no string takes 2 ^ 31 bytes.
pub record Bounded (reserve : Reserve) : Type 0 where
  pub reserve_lem :
      (old asked : ℕ) {given : ℕ}
      → reserve old asked ≡ some given
      → (asked ≤ given) × (given < 0x8000_0000)

data_max_small : (capacity : ℕ) → 0 < capacity → data_max capacity ≡ capacity - 1
data_max_small capacity some_room = ground arith

module _ (os : Os) (inc : Incoming os) (reserve : Reserve) (bounded : Bounded reserve) where
  module _ (s : SslSocket) (stream : Bytes) where
    -- The whole stream has come, and before that a part of it; what a failed read took is lost.
    abbrev Whole : Reading os.World → Type 0
    Whole r = (r.message ≡ stream) × (pending inc s r.world ≡ [])

    abbrev Part : Reading os.World → Type 0
    Part r = (lost : Bytes) × (stream ≡ (r.message ++ lost) ++ pending inc s r.world)

    -- What one call of `getMessage` leaves.
    abbrev Got : ℕ → Reading os.World → ℕ × Bytes → Reading os.World → Type 0
    Got room before got after =
        (got.0 ≡ length got.1)
        × (got.0 ≤ room)
        × (pending inc s before.world ≡ got.1 ++ pending inc s after.world)
        × Stopped os inc s room scan_any got after.world
        × (after.message ≡ before.message)

    -- `getMessage` of a round, or a failure of it.
    get_message-Part :
        (room : ℕ) (r : Reading os.World)
        → (s.socket ==ℤ pos 0) ≡ false
        → room < 0x8000_0000
        → stream ≡ r.message ++ pending inc s r.world
        → Ensures
            (Got room r)
            (λ e r'. Part r')
            (reading os reserve (get_message os s room minus_one scan_any) r)
    get_message-Part room r valid small so_far =
        Ensures-part
          (λ got w.
            (got.0 ≡ length got.1)
            × (got.0 ≤ room)
            × (pending inc s r.world ≡ got.1 ++ pending inc s w)
            × Stopped os inc s room scan_any got w)
          (λ e w.
            (got : Bytes) × (length got < room) × (pending inc s r.world ≡ got ++ pending inc s w))
          (Got room r) (λ e r'. Part r') (λ r. r.world) (λ r w. record r { world = w })
          (get_message os s room minus_one scan_any) r
          (get_message-Reads os inc s room minus_one scan_any r.world small valid)
          (λ got w (e, fits, next, why). (e, fits, next, why, refl))
          (λ e w (got, fits, next).
            (got, so_far ∙ (ap (◌++◌ r.message) next ∙ sym (append_assoc r.message got _))))

    -- A read of no bytes into some room means the end of the stream.
    nothing-Stopped :
        (room : ℕ) (w : os.World)
        → 0 < room
        → Stopped os inc s room scan_any (0, []) w
        → pending inc s w ≡ []
    nothing-Stopped room w some_room (inl full) = absurd (omega arith)
    nothing-Stopped room w some_room (inr (inl (front, [], e, nonempty, taken))) =
        absurd (omega arith)
    nothing-Stopped room w some_room (inr (inl ([], c ∷ chunk, e, nonempty, taken))) =
        absurd (omega (arith, ap length e))
    nothing-Stopped room w some_room (inr (inl (b ∷ front, c ∷ chunk, e, nonempty, taken))) =
        absurd (omega (arith, ap length e))
    nothing-Stopped room w some_room (inr (inr end)) = end

    recv_next-Whole :
        (capacity room : ℕ) (r r' : Reading os.World) (got : ℕ × Bytes)
        (again : ℕ → Run (Reading os.World) (Unit {0}))
        → 0 < room
        → stream ≡ r.message ++ pending inc s r.world
        → Got room r got r'
        → ((capacity' : ℕ) (r'' : Reading os.World)
            → 0 < got.0
            → grown capacity ≤ capacity'
            → capacity' < 0x8000_0000
            → length r''.message ≡ length r.message + got.0
            → length (pending inc s r.world) ≡ got.0 + length (pending inc s r''.world)
            → stream ≡ r''.message ++ pending inc s r''.world
            → Ensures (λ u t. Whole t) (λ e t. Part t) (again capacity' r''))
        → Ensures (λ u t. Whole t) (λ e t. Part t) (recv_next os reserve capacity got again r')
    unfolding recv_next
    recv_next-Whole capacity room r r' (n, []) again some_room so_far (e, fits, next, why, same)
          rest =
        let none_read : n ≡ 0 = e in
        let end : pending inc s r'.world ≡ [] =
          nothing-Stopped room r'.world some_room (rw (sym none_read) why) in
        rw (none_read, Ensures)
          (
            append-nil r'.message
                ∙ (same
                    ∙ (sym (append-nil r.message)
                        ∙ (ap (◌++◌ r.message) (sym (next ∙ end)) ∙ sym so_far))),
            end,
          )
    recv_next-Whole capacity room r r' (n, c ∷ chunk) again some_room so_far
          (e, fits, next, why, same) rest =
        let r'' : Reading os.World = record r' { message = r'.message ++ c ∷ chunk } in
        let whole : stream ≡ r''.message ++ pending inc s r''.world =
          so_far
          ∙ ap (◌++◌ r.message) next
          ∙ sym (append_assoc r.message (c ∷ chunk) _)
          ∙ ap (λ m. (m ++ c ∷ chunk) ++ pending inc s r'.world) (sym same) in
        let nonempty : 0 < n = omega (arith, e) in
        let ne : (n == 0) ≡ false = ground arith in
        let longer : length r''.message ≡ length r.message + n =
          omega (arith, length-append r'.message (c ∷ chunk), ap length same, e) in
        let less : length (pending inc s r.world) ≡ n + length (pending inc s r''.world) =
          omega (arith, ap length next, length-append (c ∷ chunk) (pending inc s r'.world), e) in
        elim (Option-cases (reserve capacity (grown capacity))) [
          | inl full ↦
              rw (ne, full, Ensures)
                ([], whole ∙ ap (λ m. m ++ pending inc s r''.world) (sym (append-nil r''.message)))
          | inr (given, e') ↦
              rw (ne, e', Ensures)
                (rest given r'' nonempty (bounded.reserve_lem capacity _ e').0
                  (bounded.reserve_lem capacity _ e').1 longer less whole)
        ]

    recv_loop-Whole :
        (fuel capacity data_read : ℕ) (r : Reading os.World)
        → (s.socket ==ℤ pos 0) ≡ false
        → data_read ≡ length r.message
        → data_read + 1 < capacity
        → capacity < 0x8000_0000
        → length (pending inc s r.world) < fuel
        → stream ≡ r.message ++ pending inc s r.world
        → Ensures
            (λ u t. Whole t)
            (λ e t. Part t)
            (recv_loop os reserve fuel s capacity data_read r)
    unfolding recv_loop
    recv_loop-Whole zero capacity data_read r valid counted room small enough so_far =
        absurd (omega arith)
    recv_loop-Whole (suc fuel) capacity data_read r valid counted room small enough so_far =
        let top : data_max capacity ≡ capacity - 1 = data_max_small capacity (omega arith) in
        Ensures-bind (Got (data_max capacity - data_read) r) (λ e t. Part t) (λ u t. Whole t)
          (λ e t. Part t)
          (reading os reserve (get_message os s (data_max capacity - data_read) minus_one scan_any))
          (λ got.
            recv_next os reserve capacity got
              λ capacity'. recv_loop os reserve fuel s capacity' (data_read + got.0))
          r (get_message-Part (data_max capacity - data_read) r valid (omega arith) so_far)
          (λ got r' h.
            recv_next-Whole capacity (data_max capacity - data_read) r r' got
              (λ capacity'. recv_loop os reserve fuel s capacity' (data_read + got.0)) (omega arith)
              so_far h
              (λ capacity' r'' nonempty more small' longer less whole.
                let fits : got.0 ≤ data_max capacity - data_read = h.1 in
                recv_loop-Whole fuel capacity' (data_read + got.0) r'' valid (omega arith)
                  (omega arith) small' (omega arith) whole))
          (λ e t part. part)

    -- `recvMessage` on a socket that is not 0, into a string with room for a byte and a capacity below
    -- 2 ^ 31, where no string gets a larger capacity, comes to an end when it has a round for each byte
    -- of the stream and one more. If it returns, the message is the whole stream, which is at its end;
    -- if it throws, the message is a first part of it.
    pub recv_message-Whole :
        (fuel capacity : ℕ) (w : os.World) (old : Bytes)
        → (s.socket ==ℤ pos 0) ≡ false
        → 1 < capacity
        → capacity < 0x8000_0000
        → length (pending inc s w) < fuel
        → pending inc s w ≡ stream
        → Ensures
            (λ u t. Whole t)
            (λ e t. Part t)
            (recv_message os reserve fuel s capacity (record { message = old; world = w }))
    unfolding recv_message
    recv_message-Whole fuel capacity w old valid room small enough all =
        recv_loop-Whole fuel capacity 0 (record { message = []; world = w }) valid refl room small
          enough (sym all)
