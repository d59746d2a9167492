-- ===== src/Protocols/Simple/Quiet.antt =====
-- What the calls of libs/Protocols/ProtocolSimple.cpp leave as it was.
use socket_program.Base.{
  Option, none, some, ℕ, zero, suc, ◌+◌, ◌-◌, minus_one, ◌==◌, [], ◌++◌, Bytes,
}
use socket_program.Base.{
  ◌>>=◌, pure, Leaves, Leaves-bind, Leaves-then, Leaves-if, Leaves-part, on_part,
}
use socket_program.Inet.Os.{Os}
use socket_program.Inet.Socket.{SslSocket}
use socket_program.Inet.Io.{put_message, get_message, scan_any}
use socket_program.Inet.Io.Quiet.{Still, put_message-Leaves, get_message-Leaves}
use socket_program.Protocols.Simple.{
  Reserve, Reading, data_max, grown, reserved, send_message, recv_next, recv_loop, recv_message,
}

module _ (os : Os) (I : os.World → Type 0) (still : Still os I) where
  open os use {World}

  pub send_message-Leaves :
      (s : SslSocket) (message : Bytes) (w : World) → I w → Leaves I (send_message os s message w)
  send_message-Leaves s message w i =
      Leaves-then I (put_message os s message) (pure tt) w
        (put_message-Leaves os I still s message w i) (λ w' i'. i')

  module _ (reserve : Reserve) where
    abbrev Inside : Reading World → Type 0
    Inside r = I r.world

    capacity_Leaves : (o : Option ℕ) (r : Reading World) → Inside r → Leaves Inside (reserved o r)
    capacity_Leaves none r i = i
    capacity_Leaves (some n) r i = i

    recv_loop-Leaves :
        (fuel : ℕ) (s : SslSocket) (capacity data_read : ℕ) (r : Reading World)
        → Inside r
        → Leaves Inside (recv_loop os reserve fuel s capacity data_read r)
    unfolding recv_loop recv_next
    recv_loop-Leaves zero s capacity data_read r i = tt
    recv_loop-Leaves (suc fuel) s capacity data_read r i =
        let put : Reading World → World → Reading World = λ r w. record r { world = w } in
        let size : ℕ = data_max capacity - data_read in
        Leaves-bind Inside (on_part (λ r. r.world) put (get_message os s size minus_one scan_any))
          (λ got.
            recv_next os reserve capacity got
              λ capacity'. recv_loop os reserve fuel s capacity' (data_read + got.0))
          r
          (Leaves-part I Inside (λ r. r.world) put (get_message os s size minus_one scan_any) r
            (get_message-Leaves os I still s size minus_one scan_any r.world i) (λ w i'. i'))
          (λ got r' i'.
            Leaves-if Inside (got.0 == 0) (pure tt)
              (do
                capacity' ← reserved (reserve capacity (grown capacity))
                recv_loop os reserve fuel s capacity' (data_read + got.0))
              (record r' { message = r'.message ++ got.1 }) i'
              (Leaves-bind Inside (reserved (reserve capacity (grown capacity)))
                (λ capacity'. recv_loop os reserve fuel s capacity' (data_read + got.0))
                (record r' { message = r'.message ++ got.1 })
                (capacity_Leaves (reserve capacity (grown capacity)) _ i')
                (λ capacity' r'' i''.
                  recv_loop-Leaves fuel s capacity' (data_read + got.0) r'' i'')))

    pub recv_message-Leaves :
        (fuel : ℕ) (s : SslSocket) (capacity : ℕ) (r : Reading World)
        → Inside r
        → Leaves Inside (recv_message os reserve fuel s capacity r)
    unfolding recv_message
    recv_message-Leaves fuel s capacity r i =
        recv_loop-Leaves fuel s capacity 0 (record r { message = [] }) i
