-- ===== src/Tests/Wire.antt =====
-- A machine for the tests: its descriptors are numbers, a read or a write moves one byte, and every
-- other call succeeds.
use socket_program.Base.{
  ℕ, suc, ◌<◌, ℤ, pos, negsuc, minus_one, ◌==ℤ◌, ◌≡◌, refl, ◌⊎◌, inl, inr, true, false, Bool-cases,
  is_nonpos, ltb, some, [], ◌∷◌, ◌++◌, length, Bytes, arith, if◌then◌else◌, Ensures,
}
use socket_program.Inet.Os.{Os}
use socket_program.Inet.Socket.{shutdown_loop}
use socket_program.Inet.Io.Transport.{Took, Gave, Outgoing, Incoming}
use socket_program.Inet.Connect.Descriptors.{FdSet, with_fd, Made, Descriptors}

pub record World : Type 0 where
  pub is_open : FdSet
  pub fresh : ℕ
  pub inbox : Bytes
  pub outbox : Bytes

abbrev opened : World → ℤ × World
opened w = if w.is_open (pos w.fresh) then (minus_one, w) else (
  pos w.fresh,
  record w { is_open = with_fd w.is_open (pos w.fresh) true; fresh = suc w.fresh },
)

abbrev checked : ℤ → World → ℤ × World
checked fd w = (if fd ==ℤ minus_one then minus_one else pos 0, w)

abbrev taken : Bytes → World → ℤ × World
taken [] w = (pos 0, w)
taken (c ∷ rest) w = (pos 1, record w { outbox = w.outbox ++ c ∷ [] })

abbrev given : World → (ℤ × Bytes) × World
given w = elim w.inbox [
  | [] ↦ ((pos 0, []), w)
  | c ∷ rest ↦ ((pos 1, c ∷ []), record w { inbox = rest })
]

abbrev pub wire : Os
wire = record {
  World = World;
  socket = opened;
  set_reuse_addr = λ fd w. w;
  bind = λ fd port w. checked fd w;
  listen = λ fd backlog w. (pos 0, w);
  accept = λ fd w. opened w;
  connect = λ fd host port w. checked fd w;
  select = λ fd timeout w. (pos 1, w);
  read = λ fd room w. given w;
  write = λ fd rest w. taken rest w;
  shutdown_write = λ fd w. (pos 0, w);
  close = λ fd w. (pos 0, record w { is_open = with_fd w.is_open fd false });
  ssl_new = λ ctx w. (some 0, w);
  ssl_set_fd = λ p fd w. (pos 1, w);
  ssl_set_mode = λ p mode w. w;
  ssl_connect = λ p w. (pos 1, w);
  ssl_accept = λ p w. (pos 1, w);
  ssl_read = λ p room w. given w;
  ssl_write = λ p size rest w. taken rest w;
  ssl_shutdown = λ p w. (pos 1, w);
  ssl_free = λ p w. w;
  ctx_new = λ is_server w. (some 0, w);
  ctx_use_certificate = λ p file w. (pos 1, w);
  ctx_use_private_key = λ p file w. (pos 1, w);
  ctx_check_private_key = λ p w. (pos 1, w);
  ctx_free = λ p w. w;
}

taken_lem :
    (rest : Bytes) (w : World)
    → 0 < length rest
    → Took rest (taken rest w).0 w.outbox (taken rest w).1.outbox
taken_lem [] w h = absurd (omega arith)
taken_lem (c ∷ rest) w h = (1, refl, omega arith, omega arith, refl)

unfoldable pub wire_outgoing : Outgoing wire
unfolding taken_lem
wire_outgoing = record {
  plain = λ w fd. w.outbox;
  secure = λ w p. w.outbox;
  write_lem = λ fd rest w h. inl (taken_lem rest w h);
  ssl_write_lem = λ p rest w h. inl (taken_lem rest w h);
}

module _ (room : ℕ) (is_open : FdSet) (fresh : ℕ) (outbox : Bytes) where
  abbrev holding : Bytes → World
  holding inbox = record { is_open = is_open; fresh = fresh; inbox = inbox; outbox = outbox }

  given_with :
      (inbox : Bytes) → 0 < room → let r = given (holding inbox) in Gave room r.0 inbox r.1.inbox
  given_with [] h = (refl, omega arith, refl, inr refl)
  given_with (c ∷ rest) h = (refl, h, refl, inl (omega arith))

  ssl_given_with :
      (inbox : Bytes)
      → 0 < room
      → let r = given (holding inbox) in
        (Gave room r.0 inbox r.1.inbox × (0 < length r.0.1))
        ⊎ ((is_nonpos r.0.0 ≡ true) × (r.1.inbox ≡ inbox))
  ssl_given_with [] h = inr (refl, refl)
  ssl_given_with (c ∷ rest) h = inl ((refl, h, refl, inl (omega arith)), omega arith)

unfoldable pub wire_incoming : Incoming wire
unfolding given_with ssl_given_with
wire_incoming = record {
  plain = λ w fd. w.inbox;
  secure = λ w p. w.inbox;
  select_lem = λ fd timeout fd' w. refl;
  read_lem = λ fd room w h. inl (given_with room w.is_open w.fresh w.outbox w.inbox h);
  ssl_read_lem = λ p room w h. ssl_given_with room w.is_open w.fresh w.outbox w.inbox h;
}

opened_lem : (w : World) → Made w.is_open (opened w).0 (opened w).1.is_open
opened_lem w = elim (Bool-cases (w.is_open (pos w.fresh))) [
  | inl busy ↦ rw busy (inl (refl, refl))
  | inr free ↦ rw free (inr (refl, free, refl))
]

shutdown_once :
    (p : ℕ) (w : World)
    → Ensures (λ u w'. w'.is_open ≡ w.is_open) (λ e w'. ⊥) (shutdown_loop wire 1 p w)
unfolding shutdown_loop
shutdown_once p w = refl

unfoldable pub wire_descriptors : Descriptors wire 1
unfolding opened_lem shutdown_once
wire_descriptors = record {
  is_open = λ w. w.is_open;
  socket_lem = opened_lem;
  accept_lem = λ fd w. opened_lem w;
  close_lem = λ fd w h. (refl, refl);
  connect_keeps = λ fd host port w. refl;
  connect_invalid = λ host port w. refl;
  reuse_keeps = λ fd w. refl;
  bind_keeps = λ fd port w. refl;
  bind_invalid = λ port w. refl;
  listen_keeps = λ fd backlog w. refl;
  ssl_new_keeps = λ ctx w. refl;
  set_fd_keeps = λ p fd w. refl;
  set_mode_keeps = λ p mode w. refl;
  ssl_accept_keeps = λ p w. refl;
  ssl_free_keeps = λ p w. refl;
  certificate_keeps = λ p file w. refl;
  private_key_keeps = λ p file w. refl;
  check_keeps = λ p w. refl;
  shutdown_lem = shutdown_once;
}

-- The machine with standard input, output and error open, and a text that the peer has sent.
abbrev pub start : Bytes → World
start inbox = record {
  is_open = λ fd. elim fd [ pos n ↦ if ltb n 3 then true else false | negsuc n ↦ false ];
  fresh = 3;
  inbox = inbox;
  outbox = [];
}
