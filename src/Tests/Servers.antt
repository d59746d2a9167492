-- ===== src/Tests/Servers.antt =====
-- The servers and the client on the test machine.
use socket_program.Base.{
  Leaves, Ensures, Option, false, Bool-cases, inl, inr, sym, subst, if◌then◌else◌, ◌==ℤ◌, minus_one,
}
use mathlib.Core.Option.{none-ne-some, some-injective}
use socket_program.Base.{ℕ, ℤ, pos, ◌≡◌, refl, true, none, some, [], ◌∷◌, Bytes, codes}
use socket_program.Inet.Socket.{SslSocket}
use socket_program.Inet.Io.Quiet.{Still}
use socket_program.Inet.Connect.Descriptors.{FdSet, with_fd}
use socket_program.Protocols.Http.Quiet.Sending.{SiteFiles}
use socket_program.Programs.Server.{http_session, accept_one}
use socket_program.Programs.Server.Accepting.{accept_one-Owns}
use socket_program.Programs.Server.Threads.{http_session-GivesBack}
use socket_program.Tests.Wire.{World, wire, wire_descriptors, start}
use socket_program.Tests.Files.{site, host, page}
use socket_program.Programs.Client.{client_main}
use socket_program.Programs.Client.Descriptors.{client_main-Leaves}

pub taken_still :
    (set : FdSet) (p : ℕ) (n : ℤ) (rest : Bytes) (w : World)
    → w.is_open ≡ set
    → (wire.ssl_write p n rest w).1.is_open ≡ set
taken_still set p n [] w h = h
taken_still set p n (c ∷ rest) w h = h

pub given_still :
    (set : FdSet) (p : ℕ) (n : ℤ) (w : World)
    → w.is_open ≡ set
    → (wire.ssl_read p n w).1.is_open ≡ set
given_still set p n w h =
    elim w.inbox as (λ i. (wire.ssl_read p n (record w { inbox = i })).1.is_open ≡ set) [
      | [] ↦ h
      | c ∷ rest ↦ h
    ]

wire-Still : (set : FdSet) → Still wire (λ w. w.is_open ≡ set)
wire-Still set = record {
  write = λ fd rest w h. taken_still set 0 (pos 0) rest w h;
  read = λ fd room w h. given_still set 0 (pos 0) w h;
  select = λ fd timeout w h. h;
  ssl_write = taken_still set;
  ssl_read = given_still set;
  ssl_shutdown = λ p w h. h;
  ssl_free = λ p w h. h;
  shutdown_write = λ fd w h. h;
}

module _ {A : Type 0} (n : ℕ) (a : A) where
  abbrev tried : World → Option A × World
  tried w =
      if w.is_open (pos n)
      then (none, w)
      else (some a, record w { is_open = with_fd w.is_open (pos n) true })

  pub no_descriptor : (w : World) → (tried w).0 ≡ none → (tried w).1.is_open ≡ w.is_open
  no_descriptor w = elim (Bool-cases (w.is_open (pos n))) [
    | inl e ↦ rw e (λ h. refl)
    | inr e ↦ rw e (λ h. absurd (none-ne-some _ (sym h)))
  ]

  pub one_descriptor :
      (w : World) (b : A)
      → (tried w).0 ≡ some b
      → (a ≡ b)
        × (w.is_open (pos n) ≡ false)
        × ((tried w).1.is_open ≡ with_fd w.is_open (pos n) true)
  one_descriptor w b = elim (Bool-cases (w.is_open (pos n))) [
    | inl e ↦ rw e (λ h. absurd (none-ne-some _ h))
    | inr e ↦ rw e (λ h. (some-injective _ _ h, refl, refl))
  ]

site-SiteFiles : SiteFiles site (λ w. w.is_open)
site-SiteFiles = record {
  open_fails = λ name w. no_descriptor 9 page w;
  open_works = λ name w f got.
      let (same, out, opens) = one_descriptor 9 page w f got in
      subst
        (λ g.
          ((g.handle ==ℤ minus_one) ≡ false)
          × (w.is_open g.handle ≡ false)
          × ((site.open_file name w).1.is_open ≡ with_fd w.is_open g.handle true))
        same (refl, out, opens);
  closes = λ f w. refl;
  date = λ w. refl;
}

abbrev client : SslSocket
client = record { socket = pos 4; ssl = some 0; sslctx = none }

abbrev listener : SslSocket
listener = record { socket = pos 3; ssl = none; sslctx = none }

abbrev pub base : FdSet
base = (start []).is_open

abbrev pub two_open : World
two_open = record (start []) {
  is_open = with_fd (with_fd base (pos 3) true) (pos 4) true;
  fresh = 5;
}

-- The peer asks for a page and then sends no more.
abbrev asking : World
asking = record two_open { inbox = codes "GET / HTTP/1.1\r\n\r\n" }

http_session-GivesBack_example :
    Leaves
      (λ v. v.is_open ≡ with_fd base (pos 3) true)
      (http_session wire 1 (λ old wanted. some wanted) site client asking)
unfolding wire_descriptors
http_session-GivesBack_example =
    http_session-GivesBack wire 1 wire_descriptors (λ old wanted. some wanted) site wire-Still
      site-SiteFiles (with_fd base (pos 3) true) client asking refl refl refl

client_main-Leaves_example :
    Leaves
      (λ v. v.is_open ≡ base)
      (client_main wire
        (λ old wanted. some wanted)
        site
        host
        1
        3
        3
        (codes "client" ∷ codes "127.0.0.1" ∷ codes "80" ∷ codes "doc" ∷ [])
        (start []))
unfolding wire_descriptors
client_main-Leaves_example =
    client_main-Leaves wire 1 wire_descriptors (λ old wanted. some wanted) site host wire-Still
      site-SiteFiles (λ name w. refl) 3 3 (codes "client") (codes "127.0.0.1") (codes "80")
      (codes "doc") (start [])

accept_one-Owns_example :
    Ensures
      (λ s w'.
        ((s.socket ==ℤ minus_one) ≡ false)
        × (two_open.is_open s.socket ≡ false)
        × (w'.is_open ≡ with_fd two_open.is_open s.socket true))
      (λ e w'. w'.is_open ≡ two_open.is_open)
      (accept_one wire 1 listener two_open)
unfolding wire_descriptors
accept_one-Owns_example = accept_one-Owns wire 1 wire_descriptors listener two_open
