-- ===== src/Protocols/Http/Quiet.antt =====
-- What `recvRequest` of libs/Protocols/ProtocolHttp.cpp leaves as it was.
pub mod Sending
use socket_program.Base.{
  ℕ, zero, suc, ◌+◌, ◌-◌, ◌==◌, ℤ, pos, negsuc, minus_one, ◌==ℤ◌, leb, Bool, true, false,
  Bool-cases, inl, inr, ◌⊎◌, ◌∙◌, Option, none, some, Option-cases, List, [], ◌∷◌, ◌++◌, length,
  drop, take, Bytes, if◌then◌else◌, ◌≡◌, refl, cr_lf, ap, codes, contains, c_str, scan_int,
  scan_text, subst, sym,
}
use socket_program.Base.{
  Run, Outcome, ◌>>=◌, ◌>>◌, pure, throw, modify, Leaves, Leaves-bind, Leaves-then, Leaves-if,
  Leaves-part, Leaves-catch, done, threw, fault, try_catch,
}
use socket_program.Inet.Os.{Os, call}
use socket_program.Inet.Socket.{SslSocket, Held, put_close}
use socket_program.Inet.Io.{Scan, put_message, get_message}
use socket_program.Inet.Connect.Descriptors.{FdSet, with_fd, with_fd-with_fd}
use socket_program.Inet.Connect.Sets.{Adds, Adds-other, Adds-more, Adds-less}
use socket_program.Inet.Io.Quiet.{
  Still, Holds, put_message-Leaves, get_message-Leaves, put_close-Leaves,
}
use socket_program.Protocols.Simple.{Reserve, reserved}
use socket_program.Protocols.Http.State.{Http, File, Site, net}
use socket_program.Protocols.Http.Request.{
  RequestLine, Scanned, got, mismatch, overrun, add_header, read_line, scan_request_line,
  header_loop, parse_request_header, request_scan, recv_request, line_buffer,
}
use socket_program.Protocols.Http.Resource.{
  ensure_open, open_path, get_body_size, file_name, read_range, scan_range, file_size,
}
use socket_program.Protocols.Http.Response.{
  put, response_error, send_loop, send_body, close_socket, send_file, send_response, reason,
  error_header, response_header, buf_size,
}

ℤ-cases : (z : ℤ) → ((n : ℕ) × (z ≡ pos n)) ⊎ ((n : ℕ) × (z ≡ negsuc n))
ℤ-cases (pos n) = inl (n, refl)
ℤ-cases (negsuc n) = inr (n, refl)

module _ {W : Type 0} where
  -- The same socket, world and file.
  abbrev pub Same : Http W → Http W → Type 0
  Same h h' = (h'.socket ≡ h.socket) × (h'.world ≡ h.world) × (h'.file ≡ h.file)

  scan_range-Same : (s : Bytes) (h : Http W) → Same h (scan_range s h)
  unfolding scan_range
  scan_range-Same s h = elim (Option-cases (scan_int s)) [
    | inl e ↦ rw (e, scan_range) (refl, refl, refl)
    | inr ((z, s₁), e) ↦
        rw (e, scan_range)
          (elim (Option-cases (scan_text (codes "-") s₁)) [
            | inl e' ↦ rw e' (refl, refl, refl)
            | inr (s₂, e') ↦ rw e' (elim (Option-cases (scan_int s₂)) [
              | inl f ↦ rw f (refl, refl, refl)
              | inr (r, f) ↦ rw f (refl, refl, refl)
            ])
          ])
  ]

  pub read_range-Same : (options : List Bytes) (h : Http W) → Same h (read_range options h)
  unfolding read_range
  read_range-Same [] h = (refl, refl, refl)
  read_range-Same (option ∷ options) h =
      elim (Bool-cases (contains (codes "Range: bytes=") option)) [
        | inl e ↦
            rw (e, read_range)
              (let a =
                  read_range-Same options
                    (record (scan_range (c_str (drop 13 option)) h) { is_range = true }) in
                let b = scan_range-Same (c_str (drop 13 option)) h in
                (a.0 ∙ b.0, a.1 ∙ b.1, a.2 ∙ b.2))
        | inr e ↦ rw (e, read_range) (read_range-Same options h)
      ]

-- What is open is `base`, and the descriptor of the file if there is one.
abbrev pub OwnsFile : {W : Type 0} → (W → FdSet) → FdSet → Option File → W → Type 0
OwnsFile is_open base none w = is_open w ≡ base
OwnsFile is_open base (some f) w =
    ((f.handle ==ℤ minus_one) ≡ false)
    × (base f.handle ≡ false)
    × (is_open w ≡ with_fd base f.handle true)

pub OwnsFile-same :
    {W : Type 0} (is_open : W → FdSet) (base : FdSet) (file : Option File) (w v : W)
    → is_open v ≡ is_open w
    → OwnsFile is_open base file w
    → OwnsFile is_open base file v
OwnsFile-same is_open base none w v e o = e ∙ o
OwnsFile-same is_open base (some f) w v e (valid, closed, opens) = (valid, closed, e ∙ opens)

-- Another descriptor opened, and closed again.
pub OwnsFile-more :
    {W : Type 0} (is_open : W → FdSet) (base : FdSet) (file : Option File) (d : ℤ) (w v : W)
    → OwnsFile is_open base file w
    → Adds (is_open w) d (is_open v)
    → OwnsFile is_open (with_fd base d true) file v
OwnsFile-more is_open base none d w v o (valid, out, opens) =
    opens ∙ ap (λ set. with_fd set d true) o
OwnsFile-more is_open base (some f) d w v o adds =
    Adds-more base (is_open w) (is_open v) f.handle d o adds

pub OwnsFile-out :
    {W : Type 0} (is_open : W → FdSet) (base : FdSet) (file : Option File) (d : ℤ) (w : W)
    → OwnsFile is_open base file w
    → is_open w d ≡ false
    → base d ≡ false
OwnsFile-out is_open base none d w o out = sym (ap (λ set. set d) o) ∙ out
OwnsFile-out is_open base (some f) d w o out = (Adds-other base (is_open w) f.handle d o out).1

pub OwnsFile-less :
    {W : Type 0} (is_open : W → FdSet) (base : FdSet) (file : Option File) (d : ℤ) (w v : W)
    → OwnsFile is_open (with_fd base d true) file w
    → base d ≡ false
    → is_open v ≡ with_fd (is_open w) d false
    → OwnsFile is_open base file v
OwnsFile-less is_open base none d w v o out e =
    e ∙ (ap (λ set. with_fd set d false) o ∙ with_fd-with_fd base d out)
OwnsFile-less is_open base (some f) d w v o out e =
    subst (Adds base f.handle) (sym e) (Adds-less base (is_open w) f.handle d o out)

module _ (os : Os) (is_open : os.World → FdSet) (base : FdSet)
    (still : (set : FdSet) → Still os (λ v. is_open v ≡ set)) (fd : ℤ) where
  open os use {World}

  -- The protocol object is on this descriptor, and owns the descriptor of its file.
  abbrev pub On : Http World → Type 0
  On h = (h.socket.socket ≡ fd) × OwnsFile is_open base h.file h.world

  pub net-Leaves :
      {A : Type 0} (m : Run World A) (h : Http World)
      → On h
      → Leaves (λ v. is_open v ≡ is_open h.world) (m h.world)
      → Leaves On (net m h)
  net-Leaves m h (e, o) l =
      Leaves-part (λ v. is_open v ≡ is_open h.world) On (λ g. g.world)
        (λ g w. record g { world = w }) m h l
        (λ w same. (e, OwnsFile-same is_open base h.file h.world w same o))

  pub got-Leaves :
      (s : SslSocket) (size : ℕ) (scan : Scan) (h : Http World)
      → On h
      → Leaves On (net (get_message os s size minus_one scan) h)
  got-Leaves s size scan h i = net-Leaves (get_message os s size minus_one scan) h i (
      get_message-Leaves os (λ v. is_open v ≡ is_open h.world) (still (is_open h.world)) s size
        minus_one scan h.world refl)

  pub sent-Leaves :
      (text : Bytes) (h : Http World) → On h → Leaves On (net (put_message os h.socket text) h)
  sent-Leaves text h i = net-Leaves (put_message os h.socket text) h i (
      put_message-Leaves os (λ v. is_open v ≡ is_open h.world) (still (is_open h.world)) h.socket
        text h.world refl)

  header_loop-Leaves :
      (fuel : ℕ) (rest : Bytes) (h : Http World) → On h → Leaves On (header_loop fuel rest h)
  unfolding header_loop
  header_loop-Leaves zero rest h i = tt
  header_loop-Leaves (suc fuel) rest h i = elim (ℤ-cases (read_line rest)) [
    | inr (n, e) ↦ rw (e, Leaves, header_loop) i
    | inl (n, e) ↦
        rw (e, header_loop)
          (elim (Bool-cases (n == 0)) [
            | inl last ↦ rw (last, Leaves) i
            | inr more ↦ rw more (elim (Bool-cases (leb (length rest) (n + 2))) [
              | inl end ↦ rw (end, Leaves) i
              | inr go ↦
                  rw go (header_loop-Leaves fuel (drop (n + 2) rest) (add_header (take n rest) h) i)
            ])
          ])
  ]

  Scanned-cases :
      (o : Scanned RequestLine) → (o ≡ mismatch) ⊎ (o ≡ overrun) ⊎ ((l : RequestLine) × (o ≡ got l))
  Scanned-cases mismatch = inl refl
  Scanned-cases overrun = inr (inl refl)
  Scanned-cases (got l) = inr (inr (l, refl))

  parse_request_header-Leaves :
      (buf : Bytes) (h : Http World) → On h → Leaves On (parse_request_header buf h)
  unfolding parse_request_header
  parse_request_header-Leaves buf h i = elim (ℤ-cases (read_line buf)) [
    | inr (n, e) ↦ rw (e, Leaves, parse_request_header) tt
    | inl (n, e) ↦
        rw (e, parse_request_header)
          (elim (Bool-cases (leb line_buffer n)) [
            | inl long ↦ rw (long, Leaves) tt
            | inr fits ↦ rw fits (elim (Scanned-cases (scan_request_line (take n buf))) [
              | inl e' ↦ rw (e', Leaves) i
              | inr (inl e') ↦ rw (e', Leaves) tt
              | inr (inr (l, e')) ↦
                  rw (e', Leaves)
                    (Leaves-then On (header_loop (length buf) (drop (n + 2) buf)) (pure (pos 0))
                      (record h {
                        request_method = l.method;
                        request_path = l.path;
                        request_version = l.version;
                      })
                      (header_loop-Leaves (length buf) (drop (n + 2) buf) _ i) (λ h' i'. i'))
            ])
          ])
  ]

  pub reserved-Leaves : (o : Option ℕ) (h : Http World) → On h → Leaves On (reserved o h)
  reserved-Leaves none h i = i
  reserved-Leaves (some n) h i = i

  pub recv_request-Leaves :
      (reserve : Reserve) (capacity : ℕ) (h : Http World)
      → On h
      → Leaves On (recv_request os reserve capacity h)
  unfolding recv_request
  recv_request-Leaves reserve capacity h i =
      Leaves-bind On (reserved (reserve capacity 2048))
        (λ capacity'. do
          r ← net (get_message os h.socket (capacity' - 1) minus_one request_scan)
          code ← parse_request_header r.1
          pure (code, r.1))
        h (reserved-Leaves (reserve capacity 2048) h i)
        (λ capacity' h1 i1.
          Leaves-bind On (net (get_message os h.socket (capacity' - 1) minus_one request_scan))
            (λ r. do code ← parse_request_header r.1; pure (code, r.1)) h1
            (got-Leaves h.socket (capacity' - 1) request_scan h1 i1)
            (λ r h2 i2.
              Leaves-bind On (parse_request_header r.1) (λ code. pure (code, r.1)) h2
                (parse_request_header-Leaves r.1 h2 i2) (λ code h3 i3. i3)))
