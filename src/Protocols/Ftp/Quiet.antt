-- ===== src/Protocols/Ftp/Quiet.antt =====
-- The descriptors over the methods that the handlers of libs/Protocols/ProtocolFtp.cpp share.
pub mod Commands
pub mod Leaky
pub mod Connection
pub mod Transfers
pub mod Files
pub mod Rounds
use socket_program.Base.{
  ℕ, ℤ, pos, minus_one, ◌==◌, Bool, true, false, Option, Option-cases, none, some, inl, inr, List,
  [], ◌++◌, ◌∷◌, Bytes, ◌≡◌, refl, sym, ap, subst, ◌∙◌, if◌then◌else◌, codes,
}
use socket_program.Base.{
  Run, Outcome, Exn, done, ◌>>=◌, ◌>>◌, pure, throw, modify, nothing_received, try_catch, Leaves,
  Leaves-bind, Leaves-then, Leaves-map, Leaves-if, Leaves-part, Leaves-ensured, Leaves-both,
  Leaves-any, Leaves-catch,
}
use socket_program.Inet.Os.{Os}
use socket_program.Inet.Socket.{SslSocket, destroy}
use socket_program.Inet.Io.{put_message, get_message, scan_any}
use socket_program.Inet.Io.Quiet.{Still, put_message-Leaves, get_message-Leaves}
use socket_program.Inet.Connect.Descriptors.{FdSet, with_fd, with_fd-with_fd, Descriptors}
use socket_program.Inet.Connect.Sets.{
  opened, AllFresh, opened-append, AllFresh-append, Adds, Adds-other, Adds-more, Adds-less,
}
use socket_program.Protocols.Ftp.State.{
  Ftp, net, send, reply, recv, recv_max, handle_error, drop_client, with_client,
}
use socket_program.Protocols.Ftp.Data.{Dir, Host}
use socket_program.Protocols.Ftp.Data.Ownership.{OwnsClient, Dropped, drop_client-Dropped}

module _ (os : Os) (fuel : ℕ) (fds : Descriptors os fuel) (base : FdSet) where
  open os use {World}

  -- The same set of open descriptors.
  abbrev pub Same : World → World → Type 0
  Same w v = fds.is_open v ≡ fds.is_open w

  -- The object is on the control connection with this descriptor, and what is open is `base`, and the
  -- descriptor of the data connection if there is one.
  abbrev pub Kept : ℤ → Ftp World → Type 0
  Kept fd f = (f.control.socket ≡ fd) × OwnsClient os fuel fds base f.client f.world

  pub OwnsClient-Same :
      (c : Option SslSocket) (w v : World)
      → Same w v
      → OwnsClient os fuel fds base c w
      → OwnsClient os fuel fds base c v
  OwnsClient-Same none w v e o = e ∙ o
  OwnsClient-Same (some s) w v e (valid, closed, opens) = (valid, closed, e ∙ opens)

  -- A descriptor was opened besides.
  pub Kept-more :
      (fd d : ℤ) (f : Ftp World) (v : World)
      → Kept fd f
      → Adds (fds.is_open f.world) d (fds.is_open v)
      → (f.control.socket ≡ fd) × OwnsClient os fuel fds (with_fd base d true) f.client v
  Kept-more fd d f v (e, o) adds = (e, on f.client o)
    where
      on :
          (c : Option SslSocket)
          → OwnsClient os fuel fds base c f.world
          → OwnsClient os fuel fds (with_fd base d true) c v
      on none o = adds.2 ∙ ap (λ set. with_fd set d true) o
      on (some s) o = Adds-more base (fds.is_open f.world) (fds.is_open v) s.socket d o adds

  pub Kept-out :
      (fd d : ℤ) (f : Ftp World) → Kept fd f → fds.is_open f.world d ≡ false → base d ≡ false
  Kept-out fd d f (e, o) out = on f.client o
    where
      on : (c : Option SslSocket) → OwnsClient os fuel fds base c f.world → base d ≡ false
      on none o = sym (ap (λ set. set d) o) ∙ out
      on (some s) o = (Adds-other base (fds.is_open f.world) s.socket d o out).1

  -- And closed again.
  pub Kept-less :
      (fd d : ℤ) (f : Ftp World) (v : World)
      → (f.control.socket ≡ fd) × OwnsClient os fuel fds (with_fd base d true) f.client f.world
      → base d ≡ false
      → fds.is_open v ≡ with_fd (fds.is_open f.world) d false
      → Kept fd (record f { world = v })
  Kept-less fd d f v (e, o) out closes = (e, on f.client o)
    where
      on :
          (c : Option SslSocket)
          → OwnsClient os fuel fds (with_fd base d true) c f.world
          → OwnsClient os fuel fds base c v
      on none o = closes ∙ (ap (λ set. with_fd set d false) o ∙ with_fd-with_fd base d out)
      on (some s) o =
          subst (Adds base s.socket) (sym closes)
            (Adds-less base (fds.is_open f.world) s.socket d o out)

  pub net-Kept :
      {A : Type 0} (fd : ℤ) (m : Run World A) (f : Ftp World)
      → Kept fd f
      → Leaves (Same f.world) (m f.world)
      → Leaves (Kept fd) (net m f)
  net-Kept fd m f (e, o) l =
      Leaves-part (Same f.world) (Kept fd) (λ g. g.world) (λ g w. record g { world = w }) m f l
        (λ v same. (e, OwnsClient-Same f.client f.world v same o))

  -- Whatever a call does, the object stays on its control connection.
  pub net-Control :
      {A : Type 0} (fd : ℤ) (m : Run World A) (f : Ftp World)
      → f.control.socket ≡ fd
      → Leaves (λ g. g.control.socket ≡ fd) (net m f)
  net-Control fd m f e =
      Leaves-part (λ v. Unit {0}) (λ g. g.control.socket ≡ fd) (λ g. g.world)
        (λ g w. record g { world = w }) m f (Leaves-any (m f.world)) (λ v u. e)

  pub drop_client-Control :
      (fd : ℤ) (f : Ftp World)
      → f.control.socket ≡ fd
      → Leaves (λ g. g.control.socket ≡ fd) (drop_client os fuel f)
  unfolding drop_client
  drop_client-Control fd f e = elim (Option-cases f.client) [
    | inl c ↦ rw (c, Leaves, drop_client) e
    | inr (s, c) ↦
        rw (c, Leaves, drop_client)
          (Leaves-then (λ g. g.control.socket ≡ fd) (net (destroy os fuel s))
            (modify (λ g. record g { client = none })) f (net-Control fd (destroy os fuel s) f e)
            (λ g e'. e'))
  ]

  pub drop_client-Kept :
      (fd : ℤ) (f : Ftp World) → Kept fd f → Leaves (Kept fd) (drop_client os fuel f)
  drop_client-Kept fd f (e, o) =
      Leaves-both (λ g. g.control.socket ≡ fd) (λ g. OwnsClient os fuel fds base g.client g.world)
        (drop_client os fuel f) (drop_client-Control fd f e)
        (Leaves-ensured (λ u g. Dropped os fuel fds base g) (λ x g. ⊥) _ (drop_client os fuel f)
          (drop_client-Dropped os fuel fds base f.client f refl o)
          (λ u g (gone, same). rw gone same) (λ x g no. absurd no))

  module _ (still : (set : FdSet) → Still os (λ v. fds.is_open v ≡ set)) (fd : ℤ) where
    pub reply-Kept : (text : Bytes) (f : Ftp World) → Kept fd f → Leaves (Kept fd) (reply os text f)
    unfolding reply send
    reply-Kept text f k =
        let g : Ftp World = record f { send_message = text } in
        Leaves-then (Kept fd) (net (put_message os g.control text)) (pure tt) g
          (net-Kept fd (put_message os g.control text) g k (
            put_message-Leaves os (Same f.world) (still (fds.is_open f.world)) g.control text
              g.world refl))
          (λ h k'. k')

    pub reply_and :
        {A : Type 0} (text : Bytes) (a : A) (f : Ftp World)
        → Kept fd f
        → Leaves (Kept fd) ((do reply os text; pure a) f)
    reply_and text a f k =
        Leaves-then (Kept fd) (reply os text) (pure a) f (reply-Kept text f k) (λ h k'. k')

    pub handle_error-Kept :
        (err : ℕ) (f : Ftp World) → Kept fd f → Leaves (Kept fd) (handle_error os err f)
    unfolding handle_error
    handle_error-Kept err f k = reply_and _ (pos 0) f k

    pub recv-Kept : (f : Ftp World) → Kept fd f → Leaves (Kept fd) (recv os f)
    unfolding recv
    recv-Kept f k =
        let g : Ftp World = record f { recv_message = [] } in
        Leaves-bind (Kept fd) (net (get_message os f.control (recv_max os) minus_one scan_any))
          (λ got.
            if got.0 == 0
            then throw nothing_received
            else modify (λ g. record g { recv_message = got.1 }))
          g
          (net-Kept fd (get_message os f.control (recv_max os) minus_one scan_any) g k (
            get_message-Leaves os (Same f.world) (still (fds.is_open f.world)) f.control
              (recv_max os) minus_one scan_any g.world refl))
          (λ got h k'.
            Leaves-if (Kept fd) (got.0 == 0) (throw nothing_received)
              (modify (λ g. record g { recv_message = got.1 })) h k' k')

    pub with_client-Kept :
        {A : Type 0} (m : SslSocket → Run (Ftp World) A) (f : Ftp World)
        → Kept fd f
        → ((s : SslSocket) → Leaves (Kept fd) (m s f))
        → Leaves (Kept fd) (with_client m f)
    with_client-Kept m f k h = elim (Option-cases f.client) [
      | inl c ↦ rw (c, Leaves) tt
      | inr (s, c) ↦ rw (c, Leaves) (h s)
    ]

    -- A try block whose handler only logs.
    pub guarded :
        {A : Type 0} (m : Run (Ftp World) A) (a : A) (f : Ftp World)
        → Leaves (Kept fd) (m f)
        → Leaves (Kept fd) (try_catch m (λ e. pure a) f)
    guarded m a f h = Leaves-catch (Kept fd) m (λ e. pure a) f h (λ e g k. k)
