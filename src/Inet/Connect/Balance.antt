-- ===== src/Inet/Connect/Balance.antt =====
-- Who owns a descriptor while a socket is built and destroyed (libs/Inet/Socket.cpp).
use socket_program.Base.{
  ℕ, ℤ, minus_one, ◌==ℤ◌, ◌≡◌, refl, sym, subst, ◌∙◌, ap, ◌⊎◌, inl, inr, true, false, Option, none,
  some,
}
use socket_program.Base.{
  Outcome, done, threw, fault, diverged, Run, Ensures, Ensures-then, Ensures-catch, Ensures-part,
  ◌>>◌, pure, throw, ◌>>◌,
}
use socket_program.Inet.Os.{Os, call_void}
use socket_program.Inet.Socket.{
  SslCtx, SslSocket, Held, close, outside, outside, shutdown_loop, set_ssl, close_ssl, destroy_base,
  forget, destroy, constructing,
}
use socket_program.Inet.Connect.Descriptors.{FdSet, with_fd, Descriptors, ==ℤ_self, with_fd-with_fd}

module _ (os : Os) (fuel : ℕ) (fds : Descriptors os fuel) (before : FdSet) where
  -- The object owns no descriptor, or one more than were open before.
  abbrev pub Released : Held os.World → Type 0
  Released h = (h.object.socket ≡ minus_one) × (fds.is_open h.world ≡ before)

  abbrev pub Owns : ℤ → FdSet → Type 0
  Owns fd now = ((fd ==ℤ minus_one) ≡ false) × (before fd ≡ false) × (now ≡ with_fd before fd true)

  abbrev pub Balance : ℤ → FdSet → Type 0
  Balance fd now = ((fd ≡ minus_one) × (now ≡ before)) ⊎ Owns fd now

  abbrev pub Balanced : Held os.World → Type 0
  Balanced h = Balance h.object.socket (fds.is_open h.world)

  pub close-Released :
      (h : Held os.World)
      → Balanced h
      → Ensures (λ u h'. Released h') (λ e h'. Released h') (close os h)
  unfolding close
  close-Released h (inl (gone, same)) = rw (gone, Ensures) (refl, same)
  close-Released h (inr (valid, fresh, opened)) =
      let is_open : fds.is_open h.world h.object.socket ≡ true =
        rw (opened, ==ℤ_self h.object.socket) refl in
      let closed = fds.close_lem h.object.socket h.world is_open in
      rw (valid, closed.0, Ensures)
        (
          refl,
          closed.1
              ∙ (ap (λ f. with_fd f h.object.socket false) opened
                  ∙ with_fd-with_fd before h.object.socket fresh),
        )

  -- A step that leaves the descriptor and the open ones alone.
  pub kept : (fd : ℤ) (now now' : FdSet) → now' ≡ now → Balance fd now → Balance fd now'
  kept fd now now' k b = subst (Balance fd) (sym k) b

  close_ssl-Balanced_with :
      (fd : ℤ) (ssl : Option ℕ) (c : Option SslCtx) (w : os.World)
      → let s : SslSocket = record { socket = fd; ssl = ssl; sslctx = c } in
        Balanced (record { object = s; world = w })
        → Ensures
            (λ u h'. Balanced h')
            (λ e h'. ⊥)
            (close_ssl os fuel (record { object = s; world = w }))
  unfolding close_ssl
  close_ssl-Balanced_with fd none c w b = b
  close_ssl-Balanced_with fd (some p) c w b =
      let s : SslSocket = record { socket = fd; ssl = some p; sslctx = c } in
      Ensures-then (λ u h'. (h'.object ≡ s) × Balanced h') (λ e h'. ⊥) (λ u h'. Balanced h')
        (λ e h'. ⊥) (outside (shutdown_loop os fuel p))
        (do outside (call_void (os.ssl_free p)); set_ssl none) (record { object = s; world = w })
        (Ensures-part (λ u w'. fds.is_open w' ≡ fds.is_open w) (λ e w'. ⊥)
          (λ u h'. (h'.object ≡ s) × Balanced h') (λ e h'. ⊥) (λ h. h.world)
          (λ h w. record h { world = w }) (shutdown_loop os fuel p)
          (record { object = s; world = w }) (fds.shutdown_lem p w)
          (λ u w' k. (refl, kept fd _ _ k b)) (λ e w' r. r))
        (λ u h' (_, b'). kept _ _ _ (fds.ssl_free_keeps p h'.world) b') (λ e h' r. r)

  pub close_ssl-Balanced :
      (h : Held os.World)
      → Balanced h
      → Ensures (λ u h'. Balanced h') (λ e h'. ⊥) (close_ssl os fuel h)
  close_ssl-Balanced h =
      close_ssl-Balanced_with h.object.socket h.object.ssl h.object.sslctx h.world

  destroy_base-Released :
      (h : Held os.World)
      → Balanced h
      → Ensures (λ u h'. fds.is_open h'.world ≡ before) (λ e h'. ⊥) (destroy_base os h)
  unfolding destroy_base
  destroy_base-Released h (inl (gone, same)) = rw (gone, Ensures) same
  destroy_base-Released h (inr (valid, fresh, opened)) =
      rw (valid, Ensures)
        (Ensures-catch (λ u h'. Released h') (λ e h'. Released h') _ _ (close os) (λ e. pure tt) h
          (close-Released h (inr (valid, fresh, opened))) (λ u h' r. r.1) (λ e h' r. r.1))

  forget-Released :
      (o : Outcome (Held os.World) (Unit {0}))
      → Ensures (λ u h'. fds.is_open h'.world ≡ before) (λ e h'. ⊥) o
      → Ensures (λ u w'. fds.is_open w' ≡ before) (λ e w'. ⊥) (forget o)
  forget-Released (done u h) r = r
  forget-Released (threw e h) r = absurd r
  forget-Released fault r = absurd r
  forget-Released diverged r = absurd r

  -- The destructor of an object that owns an open descriptor, or has none, comes to an end and does not
  -- throw, and the open descriptors are then those but the object's.
  pub destroy-Released :
      (s : SslSocket) (w : os.World)
      → Balanced (record { object = s; world = w })
      → Ensures (λ u w'. fds.is_open w' ≡ before) (λ e w'. ⊥) (destroy os fuel s w)
  unfolding destroy
  destroy-Released s w b = forget-Released _ (
      Ensures-then (λ u h'. Balanced h') (λ e h'. ⊥) (λ u h'. fds.is_open h'.world ≡ before)
        (λ e h'. ⊥) (close_ssl os fuel) (destroy_base os) (record { object = s; world = w })
        (close_ssl-Balanced _ b) (λ u h' b'. destroy_base-Released h' b') (λ e h' r. r))

  -- A constructor whose body throws leaves the open descriptors as they were.
  pub constructed :
      (P : SslSocket → os.World → Type 0) (body : Run (Held os.World) (Unit {0})) (s : SslSocket)
      (w : os.World)
      → Ensures
          (λ u h'. P h'.object h'.world)
          (λ e h'. Balanced h')
          (body (record { object = s; world = w }))
      → Ensures P (λ e w'. fds.is_open w' ≡ before) (constructing os fuel body s w)
  unfolding constructing
  constructed P body s w b = on (body (record { object = s; world = w })) b
    where
      on :
          (o : Outcome (Held os.World) (Unit {0}))
          → Ensures (λ u h'. P h'.object h'.world) (λ e h'. Balanced h') o
          → Ensures P (λ e w'. fds.is_open w' ≡ before) (constructing os fuel (λ _. o) s w)
      on (done u h) b = b
      on (threw e h) b =
          Ensures-then (λ u w'. fds.is_open w' ≡ before) (λ e w'. ⊥) _ _ (destroy os fuel h.object)
            (throw e) h.world (destroy-Released h.object h.world b) (λ u w' r. r)
            (λ e w' r. absurd r)
      on fault b = absurd b
      on diverged b = absurd b
