-- ===== src/Protocols/Http/Quiet/Sending.antt =====
-- What `sendResponse` of libs/Protocols/ProtocolHttp.cpp leaves as it was.
use socket_program.Base.{
  ℕ, ◌==◌, ℤ, pos, minus_one, ◌==ℤ◌, Bool-cases, inl, inr, true, false, ◌≡◌, refl, ◌∙◌, Option,
  none, some, Option-cases, [], ◌∷◌, ◌++◌, length, Bytes, if◌then◌else◌, ap, subst, sym,
}
use socket_program.Base.{
  Run, ◌>>=◌, ◌>>◌, pure, Leaves, Leaves-bind, Leaves-then, Leaves-if, Leaves-part, Leaves-catch,
  try_catch,
}
use socket_program.Inet.Os.{Os}
use socket_program.Inet.Socket.{put_close}
use socket_program.Inet.Io.Quiet.{Still, Holds, put_close-Leaves}
use socket_program.Protocols.Http.State.{Http, File, Site, destroy_http}
use socket_program.Protocols.Http.Resource.{
  ensure_open, open_path, get_body_size, file_name, read_range, file_size,
}
use socket_program.Protocols.Http.Response.{
  put, response_error, send_loop, send_body, close_socket, send_file, send_response, reason,
  error_header, response_header, buf_size,
}
use socket_program.Protocols.Http.Quiet.{
  On as OnSocket, OwnsFile, OwnsFile-same, sent-Leaves, read_range-Same,
}
use socket_program.Inet.Connect.Descriptors.{FdSet, with_fd, with_fd-with_fd}

-- Opening a file gives a descriptor that was not open, or fails; closing it closes that. The clock opens
-- and closes nothing.
pub record SiteFiles {W : Type 0} (site : Site W) (is_open : W → FdSet) : Type 0 where
  pub open_fails :
      (name : Bytes) (w : W)
      → (site.open_file name w).0 ≡ none
      → is_open (site.open_file name w).1 ≡ is_open w
  pub open_works :
      (name : Bytes) (w : W) (f : File)
      → (site.open_file name w).0 ≡ some f
      → ((f.handle ==ℤ minus_one) ≡ false)
        × (is_open w f.handle ≡ false)
        × (is_open (site.open_file name w).1 ≡ with_fd (is_open w) f.handle true)
  pub closes :
      (f : File) (w : W) → is_open (site.close_file f w) ≡ with_fd (is_open w) f.handle false
  pub date : (w : W) → is_open (site.date w).1 ≡ is_open w

-- What a file that was opened on `base` owns.
pub opened-OwnsFile :
    {W : Type 0} (site : Site W) (is_open : W → FdSet) (files : SiteFiles site is_open)
    (base : FdSet) (name : Bytes) (w : W)
    → is_open w ≡ base
    → OwnsFile is_open base (site.open_file name w).0 (site.open_file name w).1
opened-OwnsFile site is_open files base name w e = elim (Option-cases (site.open_file name w).0) [
  | inl no_file ↦ rw no_file (files.open_fails name w no_file ∙ e)
  | inr (f, got) ↦
      let (valid, closed, opens) = files.open_works name w f got in
      rw got (
        valid,
        sym (ap (λ set. set f.handle) e) ∙ closed,
        opens ∙ ap (λ set. with_fd set f.handle true) e,
      )
]

-- Closing it gives `base` back.
pub closed-Base :
    {W : Type 0} (site : Site W) (is_open : W → FdSet) (files : SiteFiles site is_open)
    (base : FdSet) (f : File) (w : W)
    → OwnsFile is_open base (some f) w
    → is_open (site.close_file f w) ≡ base
closed-Base site is_open files base f w (valid, closed, opens) =
    files.closes f w
    ∙ (ap (λ set. with_fd set f.handle false) opens ∙ with_fd-with_fd base f.handle closed)

module _ (os : Os) (is_open : os.World → FdSet) (base : FdSet)
    (still : (set : FdSet) → Still os (λ v. is_open v ≡ set)) (fd : ℤ) (site : Site os.World)
    (files : SiteFiles site is_open) (fuel : ℕ) where
  open os use {World}

  abbrev On : Http World → Type 0
  On = OnSocket os is_open base still fd

  put-Leaves : (message : Bytes) (h : Http World) → On h → Leaves On (put os site fuel message h)
  put-Leaves message h i = sent-Leaves os is_open base still fd message h i

  date-On : (h : Http World) → On h → On (record h { world = (site.date h.world).1 })
  date-On h (e, o) =
      (e, OwnsFile-same is_open base h.file h.world (site.date h.world).1 (files.date h.world) o)

  response_error-Leaves :
      (code : ℕ) (h : Http World) → On h → Leaves On (response_error os site fuel code h)
  unfolding response_error
  response_error-Leaves code h i =
      let i1 : On (record h { world = (site.date h.world).1 }) = date-On h i in
      Leaves-then On
        (put os site fuel (error_header (reason code).0 (reason code).1 (site.date h.world).0))
        (do put os site fuel (reason code).1; pure (pos 0)) _ (put-Leaves _ _ i1)
        (λ h2 i2.
          Leaves-then On (put os site fuel (reason code).1) (pure (pos 0)) h2 (put-Leaves _ h2 i2)
            (λ h3 i3. i3))

  send_loop-Leaves :
      (rest buf : Bytes) (h : Http World) → On h → Leaves On (send_loop os site fuel rest buf h)
  unfolding send_loop
  send_loop-Leaves [] buf h i =
      Leaves-if On (length buf == 0) (pure (pos 200)) (do put os site fuel buf; pure (pos 200)) h i
        (Leaves-then On (put os site fuel buf) (pure (pos 200)) h (put-Leaves buf h i)
          (λ h' i'. i'))
  send_loop-Leaves (t ∷ rest) buf h i = elim (Bool-cases (length (buf ++ t ∷ []) == buf_size)) [
    | inr e ↦ rw (e, Leaves) (send_loop-Leaves rest (buf ++ t ∷ []) h i)
    | inl e ↦
        rw (e, Leaves)
          (Leaves-bind On (put os site fuel (buf ++ t ∷ []))
            (λ ret. if ret ==ℤ pos 0 then send_loop os site fuel rest [] else pure minus_one) h
            (put-Leaves (buf ++ t ∷ []) h i)
            (λ ret h' i'.
              Leaves-if On (ret ==ℤ pos 0) (send_loop os site fuel rest []) (pure minus_one) h'
                (send_loop-Leaves rest [] h' i') i'))
  ]

  ensure_open-Leaves : (name : Bytes) (h : Http World) → On h → Leaves On (ensure_open site name h)
  unfolding ensure_open
  ensure_open-Leaves name h (e, o) = on h.file o
    where
      on :
          (file : Option File)
          → OwnsFile is_open base file h.world
          → Leaves On (ensure_open site name (record h { file = file }))
      on (some f) o = (e, o)
      on none o = (e, opened-OwnsFile site is_open files base name h.world o)

  open_path-Leaves : (h : Http World) → On h → Leaves On (open_path site h)
  unfolding open_path
  open_path-Leaves h i = elim (Option-cases (file_name h.request_path)) [
    | inl e ↦ rw (e, Leaves, open_path) i
    | inr (name, e) ↦ rw (e, open_path) (ensure_open-Leaves name h i)
  ]

  send_body-Leaves : (h : Http World) → On h → Leaves On (send_body os site fuel h)
  unfolding send_body
  send_body-Leaves h i =
      let rest : Option File → Run (Http World) ℤ = λ opened. elim opened [
        | none ↦ pure (pos 404)
        | some f ↦ λ g.
            try_catch (send_loop os site fuel (f.bytes_from g.range_start) []) (λ e. pure (pos 200))
              g
      ] in
      Leaves-bind On (open_path site) rest h (open_path-Leaves h i) (λ opened g i'.
        elim opened as (λ k. Leaves On (rest k g)) [
          | none ↦ i'
          | some f ↦
              Leaves-catch On (send_loop os site fuel (f.bytes_from g.range_start) [])
                (λ e. pure (pos 200)) g (send_loop-Leaves (f.bytes_from g.range_start) [] g i')
                (λ e g' i''. i'')
        ])

  close_socket-Leaves : (h : Http World) → On h → Leaves On (close_socket os site fuel h)
  unfolding close_socket
  close_socket-Leaves h (e, o) =
      let same : World → Type 0 = λ v. is_open v ≡ is_open h.world in
      let quiet : Still os same = still (is_open h.world) in
      Leaves-part (Holds os same quiet fd) On (λ h. record { object = h.socket; world = h.world })
        (λ h s. record h { socket = s.object; world = s.world }) (put_close os fuel) h
        (put_close-Leaves os same quiet fd fuel (record { object = h.socket; world = h.world })
          (e, refl))
        (λ s (e', k). (e', OwnsFile-same is_open base h.file h.world s.world k o))

  send_file-Leaves : (size : ℕ) (h : Http World) → On h → Leaves On (send_file os site fuel size h)
  unfolding send_file
  send_file-Leaves size h i =
      let i1 : On (record h { world = (site.date h.world).1 }) = date-On h i in
      Leaves-then On
        (put os site fuel
          (response_header h.is_range h.range_start size h.request_path (site.date h.world).0))
        (do
          sent ← send_body os site fuel
          if sent ==ℤ minus_one
              then pure minus_one
              else (do close_socket os site fuel; pure (pos 0)))
        _ (put-Leaves _ _ i1)
        (λ h2 i2.
          Leaves-bind On (send_body os site fuel)
            (λ sent.
              if sent ==ℤ minus_one
              then pure minus_one
              else (do close_socket os site fuel; pure (pos 0)))
            h2 (send_body-Leaves h2 i2)
            (λ sent h3 i3.
              Leaves-if On (sent ==ℤ minus_one) (pure minus_one)
                (do close_socket os site fuel; pure (pos 0)) h3 i3
                (Leaves-then On (close_socket os site fuel) (pure (pos 0)) h3
                  (close_socket-Leaves h3 i3) (λ h4 i4. i4))))

  get_body_size-Leaves : (h : Http World) → On h → Leaves On (get_body_size site h)
  unfolding get_body_size
  get_body_size-Leaves h i = elim (Option-cases (file_name h.request_path)) [
    | inl e ↦ rw (e, Leaves, get_body_size) i
    | inr (name, e) ↦
        let same = read_range-Same h.request_header h in
        let g = read_range h.request_header h in
        let i1 : On g = (
          ap (λ s. s.socket) same.0 ∙ i.0,
          subst (λ file. OwnsFile is_open base file g.world) (sym same.2)
              (OwnsFile-same is_open base h.file h.world g.world (ap is_open same.1) i.1),
        ) in
        rw (e, get_body_size)
          (Leaves-bind On (ensure_open site name)
            (λ opened. pure (elim opened [ none ↦ (404, 0) | some f ↦ (200, file_size f) ])) g
            (ensure_open-Leaves name g i1) (λ opened h2 i2. i2))
  ]

  pub send_response-Leaves : (h : Http World) → On h → Leaves On (send_response os site fuel h)
  unfolding send_response
  send_response-Leaves h i =
      Leaves-bind On (get_body_size site)
        (λ r. if r.0 == 200 then send_file os site fuel r.1 else response_error os site fuel r.0) h
        (get_body_size-Leaves h i)
        (λ r h' i'.
          Leaves-if On (r.0 == 200) (send_file os site fuel r.1) (response_error os site fuel r.0)
            h' (send_file-Leaves r.1 h' i') (response_error-Leaves r.0 h' i'))

  -- What `~ProtocolHttp` leaves.
  pub destroy_http-Base :
      (h : Http World)
      → On h
      → let h' = destroy_http site h in (h'.socket.socket ≡ fd) × (is_open h'.world ≡ base)
  unfolding destroy_http
  destroy_http-Base h (e, o) = on h.file o
    where
      on :
          (file : Option File)
          → OwnsFile is_open base file h.world
          → let h' = destroy_http site (record h { file = file }) in
            (h'.socket.socket ≡ fd) × (is_open h'.world ≡ base)
      on none o = (e, o)
      on (some f) o = (e, closed-Base site is_open files base f h.world o)
