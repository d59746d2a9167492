-- ===== src/Protocols/Http/Sending.antt =====
-- Texts that `ProtocolHttp` sends one after the other.
use socket_program.Base.{
  ℕ, ◌<◌, pos, ◌≡◌, refl, sym, ap, ◌∙◌, ◌++◌, length, take, drop, length-append, take-append-drop,
  length-drop, append_assoc, Bytes, arith,
}
use socket_program.Base.{
  Outcome, Run, ◌>>◌, write_failed, Ensures, Ensures-then, Ensures-part, Ensures-mono,
}
use socket_program.Inet.Os.{Os}
use socket_program.Inet.Io.{put_message}
use socket_program.Inet.Io.Transport.{Outgoing, sent}
use socket_program.Inet.Io.Delivery.{put_message-Delivers}
use socket_program.Protocols.Http.State.{Http, net}

module _ (os : Os) (out : Outgoing os) (h : Http os.World) where
  abbrev pub at : os.World → Http os.World
  at w = record h { world = w }

  abbrev pub to_peer : os.World → Bytes
  to_peer = sent out h.socket

  -- The whole text was sent after what had been, or a first part of it, and nothing but the world
  -- has changed.
  abbrev pub Sent : Bytes → Bytes → Http os.World → Type 0
  Sent before text h' = (w : os.World) × (h' ≡ at w) × (to_peer w ≡ before ++ text)

  abbrev pub Cut : Bytes → Bytes → Http os.World → Type 0
  Cut before text h' =
      (w : os.World) × (front : Bytes) × (rest : Bytes) × (h' ≡ at w)
      × (text ≡ front ++ rest)
      × (0 < length rest)
      × (to_peer w ≡ before ++ front)

  -- One `putMessage` of fewer than 2 ^ 31 bytes.
  pub put_lem :
      (text : Bytes) (w : os.World)
      → length text < 0x8000_0000
      → Ensures
          (λ r h'. (r ≡ pos 0) × Sent (to_peer w) text h')
          (λ e h'. Cut (to_peer w) text h')
          (net (put_message os h.socket text) (at w))
  put_lem text w small =
      Ensures-part (λ r w'. (r ≡ pos 0) × (to_peer w' ≡ to_peer w ++ text))
        (λ e w'.
          (n : ℕ) × (e ≡ write_failed)
          × (n < length text)
          × (to_peer w' ≡ to_peer w ++ take n text))
        (λ r h'. (r ≡ pos 0) × Sent (to_peer w) text h') (λ e h'. Cut (to_peer w) text h')
        (λ h. h.world) (λ h w. record h { world = w }) (put_message os h.socket text) (at w)
        (put_message-Delivers os out h.socket text w small) (λ r w' (e, all). (e, (w', refl, all)))
        (λ e w' (n, _, less, part). (
          w',
          take n text,
          drop n text,
          refl,
          sym (take-append-drop n text),
          omega (arith, length-drop n text),
          part,
        ))

  -- What is sent after `before ++ text`, told from `before` on.
  pub later :
      {A : Type 0} (R : A → Type 0) (before text more : Bytes) (o : Outcome (Http os.World) A)
      → Ensures
          (λ r h'. R r × Sent (before ++ text) more h')
          (λ e h'. Cut (before ++ text) more h')
          o
      → Ensures
          (λ r h'. R r × Sent before (text ++ more) h')
          (λ e h'. Cut before (text ++ more) h')
          o
  later R before text more o sent_on =
      Ensures-mono (λ r h'. R r × Sent (before ++ text) more h')
        (λ r h'. R r × Sent before (text ++ more) h') (λ e h'. Cut (before ++ text) more h')
        (λ e h'. Cut before (text ++ more) h') o sent_on
        (λ r h' (e, (w', same, all)). (e, (w', same, all ∙ append_assoc before text more)))
        (λ e h' (w', front, left, same, split, some_left, part). (
          w',
          text ++ front,
          left,
          same,
          ap (◌++◌ text) split ∙ sym (append_assoc text front left),
          some_left,
          part ∙ append_assoc before text front,
        ))

  -- A failure in the first text.
  pub Cut-append :
      (before text more : Bytes) (h' : Http os.World)
      → Cut before text h'
      → Cut before (text ++ more) h'
  Cut-append before text more h' (w', front, left, same, split, some_left, part) = (
    w',
    front,
    left ++ more,
    same,
    ap (λ x. x ++ more) split ∙ append_assoc front left more,
    omega (arith, length-append left more),
    part,
  )

  -- A text, and then others.
  pub send_then :
      {A B : Type 0} (Q : A → Type 0) (R : B → Type 0) (before text more : Bytes)
      (m : Run (Http os.World) A) (k : Run (Http os.World) B) (w : os.World)
      → Ensures (λ a h'. Q a × Sent before text h') (λ e h'. Cut before text h') (m (at w))
      → ((w' : os.World)
          → to_peer w' ≡ before ++ text
          → Ensures
              (λ r h'. R r × Sent (before ++ text) more h')
              (λ e h'. Cut (before ++ text) more h')
              (k (at w')))
      → Ensures
          (λ r h'. R r × Sent before (text ++ more) h')
          (λ e h'. Cut before (text ++ more) h')
          ((m >> k) (at w))
  send_then Q R before text more m k w first others =
      Ensures-then (λ a h'. Q a × Sent before text h') (λ e h'. Cut before text h')
        (λ r h'. R r × Sent before (text ++ more) h') (λ e h'. Cut before (text ++ more) h') m k
        (at w) first
        (λ a h' (_, (w', same, all)).
          rw same (later R before text more (k (at w')) (others w' all)))
        (λ e h' cut. Cut-append before text more h' cut)
