-- ===== src/Programs/Echo/Echoing.antt =====
-- The echo loop against the streams of a client.
use socket_program.Base.{
  ℕ, zero, suc, ◌+◌, ◌-◌, ◌≤◌, ◌<◌, pos, add_pos, sub_pos, is_nonpos, not-zero, ◌≡◌, refl, sym, ◌∙◌,
  [], append-nil, inl, inr, true, false, ◌++◌, length, take, drop, take-add, take_all, length-drop,
  append_assoc, Bytes, arith, Bool, ◌⊎◌,
}
use mathlib.Core.Bool.{true≢false}
use socket_program.Base.{
  Ensures, Ensures-bind, Ensures-mono, pure, if◌then◌else◌, ap, take-append-drop, length-append,
}
use socket_program.Inet.Os.{Os}
use socket_program.Inet.Io.Transport.{Took, Gave, Outgoing, Incoming}
use socket_program.Programs.Echo.{write_back, echo_loop}
use socket_program.Programs.Echo.Library.{Openssl}
use socket_program.Programs.Echo.Laws.{Duplex}

module _ (os : Os) (lib : Openssl os) (out : Outgoing os) (inc : Incoming os)
    (both : Duplex os lib out inc) (p : ℕ) where
  -- What the client was sent, and what it has sent that was not read.
  abbrev told : os.World → Bytes
  told w = out.secure w p

  abbrev unread : os.World → Bytes
  unread w = inc.secure w p

  -- The last call was a write of these bytes, which failed, and the question for its error.
  abbrev pub WriteFailed : Bytes → os.World → Type 0
  WriteFailed rest w' =
      (v : os.World) × (0 < length rest)
      × (is_nonpos (os.ssl_write p (pos (length rest)) rest v).0 ≡ true)
      × (w'
          ≡ (lib.ssl_get_error p (os.ssl_write p (pos (length rest)) rest v).0
              (os.ssl_write p (pos (length rest)) rest v).1).1)

  -- The last call was a read that failed or found the end, and the question for its error.
  abbrev pub ReadFailed : os.World → Type 0
  ReadFailed w' =
      (v : os.World) × (is_nonpos (os.ssl_read p (pos 1024) v).0.0 ≡ true)
      × (w'
          ≡ (lib.ssl_get_error p (os.ssl_read p (pos 1024) v).0.0 (os.ssl_read p (pos 1024) v).1).1)

  failed_of :
      (rest : Bytes) (left : ℕ) (v : os.World)
      → length rest ≡ suc left
      → let r = os.ssl_write p (pos (suc left)) (take (suc left) rest) v in
        is_nonpos r.0 ≡ true → WriteFailed rest (lib.ssl_get_error p r.0 r.1).1
  failed_of rest left v size =
      rw (take_all (suc left) rest (omega arith), ← size) (λ e. (v, omega arith, e, refl))

  -- What was written of a chunk: all of it, or a first part of it before an error.
  abbrev Back : Bytes → Bytes → Bytes → Bool → os.World → Type 0
  Back base buf stream all w' =
      (n : ℕ) × (n ≤ length buf)
      × (told w' ≡ base ++ take n buf)
      × (unread w' ≡ stream)
      × (((all ≡ true) × (n ≡ length buf)) ⊎ ((all ≡ false) × WriteFailed (drop n buf) w'))

  continued :
      (base buf : Bytes) (m n : ℕ) {before : Bytes}
      → before ≡ base ++ take m buf
      → before ++ take n (drop m buf) ≡ base ++ take (m + n) buf
  continued base buf m n e = rw (e, take-add m n buf) (append_assoc base _ _)

  -- The law of `SSL_write` at the arguments of the loop.
  write_lem_of :
      (rest : Bytes) (left : ℕ) (w : os.World)
      → length rest ≡ suc left
      → let r = os.ssl_write p (pos (suc left)) (take (suc left) rest) w in
        (Took rest r.0 (told w) (told r.1) ⊎ ((is_nonpos r.0 ≡ true) × (told r.1 ≡ told w)))
        × (unread r.1 ≡ unread w)
  write_lem_of rest left w size =
      rw (take_all (suc left) rest (omega arith), ← size)
        (out.ssl_write_lem p rest w (omega arith), both.write_takes p rest w)

  -- The loop that writes a chunk back, entered with a prefix of it written.
  write_back_lem :
      (fuel : ℕ) (buf : Bytes) (written left : ℕ) (base stream : Bytes) (w : os.World)
      → written + left ≡ length buf
      → left < fuel
      → told w ≡ base ++ take written buf
      → unread w ≡ stream
      → Ensures
          (Back base buf stream)
          (λ e w'. ⊥)
          (write_back os lib fuel p buf (pos written) (pos left) w)
  unfolding write_back
  write_back_lem zero buf written left base stream w total more so_far same = absurd (omega arith)
  write_back_lem (suc fuel) buf written zero base stream w total more so_far same =
      (written, omega arith, so_far, same, inl (refl, omega arith))
  write_back_lem (suc fuel) buf written (suc left) base stream w total more so_far same =
      let law = write_lem_of (drop written buf) left w (omega (arith, length-drop written buf)) in
      elim law.0 [
        | inl (n, e, some, le, t) ↦
            rw
              (
                not-zero (suc left) (omega arith),
                Ensures,
                write_back,
                e,
                both.error_none p n _ some,
                add_pos,
                sub_pos (suc left) n (omega (arith, length-drop written buf)),
              )
              (write_back_lem fuel buf (written + n) (suc left - n) base stream _
                (omega (arith, length-drop written buf)) (omega arith)
                (both.error_sends p _ _ ∙ t ∙ continued base buf written n so_far)
                (both.error_takes p _ _ ∙ law.1 ∙ same))
        | inr (e, t) ↦
            rw (not-zero (suc left) (omega arith), Ensures, write_back, both.error_some p _ _ e)
              (
                written,
                omega arith,
                both.error_sends p _ _ ∙ t ∙ so_far,
                both.error_takes p _ _ ∙ law.1 ∙ same,
                inr (
                  refl,
                  failed_of (drop written buf) left w (omega (arith, length-drop written buf)) e,
                ),
              )
      ]

  -- What the client gets back: what it sent, until a read fails or finds the end, or a write fails. The
  -- bytes of that write are lost, of one chunk at most.
  abbrev Echoed : os.World → os.World → Type 0
  Echoed w w' =
      (echoed : Bytes) × (lost : Bytes) × (unread w ≡ echoed ++ (lost ++ unread w'))
      × (told w' ≡ told w ++ echoed)
      × (length lost ≤ 1024)
      × (((lost ≡ []) × ReadFailed w') ⊎ WriteFailed lost w')

  -- The law of `SSL_read` at the arguments of the loop.
  read_lem_of :
      (w : os.World)
      → let r = os.ssl_read p (pos 1024) w in
        ((Gave 1024 r.0 (unread w) (unread r.1) × (0 < length r.0.1))
          ⊎ ((is_nonpos r.0.0 ≡ true) × (unread r.1 ≡ unread w)))
        × (told r.1 ≡ told w)
  read_lem_of w = (inc.ssl_read_lem p 1024 w (omega arith), both.read_sends p 1024 w)

  -- The end of a round: the next round follows if the chunk was written, and else the chunk's end is
  -- lost.
  echo_next :
      (fuel n : ℕ) (all : Bool) (buf : Bytes) (w w' : os.World)
      → n ≤ length buf
      → length buf ≤ 1024
      → unread w ≡ buf ++ unread w'
      → told w' ≡ told w ++ take n buf
      → ((all ≡ true) × (n ≡ length buf)) ⊎ ((all ≡ false) × WriteFailed (drop n buf) w')
      → Ensures (λ u w''. Echoed w' w'') (λ e w''. ⊥) (echo_loop os lib fuel p w')
      → Ensures
          (λ u w''. Echoed w w'')
          (λ e w''. ⊥)
          ((if all then echo_loop os lib fuel p else pure tt) w')
  echo_next fuel n true buf w w' le fits split t (inr (e, why)) rest = absurd (true≢false e)
  echo_next fuel n true buf w w' le fits split t (inl (e, whole)) rest =
      Ensures-mono _ _ _ _ (echo_loop os lib fuel p w') rest
        (λ u w'' (echoed, lost, split', t', few, why). (
          buf ++ echoed,
          lost,
          split ∙ ap (◌++◌ buf) split' ∙ sym (append_assoc buf echoed _),
          t'
              ∙ ap (λ s. s ++ echoed) (t ∙ ap (◌++◌ (told w)) (take_all n buf (omega arith)))
              ∙ append_assoc (told w) buf echoed,
          few,
          why,
        ))
        (λ e w'' h. h)
  echo_next fuel n false buf w w' le fits split t (inl (e, whole)) rest =
      absurd (true≢false (sym e))
  echo_next fuel n false buf w w' le fits split t (inr (e, why)) rest = (
    take n buf,
    drop n buf,
    split
        ∙ ap (λ s. s ++ unread w') (sym (take-append-drop n buf))
        ∙ append_assoc (take n buf) (drop n buf) _,
    t,
    omega (arith, length-drop n buf),
    inr why,
  )

  -- The echo loop on a stream of fewer bytes than it has rounds comes to an end. The client was sent
  -- back what was read, in order and all of it where the loop ended by a read that failed or found the
  -- end of the stream. Otherwise it ended by a write that failed, and the bytes of that write, a
  -- rest of one chunk of 1024 bytes, are what is lost.
  pub echo_loop-Echoes :
      (fuel : ℕ) (w : os.World)
      → length (unread w) < fuel
      → Ensures (λ u w'. Echoed w w') (λ e w'. ⊥) (echo_loop os lib fuel p w)
  unfolding echo_loop
  echo_loop-Echoes zero w more = absurd (omega arith)
  echo_loop-Echoes (suc fuel) w more =
      let law = read_lem_of w in
      let buf = (os.ssl_read p (pos 1024) w).0.1 in
      let after = (os.ssl_read p (pos 1024) w).1 in
      elim law.0 [
        | inl ((size, fits, split, stopped), some) ↦
            rw (size, both.error_none p _ _ some)
              (Ensures-bind (Back (told w) buf (unread after)) (λ e w'. ⊥) _ _
                (write_back os lib (suc (length buf)) p buf (pos 0) (pos (length buf)))
                (λ all. if all then echo_loop os lib fuel p else pure tt) _
                (write_back_lem (suc (length buf)) buf 0 (length buf) (told w) (unread after) _
                  (omega arith) (omega arith) (both.error_sends p _ _ ∙ law.1 ∙ sym (append-nil _))
                  (both.error_takes p _ _))
                (λ all w' (n, le, t, same, end).
                  echo_next fuel n all buf w w' le fits (split ∙ ap (◌++◌ buf) (sym same)) t end (
                    echo_loop-Echoes fuel w' (
                      omega (
                        arith,
                        ap length split,
                        length-append buf (unread after),
                        ap length same,
                      ))))
                (λ e w' h. h))
        | inr (e, t) ↦ rw (both.error_some p _ _ e) (
          [],
          [],
          sym (both.error_takes p _ _ ∙ t),
          both.error_sends p _ _ ∙ law.1 ∙ sym (append-nil _),
          omega arith,
          inl (refl, (w, e, refl)),
        )
      ]
