-- ===== src/Protocols/Ftp/Data/Ports.antt =====
-- The target of PORT against its printed form.
use socket_program.Base.Decimal.{ends, scan_int-to_string, scan_int-space, c_str-to_string}
use socket_program.Base.{
  ℕ, suc, ◌+◌, ◌*◌, ◌/◌, ◌%◌, ◌<◌, ℤ, pos, ◌≡◌, refl, subst, ap, ◌∙◌, ltb, mul_pos, add_pos, true,
  Option, none, some, List, [], ◌∷◌, ◌++◌, map, length, Bytes, codes, to_string, to_string_ℤ, cr_lf,
  c_str, scan_text, scan_int, arith,
}
use socket_program.Protocols.Ftp.Data.{
  scan_fields, scan_port, port_target, handle_port, open_client, Host,
}
use socket_program.Inet.Os.{Os}
use socket_program.Protocols.Simple.{Reserve}
use socket_program.Protocols.Ftp.State.{Ftp}

-- The numbers, with a comma before each.
abbrev print_fields : List ℕ → Bytes → Bytes
print_fields [] rest = rest
print_fields (n ∷ ns) rest = 44 ∷ (to_string n ++ print_fields ns rest)

abbrev AreBytes : List ℕ → Type 0
AreBytes [] = Unit {0}
AreBytes (n ∷ ns) = (n < 256) × AreBytes ns

ends-print_fields :
    (ns : List ℕ) (rest : Bytes) → ends rest ≡ true → ends (print_fields ns rest) ≡ true
ends-print_fields [] rest h = h
ends-print_fields (n ∷ ns) rest h = refl

scan_fields-step :
    (n : ℕ) (s s₂ : Bytes) (z : ℤ) (zs : List ℤ)
    → scan_int s ≡ some (z, s₂)
    → scan_fields n s₂ ≡ some zs
    → scan_fields (suc n) (44 ∷ s) ≡ some (z ∷ zs)
unfolding scan_fields scan_text
scan_fields-step n s s₂ z zs first more =
    ap
      (λ (r : Option (ℤ × Bytes)). elim r [
        | none ↦ none
        | some (y, s') ↦ elim (scan_fields n s') [ none ↦ none | some ys ↦ some (y ∷ ys) ]
      ])
      first
    ∙ ap (λ (r : Option (List ℤ)). elim r [ none ↦ none | some ys ↦ some (z ∷ ys) ]) more

scan_fields-print_fields :
    (ns : List ℕ) (rest : Bytes)
    → AreBytes ns
    → ends rest ≡ true
    → scan_fields (length ns) (print_fields ns rest) ≡ some (map pos ns)
unfolding scan_fields
scan_fields-print_fields [] rest ok h = refl
scan_fields-print_fields (n ∷ ns) rest (small, ok) h =
    scan_fields-step (length ns) (to_string n ++ print_fields ns rest) (print_fields ns rest)
      (pos n) (map pos ns)
      (scan_int-to_string n (print_fields ns rest) (omega arith) (ends-print_fields ns rest h))
      (scan_fields-print_fields ns rest ok h)

c_str-print_fields :
    (ns : List ℕ) (rest : Bytes) → c_str (print_fields ns rest) ≡ print_fields ns (c_str rest)
unfolding c_str
c_str-print_fields [] rest = refl
c_str-print_fields (n ∷ ns) rest = ap (◌∷◌ 44) (
    c_str-to_string n (print_fields ns rest) ∙ ap (◌++◌ (to_string n)) (c_str-print_fields ns rest))

-- The text of the command.
abbrev print_port : ℕ → List ℕ → Bytes → Bytes
print_port n ns rest = codes "PORT " ++ (to_string n ++ print_fields ns rest)

scan_port-step :
    (s s₂ : Bytes) (z : ℤ) (zs : List ℤ)
    → scan_int (c_str (32 ∷ s)) ≡ some (z, s₂)
    → scan_fields 5 s₂ ≡ some zs
    → scan_port (codes "PORT " ++ s) ≡ some (z, zs)
unfolding scan_port scan_text c_str
scan_port-step s s₂ z zs first more =
    ap
      (λ (r : Option (ℤ × Bytes)). elim r [
        | none ↦ none
        | some (y, s') ↦ elim (scan_fields 5 s') [ none ↦ none | some ys ↦ some (y, ys) ]
      ])
      first
    ∙ ap (λ (r : Option (List ℤ)). elim r [ none ↦ none | some ys ↦ some (z, ys) ]) more

-- The scan of PORT reads back the six numbers of a printed command, below 256 each, whatever
-- follows that is no digit.
scan_port-print_port :
    (n : ℕ) (ns : List ℕ) (rest : Bytes)
    → n < 256
    → AreBytes ns
    → length ns ≡ 5
    → ends (c_str rest) ≡ true
    → scan_port (print_port n ns rest) ≡ some (pos n, map pos ns)
unfolding c_str
scan_port-print_port n ns rest small ok five h =
    let tail : Bytes = print_fields ns (c_str rest) in
    scan_port-step (to_string n ++ print_fields ns rest) tail (pos n) (map pos ns)
      (ap (λ s. scan_int (32 ∷ s))
          (c_str-to_string n (print_fields ns rest)
            ∙ ap (◌++◌ (to_string n)) (c_str-print_fields ns rest))
        ∙ (scan_int-space (to_string n ++ tail)
            ∙ scan_int-to_string n tail (omega arith) (ends-print_fields ns (c_str rest) h)))
      (subst (λ k. scan_fields k tail ≡ some (map pos ns)) five
        (scan_fields-print_fields ns (c_str rest) ok h))

-- The address and the port of a client.
pub record Target : Type 0 where
  pub a : ℕ
  pub b : ℕ
  pub c : ℕ
  pub d : ℕ
  pub port : ℕ

abbrev pub IsTarget : Target → Type 0
IsTarget t = AreBytes (t.a ∷ t.b ∷ t.c ∷ t.d ∷ []) × (t.port < 0x1_0000)

-- The command that names it, as RFC 959 prints it, and the address in dotted form.
abbrev pub command : Target → Bytes
command t = print_port t.a (t.b ∷ t.c ∷ t.d ∷ t.port / 256 ∷ t.port % 256 ∷ []) cr_lf

abbrev pub dotted : Target → Bytes
dotted t =
    let dot = codes "." in
    to_string t.a ++ (dot ++ (to_string t.b ++ (dot ++ (to_string t.c ++ (dot ++ to_string t.d)))))

abbrev fields : Target → List ℕ
fields t = t.b ∷ t.c ∷ t.d ∷ t.port / 256 ∷ t.port % 256 ∷ []

port_target-fields :
    (t : Target)
    → t.port < 0x1_0000
    → port_target (pos t.a) (map pos (fields t)) ≡ some (dotted t, pos t.port)
unfolding port_target to_string_ℤ
port_target-fields t small =
    let whole : t.port / 256 * 256 + t.port % 256 ≡ t.port = omega arith in
    let high : ltb (t.port / 256 * 256) 0x8000_0000 ≡ true = ground arith in
    let low : ltb t.port 0x8000_0000 ≡ true = ground arith in
    rw (mul_pos (t.port / 256) 256, add_pos (t.port / 256 * 256) (t.port % 256), whole, high, low)
      refl

-- `HandlePORT`, after the command for an address of four bytes and a 16-bit port was received, goes on
-- with that address in dotted form and that port.
pub handle_port-command :
    (os : Os) (host : Host os.World) (reserve : Reserve) (fuel : ℕ) (f : Ftp os.World) (t : Target)
    → IsTarget t
    → f.recv_message ≡ command t
    → handle_port os host reserve fuel f
      ≡ open_client os host reserve fuel (dotted t) (pos t.port) f
unfolding handle_port c_str
handle_port-command os host reserve fuel f t ((a, (b, (c, (d, _)))), port) received =
    let scanned : scan_port f.recv_message ≡ some (pos t.a, map pos (fields t)) =
      ap scan_port received
      ∙ scan_port-print_port t.a (fields t) cr_lf a (b, (c, (d, (omega arith, (omega arith, tt)))))
          refl refl in
    rw (handle_port, scanned, port_target-fields t port) refl
