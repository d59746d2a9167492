-- ===== src/Tests/People.antt =====
-- Objects of src/Person.cpp on a heap with two addresses.
use socket_program.Base.{true, ℕ, pos, Option, none, some, [], ◌∷◌, ◌≡◌, refl, subst, codes}
use socket_program.Base.{threw, fault, no_memory, Ensures}
use socket_program.Programs.Person.Memory.{
  Block, Heap, put, Alloc, Fresh, new_block, strcpy, read_text,
}
use socket_program.Programs.Person.{
  Person, new_text, make_person, copy_person, move_person, destroy_person, set_name, Store, made,
  copied, moved, here, next, destroy_all,
}
use socket_program.Programs.Person.Sequences.{Reach-Restores, set_name-Dangles}

abbrev first_free : Option Block → Option Block → Option ℕ
first_free none b = some 0
first_free (some a) none = some 1
first_free (some a) (some b) = none

abbrev two_slots : Alloc
two_slots h n = first_free (h 0) (h 1)

some_eq : (a b : ℕ) → some a ≡ some b → a ≡ b
some_eq a b e = cc

free_one :
    (h : Heap) (p : ℕ) (a b : Option Block)
    → h 0 ≡ a
    → h 1 ≡ b
    → first_free a b ≡ some p
    → h p ≡ none
free_one h p none b ea eb e = subst (λ q. h q ≡ none) (some_eq 0 p e) ea
free_one h p (some a) none ea eb e = subst (λ q. h q ≡ none) (some_eq 1 p e) eb
free_one h p (some a) (some b) ea eb e = cc

two_slots-Fresh : Fresh two_slots
two_slots-Fresh h n p e = free_one h p (h 0) (h 1) refl refl e

abbrev nothing : Heap
nothing p = none

abbrev written : ℕ → Heap → Heap
written p h =
    put p (some (record { size = 3; text = some (codes "ho") }))
      (put p (some (record { size = 3; text = none })) h)

abbrev first_one : Person
first_one = record { sex = pos 1; age = pos 2; name = some 0 }

abbrev second_one : Person
second_one = record { sex = pos 1; age = pos 2; name = some 1 }

abbrev after_moves : Store
after_moves = record {
  people = second_one ∷ record second_one { name = none } ∷ first_one ∷ [];
  heap = written 1 (written 0 nothing);
}

Reach-Restores_example :
    Ensures (λ u h. h ≡ nothing) (λ e h. ⊥) (destroy_all true after_moves.people after_moves.heap)
unfolding make_person copy_person move_person new_text new_block strcpy read_text
Reach-Restores_example = Reach-Restores two_slots nothing after_moves two_slots-Fresh (
    next
      (next (next here (made (pos 1) (pos 2) (codes "ho") first_one (written 0 nothing) refl refl))
        (copied [] [] first_one second_one (written 1 (written 0 nothing)) refl refl refl))
      (moved [] (first_one ∷ []) second_one refl refl))

abbrev no_room : Alloc
no_room h n = none

set_name-Dangles_example :
    (set_name true no_room (codes "b") (record { object = first_one; heap = written 0 nothing })
      ≡ threw no_memory (record { object = first_one; heap = put 0 none (written 0 nothing) }))
    × (destroy_person true first_one (put 0 none (written 0 nothing)) ≡ fault)
set_name-Dangles_example =
    set_name-Dangles no_room (codes "b") (pos 1) (pos 2) 0 (written 0 nothing) (_, refl) refl
