-- ===== src/Programs/Person/Sequences.antt =====
-- What any sequence of calls on objects of src/Person.cpp does to the heap.
use socket_program.Base.{
  true, ℕ, suc, ℤ, none, some, [], List, ◌∷◌, ◌++◌, ◌≡◌, refl, sym, ap, subst, Bytes, length,
}
use socket_program.Base.{Run, ◌>>=◌, ◌>>◌, pure, threw, fault, no_memory, Ensures, Leaves}
use socket_program.Programs.Person.Memory.{Heap, put, Alloc, Fresh, strcpy, new_block, delete_block}
use socket_program.Programs.Person.Blocks.{Live, put_here}
use socket_program.Programs.Person.{
  Person, new_text, move_person, destroy_person, after_new, set_name, Store, Step, made,
  made_default, copied, moved, renamed, assigned, aged, sexed, printed, assign, set_age, set_sex,
  destroyed, Reach, here, next, destroy_all,
}
use socket_program.Programs.Person.Ownership.{
  Takes, Owned, Takes-map, Owned-front, Owned-back, destroy_person-Frees, destroy_all-Restores,
  made-Adds, default-Adds, Adds, AddsIf, copied-Adds, print-Leaves, set_name-Owned,
}

module _ (alloc : Alloc) (fresh : Fresh alloc) (base : Heap) where
  abbrev OwnedStore : Store → Type 0
  OwnedStore t = Owned base t.people t.heap

  -- An object whose name is the same owns the same.
  kept :
      (t : Store) (before after : List Person) (person changed : Person)
      → t.people ≡ before ++ person ∷ after
      → changed.name ≡ person.name
      → OwnedStore t
      → Owned base (before ++ changed ∷ after) t.heap
  kept t before after person changed split e o = Owned-back base before changed after t.heap (
      subst (λ name. Takes name (Owned base (before ++ after)) t.heap) (sym e)
        (Owned-front base before person after t.heap
          (subst (λ people. Owned base people t.heap) split o)))

  Step-Owned : (t u : Store) → OwnedStore t → Step true alloc t u → OwnedStore u
  unfolding move_person assign set_age set_sex
  Step-Owned t u o (made sex age name q h ran e) = subst OwnedStore (sym e) (
      subst (Adds alloc fresh base t.people) ran
        (made-Adds alloc fresh base t.people sex age name t.heap o))
  Step-Owned t u o (made_default sex age q h ran e) = subst OwnedStore (sym e) (
      subst (Adds alloc fresh base t.people) ran
        (default-Adds alloc fresh base t.people sex age t.heap o))
  Step-Owned t u o (copied before after person q h split ran e) = subst OwnedStore (sym e) (
      subst (AddsIf alloc fresh base t.people) ran
        (copied-Adds alloc fresh base t.people person t.heap o))
  Step-Owned t u o (moved before after person split e) =
      let empty : Person = record person { name = none } in
      subst OwnedStore (sym e) (
        Takes-map person.name t.heap (λ h k. Owned-back base before empty after h k)
          (Owned-front base before person after t.heap
            (subst (λ people. Owned base people t.heap) split o)))
  Step-Owned t u o (renamed before after person name s split ran e) =
      let K : Heap → Type 0 = Owned base (before ++ after) in
      let o' = subst (λ people. Owned base people t.heap) split o in
      let front = Owned-front base before person after t.heap o' in
      subst OwnedStore (sym e) (
        Owned-back base before s.object after s.heap (
          subst
            (Ensures (λ u t'. Takes t'.object.name K t'.heap)
              (λ e t'. (t'.object ≡ person) × K t'.heap))
            ran
            (set_name-Owned alloc fresh base K name (record { object = person; heap = t.heap })
              front)))
  Step-Owned t u o (assigned before after person other split e) =
      subst OwnedStore (sym e) (kept t before after person person split refl o)
  Step-Owned t u o (aged before after person age split e) =
      subst OwnedStore (sym e)
        (kept t before after person (record person { age = age }) split refl o)
  Step-Owned t u o (sexed before after person sex split e) =
      subst OwnedStore (sym e)
        (kept t before after person (record person { sex = sex }) split refl o)
  Step-Owned t u o (printed before after person shown h split ran e) = subst OwnedStore (sym e) (
      subst (Owned base t.people)
        (sym (subst (Leaves (λ h'. h' ≡ t.heap)) ran (print-Leaves alloc fresh base person t.heap)))
        o)
  Step-Owned t u o (destroyed before after person h split ran e) =
      let K : Heap → Type 0 = Owned base (before ++ after) in
      let o' = subst (λ people. Owned base people t.heap) split o in
      subst OwnedStore (sym e) (
        subst (Ensures (λ u h'. K h') (λ e h'. ⊥)) ran
          (destroy_person-Frees K person t.heap (Owned-front base before person after t.heap o')))

  Reach-OwnedStore : (t u : Store) → OwnedStore t → Reach true alloc t u → OwnedStore u
  Reach-OwnedStore t u o here = o
  Reach-OwnedStore t u o (next {t = v} r s) = Step-Owned v u (Reach-OwnedStore t v o r) s

-- Where the implementation takes `delete` for `delete[]` on memory of `new char[]`, which the standard
-- leaves undefined, and `new` gives no address that is in use: whatever calls of the class are made on
-- objects that live on a heap, in any order, on any of them, as long as none throws or is undefined, the
-- destructors of those that are left then run with no access to memory that is not allocated, and the
-- heap is what it was at the start.
pub Reach-Restores :
    (alloc : Alloc) (base : Heap) (t : Store)
    → Fresh alloc
    → Reach true alloc (record { people = []; heap = base }) t
    → Ensures (λ u h. h ≡ base) (λ e h. ⊥) (destroy_all true t.people t.heap)
Reach-Restores alloc base t fresh r =
    destroy_all-Restores base t.people t.heap
      (Reach-OwnedStore alloc fresh base (record { people = []; heap = base }) t refl r)

new_block-NoMemory :
    (alloc : Alloc) (n : ℕ) (h : Heap) → alloc h n ≡ none → new_block alloc n h ≡ threw no_memory h
unfolding new_block
new_block-NoMemory alloc n h full = rw (full, new_block) refl

new_text-NoMemory :
    (alloc : Alloc) (s : Bytes) (h : Heap)
    → alloc h (suc (length s)) ≡ none
    → new_text alloc s h ≡ threw no_memory h
unfolding new_text
new_text-NoMemory alloc s h full =
    let rest : ℕ → Run Heap ℕ = λ p. (do strcpy p s; pure p) in
    ap (λ o. ((λ _. o) >>= rest) h) (new_block-NoMemory alloc (suc (length s)) h full)

-- `setName` on an object with a text, where the implementation takes `delete` for `delete[]` and `new` throws: the exception passes, and the object keeps the
-- address of the text that it has freed, so its destructor is undefined behaviour.
pub set_name-Dangles :
    (alloc : Alloc) (name : Bytes) (sex age : ℤ) (p : ℕ) (h : Heap)
    → Live h p
    → alloc (put p none h) (suc (length name)) ≡ none
    → let q : Person = record { sex = sex; age = age; name = some p } in
      (set_name true alloc name (record { object = q; heap = h })
        ≡ threw no_memory (record { object = q; heap = put p none h }))
      × (destroy_person true q (put p none h) ≡ fault)
unfolding set_name destroy_person delete_block
set_name-Dangles alloc name sex age p h (b, e) full =
    let q : Person = record { sex = sex; age = age; name = some p } in
    (
      rw (e, delete_block) (ap (after_new q) (new_text-NoMemory alloc name (put p none h) full)),
      rw (put_here p none h, delete_block) refl,
    )
