-- ===== src/Programs/Person/Ownership.antt =====
-- Who owns the blocks of src/Person.cpp.
use socket_program.Base.{
  true, ℕ, suc, ℤ, Option, none, some, List, [], ◌∷◌, ◌++◌, Option-cases, inl, inr, ◌≡◌, refl, sym,
  subst, ◌∙◌, Bytes, length,
}
use socket_program.Base.{
  Outcome, done, threw, fault, diverged, Run, Leaves, Leaves-bind, Ensures, Ensures-then,
  Ensures-bind, ◌>>=◌, pure,
}
use socket_program.Programs.Person.Memory.{
  Block, Heap, put, Alloc, Fresh, new_block, delete_block, read_text,
}
use socket_program.Programs.Person.Blocks.{
  Live, Live-other, Live-still, ==_false, put_comm, put-put, put_here, put_same, new_text-Fresh,
}
use socket_program.Programs.Person.{
  Person, Held, text_of, new_text, default_person, make_person, copy_person, destroy_person,
  after_new, after_delete, print, set_name, destroy_all,
}

-- The block of a pointer lives, if it has one, and what holds of the heap without it.
abbrev pub Takes : Option ℕ → (Heap → Type 0) → Heap → Type 0
Takes none K h = K h
Takes (some p) K h = Live h p × K (put p none h)

-- Each object's block lives, no two have the same, and without them the heap is `base`.
abbrev pub Owned : Heap → List Person → Heap → Type 0
Owned base [] h = h ≡ base
Owned base (q ∷ people) h = Takes q.name (Owned base people) h

pub Takes-map :
    {K L : Heap → Type 0} (a : Option ℕ) (h : Heap)
    → ((h' : Heap) → K h' → L h')
    → Takes a K h
    → Takes a L h
Takes-map none h f k = f h k
Takes-map (some p) h f (l, k) = (l, f (put p none h) k)

Takes-swap :
    (K : Heap → Type 0) (a b : Option ℕ) (h : Heap) → Takes a (Takes b K) h → Takes b (Takes a K) h
Takes-swap K none b h k = k
Takes-swap K (some p) none h k = k
Takes-swap K (some p) (some q) h (l, (l', k)) =
    let (other, still) = Live-other p q h l' in
    (still, (Live-still q p h (==_false q p other) l, subst K (put_comm q p h) k))

pub Owned-front :
    (base : Heap) (before : List Person) (q : Person) (after : List Person) (h : Heap)
    → Owned base (before ++ q ∷ after) h
    → Takes q.name (Owned base (before ++ after)) h
Owned-front base [] q after h o = o
Owned-front base (x ∷ before) q after h o =
    Takes-swap (Owned base (before ++ after)) x.name q.name h
      (Takes-map x.name h (λ h'. Owned-front base before q after h') o)

pub Owned-back :
    (base : Heap) (before : List Person) (q : Person) (after : List Person) (h : Heap)
    → Takes q.name (Owned base (before ++ after)) h
    → Owned base (before ++ q ∷ after) h
Owned-back base [] q after h o = o
Owned-back base (x ∷ before) q after h o =
    Takes-map x.name h (λ h'. Owned-back base before q after h')
      (Takes-swap (Owned base (before ++ after)) q.name x.name h o)

pub destroy_person-Frees :
    (K : Heap → Type 0) (q : Person) (h : Heap)
    → Takes q.name K h
    → Ensures (λ u h'. K h') (λ e h'. ⊥) (destroy_person true q h)
unfolding destroy_person delete_block
destroy_person-Frees K q h k = on q.name k
  where
    on :
        (name : Option ℕ)
        → Takes name K h
        → Ensures
            (λ u h'. K h')
            (λ e h'. ⊥)
            (destroy_person true (record { sex = q.sex; age = q.age; name = name }) h)
    on none k = k
    on (some p) ((b, e), k) = rw (e, Ensures) k

new_text-Owned :
    (alloc : Alloc) (fresh : Fresh alloc) (K : Heap → Type 0) (s : Bytes) (h : Heap)
    → K h
    → Ensures (λ p h'. Takes (some p) K h') (λ e h'. K h') (new_text alloc s h)
new_text-Owned alloc fresh K s h k = on (new_text alloc s h) (new_text-Fresh alloc fresh s h)
  where
    on :
        (o : Outcome Heap ℕ)
        → Ensures
            (λ p h'.
              (h' p ≡ some (record { size = suc (length s); text = some s })) × (put p none h' ≡ h))
            (λ e h'. h' ≡ h)
            o
        → Ensures (λ p h'. Takes (some p) K h') (λ e h'. K h') o
    on (done p h') (e, same) = ((_, e), subst K (sym same) k)
    on (threw x h') same = subst K (sym same) k
    on fault never = absurd never
    on diverged never = absurd never

-- The destructors of all objects.
pub destroy_all-Restores :
    (base : Heap) (people : List Person) (h : Heap)
    → Owned base people h
    → Ensures (λ u h'. h' ≡ base) (λ e h'. ⊥) (destroy_all true people h)
unfolding destroy_all
destroy_all-Restores base [] h o = o
destroy_all-Restores base (q ∷ people) h o =
    Ensures-then (λ u h'. Owned base people h') (λ e h'. ⊥) (λ u h'. h' ≡ base) (λ e h'. ⊥)
      (destroy_person true q) (destroy_all true people) h
      (destroy_person-Frees (Owned base people) q h o)
      (λ u h' o'. destroy_all-Restores base people h' o') (λ e h' never. absurd never)

-- Owned, with memory for one object more.
module _ (alloc : Alloc) (fresh : Fresh alloc) (base : Heap) where
  abbrev pub Adds : List Person → Outcome Heap Person → Type 0
  Adds people o = Ensures (λ q h. Owned base (q ∷ people) h) (λ e h. Owned base people h) o

  pub made-Adds :
      (people : List Person) (sex age : ℤ) (name : Bytes) (h : Heap)
      → Owned base people h
      → Adds people (make_person alloc sex age name h)
  unfolding make_person
  made-Adds people sex age name h o =
      Ensures-bind (λ p h'. Takes (some p) (Owned base people) h') (λ e h'. Owned base people h')
        (λ q h'. Owned base (q ∷ people) h') (λ e h'. Owned base people h') (new_text alloc name)
        (λ p. pure (record { sex = sex; age = age; name = some p })) h
        (new_text-Owned alloc fresh (Owned base people) name h o) (λ p h' k. k) (λ e h' k. k)

  pub default-Adds :
      (people : List Person) (sex age : ℤ) (h : Heap)
      → Owned base people h
      → Adds people (default_person alloc sex age h)
  unfolding default_person new_block
  default-Adds people sex age h o = elim (Option-cases (alloc h 128)) [
    | inl e ↦ rw (e, Ensures) o
    | inr (p, e) ↦
        let raw : Option Block = some (record { size = 128; text = none }) in
        rw (e, Ensures)
          (
            (_, put_here p raw h),
            subst (Owned base people)
                (sym (put-put p none raw h ∙ put_same p none h (fresh h 128 p e))) o,
          )
  ]

  -- The same where the call may run into undefined behaviour.
  abbrev pub AddsIf : List Person → Outcome Heap Person → Type 0
  AddsIf people (done q h) = Owned base (q ∷ people) h
  AddsIf people (threw e h) = Owned base people h
  AddsIf people fault = Unit {0}
  AddsIf people diverged = Unit {0}

  Adds-AddsIf : (people : List Person) (o : Outcome Heap Person) → Adds people o → AddsIf people o
  Adds-AddsIf people (done q h) a = a
  Adds-AddsIf people (threw e h) a = a
  Adds-AddsIf people fault a = absurd a
  Adds-AddsIf people diverged a = absurd a

  text_of-Leaves : (name : Option ℕ) (h : Heap) → Leaves (λ h'. h' ≡ h) (text_of name h)
  unfolding read_text
  text_of-Leaves none h = tt
  text_of-Leaves (some p) h = elim (Option-cases (h p)) [
    | inl e ↦ rw (e, Leaves) tt
    | inr (b, e) ↦
        rw (e, Leaves)
          (elim (Option-cases b.text) [
            | inl e' ↦ rw (e', Leaves) tt
            | inr (s, e') ↦ rw (e', Leaves) refl
          ])
  ]

  pub print-Leaves : (person : Person) (h : Heap) → Leaves (λ h'. h' ≡ h) (print person h)
  unfolding print
  print-Leaves person h =
      Leaves-bind (λ h'. h' ≡ h) (text_of person.name) (λ s. pure (person.sex, person.age, s)) h
        (text_of-Leaves person.name h) (λ s h' e. e)

  pub copied-Adds :
      (people : List Person) (person : Person) (h : Heap)
      → Owned base people h
      → AddsIf people (copy_person alloc person h)
  unfolding copy_person
  copied-Adds people person h o = on (text_of person.name h) (text_of-Leaves person.name h)
    where
      rest : Bytes → Run Heap Person
      rest s = do
        p ← new_text alloc s
        pure (record { sex = person.sex; age = person.age; name = some p })

      on :
          (t : Outcome Heap Bytes) → Leaves (λ h'. h' ≡ h) t → AddsIf people (((λ _. t) >>= rest) h)
      on (done s h') same = Adds-AddsIf people _ (
          Ensures-bind (λ p g. Takes (some p) (Owned base people) g) (λ e g. Owned base people g)
            (λ q g. Owned base (q ∷ people) g) (λ e g. Owned base people g) (new_text alloc s)
            (λ p. pure (record { sex = person.sex; age = person.age; name = some p })) h'
            (new_text-Owned alloc fresh (Owned base people) s h'
              (subst (Owned base people) (sym same) o))
            (λ p g k. k) (λ e g k. k))
      on (threw e h') same = subst (Owned base people) (sym same) o
      on fault never = tt
      on diverged never = tt

  -- `setName` on an object that owns its text.
  pub set_name-Owned :
      (K : Heap → Type 0) (name : Bytes) (t : Held)
      → Takes t.object.name K t.heap
      → Ensures
          (λ u t'. Takes t'.object.name K t'.heap)
          (λ e t'. (t'.object ≡ t.object) × K t'.heap)
          (set_name true alloc name t)
  unfolding set_name
  set_name-Owned K name t k =
      on (destroy_person true t.object t.heap) (destroy_person-Frees K t.object t.heap k)
    where
      stored :
          (o : Outcome Heap ℕ)
          → Ensures (λ p h'. Takes (some p) K h') (λ e h'. K h') o
          → Ensures
              (λ u t'. Takes t'.object.name K t'.heap)
              (λ e t'. (t'.object ≡ t.object) × K t'.heap)
              (after_new t.object o)
      stored (done p h') k' = k'
      stored (threw e h') k' = (refl, k')
      stored fault never = absurd never
      stored diverged never = absurd never

      on :
          (o : Outcome Heap (Unit {0}))
          → Ensures (λ u h'. K h') (λ e h'. ⊥) o
          → Ensures
              (λ u t'. Takes t'.object.name K t'.heap)
              (λ e t'. (t'.object ≡ t.object) × K t'.heap)
              (after_delete alloc name t.object o)
      on (done u h) k' = stored (new_text alloc name h) (new_text-Owned alloc fresh K name h k')
      on (threw e h) never = absurd never
      on fault never = absurd never
      on diverged never = absurd never
