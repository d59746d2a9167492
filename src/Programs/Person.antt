-- ===== src/Programs/Person.antt =====
-- src/Person.h and src/Person.cpp: an object that owns the memory of its name, on an explicit heap.
pub mod Memory
pub mod Blocks
pub mod Ownership
pub mod Sequences
use socket_program.Base.{
  ℕ, suc, ℤ, Bool, Option, none, some, List, [], ◌∷◌, ◌++◌, ◌≡◌, Bytes, length,
}
use socket_program.Base.{Outcome, done, threw, fault, diverged, Run, ◌>>=◌, ◌>>◌, pure}
use socket_program.Programs.Person.Memory.{Heap, Alloc, new_block, delete_block, strcpy, read_text}

-- `m_name` is none where the pointer is null.
pub record Person : Type 0 where
  pub sex : ℤ
  pub age : ℤ
  pub name : Option ℕ

-- A method runs on the object, with the heap.
pub record Held : Type 0 where
  pub object : Person
  pub heap : Heap

-- The text at a pointer, which must not be null.
abbrev pub text_of : Option ℕ → Run Heap Bytes
text_of none h = fault
text_of (some p) h = read_text p h

-- `new char[strlen(name)+1]` and `strcpy`. A `const char*` argument is the text before its NUL.
unfoldable pub new_text : Alloc → Bytes → Run Heap ℕ
unfolding new_block strcpy
new_text alloc s = do p ← new_block alloc (suc (length s)); strcpy p s; pure p

-- `Person()`, which leaves the two numbers as what the memory held.
unfoldable pub default_person : Alloc → ℤ → ℤ → Run Heap Person
unfolding new_block
default_person alloc old_sex old_age = do
  p ← new_block alloc 128
  pure (record { sex = old_sex; age = old_age; name = some p })

-- `Person(int sex, int age, const char* name)`
unfoldable pub make_person : Alloc → ℤ → ℤ → Bytes → Run Heap Person
unfolding new_text
make_person alloc sex age name = do
  p ← new_text alloc name
  pure (record { sex = sex; age = age; name = some p })

-- `Person(const Person& person)`
unfoldable pub copy_person : Alloc → Person → Run Heap Person
unfolding new_text
copy_person alloc person = do
  s ← text_of person.name
  p ← new_text alloc s
  pure (record { sex = person.sex; age = person.age; name = some p })

-- `Person(Person&& person)`: the new object, and what is left of the old one.
unfoldable pub move_person : Person → Person × Person
move_person person = (person, record person { name = none })

-- `~Person()`
unfoldable pub destroy_person : Bool → Person → Run Heap (Unit {0})
unfolding delete_block
destroy_person lenient person h = elim person.name [
  | none ↦ done tt h
  | some p ↦ delete_block lenient p h
]

-- The assignments and `operator+`: they return the object and change nothing.
unfoldable pub assign : Person → Person → Person
assign this person = this

-- `Print()`: what it shows.
unfoldable pub print : Person → Run Heap (ℤ × ℤ × Bytes)
unfolding read_text
print person = do s ← text_of person.name; pure (person.sex, person.age, s)

unfoldable pub set_age : ℤ → Held → Held
set_age age t = record t { object = record t.object { age = age } }

unfoldable pub set_sex : ℤ → Held → Held
set_sex sex t = record t { object = record t.object { sex = sex } }

-- `setName` when the new memory is there, or not.
abbrev pub after_new : Person → Outcome Heap ℕ → Outcome Held (Unit {0})
after_new person (done p h) =
    done tt (record { object = record person { name = some p }; heap = h })
after_new person (threw e h) = threw e (record { object = person; heap = h })
after_new person fault = fault
after_new person diverged = diverged

-- `setName` from the deletion of the old text on.
abbrev pub after_delete : Alloc → Bytes → Person → Outcome Heap (Unit {0}) → Outcome Held (Unit {0})
after_delete alloc name person (done u h) = after_new person (new_text alloc name h)
after_delete alloc name person (threw e h) = threw e (record { object = person; heap = h })
after_delete alloc name person fault = fault
after_delete alloc name person diverged = diverged

-- `setName`: the old text is deleted first, by the same lines as in the destructor, and the pointer is
-- set when the new memory is there.
unfoldable pub set_name : Bool → Alloc → Bytes → Run Held (Unit {0})
unfolding destroy_person
set_name lenient alloc name t =
    after_delete alloc name t.object (destroy_person lenient t.object t.heap)

-- The objects that live, in any order, and the heap.
pub record Store : Type 0 where
  pub people : List Person
  pub heap : Heap

-- What a program does with them, one call at a time.
pub data Step (lenient : Bool) (alloc : Alloc) (t u : Store) : Type 0 where
  made :
      (sex age : ℤ) (name : Bytes) (q : Person) (h : Heap)
      → make_person alloc sex age name t.heap ≡ done q h
      → u ≡ record { people = q ∷ t.people; heap = h }
      → Step lenient alloc t u
  made_default :
      (sex age : ℤ) (q : Person) (h : Heap)
      → default_person alloc sex age t.heap ≡ done q h
      → u ≡ record { people = q ∷ t.people; heap = h }
      → Step lenient alloc t u
  copied :
      (before after : List Person) (person q : Person) (h : Heap)
      → t.people ≡ before ++ person ∷ after
      → copy_person alloc person t.heap ≡ done q h
      → u ≡ record { people = q ∷ t.people; heap = h }
      → Step lenient alloc t u
  moved :
      (before after : List Person) (person : Person)
      → t.people ≡ before ++ person ∷ after
      → u ≡ record t { people = (move_person person).0 ∷ before ++ (move_person person).1 ∷ after }
      → Step lenient alloc t u
  renamed :
      (before after : List Person) (person : Person) (name : Bytes) (s : Held)
      → t.people ≡ before ++ person ∷ after
      → set_name lenient alloc name (record { object = person; heap = t.heap }) ≡ done tt s
      → u ≡ record { people = before ++ s.object ∷ after; heap = s.heap }
      → Step lenient alloc t u
  assigned :
      (before after : List Person) (person other : Person)
      → t.people ≡ before ++ person ∷ after
      → u ≡ record t { people = before ++ assign person other ∷ after }
      → Step lenient alloc t u
  aged :
      (before after : List Person) (person : Person) (age : ℤ)
      → t.people ≡ before ++ person ∷ after
      → (let s = set_age age (record { object = person; heap = t.heap }) in
          u ≡ record { people = before ++ s.object ∷ after; heap = s.heap })
      → Step lenient alloc t u
  sexed :
      (before after : List Person) (person : Person) (sex : ℤ)
      → t.people ≡ before ++ person ∷ after
      → (let s = set_sex sex (record { object = person; heap = t.heap }) in
          u ≡ record { people = before ++ s.object ∷ after; heap = s.heap })
      → Step lenient alloc t u
  printed :
      (before after : List Person) (person : Person) (shown : ℤ × ℤ × Bytes) (h : Heap)
      → t.people ≡ before ++ person ∷ after
      → print person t.heap ≡ done shown h
      → u ≡ record t { heap = h }
      → Step lenient alloc t u
  destroyed :
      (before after : List Person) (person : Person) (h : Heap)
      → t.people ≡ before ++ person ∷ after
      → destroy_person lenient person t.heap ≡ done tt h
      → u ≡ record { people = before ++ after; heap = h }
      → Step lenient alloc t u

pub data Reach (lenient : Bool) (alloc : Alloc) (s : Store) : Store → Type 0 where
  here : Reach lenient alloc s s
  next : {t u : Store} → Reach lenient alloc s t → Step lenient alloc t u → Reach lenient alloc s u

-- The destructors where the objects' scope ends.
unfoldable pub destroy_all : Bool → List Person → Run Heap (Unit {0})
unfolding destroy_person
destroy_all lenient [] h = done tt h
destroy_all lenient (q ∷ people) h = (do destroy_person lenient q; destroy_all lenient people) h
