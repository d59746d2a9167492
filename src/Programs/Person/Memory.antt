-- ===== src/Programs/Person/Memory.antt =====
-- The heap that `new` and `delete` of src/Person.cpp work on.
use socket_program.Base.{
  Bool, ℕ, suc, ◌==◌, leb, Option, none, some, ◌≡◌, Bytes, length, if◌then◌else◌,
}
use socket_program.Base.{no_memory, done, threw, fault, Run}

-- A block: its size, and the text that stands at its start, none as long as nothing was stored.
pub record Block : Type 0 where
  pub size : ℕ
  pub text : Option Bytes

-- The blocks that live, by their addresses.
abbrev pub Heap : Type 0
Heap = ℕ → Option Block

abbrev pub put : ℕ → Option Block → Heap → Heap
put p b h q = if q == p then b else h q

-- What `new` is left to: an address for a block of the given size, or none where it throws.
abbrev pub Alloc : Type 0
Alloc = Heap → ℕ → Option ℕ

-- It gives no address that is in use.
abbrev pub Fresh : Alloc → Type 0
Fresh alloc = (h : Heap) (n p : ℕ) → alloc h n ≡ some p → h p ≡ none

-- `new char[n]`
unfoldable pub new_block : Alloc → ℕ → Run Heap ℕ
new_block alloc n h = elim (alloc h n) [
  | none ↦ threw no_memory h
  | some p ↦ done p (put p (some (record { size = n; text = none })) h)
]

-- `delete` of an address that `new char[]` gave. An address with no block is undefined behaviour, and so
-- is, for any block, that the source does not write `delete[]`: `lenient` is whether the implementation
-- takes it for that and frees the block, as the common ones do.
unfoldable pub delete_block : Bool → ℕ → Run Heap (Unit {0})
delete_block lenient p h = elim (h p) [
  | none ↦ fault
  | some b ↦ if lenient then done tt (put p none h) else fault
]

-- `strcpy` of a text without NUL to the start of a block, which it must fit with its NUL.
unfoldable pub strcpy : ℕ → Bytes → Run Heap (Unit {0})
strcpy p s h = elim (h p) [
  | none ↦ fault
  | some b ↦
      if leb (suc (length s)) b.size
      then done tt (put p (some (record b { text = some s })) h)
      else fault
]

-- Reading the text at an address up to its NUL.
unfoldable pub read_text : ℕ → Run Heap Bytes
read_text p h = elim (h p) [
  | none ↦ fault
  | some b ↦ elim b.text [ none ↦ fault | some s ↦ done s h ]
]
