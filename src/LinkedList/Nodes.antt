-- ===== src/LinkedList/Nodes.antt =====
-- The nodes of common/list.c at their addresses, and the reads and writes through pointers.
use bingos.Common.{ℕ, Option, none, some, ◌==◌, if◌then◌else◌}

abbrev pub Ptr : Type 0
Ptr = ℕ

abbrev pub null : Ptr
null = 0

-- `list_node_t`; a value is a pointer that the list only carries.
pub record Node : Type 0 where
  pub prev : Ptr
  pub next : Ptr
  pub value : ℕ

abbrev pub Heap : Type 0
Heap = Ptr → Option Node

abbrev pub write : Heap → Ptr → Node → Heap
write h p n a = if a == p then some n else h a

abbrev pub M : Type 0 → Type 0
M A = Heap → Option (A × Heap)

abbrev pub pure : {A : Type 0} → A → M A
pure a h = some (a, h)

abbrev pub fault : {A : Type 0} → M A
fault h = none

abbrev pub and_then : {A B : Type 0} → Option (A × Heap) → (A → M B) → Option (B × Heap)
and_then none f = none
and_then (some (a, h)) f = f a h

infixl 5 ◌>>=◌ ◌>>◌
abbrev pub ◌>>=◌ : {A B : Type 0} → M A → (A → M B) → M B
◌>>=◌ m f h = and_then (m h) f

abbrev pub ◌>>◌ : {B : Type 0} → M (Unit {0}) → M B → M B
m >> k = m >>= λ _. k

unfoldable pub load : Ptr → M Node
load p h = if p == null then none else elim (h p) [ none ↦ none | some n ↦ some (n, h) ]

-- The first write to a node that `kmalloc` returned; it faults if that is null.
unfoldable pub alloc : Ptr → Node → M (Unit {0})
alloc p n h = if p == null then none else some (tt, write h p n)

abbrev pub store : Ptr → Node → M (Unit {0})
store p n h = some (tt, write h p n)

unfoldable pub set_next : Ptr → Ptr → M (Unit {0})
unfolding load
set_next p q = do n ← load p; store p (record n { next = q })

unfoldable pub set_prev : Ptr → Ptr → M (Unit {0})
unfolding load
set_prev p q = do n ← load p; store p (record n { prev = q })
