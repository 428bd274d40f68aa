-- ===== src/LinkedList.antt =====
-- common/list.c: the doubly linked list of the kernel, over an explicit heap of nodes.
--
-- A `list_t` is not a node, so a function that changes one returns the new value. `none` is a
-- fault: a read or write through a null or dangling pointer. What `kmalloc` returns is an argument.
pub mod Nodes
pub mod Links
pub mod Delete
pub mod Push
pub mod Insert
pub mod Remove
mod Tests
use bingos.Common.{
  ℕ, zero, suc, ◌+◌, ◌-◌, ◌%◌, ◌^◌, Bool, true, false, not, Option, none, some, ltb, ◌==◌,
  if◌then◌else◌,
}
use Nodes.{
  Ptr, null, Node, Heap, M, pure, fault, ◌>>=◌, ◌>>◌, load, store, alloc, set_next, set_prev,
}

-- `list_t`; `length` is an `int`, kept as its bit pattern.
pub record ListT : Type 0 where
  pub head : Ptr
  pub tail : Ptr
  pub length : ℕ

abbrev pub incr : ℕ → ℕ
incr n = (n + 1) % 2 ^ 32

abbrev pub decr : ℕ → ℕ
decr n = (n + 2 ^ 32 - 1) % 2 ^ 32

-- `list_create`: the fresh `list_t` is filled with zeros.
abbrev pub create : ListT
create = record { head = null; tail = null; length = 0 }

-- `if (p) p->next = q` and `if (p) p->prev = q`
abbrev pub link_next : Ptr → Ptr → M (Unit {0})
link_next p q = if p == null then pure tt else set_next p q

abbrev pub link_prev : Ptr → Ptr → M (Unit {0})
link_prev p q = if p == null then pure tt else set_prev p q

unfoldable pub delete : ListT → Ptr → M ListT
delete l p = do
  n ← load p
  link_next n.prev n.next
  link_prev n.next n.prev
  pure (record {
    head = if p == l.head then n.next else l.head;
    tail = if p == l.tail then n.prev else l.tail;
    length = decr l.length;
  })

unfoldable pub push_back : Ptr → ListT → ℕ → M ListT
push_back fresh l value =
    if l.tail == null
    then (do
      alloc fresh (record { prev = null; next = null; value = value })
      pure (record { head = fresh; tail = fresh; length = incr l.length }))
    else (do
      alloc fresh (record { prev = null; next = null; value = value })
      set_next l.tail fresh
      set_prev fresh l.tail
      pure (record l { tail = fresh; length = incr l.length }))

unfoldable pub push_front : Ptr → ListT → ℕ → M ListT
push_front fresh l value =
    if l.head == null
    then (do
      alloc fresh (record { prev = null; next = null; value = value })
      pure (record { head = fresh; tail = fresh; length = incr l.length }))
    else (do
      alloc fresh (record { prev = null; next = null; value = value })
      set_prev l.head fresh
      set_next fresh l.head
      pure (record l { head = fresh; length = incr l.length }))

-- The node that is taken out, which the caller frees; null if there is none.
unfoldable pub pop_front : ListT → M (Ptr × ListT)
pop_front l = if l.head == null then pure (null, l) else do l' ← delete l l.head; pure (l.head, l')

unfoldable pub pop_back : ListT → M (Ptr × ListT)
pop_back l = if l.tail == null then pure (null, l) else do l' ← delete l l.tail; pure (l.tail, l')

-- The new node's neighbours are set, and `prev->next`. Neither the `prev` of the node behind it nor
-- the list's tail is changed.
unfoldable pub insert_after : Ptr → ListT → Ptr → ℕ → M ListT
insert_after fresh l prev value = if prev == null then push_front fresh l value else do
  alloc fresh (record { prev = null; next = null; value = value })
  p ← load prev
  set_next fresh p.next
  set_prev fresh prev
  set_next prev fresh
  pure (record l { length = incr l.length })

-- `while (i < index) n = n->next`, with `index - i` rounds left.
unfoldable pub nth_node : ℕ → Ptr → M Ptr
nth_node zero p = pure p
nth_node (suc k) p = do n ← load p; nth_node k n.next

-- `list_remove`, for an index that is not negative. The guard lets `index == length` through.
unfoldable pub remove : ListT → ℕ → M ListT
remove l index = if ltb l.length index then pure l else do n ← nth_node index l.head; delete l n
