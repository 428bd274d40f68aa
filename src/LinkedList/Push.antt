-- ===== src/LinkedList/Push.antt =====
-- `list_push_front`, `list_push_back`, `list_pop_front` and `list_pop_back` of common/list.c.
use bingos.Common.{
  ℕ, ◌+◌, ◌<◌, ◌^◌, ◌≡◌, ◌≢◌, inl, inr, refl, true, false, Option, none, some, [], ◌∷◌, ◌++◌, arith,
  ◌==◌, length, Bool-cases, length-append, ==_refl,
}
use mathlib.Core.Path.{ap, sym, subst, ◌∙◌}
use mathlib.Core.List.{append-nil}
use bingos.LinkedList.{ListT, push_front, push_back, delete, pop_front, pop_back, incr}
use bingos.LinkedList.Nodes.{Ptr, null, Node, Heap, write, alloc, set_next, set_prev}
use bingos.LinkedList.Links.{
  Cells, has, first, last, node, Links, IsList, first-append, last-append, has-append, Links-append,
  Links-split, Links-write, Distinct-join, not-has_of_none, ne_of_has, last_apart,
}
use bingos.LinkedList.Delete.{
  set_next-some, set_prev-some, link_next-Links, link_prev-Links, delete_lem,
}

-- Every list function takes the list from `l` to `l'` and from `xs` to `ys`.
abbrev pub Outcome : Option (ListT × Heap) → Heap → Cells → Type 0
Outcome r h ys =
    (g : Heap) × (l' : ListT) × (r ≡ some (l', g))
    × IsList g l' ys
    × ((c : Ptr) → has c ys ≡ false → g c ≡ h c)

eq_null : (p : Ptr) → (p == null) ≡ true → p ≡ null
eq_null p e = ground arith

first-null : (h : Heap) (b : Ptr) (xs : Cells) → Links h b xs null → first xs null ≡ null → xs ≡ []
first-null h b [] l e = refl
first-null h b ((p, v) ∷ xs) l e = absurd (l.0 e)

last-null :
    (h : Heap) (b : Ptr) (xs : Cells) (s : Ptr)
    → Links h b xs s
    → last xs b ≡ null
    → (xs ≡ []) × (b ≡ null)
last-null h b [] s l e = (refl, e)
last-null h b ((p, v) ∷ xs) s l e = absurd (l.0 (last-null h p xs s l.2 e).1)

last_of_ne_nil : (xs : Cells) (a b : Ptr) → xs ≢ [] → last xs a ≡ last xs b
last_of_ne_nil [] a b ne = absurd (ne refl)
last_of_ne_nil ((p, v) ∷ xs) a b ne = refl

first_of_ne_nil : (xs : Cells) (a b : Ptr) → xs ≢ [] → first xs a ≡ first xs b
first_of_ne_nil [] a b ne = absurd (ne refl)
first_of_ne_nil ((p, v) ∷ xs) a b ne = refl

spared :
    (h g : Heap) (xs : Cells) (fresh v c : ℕ) (n m : Node)
    → ((a : Ptr) → has a xs ≡ false → g a ≡ write h fresh n a)
    → has c (xs ++ ((fresh, v) ∷ [])) ≡ false
    → write g fresh m c ≡ h c
spared h g xs fresh v c n m same out = ground (arith, same c, has-append c xs ((fresh, v) ∷ []))

module _ (h : Heap) (l : ListT) (xs : Cells) (fresh v : ℕ) (is : IsList h l xs) (ne : fresh ≢ null)
    (unused : h fresh ≡ none) (room : length xs + 1 < 2 ^ 31) where
  out : has fresh xs ≡ false
  out = not-has_of_none h null xs null fresh is.links unused

  alloc-some : (n : Node) → alloc fresh n h ≡ some (tt, write h fresh n)
  unfolding alloc
  alloc-some n = let f : (fresh == null) ≡ false = ground arith in rw f

  one_cell :
      (n : Node)
      → n ≡ node null null v
      → IsList
          (write h fresh n)
          (record { head = fresh; tail = fresh; length = incr 0 })
          ((fresh, v) ∷ [])
  one_cell n e = record {
    links = (ne, rw (e, ==_refl), tt);
    distinct = (refl, tt);
    head = refl;
    tail = refl;
    count = refl;
    small = omega arith;
  }

  -- `list_push_front` puts a new cell in front of the list, and writes only its nodes.
  pub push_front_lem : Outcome (push_front fresh l v h) h ((fresh, v) ∷ xs)
  unfolding push_front
  push_front_lem = elim (Bool-cases (l.head == null)) [
    | inl e ↦
        let nil : xs ≡ [] = first-null h null xs is.links (sym is.head ∙ eq_null l.head e) in
        let len : l.length ≡ 0 = omega (arith, is.count, ap length nil) in
        (
          write h fresh (node null null v),
          record { head = fresh; tail = fresh; length = incr l.length },
          rw (e, alloc-some (node null null v)),
          rw (nil, len) (one_cell (node null null v) refl),
          λ c no_c. ground arith,
        )
    | inr f ↦
        let h₁ : Heap = write h fresh (node null null v) in
        let l₁ : Links h₁ null xs null = Links-write h null xs null fresh _ out is.links in
        let two = link_prev-Links h₁ null fresh xs l₁ is.distinct in
        let at_fresh : two.0 fresh ≡ some (node null null v) = two.3 fresh out ∙ rw ==_refl in
        let linked : set_prev l.head fresh h₁ ≡ some (tt, two.0) =
          rw is.head
            (let f' : (first xs null == null) ≡ false = rw (← is.head) f in rw f' at two.1) in
        (
          write two.0 fresh (node null l.head v),
          record l { head = fresh; length = incr l.length },
          rw (
            f,
            alloc-some (node null null v),
            linked,
            set_next-some two.0 fresh l.head null null v ne at_fresh,
          ),
          record {
            links = (ne, rw (==_refl, is.head), Links-write two.0 fresh xs null fresh _ out two.2);
            distinct = (out, is.distinct);
            head = refl;
            tail =
                is.tail
                ∙ last_of_ne_nil xs null fresh
                    (λ e. ground (arith, is.head, ap (λ zs. first zs null) e));
            count = omega (arith, is.count);
            small = omega arith;
          },
          λ c no_c. ground (arith, two.3 c),
        )
  ]

  -- `list_push_back` puts a new cell behind the list, and writes only its nodes.
  pub push_back_lem : Outcome (push_back fresh l v h) h (xs ++ ((fresh, v) ∷ []))
  unfolding push_back
  push_back_lem = elim (Bool-cases (l.tail == null)) [
    | inl e ↦
        let nil : xs ≡ [] =
          (last-null h null xs null is.links (sym is.tail ∙ eq_null l.tail e)).0 in
        let len : l.length ≡ 0 = omega (arith, is.count, ap length nil) in
        (
          write h fresh (node null null v),
          record { head = fresh; tail = fresh; length = incr l.length },
          rw (e, alloc-some (node null null v)),
          rw (nil, len) (one_cell (node null null v) refl),
          λ c. rw nil (λ no_c. ground arith),
        )
    | inr f ↦
        let h₁ : Heap = write h fresh (node null null v) in
        let l₁ : Links h₁ null xs null = Links-write h null xs null fresh _ out is.links in
        let two = link_next-Links h₁ xs null fresh l₁ is.distinct in
        let at_fresh : two.0 fresh ≡ some (node null null v) = two.3 fresh out ∙ rw ==_refl in
        let linked : set_next l.tail fresh h₁ ≡ some (tt, two.0) =
          rw is.tail
            (let f' : (last xs null == null) ≡ false = rw (← is.tail) f in rw f' at two.1) in
        (
          write two.0 fresh (node l.tail null v),
          record l { tail = fresh; length = incr l.length },
          rw (
            f,
            alloc-some (node null null v),
            linked,
            set_prev-some two.0 fresh l.tail null null v ne at_fresh,
          ),
          record {
            links =
                Links-append _ null xs ((fresh, v) ∷ []) null
                  (Links-write two.0 null xs fresh fresh _ out two.2)
                  (ne, rw (==_refl, is.tail), tt);
            distinct =
                Distinct-join xs ((fresh, v) ∷ []) is.distinct (refl, tt)
                  (λ c m. rw (ne_of_has c fresh xs m out));
            head =
                is.head
                ∙ first_of_ne_nil xs null fresh
                    (λ e. ground (arith, is.tail, ap (λ zs. last zs null) e))
                ∙ sym (first-append xs ((fresh, v) ∷ []) null);
            tail = sym (last-append xs ((fresh, v) ∷ []) null);
            count = omega (arith, is.count, length-append xs ((fresh, v) ∷ []));
            small = omega (arith, length-append xs ((fresh, v) ∷ []));
          },
          λ c no_c. spared h two.0 xs fresh v c _ _ two.3 no_c,
        )
  ]

not_null : (p a : Ptr) → p ≡ a → a ≢ null → (p == null) ≡ false
not_null p a e ne = ground arith

-- `list_pop_front` returns the first node and leaves the list of the others; the node itself is
-- not written, so that the caller can still read its value.
pub pop_front_lem :
    (h : Heap) (l : ListT) (a v : ℕ) (xs : Cells)
    → IsList h l ((a, v) ∷ xs)
    → (g : Heap) × (l' : ListT) × (pop_front l h ≡ some ((a, l'), g)) × IsList g l' xs × (g a ≡ h a)
unfolding pop_front
pop_front_lem h l a v xs is =
    let d = delete_lem h l [] xs a v is in
    let f : (l.head == null) ≡ false = ground (arith, is.links.0, is.head) in
    let e : delete l l.head h ≡ some (d.1, d.0) =
      subst (λ p. delete l p h ≡ some (d.1, d.0)) (sym is.head) d.2 in
    (d.0, d.1, rw (f, e) (ap (λ p. some ((p, d.1), d.0)) is.head), d.3, d.4 a is.distinct.0)

-- `list_pop_back` does so at the other end.
pub pop_back_lem :
    (h : Heap) (l : ListT) (xs : Cells) (a v : ℕ)
    → IsList h l (xs ++ ((a, v) ∷ []))
    → (g : Heap) × (l' : ListT) × (pop_back l h ≡ some ((a, l'), g)) × IsList g l' xs × (g a ≡ h a)
unfolding pop_back
pop_back_lem h l xs a v is =
    let d = delete_lem h l xs [] a v is in
    let tail : l.tail ≡ a = is.tail ∙ last-append xs ((a, v) ∷ []) null in
    let ne : a ≢ null = (Links-split h null xs ((a, v) ∷ []) null is.links).1.0 in
    let f : (l.tail == null) ≡ false = not_null l.tail a tail ne in
    let e : delete l l.tail h ≡ some (d.1, d.0) =
      subst (λ p. delete l p h ≡ some (d.1, d.0)) (sym tail) d.2 in
    (
      d.0,
      d.1,
      rw (f, e) (ap (λ p. some ((p, d.1), d.0)) tail),
      subst (IsList d.0 d.1) (append-nil xs) d.3,
      d.4 a (last_apart xs a v is.distinct),
    )

-- Both say so when the list is empty, and change nothing.
pub pop-empty :
    (h : Heap) (l : ListT)
    → IsList h l []
    → (pop_front l h ≡ some ((null, l), h)) × (pop_back l h ≡ some ((null, l), h))
unfolding pop_front pop_back
pop-empty h l is =
    let f : (l.head == null) ≡ true = rw is.head in
    let t : (l.tail == null) ≡ true = rw is.tail in (rw f, rw t)
