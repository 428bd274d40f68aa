-- ===== src/LinkedList/Insert.antt =====
-- `list_insert_after` of common/list.c: what it does to the chain read forwards, and what it leaves
-- undone for the chain read backwards.
use bingos.Common.{ℕ, ◌≡◌, ◌≢◌, Bool, true, false, ◌||◌, some, [], ◌∷◌, ◌++◌, arith, ◌==◌, ==_refl}
use mathlib.Core.Path.{ap, sym, ◌∙◌}
use mathlib.Core.Bool.{false≢true}
use bingos.LinkedList.{ListT, insert_after, incr}
use bingos.LinkedList.Nodes.{Ptr, null, Heap, write, load, alloc}
use bingos.LinkedList.Links.{
  Cells, has, Distinct, first, node, Links, IsList, first-append, last-append, has-append,
  Links-split, Distinct-append,
}
use bingos.LinkedList.Delete.{load-some, set_next-some, set_prev-some}

-- The cells `xs` along `next` alone: `prev` may be anything.
abbrev pub Forward : Heap → Cells → Ptr → Type 0
Forward h [] stop = Unit
Forward h ((p, v) ∷ xs) stop =
    (p ≢ null) × ((b : Ptr) × (h p ≡ some (node b (first xs stop) v))) × Forward h xs stop

pub Links-Forward : (h : Heap) (b : Ptr) (xs : Cells) (s : Ptr) → Links h b xs s → Forward h xs s
Links-Forward h b [] s l = tt
Links-Forward h b ((p, v) ∷ xs) s l = (l.0, (b, l.1), Links-Forward h p xs s l.2)

pub Forward-frame :
    (h g : Heap) (xs : Cells) (s : Ptr)
    → ((a : Ptr) → has a xs ≡ true → g a ≡ h a)
    → Forward h xs s
    → Forward g xs s
Forward-frame h g [] s same l = tt
Forward-frame h g ((p, v) ∷ xs) s same l = (
  l.0,
  (l.1.0, same p (ground arith) ∙ l.1.1),
  Forward-frame h g xs s (λ a m. same a (ground arith)) l.2,
)

-- A chain in two parts, the second of which begins at another address than before.
pub Forward-append :
    (h : Heap) (xs ys : Cells) (s : Ptr)
    → Forward h xs (first ys s)
    → Forward h ys s
    → Forward h (xs ++ ys) s
Forward-append h [] ys s l m = m
Forward-append h ((p, v) ∷ xs) ys s l m = (
  l.0,
  (l.1.0, l.1.1 ∙ ap (λ q. some (node l.1.0 q v)) (sym (first-append xs ys s))),
  Forward-append h xs ys s l.2 m,
)

pub Forward-split :
    (h : Heap) (xs ys : Cells) (s : Ptr)
    → Forward h (xs ++ ys) s
    → Forward h xs (first ys s) × Forward h ys s
Forward-split h [] ys s l = (tt, l)
Forward-split h ((p, v) ∷ xs) ys s l =
    let r = Forward-split h xs ys s l.2 in
    ((l.0, (l.1.0, l.1.1 ∙ ap (λ q. some (node l.1.0 q v)) (first-append xs ys s)), r.0), r.1)

or_right : (b : Bool) {c : Bool} → c ≡ true → (b || c) ≡ true
or_right b e = ground arith

ne_false : (p a : Ptr) → p ≢ a → (p == a) ≡ false
ne_false p a ne = ground arith

module _ (h : Heap) (l : ListT) (xs ys : Cells) (a v fresh w : ℕ)
    (chain : Forward h (xs ++ (a, v) ∷ ys) null) (distinct : Distinct (xs ++ (a, v) ∷ ys))
    (ne : fresh ≢ null) (unused : has fresh (xs ++ (a, v) ∷ ys) ≡ false) where
  before_a : Ptr
  before_a = (Forward-split h xs ((a, v) ∷ ys) null chain).1.1.0

  abbrev behind : Ptr
  behind = first ys null

  abbrev linked : Heap
  linked =
      write (write (write h fresh (node null null w)) fresh (node null behind w)) fresh
        (node a behind w)

  abbrev after : Heap
  after = write linked a (node before_a fresh v)

  at_a : (a ≢ null) × (h a ≡ some (node before_a behind v)) × (a ≢ fresh)
  unfolding before_a
  at_a =
      let p = Forward-split h xs ((a, v) ∷ ys) null chain in
      (p.1.0, p.1.1.1, λ e. false≢true (sym unused ∙ has-append fresh xs ((a, v) ∷ ys) ∙ seen xs e))
    where
      seen : (zs : Cells) → a ≡ fresh → (has fresh zs || has fresh ((a, v) ∷ ys)) ≡ true
      seen zs e = ground (arith, e)

  insert_after-run : insert_after fresh l a w h ≡ some (record l { length = incr l.length }, after)
  unfolding insert_after alloc
  insert_after-run =
      let fa : (a == null) ≡ false = ne_false a null at_a.0 in
      let ff : (fresh == null) ≡ false = ne_false fresh null ne in
      let af : (a == fresh) ≡ false = ne_false a fresh at_a.2 in
      let h₁ : Heap = write h fresh (node null null w) in
      let h₂ : Heap = write h₁ fresh (node null behind w) in
      let p : load a h₁ ≡ some (node before_a behind v, h₁) =
        load-some h₁ a at_a.0 (rw (af, at_a.1)) in
      rw (
        fa,
        ff,
        p,
        set_next-some h₁ fresh behind null null w ne (rw ==_refl),
        set_prev-some h₂ fresh a null behind w ne (rw ==_refl),
        set_next-some linked a fresh before_a behind v at_a.0 (rw (af, at_a.1)),
      )

  -- An address of the other cells is neither the new node's nor `a`.
  others :
      (c : Ptr)
      → (has c xs || has c ys) ≡ true
      → (has c (xs ++ (a, v) ∷ ys) ≡ true) × (c ≢ fresh) × (c ≢ a)
  others c m =
      let d = Distinct-append xs ((a, v) ∷ ys) distinct in
      let there : has c (xs ++ (a, v) ∷ ys) ≡ true = has-append c xs ((a, v) ∷ ys) ∙ ground arith in
      (
        there,
        (λ e. false≢true (sym unused ∙ ap (λ p. has p (xs ++ (a, v) ∷ ys)) (sym e) ∙ there)),
        (λ e. apart_from_a c xs ys (d.2 a) d.1.0 m e),
      )
    where
      apart_from_a :
          (c : Ptr) (us zs : Cells)
          → (has a us ≡ true → (a == a || has a ys) ≡ false)
          → has a zs ≡ false
          → (has c us || has c zs) ≡ true
          → c ≡ a
          → ⊥
      apart_from_a c us zs d out m e = ground (arith, e, ==_refl a)

  spared : (c : Ptr) → (has c xs || has c ys) ≡ true → after c ≡ h c
  spared c m = let o = others c m in rw (ne_false c a o.2, ne_false c fresh o.1)

  -- `list_insert_after` behind the node `a` succeeds, keeps the head and the tail, counts one more,
  -- and makes the new cell the one behind `a` along `next`. No other node is written.
  pub insert_after-Forward :
      (g : Heap) × (insert_after fresh l a w h ≡ some (record l { length = incr l.length }, g))
      × Forward g (xs ++ (a, v) ∷ (fresh, w) ∷ ys) null
      × ((c : Ptr) → (has c xs || has c ys) ≡ true → g c ≡ h c)
  unfolding before_a
  insert_after-Forward =
      let p = Forward-split h xs ((a, v) ∷ ys) null chain in
      let fa : (fresh == a) ≡ false = ne_false fresh a (λ e. at_a.2 (sym e)) in
      (
        after,
        insert_after-run,
        Forward-append after xs ((a, v) ∷ (fresh, w) ∷ ys) null
            (Forward-frame h after xs a (λ c m. spared c (rw m)) p.0)
            (
              at_a.0,
              (before_a, rw ==_refl),
              (
                ne,
                (a, rw (fa, ==_refl)),
                Forward-frame h after ys null (λ c m. spared c (or_right (has c xs) m)) p.1.2,
              ),
            ),
        spared,
      )

-- Read backwards, the result is never the list with the new cell: behind the last cell the tail
-- still names the old one, and anywhere else the `prev` of the cell behind still names `a`. So a
-- later `list_pop_back` or `list_push_back` goes wrong.
pub insert_after-not-IsList :
    (h : Heap) (l : ListT) (xs ys : Cells) (a v fresh w : ℕ)
    → IsList h l (xs ++ (a, v) ∷ ys)
    → fresh ≢ null
    → has fresh (xs ++ (a, v) ∷ ys) ≡ false
    → (g : Heap) × (insert_after fresh l a w h ≡ some (record l { length = incr l.length }, g))
      × ¬ (IsList g (record l { length = incr l.length }) (xs ++ (a, v) ∷ (fresh, w) ∷ ys))
insert_after-not-IsList h l xs ys a v fresh w is ne unused =
    let chain = Links-Forward h null (xs ++ (a, v) ∷ ys) null is.links in
    let r = insert_after-Forward h l xs ys a v fresh w chain is.distinct ne unused in
    let a_ne : a ≢ fresh = (at_a h l xs ys a v fresh w chain is.distinct ne unused).2 in
    (r.0, r.1, wrong ys r.0 is a_ne r.3)
  where
    wrong :
        (zs : Cells) (g : Heap)
        → IsList h l (xs ++ (a, v) ∷ zs)
        → a ≢ fresh
        → ((c : Ptr) → (has c xs || has c zs) ≡ true → g c ≡ h c)
        → ¬ (IsList g (record l { length = incr l.length }) (xs ++ (a, v) ∷ (fresh, w) ∷ zs))
    wrong [] g is a_ne same bad = a_ne (
        sym (last-append xs ((a, v) ∷ []) null)
        ∙ sym is.tail
        ∙ bad.tail
        ∙ last-append xs ((a, v) ∷ (fresh, w) ∷ []) null)
    wrong ((q, u) ∷ zs) g is a_ne same bad =
        let old = (Links-split h null xs ((a, v) ∷ (q, u) ∷ zs) null is.links).1.2.1 in
        let new =
          (Links-split g null xs ((a, v) ∷ (fresh, w) ∷ (q, u) ∷ zs) null bad.links).1.2.2.1 in
        let e = same q (or_right (has q xs) (ground (arith, ==_refl q))) in a_ne (cc (old, new, e))
