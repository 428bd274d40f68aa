-- ===== src/LinkedList/Delete.antt =====
-- `list_delete`, `list_pop_front` and `list_pop_back` of common/list.c.
use bingos.Common.{
  ℕ, ◌≡◌, ◌≢◌, inl, inr, refl, true, false, some, [], ◌∷◌, ◌++◌, arith, ◌==◌, if◌then◌else◌,
  length-append, ==_refl,
}
use mathlib.Core.Path.{sym, subst, ◌∙◌}
use bingos.LinkedList.{ListT, link_next, link_prev, delete, decr}
use bingos.LinkedList.Nodes.{Ptr, null, Node, Heap, write, load, set_next, set_prev}
use bingos.LinkedList.Links.{
  Cells, has, Distinct, first, last, node, Links, IsList, last-append, has-append, Links-append,
  Links-split, Links-frame, Links-write, Distinct-append, Distinct-join, snoc_cases,
}

pub load-some : (h : Heap) (p : Ptr) {n : Node} → p ≢ null → h p ≡ some n → load p h ≡ some (n, h)
unfolding load
load-some h p ne e = let f : (p == null) ≡ false = ground arith in rw (f, e)

pub set_next-some :
    (h : Heap) (p q b s : Ptr) (v : ℕ)
    → p ≢ null
    → h p ≡ some (node b s v)
    → set_next p q h ≡ some (tt, write h p (node b q v))
unfolding set_next
set_next-some h p q b s v ne e = rw (load-some h p ne e)

pub set_prev-some :
    (h : Heap) (p q b s : Ptr) (v : ℕ)
    → p ≢ null
    → h p ≡ some (node b s v)
    → set_prev p q h ≡ some (tt, write h p (node q s v))
unfolding set_prev
set_prev-some h p q b s v ne e = rw (load-some h p ne e)

-- `last->next = t` on a chain that may be empty.
pub link_next-Links :
    (h : Heap) (xs : Cells) (s t : Ptr)
    → Links h null xs s
    → Distinct xs
    → (g : Heap) × (link_next (last xs null) t h ≡ some (tt, g))
      × Links g null xs t
      × ((a : Ptr) → has a xs ≡ false → g a ≡ h a)
link_next-Links h xs s t l d = elim (snoc_cases xs) [
  | inl e ↦ (h, rw e, rw e tt, λ a out. refl)
  | inr (ys, (p, w), e) ↦
      subst
        (λ zs.
          (g : Heap) × (link_next (last zs null) t h ≡ some (tt, g))
          × Links g null zs t
          × ((a : Ptr) → has a zs ≡ false → g a ≡ h a))
        (sym e) (at_end ys p w (subst (λ zs. Links h null zs s) e l) (subst Distinct e d))
]
  where
    at_end :
        (ys : Cells) (p : Ptr) (w : ℕ)
        → Links h null (ys ++ ((p, w) ∷ [])) s
        → Distinct (ys ++ ((p, w) ∷ []))
        → (g : Heap) × (link_next (last (ys ++ ((p, w) ∷ [])) null) t h ≡ some (tt, g))
          × Links g null (ys ++ ((p, w) ∷ [])) t
          × ((a : Ptr) → has a (ys ++ ((p, w) ∷ [])) ≡ false → g a ≡ h a)
    at_end ys p w l d =
        let parts = Links-split h null ys ((p, w) ∷ []) s l in
        let apart = Distinct-append ys ((p, w) ∷ []) d in
        let out : has p ys ≡ false = ground (arith, apart.2 p) in
        let ne : (p == null) ≡ false = ground (arith, parts.1.0) in
        let g : Heap = write h p (node (last ys null) t w) in
        (
          g,
          rw (last-append, ne) (set_next-some h p t (last ys null) s w parts.1.0 parts.1.1),
          Links-append g null ys ((p, w) ∷ []) t (Links-write h null ys p p _ out parts.0)
              (parts.1.0, rw ==_refl, tt),
          λ a no_a. ground (arith, has-append a ys ((p, w) ∷ [])),
        )

-- `first->prev = b` on a chain that may be empty.
pub link_prev-Links :
    (h : Heap) (c b : Ptr) (ys : Cells)
    → Links h c ys null
    → Distinct ys
    → (g : Heap) × (link_prev (first ys null) b h ≡ some (tt, g))
      × Links g b ys null
      × ((a : Ptr) → has a ys ≡ false → g a ≡ h a)
link_prev-Links h c b [] l d = (h, refl, tt, λ a out. refl)
link_prev-Links h c b ((p, w) ∷ ys) l d =
    let ne : (p == null) ≡ false = ground (arith, l.0) in
    let g : Heap = write h p (node b (first ys null) w) in
    (
      g,
      rw ne (set_prev-some h p b c (first ys null) w l.0 l.1),
      (l.0, rw ==_refl, Links-write h p ys null p _ d.0 l.2),
      λ a out. ground arith,
    )

-- `list_delete` of the node `a`, between the cells `xs` and `ys`.
module _ (h : Heap) (l : ListT) (xs ys : Cells) (a v : ℕ)
    (is : IsList h l (xs ++ (a, v) ∷ ys)) where
  parts :
      Links h null xs a
      × (a ≢ null)
      × (h a ≡ some (node (last xs null) (first ys null) v))
      × Links h a ys null
  parts = let p = Links-split h null xs ((a, v) ∷ ys) null is.links in (p.0, p.1.0, p.1.1, p.1.2)

  apart :
      Distinct xs
      × Distinct ys
      × (has a xs ≡ false)
      × (has a ys ≡ false)
      × ((c : Ptr) → has c xs ≡ true → has c ys ≡ false)
      × ((c : Ptr) → has c ys ≡ true → has c xs ≡ false)
  apart =
      let d = Distinct-append xs ((a, v) ∷ ys) is.distinct in
      (
        d.0,
        d.1.1,
        ground (arith, d.2 a),
        d.1.0,
        λ c m. ground (arith, d.2 c),
        λ c m. ground (arith, d.2 c),
      )

  new_head : (if a == l.head then first ys null else l.head) ≡ first (xs ++ ys) null
  new_head = rw is.head (go xs apart.2)
    where
      go :
          (zs : Cells)
          → has a zs ≡ false
          → (if a == first (zs ++ (a, v) ∷ ys) null
              then first ys null
              else first (zs ++ (a, v) ∷ ys) null)
            ≡ first (zs ++ ys) null
      go [] out = rw ==_refl
      go ((p, w) ∷ zs) out = ground arith

  new_tail : (if a == l.tail then last xs null else l.tail) ≡ last (xs ++ ys) null
  new_tail = rw (is.tail, last-append xs ((a, v) ∷ ys) null, last-append xs ys null) (go ys apart.3)
    where
      go :
          (zs : Cells)
          → has a zs ≡ false
          → (if a == last zs a then last xs null else last zs a) ≡ last zs (last xs null)
      go [] out = rw ==_refl
      go ((p, w) ∷ zs) out = later zs p (ground arith) (ground arith)
        where
          later :
              (us : Cells) (p : Ptr)
              → (a == p) ≡ false
              → has a us ≡ false
              → (if a == last us p then last xs null else last us p) ≡ last us p
          later [] p ne out = rw ne
          later ((q, u) ∷ us) p ne out = later us q (ground arith) (ground arith)

  -- `list_delete` takes the node out: what is left is the list of the other cells in their order,
  -- and no node outside them is written, the deleted one included.
  pub delete_lem :
      (g : Heap) × (l' : ListT) × (delete l a h ≡ some (l', g))
      × IsList g l' (xs ++ ys)
      × ((c : Ptr) → has c (xs ++ ys) ≡ false → g c ≡ h c)
  unfolding delete
  delete_lem =
      let one = link_next-Links h xs a (first ys null) parts.0 apart.0 in
      let ys_links : Links one.0 a ys null =
        Links-frame {h = h} {g = one.0} a ys null (λ c m. one.3 c (apart.5 c m)) parts.3 in
      let two = link_prev-Links one.0 a (last xs null) ys ys_links apart.1 in
      let xs_links : Links two.0 null xs (first ys null) =
        Links-frame {h = one.0} {g = two.0} null xs (first ys null) (λ c m. two.3 c (apart.4 c m))
          one.2 in
      (
        two.0,
        record {
          head = if a == l.head then first ys null else l.head;
          tail = if a == l.tail then last xs null else l.tail;
          length = decr l.length;
        },
        rw (load-some h a parts.1 parts.2, one.1, two.1),
        record {
          links = Links-append two.0 null xs ys null xs_links two.2;
          distinct = Distinct-join xs ys apart.0 apart.1 apart.4;
          head = new_head;
          tail = new_tail;
          count =
              omega
                (arith, is.count, is.small, length-append xs ys, length-append xs ((a, v) ∷ ys));
          small = omega (arith, is.small, length-append xs ys, length-append xs ((a, v) ∷ ys));
        },
        λ c out. let e = has-append c xs ys in two.3 c (ground arith) ∙ one.3 c (ground arith),
      )
