-- ===== src/LinkedList/Remove.antt =====
-- `list_remove` of common/list.c: removal by index.
use bingos.Common.{
  ℕ, ◌+◌, ◌<◌, ◌≡◌, refl, true, false, none, some, [], ◌∷◌, ◌++◌, arith, ltb, length, length-append,
}
use mathlib.Core.Path.{ap, sym, subst, ◌∙◌}
use mathlib.Core.List.{append-nil}
use bingos.LinkedList.{ListT, delete, nth_node, remove}
use bingos.LinkedList.Nodes.{Ptr, null, Heap, load}
use bingos.LinkedList.Links.{Cells, first, Links, IsList}
use bingos.LinkedList.Delete.{load-some}

nth_node-first :
    (h : Heap) (b : Ptr) (xs ys : Cells)
    → Links h b (xs ++ ys) null
    → nth_node (length xs) (first (xs ++ ys) null) h ≡ some (first ys null, h)
unfolding nth_node
nth_node-first h b [] ys l = refl
nth_node-first h b ((p, v) ∷ xs) ys l = rw (load-some h p l.0 l.1) (nth_node-first h p xs ys l.2)

remove-nth :
    (h : Heap) (l : ListT) (xs ys : Cells)
    → IsList h l (xs ++ ys)
    → remove l (length xs) h ≡ delete l (first ys null) h
unfolding remove
remove-nth h l xs ys is =
    let inside : ltb l.length (length xs) ≡ false =
      at_most l.length (length xs) (length ys) (is.count ∙ length-append xs ys) in
    let found : nth_node (length xs) l.head h ≡ some (first ys null, h) =
      subst (λ p. nth_node (length xs) p h ≡ some (first ys null, h)) (sym is.head)
        (nth_node-first h null xs ys is.links) in
    rw (inside, found)
  where
    at_most : (n k m : ℕ) → n ≡ k + m → ltb n k ≡ false
    at_most n k m e = ground arith

delete-null : (h : Heap) (l : ListT) → delete l null h ≡ none
unfolding delete load
delete-null h l = refl

-- On the list of `xs`, then the cell at `a`, then `ys`, `list_remove` at the index of `a` is
-- `list_delete` of `a`; at an index past the length it changes nothing; at the length itself, which
-- the guard lets through, it deletes a null pointer, a fault.
pub remove_lem :
    (h : Heap) (l : ListT) (xs ys : Cells) (a v k : ℕ)
    → IsList h l (xs ++ (a, v) ∷ ys)
    → 0 < k
    → (remove l (length xs) h ≡ delete l a h)
      × (remove l l.length h ≡ none)
      × (remove l (l.length + k) h ≡ some (l, h))
unfolding remove
remove_lem h l xs ys a v k is pos =
    let all : IsList h l ((xs ++ (a, v) ∷ ys) ++ []) =
      subst (IsList h l) (sym (append-nil (xs ++ (a, v) ∷ ys))) is in
    let past : ltb l.length (l.length + k) ≡ true = beyond l.length k pos in
    (
      remove-nth h l xs ((a, v) ∷ ys) is,
      ap (λ n. remove l n h) is.count ∙ remove-nth h l (xs ++ (a, v) ∷ ys) [] all ∙ delete-null h l,
      rw past,
    )
  where
    beyond : (n k : ℕ) → 0 < k → ltb n (n + k) ≡ true
    beyond n k h = ground arith
