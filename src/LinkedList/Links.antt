-- ===== src/LinkedList/Links.antt =====
-- What a chain of nodes stands for: the addresses and values along it.
use bingos.Common.{
  ℕ, ◌<◌, ◌^◌, ◌≡◌, ◌≢◌, ◌⊎◌, inl, inr, refl, Bool, true, false, ◌||◌, none, some, List, [], ◌∷◌,
  ◌++◌, arith, ◌==◌, length, Bool-cases,
}
use mathlib.Core.Path.{ap, sym, ◌∙◌}
use bingos.LinkedList.{ListT}
use bingos.LinkedList.Nodes.{Ptr, null, Node, Heap, write}

-- Address and value of each node, in order.
abbrev pub Cells : Type 0
Cells = List (Ptr × ℕ)

abbrev pub has : Ptr → Cells → Bool
has a [] = false
has a ((p, _) ∷ xs) = a == p || has a xs

-- No address twice.
abbrev pub Distinct : Cells → Type 0
Distinct [] = Unit
Distinct ((p, _) ∷ xs) = (has p xs ≡ false) × Distinct xs

-- The first address of a chain that ends before `stop`, and the last of one that begins behind
-- `before`.
abbrev pub first : Cells → Ptr → Ptr
first [] stop = stop
first ((p, _) ∷ xs) stop = p

abbrev pub last : Cells → Ptr → Ptr
last [] before = before
last ((p, _) ∷ xs) before = last xs p

abbrev pub node : Ptr → Ptr → ℕ → Node
node p q v = record { prev = p; next = q; value = v }

-- Each cell is a node whose `prev` and `next` lead to its neighbours.
abbrev pub Links : Heap → Ptr → Cells → Ptr → Type 0
Links h before [] stop = Unit
Links h before ((p, v) ∷ xs) stop =
    (p ≢ null) × (h p ≡ some (node before (first xs stop) v)) × Links h p xs stop

-- `l` is the list of the cells `xs`.
pub record IsList (h : Heap) (l : ListT) (xs : Cells) : Type 0 where
  pub links : Links h null xs null
  pub distinct : Distinct xs
  pub head : l.head ≡ first xs null
  pub tail : l.tail ≡ last xs null
  pub count : l.length ≡ length xs
  pub small : length xs < 2 ^ 31

pub first-append : (xs ys : Cells) (s : Ptr) → first (xs ++ ys) s ≡ first xs (first ys s)
first-append [] ys s = refl
first-append (x ∷ xs) ys s = refl

pub last-append : (xs ys : Cells) (b : Ptr) → last (xs ++ ys) b ≡ last ys (last xs b)
last-append [] ys b = refl
last-append ((p, v) ∷ xs) ys b = last-append xs ys p

pub has-append : (a : Ptr) (xs ys : Cells) → has a (xs ++ ys) ≡ (has a xs || has a ys)
has-append a [] ys = refl
has-append a ((p, v) ∷ xs) ys = ground (arith, has-append a xs ys)

pub Links-append :
    (h : Heap) (b : Ptr) (xs ys : Cells) (s : Ptr)
    → Links h b xs (first ys s)
    → Links h (last xs b) ys s
    → Links h b (xs ++ ys) s
Links-append h b [] ys s l m = m
Links-append h b ((p, v) ∷ xs) ys s l m = (
  l.0,
  l.1 ∙ ap (λ q. some (node b q v)) (sym (first-append xs ys s)),
  Links-append h p xs ys s l.2 m,
)

pub Links-split :
    (h : Heap) (b : Ptr) (xs ys : Cells) (s : Ptr)
    → Links h b (xs ++ ys) s
    → Links h b xs (first ys s) × Links h (last xs b) ys s
Links-split h b [] ys s l = (tt, l)
Links-split h b ((p, v) ∷ xs) ys s l =
    let r = Links-split h p xs ys s l.2 in
    ((l.0, l.1 ∙ ap (λ q. some (node b q v)) (first-append xs ys s), r.0), r.1)

-- A chain is not touched by changes at other addresses.
pub Links-frame :
    {h g : Heap} (b : Ptr) (xs : Cells) (s : Ptr)
    → ((a : Ptr) → has a xs ≡ true → g a ≡ h a)
    → Links h b xs s
    → Links g b xs s
Links-frame b [] s same l = tt
Links-frame b ((p, v) ∷ xs) s same l =
    (l.0, same p (ground arith) ∙ l.1, Links-frame p xs s (λ a m. same a (ground arith)) l.2)

pub Links-write :
    (h : Heap) (b : Ptr) (xs : Cells) (s a : Ptr) (n : Node)
    → has a xs ≡ false
    → Links h b xs s
    → Links (write h a n) b xs s
Links-write h b xs s a n out l =
    Links-frame {h = h} {g = write h a n} b xs s (λ c m. ground arith) l

pub Distinct-append :
    (xs ys : Cells)
    → Distinct (xs ++ ys)
    → Distinct xs × Distinct ys × ((a : Ptr) → has a xs ≡ true → has a ys ≡ false)
Distinct-append [] ys d = (tt, d, λ a m. cc)
Distinct-append ((p, v) ∷ xs) ys d =
    let r = Distinct-append xs ys d.1 in
    let e = has-append p xs ys in ((ground arith, r.0), r.1, λ a m. ground (arith, r.2 a))

pub Distinct-join :
    (xs ys : Cells)
    → Distinct xs
    → Distinct ys
    → ((a : Ptr) → has a xs ≡ true → has a ys ≡ false)
    → Distinct (xs ++ ys)
Distinct-join [] ys d e apart = e
Distinct-join ((p, v) ∷ xs) ys d e apart = (
  has-append p xs ys ∙ ground (arith, apart p),
  Distinct-join xs ys d.1 e (λ a m. apart a (ground arith)),
)

pub not-has_of_none :
    (h : Heap) (b : Ptr) (xs : Cells) (s a : Ptr) → Links h b xs s → h a ≡ none → has a xs ≡ false
not-has_of_none h b [] s a l e = refl
not-has_of_none h b ((p, v) ∷ xs) s a l e = ground (arith, not-has_of_none h p xs s a l.2 e)

-- A list of cells is empty or has a last cell.
pub snoc_cases : (xs : Cells) → (xs ≡ []) ⊎ ((ys : Cells) × (c : Ptr × ℕ) × (xs ≡ ys ++ (c ∷ [])))
snoc_cases [] = inl refl
snoc_cases (x ∷ xs) = elim (snoc_cases xs) [
  | inl e ↦ inr ([], x, ap (λ l. x ∷ l) e)
  | inr (ys, c, e) ↦ inr (x ∷ ys, c, ap (λ l. x ∷ l) e)
]

pub ne_of_has : (c p : Ptr) (xs : Cells) → has c xs ≡ true → has p xs ≡ false → (c == p) ≡ false
ne_of_has c p xs m out = elim (Bool-cases (c == p)) [
  | inl e ↦ let e' : c ≡ p = ground arith in cc (ap (λ a. has a xs) e')
  | inr e ↦ e
]

-- The last cell's address is in no other cell.
pub last_apart : (xs : Cells) (a v : ℕ) → Distinct (xs ++ ((a, v) ∷ [])) → has a (xs ++ []) ≡ false
last_apart [] a v d = refl
last_apart ((p, w) ∷ xs) a v d =
    ground (arith, last_apart xs a v d.1, has-append p xs ((a, v) ∷ []))
