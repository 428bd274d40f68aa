-- ===== src/LinkedList/Tests.antt =====
-- Runs of common/list.c, and the theorems at concrete lists.
use bingos.Common.{ℕ, ◌≡◌, refl, true, false, none, some, [], ◌∷◌, ◌++◌, arith, ◌==◌, if◌then◌else◌}
use bingos.LinkedList.{
  ListT, push_back, push_front, pop_front, pop_back, delete, insert_after, remove,
}
use bingos.LinkedList.Nodes.{Heap, null}
use bingos.LinkedList.Links.{Cells, has, node, IsList}
use bingos.LinkedList.Delete.{delete_lem}
use bingos.LinkedList.Push.{Outcome, push_front_lem, push_back_lem, pop_front_lem, pop_back_lem}
use bingos.LinkedList.Remove.{remove_lem}
use bingos.LinkedList.Insert.{Forward, insert_after-Forward, insert_after-not-IsList}

-- Nodes 1 and 2, with the values 7 and 8.
abbrev two : Heap
two p = if p == 1 then some (node 0 2 7) else if p == 2 then some (node 1 0 8) else none

abbrev list : ListT
list = record { head = 1; tail = 2; length = 2 }

abbrev cells : Cells
cells = (1, 7) ∷ (2, 8) ∷ []

two-IsList : IsList two list cells
two-IsList = record {
  links = (omega arith, refl, (omega arith, refl, tt));
  distinct = (refl, (refl, tt));
  head = refl;
  tail = refl;
  count = refl;
  small = omega arith;
}

delete_lem_example :
    (g : Heap) × (l' : ListT) × (delete list 1 two ≡ some (l', g))
    × IsList g l' ((2, 8) ∷ [])
    × ((c : ℕ) → has c ((2, 8) ∷ []) ≡ false → g c ≡ two c)
delete_lem_example = delete_lem two list [] ((2, 8) ∷ []) 1 7 two-IsList

push_front_lem_example : Outcome (push_front 3 list 9 two) two ((3, 9) ∷ cells)
push_front_lem_example =
    push_front_lem two list cells 3 9 two-IsList (omega arith) refl (omega arith)

push_back_lem_example : Outcome (push_back 3 list 9 two) two (cells ++ ((3, 9) ∷ []))
push_back_lem_example = push_back_lem two list cells 3 9 two-IsList (omega arith) refl (omega arith)

pop_front_lem_example :
    (g : Heap) × (l' : ListT) × (pop_front list two ≡ some ((1, l'), g))
    × IsList g l' ((2, 8) ∷ [])
    × (g 1 ≡ two 1)
pop_front_lem_example = pop_front_lem two list 1 7 ((2, 8) ∷ []) two-IsList

pop_back_lem_example :
    (g : Heap) × (l' : ListT) × (pop_back list two ≡ some ((2, l'), g))
    × IsList g l' ((1, 7) ∷ [])
    × (g 2 ≡ two 2)
pop_back_lem_example = pop_back_lem two list ((1, 7) ∷ []) 2 8 two-IsList

insert_after-Forward_example :
    (g : Heap) × (insert_after 3 list 1 9 two ≡ some (record list { length = 3 }, g))
    × Forward g ((1, 7) ∷ (3, 9) ∷ (2, 8) ∷ []) null
    × ((c : ℕ) → has c ((2, 8) ∷ []) ≡ true → g c ≡ two c)
insert_after-Forward_example =
    insert_after-Forward two list [] ((2, 8) ∷ []) 1 7 3 9
      (omega arith, (0, refl), (omega arith, (1, refl), tt)) (refl, (refl, tt)) (omega arith) refl

insert_after-not-IsList_example :
    (g : Heap) × (insert_after 3 list 2 9 two ≡ some (record list { length = 3 }, g))
    × ¬ (IsList g (record list { length = 3 }) ((1, 7) ∷ (2, 8) ∷ (3, 9) ∷ []))
insert_after-not-IsList_example =
    insert_after-not-IsList two list ((1, 7) ∷ []) [] 2 8 3 9 two-IsList (omega arith) refl

remove_lem_example :
    (remove list 1 two ≡ delete list 2 two)
    × (remove list 2 two ≡ none)
    × (remove list 3 two ≡ some (list, two))
remove_lem_example = remove_lem two list ((1, 7) ∷ []) [] 2 8 1 two-IsList (omega arith)
