-- ===== src/OrderedArray/Tests.antt =====
-- common/ordered_array.c: an insertion in the middle.
use bingos.Common.{ℕ, suc, ◌≡◌, refl, ◌&&◌, none, some, ltb, leb, ◌==◌, if◌then◌else◌, arith}
use bingos.OrderedArray.{
  OrderedArray, store, search, shift_up, insert_ordered_array, remove_ordered_array,
  lookup_ordered_array, place_ordered_array, IsValid,
}
use bingos.OrderedArray.Insert.{IsPlace, insert_ordered_array_lem}

-- 10, 30, 50
abbrev three : OrderedArray
three = record {
  array = λ k. if k == 0 then 10 else if k == 1 then 30 else if k == 2 then 50 else 0;
  size = 3;
  max = 8;
}

-- 10, 20, 30, 30: the 50 is lost.
insert-middle :
    ◌≡◌ {A = ℕ}
      (elim (insert_ordered_array ltb 20 three) [ none ↦ 0 | some a ↦ lookup_ordered_array 3 a ])
      30
unfolding insert_ordered_array search shift_up store lookup_ordered_array
insert-middle = refl

remove-first : (remove_ordered_array 0 three).array 0 ≡ 30
unfolding remove_ordered_array
remove-first = refl

place-empty : (place_ordered_array 8).size ≡ 0
unfolding place_ordered_array
place-empty = refl

three-IsValid : IsValid three
unfolding IsValid
three-IsValid = (omega arith, λ k h. ground arith, λ k h. ground arith)

insert_ordered_array_lem_example :
    (i : ℕ) × IsPlace ltb 20 0 three i
    × ((out : OrderedArray) × (insert_ordered_array ltb 20 three ≡ some out)
        × (out.size ≡ suc three.size)
        × ((k : ℕ)
            → out.array k ≡ (
                if k == i
                then 20
                else if ltb i k && leb k three.size
                then three.array i
                else three.array k)))
insert_ordered_array_lem_example = insert_ordered_array_lem ltb 20 three three-IsValid (omega arith)
