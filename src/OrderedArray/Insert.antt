-- ===== src/OrderedArray/Insert.antt =====
-- common/ordered_array.c: what an insertion does to every place of the array.
use native.Mathlib.Decide.{dec_lt}
use bingos.Common.{
  ℕ, zero, suc, ◌+◌, ◌-◌, ◌≤◌, ◌<◌, ◌≡◌, refl, Bool, true, false, ◌&&◌, some, ltb, leb, ◌==◌,
  if◌then◌else◌, arith, inl, inr, Bool-cases, ◌⊎◌,
}
use bingos.OrderedArray.{OrderedArray, store, search, shift_up, insert_ordered_array, IsValid}

shift_up_lem :
    (less : ℕ → ℕ → Bool) (n j : ℕ) (array : ℕ → ℕ) (k : ℕ)
    → shift_up less n j array k ≡ (if ltb j k && leb k (j + n) then array j else array k)
unfolding shift_up
shift_up_lem less zero j array k = ground arith
shift_up_lem less (suc n) j array k =
    rw (shift_up_lem less n (suc j) (λ i. if i == suc j then array j else array i) k) (ground arith)

-- The first place from `from` on whose element is not less than the item, or the end.
pub IsPlace : (ℕ → ℕ → Bool) → ℕ → ℕ → OrderedArray → ℕ → Type 0
IsPlace less item from arr i =
    (from ≤ i)
    × (i ≤ arr.size)
    × ((k : ℕ) → from ≤ k → k < i → less (arr.array k) item ≡ true)
    × ((i ≡ arr.size) ⊎ (less (arr.array i) item ≡ false))

search_lem :
    (less : ℕ → ℕ → Bool) (fuel item from : ℕ) (arr : OrderedArray)
    → IsValid arr
    → from + fuel ≡ suc arr.size
    → from ≤ arr.size
    → (i : ℕ) × (search less fuel item from arr.array ≡ some i) × IsPlace less item from arr i
unfolding search IsPlace IsValid
search_lem less zero item from arr v e l = absurd (omega arith)
search_lem less (suc fuel) item from arr v e l = elim (dec_lt from arr.size) [
  | no h ↦
      let last : from ≡ arr.size = omega arith in
      let null : arr.array from ≡ 0 = v.2 from (omega arith) in
      (from, rw null, (omega arith, l, λ k p q. absurd (omega arith), inl last))
  | yes h ↦
      let there = v.1 from h in
      elim (Bool-cases (less (arr.array from) item)) [
        | inl t ↦
            let (i, found, (low, high, below, stop)) =
              search_lem less fuel item (suc from) arr v (omega arith) (omega arith) in
            (
              i,
              rw (there, t, found),
              (
                omega (arith, low),
                high,
                λ k p q. elim (dec_lt from k) [
                  | yes a ↦ below k a q
                  | no a ↦ let d : k ≡ from = omega arith in rw (d, t)
                ],
                stop,
              ),
            )
        | inr t ↦ (from, rw (there, t), (omega arith, l, λ k p q. absurd (omega arith), inr t))
      ]
]

high :
    (less : ℕ → ℕ → Bool) (item : ℕ) (arr : OrderedArray) (i : ℕ)
    → IsPlace less item 0 arr i
    → i ≤ arr.size
unfolding IsPlace
high less item arr i (low, h, below, stop) = h

placed :
    (less : ℕ → ℕ → Bool) (item : ℕ) (arr : OrderedArray) (i : ℕ)
    → i ≤ arr.size
    → (k : ℕ)
    → (if i == arr.size
          then store i item arr.array
          else store i item (shift_up less (arr.size - i) i arr.array))
        k
      ≡ (if k == i then item else if ltb i k && leb k arr.size then arr.array i else arr.array k)
unfolding store
placed less item arr i h k = elim (Bool-cases (i == arr.size)) [
  | inl e ↦ rw e (ground arith)
  | inr e ↦
      let end : i + (arr.size - i) ≡ arr.size = omega arith in
      rw (e, shift_up_lem less (arr.size - i) i arr.array k, end)
]

-- insert_ordered_array into an array that is not full succeeds and puts the item at the first place
-- whose element is not less, or at the end. In front of it nothing changes, but every element behind
-- it becomes a copy of the one that stood there.
pub insert_ordered_array_lem :
    (less : ℕ → ℕ → Bool) (item : ℕ) (arr : OrderedArray)
    → IsValid arr
    → arr.size < arr.max
    → (i : ℕ) × IsPlace less item 0 arr i
      × ((out : OrderedArray) × (insert_ordered_array less item arr ≡ some out)
          × (out.size ≡ suc arr.size)
          × ((k : ℕ)
              → out.array k ≡ (
                  if k == i
                  then item
                  else if ltb i k && leb k arr.size
                  then arr.array i
                  else arr.array k)))
unfolding insert_ordered_array
insert_ordered_array_lem less item arr v room =
    let (i, found, place) =
      search_lem less (suc arr.size) item 0 arr v (omega arith) (omega arith) in
    let space : (arr.size == arr.max) ≡ false = ground arith in
    (
      i,
      place,
      (
        record arr {
          array =
              if i == arr.size
              then store i item arr.array
              else store i item (shift_up less (arr.size - i) i arr.array);
          size = suc arr.size;
        },
        rw (space, found),
        refl,
        placed less item arr i (high less item arr i place),
      ),
    )
