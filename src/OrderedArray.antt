-- ===== src/OrderedArray.antt =====
-- common/ordered_array.c: the array that keeps the holes of the kernel heap.
--
-- The array is the memory at its address, with elements as numbers, and the comparer is an argument:
-- `less a b` is whether it answers a negative number. A search that runs past every element without an
-- end is `none`.
pub mod Insert
mod Tests
use bingos.Common.{
  ℕ, zero, suc, ◌+◌, ◌-◌, ◌%◌, ◌^◌, ◌≤◌, ◌<◌, ◌≡◌, Bool, true, false, ◌&&◌, not, Option, none, some,
  ltb, ◌==◌, if◌then◌else◌,
}

pub record OrderedArray : Type 0 where
  pub array : ℕ → ℕ
  pub size : ℕ
  pub max : ℕ

pub place_ordered_array : ℕ → OrderedArray
place_ordered_array max = record { array = λ k. 0; size = 0; max = max }

-- `array[i] = item`
pub store : ℕ → ℕ → (ℕ → ℕ) → ℕ → ℕ
store i item array k = if k == i then item else array k

module _ (less : ℕ → ℕ → Bool) where
  -- `while (array[i] && comparer(array[i], item) < 0) i++`
  pub search : ℕ → ℕ → ℕ → (ℕ → ℕ) → Option ℕ
  search zero item i array = none
  search (suc fuel) item i array =
      let rest = search fuel item (suc i) array in
      if not (array i == 0) && less (array i) item then rest else some i

  -- `for (j = i; j < size; j++) array[j + 1] = array[j]`, with the rounds left.
  pub shift_up : ℕ → ℕ → (ℕ → ℕ) → ℕ → ℕ
  unfolding store
  shift_up zero j array = array
  shift_up (suc left) j array = shift_up left (suc j) (store (suc j) (array j) array)

  pub insert_ordered_array : ℕ → OrderedArray → Option OrderedArray
  insert_ordered_array item arr =
      if arr.size == arr.max then some arr else elim (search (suc arr.size) item 0 arr.array) [
        | none ↦ none
        | some i ↦ some (record arr {
          array =
              if i == arr.size
              then store i item arr.array
              else store i item (shift_up (arr.size - i) i arr.array);
          size = suc arr.size;
        })
      ]

pub lookup_ordered_array : ℕ → OrderedArray → ℕ
lookup_ordered_array i arr = arr.array i

-- `for (j = i; j < size; j++) array[j] = array[j + 1]`, with the rounds left.
pub shift_down : ℕ → ℕ → (ℕ → ℕ) → ℕ → ℕ
unfolding store
shift_down zero j array = array
shift_down (suc left) j array = shift_down left (suc j) (store j (array (suc j)) array)

pub remove_ordered_array : ℕ → OrderedArray → OrderedArray
unfolding shift_down
remove_ordered_array i arr = record arr {
  array = shift_down (arr.size - i) i arr.array;
  size = (arr.size + 2 ^ 32 - 1) % 2 ^ 32;
}

-- The elements are not NULL, and the memory behind them is.
pub IsValid : OrderedArray → Type 0
IsValid arr =
    (arr.size ≤ arr.max)
    × ((k : ℕ) → k < arr.size → (arr.array k == 0) ≡ false)
    × ((k : ℕ) → arr.size ≤ k → arr.array k ≡ 0)
