-- ===== src/Strings.antt =====
-- libc/string.c: searching a string, cutting it into tokens, and copying with a limit.
--
-- A string is the list of its bytes without the NUL, and a pointer into it is the list of the bytes
-- from there on. What strtok_r writes into its argument is the end of the token it returns. The
-- copying functions work on a memory, the function from addresses to bytes, and the addresses do not
-- wrap around. (strcmp is `name_eq` of Common/Names.)
pub mod Tokens
pub mod Copies
mod Tests
use bingos.Common.{
  ℕ, zero, suc, ◌+◌, ◌-◌, Bool, true, false, Option, none, some, List, [], ◌∷◌, length, drop, take,
  ◌==◌, if◌then◌else◌,
}

-- The inner loops of `strspn` and `strpbrk`: whether a byte is one of `accept`.
pub accepts : List ℕ → ℕ → Bool
accepts [] c = false
accepts (a ∷ accept) c = let rest = accepts accept c in if a == c then true else rest

pub strspn : List ℕ → List ℕ → ℕ
strspn [] accept = 0
strspn (c ∷ str) accept = let rest = strspn str accept in if accepts accept c then suc rest else 0

pub strpbrk : List ℕ → List ℕ → Option (List ℕ)
strpbrk [] accept = none
strpbrk (c ∷ str) accept =
    let rest = strpbrk str accept in if accepts accept c then some (c ∷ str) else rest

-- `strtok_r` behind the delimiters in front: the token, none for NULL, and the new `*saveptr`.
pub next_token : List ℕ → List ℕ → Option (List ℕ) × List ℕ
next_token [] delim = (none, [])
next_token (c ∷ cs) delim = elim (strpbrk (c ∷ cs) delim) [
  | none ↦ (some (c ∷ cs), [])
  | some rest ↦ (some (take (length (c ∷ cs) - length rest) (c ∷ cs)), drop 1 rest)
]

-- A call of `strtok_r`: the string, none for NULL, the delimiters and `*saveptr`.
pub strtok_r : Option (List ℕ) → List ℕ → List ℕ → Option (List ℕ) × List ℕ
strtok_r none delim saveptr = next_token (drop (strspn saveptr delim) saveptr) delim
strtok_r (some str) delim saveptr = next_token (drop (strspn str delim) str) delim

-- `while (num-- && (*(cp++) = *(src++)))`, the loop of `strncpy` and `strncat`.
pub copy_some : ℕ → ℕ → ℕ → (ℕ → ℕ) → ℕ → ℕ
copy_some zero cp src mem = mem
copy_some (suc num) cp src mem =
    let mem' : ℕ → ℕ = λ a. if a == cp then mem src else mem a in
    let rest = copy_some num (suc cp) (suc src) mem' in if mem src == 0 then mem' else rest

pub strncpy : ℕ → ℕ → ℕ → (ℕ → ℕ) → ℕ → ℕ
strncpy dst src num mem = copy_some num dst src mem

-- The loop to the end of `dst`, with fuel: an address with 0, none where the fuel is used up.
pub find_end : ℕ → ℕ → (ℕ → ℕ) → Option ℕ
find_end zero cp mem = none
find_end (suc fuel) cp mem =
    let rest = find_end fuel (suc cp) mem in if mem cp == 0 then some cp else rest

pub strncat : ℕ → ℕ → ℕ → ℕ → (ℕ → ℕ) → Option (ℕ → ℕ)
strncat fuel dst src num mem = elim (find_end fuel dst mem) [
  | none ↦ none
  | some cp ↦ some (copy_some num cp src mem)
]
