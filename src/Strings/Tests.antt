-- ===== src/Strings/Tests.antt =====
-- libc/string.c: a line cut into words, and two strings put together.
use bingos.Common.{
  ℕ, zero, suc, ◌+◌, ◌≤◌, ◌<◌, ◌≡◌, ◌≢◌, ◌⊎◌, refl, some, List, [], ◌∷◌, get_or, arith, inl,
}
use bingos.Strings.{
  accepts, strspn, strpbrk, next_token, strtok_r, copy_some, strncpy, find_end, strncat,
}
use bingos.Strings.Tokens.{push_word, split_word, words, tokens, tokens-words}
use bingos.Strings.Copies.{strncat-unterminated}

-- " ls  a" and the space.
abbrev line : List ℕ
line = 32 ∷ 108 ∷ 115 ∷ 32 ∷ 32 ∷ 97 ∷ []

strtok_r-line : strtok_r (some line) (32 ∷ []) [] ≡ (some (108 ∷ 115 ∷ []), 32 ∷ 97 ∷ [])
unfolding strtok_r next_token strspn strpbrk accepts
strtok_r-line = refl

words-line : words (32 ∷ []) line ≡ (108 ∷ 115 ∷ []) ∷ (97 ∷ []) ∷ []
unfolding words push_word split_word accepts
words-line = refl

tokens-words_example : tokens 7 (32 ∷ []) line ≡ words (32 ∷ []) line
tokens-words_example = tokens-words 7 (32 ∷ []) line (omega arith)

-- "a" at 0 in front of two bytes of rubbish, and "bc" at 4.
abbrev memory : ℕ → ℕ
memory a = get_or (97 ∷ 0 ∷ 7 ∷ 7 ∷ 98 ∷ 99 ∷ 0 ∷ []) a 0

strncpy-short : strncpy 0 4 5 memory 2 ≡ 0
unfolding strncpy copy_some
strncpy-short = refl

memory-end : find_end 5 0 memory ≡ some 1
unfolding find_end
memory-end = refl

memory-bytes : (i : ℕ) → i < 2 → memory (4 + i) ≢ 0
memory-bytes zero l e = absurd (ground arith)
memory-bytes (suc zero) l e = absurd (ground arith)
memory-bytes (suc (suc i)) l e = absurd (omega arith)

strncat-unterminated_example :
    (mem' : ℕ → ℕ) × (strncat 5 0 4 2 memory ≡ some mem')
    × ((i : ℕ) → i < 2 → mem' (1 + i) ≡ memory (4 + i))
    × ((a : ℕ) → (a < 1) ⊎ (1 + 2 ≤ a) → mem' a ≡ memory a)
strncat-unterminated_example =
    strncat-unterminated 5 0 4 2 1 memory memory-end (inl (omega arith)) memory-bytes
