-- ===== src/Strings/Tokens.antt =====
-- libc/string.c: the calls of strtok_r on a string give its words.
use bingos.Common.{
  ℕ, zero, suc, ◌-◌, ◌≤◌, ◌<◌, ◌≡◌, refl, sym, ap, ◌∙◌, false, Option, none, some, List, [], ◌∷◌,
  ◌++◌, length, length-append, drop, take, if◌then◌else◌, arith, inl, inr, Bool-cases,
}
use bingos.Strings.{accepts, strspn, strpbrk, next_token, strtok_r}

-- A word put in front of others, if it is not empty.
unfoldable pub push_word : List ℕ → List (List ℕ) → List (List ℕ)
push_word [] ws = ws
push_word (c ∷ w) ws = (c ∷ w) ∷ ws

-- The word that a string starts with, and the others: a delimiter ends a word.
unfoldable pub split_word : List ℕ → List ℕ → List ℕ × List (List ℕ)
split_word delim [] = ([], [])
split_word delim (c ∷ str) =
    let (w, ws) = split_word delim str in
    if accepts delim c then ([], push_word w ws) else (c ∷ w, ws)

-- The words of a string.
unfoldable pub words : List ℕ → List ℕ → List (List ℕ)
words delim str = let (w, ws) = split_word delim str in push_word w ws

-- The tokens of the calls that continue a string until one returns NULL.
pub tokens : ℕ → List ℕ → List ℕ → List (List ℕ)
tokens zero delim saveptr = []
tokens (suc fuel) delim saveptr =
    let (token, saveptr') = strtok_r none delim saveptr in
    let rest = tokens fuel delim saveptr' in elim token [ none ↦ [] | some t ↦ t ∷ rest ]

StartsWord : List ℕ → List ℕ → Type 0
StartsWord delim [] = Unit
StartsWord delim (c ∷ str) = accepts delim c ≡ false

strspn-words :
    (delim str : List ℕ)
    → (words delim str ≡ words delim (drop (strspn str delim) str))
      × (length (drop (strspn str delim) str) ≤ length str)
      × StartsWord delim (drop (strspn str delim) str)
unfolding words split_word push_word strspn StartsWord
strspn-words delim [] = (refl, omega arith, tt)
strspn-words delim (c ∷ str) = elim (Bool-cases (accepts delim c)) [
  | inl e ↦
      let (same, short, start) = strspn-words delim str in rw e (same, omega (arith, short), start)
  | inr e ↦ rw e (rw e refl, omega arith, e)
]

-- Where strpbrk finds the end of the first word, and what the words are then.
Broken : List ℕ → List ℕ → Option (List ℕ) → Type 0
Broken delim str none = split_word delim str ≡ (str, [])
Broken delim str (some rest) =
    (token : List ℕ) × (d : ℕ) × (behind : List ℕ) × (rest ≡ d ∷ behind)
    × (str ≡ token ++ (d ∷ behind))
    × (split_word delim str ≡ (token, words delim behind))

strpbrk-Broken : (delim str : List ℕ) → Broken delim str (strpbrk str delim)
unfolding Broken strpbrk split_word words
strpbrk-Broken delim [] = refl
strpbrk-Broken delim (c ∷ str) = elim (Bool-cases (accepts delim c)) [
  | inl e ↦ rw (e, e) ([], c, str, refl, refl, refl)
  | inr e ↦ rw e (more (strpbrk str delim) (strpbrk-Broken delim str) e)
]
  where
    more :
        (r : Option (List ℕ))
        → Broken delim str r
        → accepts delim c ≡ false
        → Broken delim (c ∷ str) r
    more none same e = rw (e, same) refl
    more (some rest) (token, d, behind, at_end, whole, same) e =
        (c ∷ token, d, behind, at_end, ap (λ s. c ∷ s) whole, rw (e, same) refl)

take-front : (xs ys : List ℕ) → take (length xs) (xs ++ ys) ≡ xs
take-front [] ys = refl
take-front (x ∷ xs) ys = ap (λ s. x ∷ s) (take-front xs ys)

token_front :
    (token str rest : List ℕ) → str ≡ token ++ rest → take (length str - length rest) str ≡ token
token_front token str rest whole =
    let e : length (token ++ rest) - length rest ≡ length token =
      omega (arith, length-append token rest) in
    rw (whole, e) (take-front token rest)

-- What a call leaves to do: the words of the string are the token and those of the rest.
Continued : List ℕ → List ℕ → Option (List ℕ) × List ℕ → Type 0
Continued delim str (none, saveptr) = words delim str ≡ []
Continued delim str (some token, saveptr) =
    (words delim str ≡ token ∷ words delim saveptr) × (length saveptr < length str)

next_token-Continued :
    (delim str : List ℕ) → StartsWord delim str → Continued delim str (next_token str delim)
unfolding Continued Broken next_token words split_word push_word StartsWord
next_token-Continued delim [] start = refl
next_token-Continued delim (c ∷ cs) start =
    found (strpbrk (c ∷ cs) delim) refl (strpbrk-Broken delim (c ∷ cs))
  where
    not_empty : {x : ℕ} {xs : List ℕ} → x ∷ xs ≡ [] → ⊥
    not_empty h = absurd (ground arith)

    found :
        (r : Option (List ℕ))
        → strpbrk (c ∷ cs) delim ≡ r
        → Broken delim (c ∷ cs) r
        → Continued delim (c ∷ cs) (next_token (c ∷ cs) delim)
    found none e same = rw (e, next_token) (ap (λ r. push_word r.0 r.1) same, omega arith)
    found (some rest) e ([], d, behind, at_end, whole, same) =
        let split : split_word delim (c ∷ cs)
            ≡ (c ∷ (split_word delim cs).0, (split_word delim cs).1) =
          rw (start, split_word) refl in
        absurd (not_empty (ap (λ r. r.0) (sym split ∙ same)))
    found (some rest) e (x ∷ w, d, behind, at_end, whole, same) =
        let front = token_front (x ∷ w) (c ∷ cs) (d ∷ behind) whole in
        let lengths = ap length whole ∙ length-append (x ∷ w) (d ∷ behind) in
        rw (e, next_token, at_end)
          (
            ap (λ r. push_word r.0 r.1) same ∙ ap (λ t. t ∷ words delim behind) (sym front),
            omega (arith, lengths),
          )

-- The calls of strtok_r that continue a string, until one returns NULL, give the words of the string
-- one after the other: its longest parts without a delimiter, none of them empty.
pub tokens-words :
    (fuel : ℕ) (delim str : List ℕ) → length str < fuel → tokens fuel delim str ≡ words delim str
unfolding tokens strtok_r Continued
tokens-words zero delim str h = absurd (omega arith)
tokens-words (suc fuel) delim str h =
    let (same, short, start) = strspn-words delim str in
    let text = drop (strspn str delim) str in
    step (next_token text delim) (next_token-Continued delim text start)
      (λ s l. tokens-words fuel delim s l) refl
    ∙ sym same
  where
    step :
        (r : Option (List ℕ) × List ℕ)
        → Continued delim (drop (strspn str delim) str) r
        → ((s : List ℕ) → length s < fuel → tokens fuel delim s ≡ words delim s)
        → next_token (drop (strspn str delim) str) delim ≡ r
        → tokens (suc fuel) delim str ≡ words delim (drop (strspn str delim) str)
    step (none, saveptr) same more e = rw (tokens, strtok_r, e) (sym same)
    step (some t, saveptr) (same, less) more e =
        let shorter = (strspn-words delim str).1 in
        let rest = more saveptr (omega (arith, less, shorter)) in
        rw (tokens, strtok_r, e, strtok_r, e) (ap (λ ts. t ∷ ts) rest ∙ sym same)
