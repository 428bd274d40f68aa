-- ===== src/Sched/RoundRobin.antt =====
-- `context_switch(1)` of kernel/process.c: every ready process gets its turn.
use bingos.Common.{
  ℕ, zero, suc, ◌≡◌, refl, true, false, Option, none, some, List, [], ◌∷◌, ◌++◌, arith, ◌==◌,
  length, All,
}
use mathlib.Core.Path.{ap, sym, subst, ◌∙◌}
use mathlib.Core.List.{append-nil, append_assoc}
use bingos.Sched.{Kernel, enqueue, dequeue, switch_to_next, context_switch, is_empty}
use bingos.Sched.Wait.{pop_back}

-- The running process, and behind it the ready ones.
abbrev pub cycle : Kernel → List ℕ
cycle k = k.current ∷ k.process_queue

-- `n` switches in a row.
unfoldable pub switches : ℕ → Kernel → Option Kernel
switches zero k = some k
switches (suc n) k = elim (context_switch true k) [ none ↦ none | some k' ↦ switches n k' ]

pub pop_back-append : (xs : List ℕ) (y : ℕ) → pop_back (xs ++ (y ∷ [])) ≡ (some y, xs)
unfolding pop_back
pop_back-append [] y = refl
pop_back-append (x ∷ xs) y =
    let e = pop_back-append xs y in rw (ap (λ r. r.0) e) (ap (λ r. (some y, x ∷ r.1)) e)

is_empty-append : (xs : List ℕ) (y : ℕ) → is_empty (xs ++ (y ∷ [])) ≡ false
is_empty-append [] y = refl
is_empty-append (x ∷ xs) y = refl

choose : Kernel → Option ℕ × List ℕ → Option Kernel
choose k (none, rest) = none
choose k (some q, rest) = some (record k { process_queue = rest; current = q })

choose_lem :
    (k : Kernel) (r : Option ℕ × List ℕ)
    → choose k r
      ≡ elim (r.0) [ none ↦ none | some q ↦ some (record k { process_queue = r.1; current = q }) ]
unfolding choose
choose_lem k (none, rest) = refl
choose_lem k (some q, rest) = refl

pub switch_to_next-some :
    (k : Kernel) (xs : List ℕ) (y : ℕ)
    → k.process_queue ≡ xs ++ (y ∷ [])
    → switch_to_next k ≡ some (record k { process_queue = xs; current = y })
unfolding switch_to_next dequeue choose
switch_to_next-some k xs y e =
    sym (choose_lem k (pop_back k.process_queue))
    ∙ ap (choose k) (ap pop_back e ∙ pop_back-append xs y)

-- A switch turns the cycle by one place: the process at its end runs.
switch-rotate :
    (k : Kernel) (xs : List ℕ) (y : ℕ)
    → cycle k ≡ xs ++ (y ∷ [])
    → All (λ p. (p == 0) ≡ false) (cycle k)
    → (k' : Kernel) × (context_switch true k ≡ some k') × (cycle k' ≡ y ∷ xs)
unfolding context_switch enqueue
switch-rotate k [] y e live =
    let none_ready : k.process_queue ≡ [] = cc in (k, rw (none_ready, live.0), e)
switch-rotate k (x ∷ xs) y e live =
    let q : k.process_queue ≡ xs ++ (y ∷ []) = cc in
    let c : k.current ≡ x = cc in
    let next =
      switch_to_next-some (enqueue k k.current) (k.current ∷ xs) y (ap (λ l. k.current ∷ l) q) in
    let busy : is_empty k.process_queue ≡ false = ap is_empty q ∙ is_empty-append xs y in
    (
      record k { process_queue = k.current ∷ xs; current = y },
      rw (live.0, busy) next,
      ap (λ l. y ∷ l ∷ xs) c,
    )

All-split :
    (xs ys : List ℕ)
    → All (λ p. (p == 0) ≡ false) (xs ++ ys)
    → All (λ p. (p == 0) ≡ false) xs × All (λ p. (p == 0) ≡ false) ys
All-split [] ys h = (tt, h)
All-split (x ∷ xs) ys h = let r = All-split xs ys h.1 in ((h.0, r.0), r.1)

-- A list that is not empty has a last element.
snoc_cases :
    (n : ℕ) (xs : List ℕ)
    → length xs ≡ suc n
    → (ys : List ℕ) × (y : ℕ) × (xs ≡ ys ++ (y ∷ [])) × (length ys ≡ n)
snoc_cases n [] e = absurd (omega arith)
snoc_cases n (x ∷ []) e = ([], x, refl, omega arith)
snoc_cases zero (x ∷ y ∷ xs) e = absurd (omega arith)
snoc_cases (suc n) (x ∷ y ∷ xs) e =
    let r = snoc_cases n (y ∷ xs) (omega arith) in
    (x ∷ r.0, r.1, ap (λ l. x ∷ l) r.2, omega (arith, r.3))

rotate_n :
    (n : ℕ) (k : Kernel) (xs ys : List ℕ)
    → length ys ≡ n
    → cycle k ≡ xs ++ ys
    → All (λ p. (p == 0) ≡ false) (cycle k)
    → (k' : Kernel) × (switches n k ≡ some k') × (cycle k' ≡ ys ++ xs)
unfolding switches
rotate_n zero k xs [] len e live = (k, refl, e ∙ append-nil xs)
rotate_n zero k xs (y ∷ ys) len e live = absurd (omega arith)
rotate_n (suc n) k xs ys len e live =
    let (zs, z, cut, shorter) = snoc_cases n ys len in
    let e' : cycle k ≡ (xs ++ zs) ++ (z ∷ []) =
      e ∙ ap (λ l. xs ++ l) cut ∙ sym (append_assoc xs zs (z ∷ [])) in
    let (k₁, run, turned) = switch-rotate k (xs ++ zs) z e' live in
    let parts = All-split (xs ++ zs) (z ∷ []) (subst (All (λ p. (p == 0) ≡ false)) e' live) in
    let live₁ = subst (All (λ p. (p == 0) ≡ false)) (sym turned) (parts.1.0, parts.0) in
    let (k', run', turned') = rotate_n n k₁ (z ∷ xs) zs shorter turned live₁ in
    (
      k',
      rw (run, switches) run',
      turned' ∙ sym (append_assoc zs (z ∷ []) xs) ∙ ap (λ l. l ++ xs) (sym cut),
    )

-- Take the running process and behind it the ready ones, newest first. After as many switches as
-- there are processes in an end part of that list, the end part has come to the front: the process
-- that begins it runs. So the processes get the processor one after the other, oldest first, and
-- after as many switches as there are processes all is as before. None of the processes may be the
-- null pointer.
pub switches-rotate :
    (k : Kernel) (xs ys : List ℕ)
    → cycle k ≡ xs ++ ys
    → All (λ p. (p == 0) ≡ false) (cycle k)
    → (k' : Kernel) × (switches (length ys) k ≡ some k') × (cycle k' ≡ ys ++ xs)
switches-rotate k xs ys e live = rotate_n (length ys) k xs ys refl e live
