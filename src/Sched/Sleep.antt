-- ===== src/Sched/Sleep.antt =====
-- The sleep queue: sorted by wake-up time, and emptied of what is due.
use bingos.Common.{
  ℕ, ◌≡◌, ◌<◌, ◌≤◌, ◌⊎◌, ◌++◌, inl, inr, refl, true, false, List, [], ◌∷◌, arith, ◌==◌, Bool-cases,
  All, All-map, ==_refl,
}
use mathlib.Core.Path.{ap}
use native.Mathlib.Decide.{dec_lt}
use bingos.Sched.{Procs, Process, Kernel, update, later, insert_sleeper, sleep_enqueue}

-- No process wakes before the one in front of it.
abbrev pub IsSorted : Procs → List ℕ → Type 0
IsSorted proc [] = Unit
IsSorted proc (p ∷ ps) =
    All (λ q. later (proc p) (proc q).end_tick (proc q).end_subtick ≡ false) ps × IsSorted proc ps

-- `p` is in the queue nowhere, and no process is there twice.
abbrev pub Absent : ℕ → List ℕ → Type 0
Absent p = All (λ q. (q == p) ≡ false)

abbrev pub Distinct : List ℕ → Type 0
Distinct [] = Unit
Distinct (p ∷ ps) = Absent p ps × Distinct ps

insert-All :
    (P : ℕ → Type 0) (proc : Procs) (p s ss : ℕ) (qs : List ℕ)
    → P p
    → All P qs
    → All P (insert_sleeper proc p s ss qs)
unfolding insert_sleeper
insert-All P proc p s ss [] hp h = (hp, tt)
insert-All P proc p s ss (q ∷ qs) hp h = elim (Bool-cases (later (proc q) s ss)) [
  | inl e ↦ rw e (hp, h)
  | inr e ↦ rw e (h.0, insert-All P proc p s ss qs hp h.1)
]

later_trans :
    (a b c : Process)
    → later b a.end_tick a.end_subtick ≡ true
    → later b c.end_tick c.end_subtick ≡ false
    → later a c.end_tick c.end_subtick ≡ false
later_trans a b c h k = ground arith

later_asym :
    (a b : Process)
    → later b a.end_tick a.end_subtick ≡ true
    → later a b.end_tick b.end_subtick ≡ false
later_asym a b h = ground arith

insert-IsSorted :
    (proc : Procs) (p : ℕ) (qs : List ℕ)
    → IsSorted proc qs
    → IsSorted proc (insert_sleeper proc p (proc p).end_tick (proc p).end_subtick qs)
unfolding insert_sleeper
insert-IsSorted proc p [] h = (tt, tt)
insert-IsSorted proc p (q ∷ qs) h =
    elim (Bool-cases (later (proc q) (proc p).end_tick (proc p).end_subtick)) [
      | inl e ↦ rw e (
        (
          later_asym (proc p) (proc q) e,
          All-map _ _ qs (λ r. later_trans (proc p) (proc q) (proc r) e) h.0,
        ),
        h,
      )
      | inr e ↦ rw e (
        insert-All (λ r. later (proc q) (proc r).end_tick (proc r).end_subtick ≡ false) proc p _ _
            qs e h.0,
        insert-IsSorted proc p qs h.1,
      )
    ]

-- A change of `p` is not seen by a queue without `p`.
insert-update :
    (proc : Procs) (p s ss : ℕ) (v : Process) (qs : List ℕ)
    → Absent p qs
    → insert_sleeper (update proc p v) p s ss qs ≡ insert_sleeper proc p s ss qs
unfolding insert_sleeper
insert-update proc p s ss v [] h = refl
insert-update proc p s ss v (q ∷ qs) h = rw (h.0, insert-update proc p s ss v qs h.1)

IsSorted-update :
    (proc : Procs) (p : ℕ) (v : Process) (qs : List ℕ)
    → Absent p qs
    → IsSorted proc qs
    → IsSorted (update proc p v) qs
IsSorted-update proc p v [] h s = tt
IsSorted-update proc p v (q ∷ qs) h s =
    (rw h.0 (both qs h.1 s.0), IsSorted-update proc p v qs h.1 s.1)
  where
    both :
        (rs : List ℕ)
        → Absent p rs
        → All (λ r. later (proc q) (proc r).end_tick (proc r).end_subtick ≡ false) rs
        → All
            (λ r.
              later (proc q) (update proc p v r).end_tick (update proc p v r).end_subtick ≡ false)
            rs
    both [] a k = tt
    both (r ∷ rs) a k = (rw a.0 k.0, both rs a.1 k.1)

-- `a` is to wake no later than `b`.
unfoldable pub WakesBy : Process → Process → Type 0
WakesBy a b =
    (a.end_tick < b.end_tick) ⊎ (a.end_tick ≡ b.end_tick) × (a.end_subtick ≤ b.end_subtick)

-- Every process of a queue wakes no later than those behind it.
unfoldable pub InOrder : Procs → List ℕ → Type 0
InOrder proc [] = Unit
InOrder proc (p ∷ ps) = All (λ q. WakesBy (proc p) (proc q)) ps × InOrder proc ps

wakes_by : (a b : Process) → later a b.end_tick b.end_subtick ≡ false → WakesBy a b
unfolding WakesBy
wakes_by a b h = elim (dec_lt a.end_tick b.end_tick) [
  | yes l ↦ inl l
  | no l ↦ inr (ground arith, ground arith)
]

not_later : (a b : Process) → WakesBy a b → later a b.end_tick b.end_subtick ≡ false
unfolding WakesBy
not_later a b (inl l) = ground arith
not_later a b (inr l) = ground arith

IsSorted-InOrder : (proc : Procs) (ps : List ℕ) → IsSorted proc ps → InOrder proc ps
unfolding InOrder
IsSorted-InOrder proc [] h = tt
IsSorted-InOrder proc (p ∷ ps) h =
    (All-map _ _ ps (λ q. wakes_by (proc p) (proc q)) h.0, IsSorted-InOrder proc ps h.1)

InOrder-IsSorted : (proc : Procs) (ps : List ℕ) → InOrder proc ps → IsSorted proc ps
unfolding InOrder
InOrder-IsSorted proc [] h = tt
InOrder-IsSorted proc (p ∷ ps) h =
    (All-map _ _ ps (λ q. not_later (proc p) (proc q)) h.0, InOrder-IsSorted proc ps h.1)

insert_sleeper-splits :
    (proc : Procs) (p s ss : ℕ) (qs : List ℕ)
    → (ys : List ℕ) × (zs : List ℕ) × (qs ≡ ys ++ zs)
      × (insert_sleeper proc p s ss qs ≡ ys ++ (p ∷ zs))
unfolding insert_sleeper
insert_sleeper-splits proc p s ss [] = ([], [], refl, refl)
insert_sleeper-splits proc p s ss (q ∷ qs) =
    let (ys, zs, old, new) = insert_sleeper-splits proc p s ss qs in
    elim (Bool-cases (later (proc q) s ss)) [
      | inl e ↦ ([], q ∷ qs, refl, rw e refl)
      | inr e ↦ (q ∷ ys, zs, ap (λ xs. q ∷ xs) old, rw e (ap (λ xs. q ∷ xs) new))
    ]

-- sleep_enqueue puts the process, with its wake-up time, between processes of the sleep queue, which
-- stay in their order, and every process still wakes no later than those behind it, when the process
-- is not asleep already. The other processes are left as they are.
pub sleep_enqueue-InOrder :
    (k : Kernel) (p s ss : ℕ)
    → Absent p k.sleep_queue
    → InOrder k.proc k.sleep_queue
    → let k' = sleep_enqueue k p s ss in
      InOrder k'.proc k'.sleep_queue
      × ((ys : List ℕ) × (zs : List ℕ) × (k.sleep_queue ≡ ys ++ zs)
          × (k'.sleep_queue ≡ ys ++ (p ∷ zs)))
      × ((k'.proc p).end_tick ≡ s)
      × ((k'.proc p).end_subtick ≡ ss)
      × ((q : ℕ) → (q == p) ≡ false → k'.proc q ≡ k.proc q)
unfolding sleep_enqueue
sleep_enqueue-InOrder k p s ss a order =
    let h = InOrder-IsSorted k.proc k.sleep_queue order in
    let v : Process = record (k.proc p) { end_tick = s; end_subtick = ss } in
    let proc' : Procs = update k.proc p v in
    let at : proc' p ≡ v = rw ==_refl in
    let sorted : IsSorted proc'
        (insert_sleeper proc' p (proc' p).end_tick (proc' p).end_subtick k.sleep_queue) =
      insert-IsSorted proc' p k.sleep_queue (IsSorted-update k.proc p v k.sleep_queue a h) in
    (
      IsSorted-InOrder proc' (insert_sleeper k.proc p s ss k.sleep_queue)
          (rw (at, insert-update k.proc p s ss v k.sleep_queue a) at sorted),
      insert_sleeper-splits k.proc p s ss k.sleep_queue,
      ap (λ q. q.end_tick) at,
      ap (λ q. q.end_subtick) at,
      λ q e. rw e refl,
    )
