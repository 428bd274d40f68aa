-- ===== src/Pipe/Refine.antt =====
-- A pipe against a bounded queue of bytes: the contract of `read_pipe` and `write_pipe`.
use bingos.Common.{
  ℕ, ◌+◌, ◌-◌, ◌<◌, ◌≡◌, refl, inl, inr, List, [], ◌∷◌, ◌++◌, arith, leb, min, ◌^◌, if◌then◌else◌,
  length, take, drop, Bool-cases, append-split,
}
use mathlib.Core.Path.{ap, ap₂, ◌∙◌}
use bingos.Pipe.{
  Pipe, World, Turn, returned, sleeping, available, unread, end_read, read_loop, read_round,
  write_round, wake_writers, create_pipe,
}
use bingos.Pipe.Ring.{IsValid, contents, length-contents, unread-add-available}
use bingos.Pipe.Transfer.{IsRead, read_loop-IsRead}
use bingos.Pipe.Turns.{write_round-IsWriteTurn}

-- A read that gets nothing sleeps, any other returns what it got.
abbrev pub answer : ℕ → List ℕ → Turn (List ℕ) ℕ
answer n [] = sleeping n
answer n (x ∷ xs) = returned (x ∷ xs)

-- The queue's read: the oldest `n` bytes, or all.
abbrev pub queue_read : ℕ → List ℕ → Turn (List ℕ) ℕ × List ℕ
queue_read n q = (answer n (take n q), drop n q)

-- The queue's write: all bytes if there is room, and else as many as there is room for.
abbrev pub queue_write : ℕ → ℕ → List ℕ → List ℕ → Turn ℕ (ℕ × List ℕ) × List ℕ
queue_write cap written src q =
    let room = cap - length q in
    if leb (length src) room
    then (returned (written + length src), q ++ src)
    else (sleeping (written + room, drop room src), q ++ take room src)

abbrev pub capacity : Pipe → ℕ
capacity p = p.size - 1

read_end :
    (me n : ℕ) (w : World) (got : List ℕ) (p : Pipe)
    → IsRead w.pipe n got p
    → let (t, w') = end_read me n got (wake_writers (record w { pipe = p })) in
      ◌≡◌ {A = Turn (List ℕ) ℕ × List ℕ} (t, contents w'.pipe) (answer n got, contents p)
unfolding end_read unread
read_end me n w [] p r = refl
read_end me n w (x ∷ xs) p r = refl

-- One turn of `read_pipe` returns or sleeps as a read of the queue does, and leaves the bytes that
-- the queue has left, whatever is asked for and whatever is there.
pub read_round_refines :
    (me n : ℕ) (w : World)
    → IsValid w.pipe
    → let (t, w') = read_round me n w in (t, contents w'.pipe) ≡ queue_read n (contents w.pipe)
unfolding read_round
read_round_refines me n w v =
    let r = read_loop-IsRead n v in
    let got = (read_loop n w.pipe).0 in
    let p = (read_loop n w.pipe).1 in
    let len : length got ≡ min n (length (got ++ contents p)) =
      omega (arith, r.count, length-contents w.pipe, ap length r.bytes) in
    let s = append-split n (contents w.pipe) got (contents p) len r.bytes in
    read_end me n w got p r ∙ ap₂ (λ xs ys. (answer n xs, ys)) s.0 s.1

-- One turn of `write_pipe` returns or sleeps as a write to the queue of `size - 1` bytes does, and
-- leaves the bytes that the queue has.
pub write_round_refines :
    (me written : ℕ) (src : List ℕ) (w : World)
    → IsValid w.pipe
    → let (t, w') = write_round me written src w in
      (t, contents w'.pipe) ≡ queue_write (capacity w.pipe) written src (contents w.pipe)
write_round_refines me written src w v =
    let turn = write_round-IsWriteTurn me written src w v in
    let room : capacity w.pipe - length (contents w.pipe) ≡ available w.pipe =
      omega (arith, length-contents w.pipe, unread-add-available v) in
    rw room (elim (Bool-cases (leb (length src) (available w.pipe))) [
      | inl all ↦ let s = turn.fits (ground arith) in rw all (ap₂ (λ a b. (a, b)) s.0 s.1)
      | inr part ↦ let s = turn.full (ground arith) in rw part (ap₂ (λ a b. (a, b)) s.0 s.1)
    ])

-- `create_pipe` over storage of the right length gives a valid, empty pipe.
pub create_pipe-IsValid :
    (storage : List ℕ) (size : ℕ)
    → length storage ≡ size
    → 0 < size
    → size < 2 ^ 32
    → IsValid (create_pipe storage size) × (contents (create_pipe storage size) ≡ [])
unfolding create_pipe unread
create_pipe-IsValid storage size len pos small = (ground arith, refl)
