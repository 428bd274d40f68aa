-- ===== src/Pipe/Turns.antt =====
-- One turn of `read_pipe` and one of `write_pipe`: what they return, and when they sleep.
use bingos.Common.{
  ℕ, zero, suc, ◌+◌, ◌-◌, ◌≤◌, ◌<◌, ◌≡◌, ◌≢◌, refl, List, [], ◌∷◌, ◌++◌, arith, min, length, take,
  drop, length-append, append-split,
}
use mathlib.Core.List.{append-nil}
use mathlib.Core.Path.{ap, ap₂, sym, ◌∙◌}
use bingos.Sched.Wait.{wakeup_from, sleep_on}
use bingos.Pipe.{
  Pipe, World, Turn, returned, sleeping, available, unread, read_loop, write_loop, end_read,
  end_write, read_round, write_round, wake_writers, wake_readers,
}
use bingos.Pipe.Ring.{IsValid, contents, length-contents, unread-add-available}
use bingos.Pipe.Transfer.{IsRead, read_loop-IsRead, IsWritten, write_loop-IsWritten}

-- The outcome of a turn of a read of `n` bytes by `me`.
pub record IsReadTurn (me n : ℕ) (w : World) (t : Turn (List ℕ) ℕ) (w' : World) : Type 0 where
  pub valid : IsValid w'.pipe
  pub size : w'.pipe.size ≡ w.pipe.size
  -- with bytes asked for and bytes there it returns the oldest, as many as asked for or all
  pub served :
      0 < n
      → 0 < unread w.pipe
      → (t ≡ returned (take n (contents w.pipe)))
        × (contents w'.pipe ≡ drop n (contents w.pipe))
        × (w'.pipe.readers ≡ w.pipe.readers)
  -- with none there it sleeps, in front of the other readers
  pub empty :
      unread w.pipe ≡ 0
      → (t ≡ sleeping n) × (contents w'.pipe ≡ []) × (w'.pipe.readers ≡ sleep_on w.pipe.readers me)
  -- in both cases the writer that waits longest is ready
  pub writers : w'.pipe.writers ≡ (wakeup_from w.pipe.writers w.ready).0
  pub ready : w'.ready ≡ (wakeup_from w.pipe.writers w.ready).1

nil_of_length : (xs : List ℕ) → length xs ≡ 0 → xs ≡ []
nil_of_length [] h = refl
nil_of_length (x ∷ xs) h = absurd (omega arith)

read_end :
    (me n : ℕ) (w : World) (got : List ℕ) (p : Pipe)
    → IsRead w.pipe n got p
    → let e = end_read me n got (wake_writers (record w { pipe = p })) in IsReadTurn me n w e.0 e.1
unfolding end_read unread
read_end me n w [] p r = record {
  valid = record {
    storage = r.valid.storage;
    small = r.valid.small;
    read_in = r.valid.read_in;
    write_in = r.valid.write_in;
  };
  size = r.size;
  served = λ hn hu. absurd (omega (arith, r.count));
  empty = λ e. (
    refl,
    sym r.bytes ∙ nil_of_length _ (omega (arith, length-contents w.pipe)),
    ap (λ q. sleep_on q me) r.readers,
  );
  writers = ap (λ q. (wakeup_from q w.ready).0) r.writers;
  ready = ap (λ q. (wakeup_from q w.ready).1) r.writers;
}
read_end me n w (x ∷ xs) p r = record {
  valid = record {
    storage = r.valid.storage;
    small = r.valid.small;
    read_in = r.valid.read_in;
    write_in = r.valid.write_in;
  };
  size = r.size;
  served = λ hn hu.
      let e =
        append-split n _ (x ∷ xs) (contents p)
          (omega (arith, r.count, length-contents w.pipe, ap length r.bytes)) r.bytes in
      (ap returned e.0, e.1, r.readers);
  empty = λ e. absurd (omega (arith, r.count));
  writers = ap (λ q. (wakeup_from q w.ready).0) r.writers;
  ready = ap (λ q. (wakeup_from q w.ready).1) r.writers;
}

pub read_round-IsReadTurn :
    (me n : ℕ) (w : World)
    → IsValid w.pipe
    → IsReadTurn me n w (read_round me n w).0 (read_round me n w).1
unfolding read_round
read_round-IsReadTurn me n w v =
    read_end me n w (read_loop n w.pipe).0 (read_loop n w.pipe).1 (read_loop-IsRead n v)

-- The outcome of a turn of a write of the bytes `src` by `me`, with `written` bytes written before.
pub record IsWriteTurn (me written : ℕ) (src : List ℕ) (w : World) (t : Turn ℕ (ℕ × List ℕ))
    (w' : World) : Type 0 where
  pub valid : IsValid w'.pipe
  pub size : w'.pipe.size ≡ w.pipe.size
  -- if all of them fit, it returns the count of all bytes written, and they stand behind the
  -- contents
  pub fits :
      length src ≤ available w.pipe
      → (t ≡ returned (written + length src))
        × (contents w'.pipe ≡ contents w.pipe ++ src)
        × (w'.pipe.writers ≡ w.pipe.writers)
  -- if not, it fills the pipe, keeps the bytes that did not fit, and sleeps
  pub full :
      available w.pipe < length src
      → (t ≡ sleeping (written + available w.pipe, drop (available w.pipe) src))
        × (contents w'.pipe ≡ contents w.pipe ++ take (available w.pipe) src)
        × (available w'.pipe ≡ 0)
        × (w'.pipe.writers ≡ sleep_on w.pipe.writers me)
  -- if there was anything to write, the reader that waits longest is ready
  pub readers : src ≢ [] → w'.pipe.readers ≡ (wakeup_from w.pipe.readers w.ready).0
  pub ready : src ≢ [] → w'.ready ≡ (wakeup_from w.pipe.readers w.ready).1

-- A list is cut at `n` in one way.
append_unique :
    (n : ℕ) (us zs xs ys : List ℕ)
    → length xs ≡ length us + min n (length zs)
    → xs ++ ys ≡ us ++ zs
    → (xs ≡ us ++ take n zs) × (ys ≡ drop n zs)
append_unique n [] zs xs ys len e = append-split n zs xs ys (omega (arith, ap length e)) (sym e)
append_unique n (u ∷ us) zs [] ys len e = absurd (omega arith)
append_unique n (u ∷ us) zs (x ∷ xs) ys len e =
    let ih = append_unique n us zs xs ys (omega arith) (cc) in (cc ih.0, ih.1)

take_all : (xs : List ℕ) (n : ℕ) → length xs ≤ n → (take n xs ≡ xs) × (drop n xs ≡ [])
take_all [] zero h = (refl, refl)
take_all [] (suc n) h = (refl, refl)
take_all (x ∷ xs) zero h = absurd (omega arith)
take_all (x ∷ xs) (suc n) h = let ih = take_all xs n (omega arith) in (ap (λ k. x ∷ k) ih.0, ih.1)

-- The two parts into which `write_loop` cuts its bytes.
write_parts :
    {p q : Pipe} (src rest : List ℕ)
    → IsValid p
    → IsWritten p src rest q
    → (contents q ≡ contents p ++ take (available p) src)
      × (rest ≡ drop (available p) src)
      × (available q ≡ available p - length src)
write_parts {p} {q} src rest v r =
    let e = ap length r.bytes in
    let len : length (contents q) ≡ length (contents p) + min (available p) (length src) =
      omega (arith, r.count, e, length-append (contents q) rest, length-append (contents p) src) in
    let parts = append_unique (available p) (contents p) src (contents q) rest len r.bytes in
    (
      parts.0,
      parts.1,
      omega (
        arith,
        len,
        length-contents p,
        length-contents q,
        unread-add-available v,
        unread-add-available r.valid,
        r.size,
      ),
    )

write_end :
    (me written : ℕ) (x : ℕ) (xs : List ℕ) (w : World) (rest : List ℕ) (p : Pipe)
    → IsValid w.pipe
    → IsWritten w.pipe (x ∷ xs) rest p
    → let e =
        end_write me
          (written + (length (x ∷ xs) - length rest))
          rest
          (wake_readers (record w { pipe = p })) in
      IsWriteTurn me written (x ∷ xs) w e.0 e.1
unfolding end_write unread available
write_end me written x xs w [] p v r =
    let parts = write_parts (x ∷ xs) [] v r in
    record {
      valid = record {
        storage = r.valid.storage;
        small = r.valid.small;
        read_in = r.valid.read_in;
        write_in = r.valid.write_in;
      };
      size = r.size;
      fits = λ h. (
        ap returned (omega arith),
        parts.0 ∙ ap (λ l. contents w.pipe ++ l) (take_all (x ∷ xs) (available w.pipe) h).0,
        r.writers,
      );
      full = λ h. absurd (omega (arith, r.count));
      readers = λ ne. ap (λ q. (wakeup_from q w.ready).0) r.readers;
      ready = λ ne. ap (λ q. (wakeup_from q w.ready).1) r.readers;
    }
write_end me written x xs w (y ∷ ys) p v r =
    let parts = write_parts (x ∷ xs) (y ∷ ys) v r in
    record {
      valid = record {
        storage = r.valid.storage;
        small = r.valid.small;
        read_in = r.valid.read_in;
        write_in = r.valid.write_in;
      };
      size = r.size;
      fits = λ h. absurd (omega (arith, r.count));
      full = λ h. (
        let n : written + (length (x ∷ xs) - length (y ∷ ys)) ≡ written + available w.pipe =
              omega (arith, r.count) in
            ap₂ (λ a b. sleeping (a, b)) n parts.1,
        parts.0,
        omega (arith, parts.2),
        ap (λ q. sleep_on q me) r.writers,
      );
      readers = λ ne. ap (λ q. (wakeup_from q w.ready).0) r.readers;
      ready = λ ne. ap (λ q. (wakeup_from q w.ready).1) r.readers;
    }

pub write_round-IsWriteTurn :
    (me written : ℕ) (src : List ℕ) (w : World)
    → IsValid w.pipe
    → IsWriteTurn me written src w (write_round me written src w).0 (write_round me written src w).1
unfolding write_round
write_round-IsWriteTurn me written [] w v = record {
  valid = v;
  size = refl;
  fits = λ h. (ap returned (omega arith), sym (append-nil (contents w.pipe)), refl);
  full = λ h. absurd (omega arith);
  readers = λ ne. absurd (ne refl);
  ready = λ ne. absurd (ne refl);
}
write_round-IsWriteTurn me written (x ∷ xs) w v =
    let r = write_loop-IsWritten (x ∷ xs) v in
    write_end me written x xs w (write_loop w.pipe (x ∷ xs)).0 (write_loop w.pipe (x ∷ xs)).1 v r
