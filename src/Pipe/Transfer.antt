-- ===== src/Pipe/Transfer.antt =====
-- The loops of `read_pipe` and `write_pipe`: which bytes they move, and when a turn sleeps.
use bingos.Common.{
  ℕ, zero, suc, ◌-◌, ◌<◌, ◌≡◌, refl, inl, inr, List, [], ◌∷◌, ◌++◌, arith, ltb, min, length,
  Bool-cases,
}
use mathlib.Core.List.{append_assoc}
use mathlib.Core.Path.{ap, ◌∙◌}
use bingos.Pipe.{Pipe, available, unread, take_byte, put_byte, read_loop, write_loop}
use bingos.Pipe.Ring.{
  IsValid, contents, unread-add-available, put_byte-IsValid, unread-put_byte, contents-put_byte,
  take_byte-IsValid, unread-take_byte, contents-take_byte,
}

-- What `read_loop` has done: `got` is the oldest part of the contents, as long as was asked for if
-- there was enough.
pub record IsRead (p : Pipe) (n : ℕ) (got : List ℕ) (q : Pipe) : Type 0 where
  pub valid : IsValid q
  pub bytes : contents p ≡ got ++ contents q
  pub count : length got ≡ min n (unread p)
  pub readers : q.readers ≡ p.readers
  pub writers : q.writers ≡ p.writers
  pub size : q.size ≡ p.size
  pub dead : q.dead ≡ p.dead

take_byte-queues :
    (p : Pipe)
    → ((take_byte p).1.readers ≡ p.readers)
      × ((take_byte p).1.writers ≡ p.writers)
      × ((take_byte p).1.size ≡ p.size)
      × ((take_byte p).1.dead ≡ p.dead)
unfolding take_byte
take_byte-queues p = (refl, refl, refl, refl)

put_byte-queues :
    (p : Pipe) (x : ℕ)
    → ((put_byte p x).readers ≡ p.readers)
      × ((put_byte p x).writers ≡ p.writers)
      × ((put_byte p x).size ≡ p.size)
      × ((put_byte p x).dead ≡ p.dead)
unfolding put_byte
put_byte-queues p x = (refl, refl, refl, refl)

pub read_loop-IsRead :
    (n : ℕ) {p : Pipe} → IsValid p → IsRead p n (read_loop n p).0 (read_loop n p).1
unfolding read_loop
read_loop-IsRead zero v = record {
  valid = v;
  bytes = refl;
  count = omega arith;
  readers = refl;
  writers = refl;
  size = refl;
  dead = refl;
}
read_loop-IsRead (suc n) {p} v = elim (Bool-cases (ltb 0 (unread p))) [
  | inl more ↦
      let h : 0 < unread p = ground arith in
      let rest = read_loop-IsRead n (take_byte-IsValid v) in
      let q = take_byte-queues p in
      rw more (record {
        valid = rest.valid;
        bytes = contents-take_byte v h ∙ ap (λ xs. (take_byte p).0 ∷ xs) rest.bytes;
        count = omega (arith, rest.count, unread-take_byte v h);
        readers = rest.readers ∙ q.0;
        writers = rest.writers ∙ q.1;
        size = rest.size ∙ q.2;
        dead = rest.dead ∙ q.3;
      })
  | inr done ↦ rw done (record {
    valid = v;
    bytes = refl;
    count = ground arith;
    readers = refl;
    writers = refl;
    size = refl;
    dead = refl;
  })
]

-- What `write_loop` has done: the bytes that it did not leave in `rest` stand behind the old
-- contents, and it took as many as there was room for.
pub record IsWritten (p : Pipe) (src rest : List ℕ) (q : Pipe) : Type 0 where
  pub valid : IsValid q
  pub bytes : contents q ++ rest ≡ contents p ++ src
  pub count : length rest ≡ length src - available p
  pub readers : q.readers ≡ p.readers
  pub writers : q.writers ≡ p.writers
  pub size : q.size ≡ p.size
  pub dead : q.dead ≡ p.dead

pub write_loop-IsWritten :
    (src : List ℕ) {p : Pipe}
    → IsValid p
    → IsWritten p src (write_loop p src).0 (write_loop p src).1
unfolding write_loop
write_loop-IsWritten [] v = record {
  valid = v;
  bytes = refl;
  count = omega arith;
  readers = refl;
  writers = refl;
  size = refl;
  dead = refl;
}
write_loop-IsWritten (x ∷ xs) {p} v = elim (Bool-cases (ltb 0 (available p))) [
  | inl more ↦
      let h : 0 < available p = ground arith in
      let v' = put_byte-IsValid x v in
      let rest = write_loop-IsWritten xs v' in
      let q = put_byte-queues p x in
      rw more (record {
        valid = rest.valid;
        bytes = rest.bytes ∙ rw (contents-put_byte x v h) (append_assoc (contents p) (x ∷ []) xs);
        count = omega (
          arith,
          rest.count,
          unread-put_byte x v h,
          unread-add-available v,
          unread-add-available v',
          q.2,
        );
        readers = rest.readers ∙ q.0;
        writers = rest.writers ∙ q.1;
        size = rest.size ∙ q.2;
        dead = rest.dead ∙ q.3;
      })
  | inr full ↦ rw full (record {
    valid = v;
    bytes = refl;
    count = ground arith;
    readers = refl;
    writers = refl;
    size = refl;
    dead = refl;
  })
]
