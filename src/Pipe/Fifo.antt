-- ===== src/Pipe/Fifo.antt =====
-- Processes that read and write one pipe in turns, in any order.
use bingos.Common.{ℕ, ◌-◌, ◌<◌, ◌≡◌, refl, List, [], ◌∷◌, ◌++◌, arith, length, take, drop}
use mathlib.Core.List.{append-nil, append_assoc}
use mathlib.Core.Path.{ap, ◌∙◌}
use native.Mathlib.Decide.{dec_lt}
use bingos.Pipe.{World, Turn, returned, sleeping, available, unread, read_round, write_round}
use bingos.Common.{take-append-drop, length-drop}
use bingos.Pipe.Ring.{IsValid, contents, length-contents}
use bingos.Pipe.Turns.{IsReadTurn, read_round-IsReadTurn, IsWriteTurn, write_round-IsWriteTurn}

-- A run of turns, with all bytes that writers have put in and all that readers were given.
pub record Run : Type 0 where
  pub world : World
  pub sent : List ℕ
  pub received : List ℕ

-- What a reader was given in a turn, and what a writer put in.
abbrev pub given : Turn (List ℕ) ℕ → List ℕ
given (returned xs) = xs
given (sleeping n) = []

abbrev pub taken : List ℕ → Turn ℕ (ℕ × List ℕ) → List ℕ
taken src (returned n) = src
taken src (sleeping (n, rest)) = take (length src - length rest) src

-- Any process may take the next turn: a read of at least one byte, or a write.
pub data Step (r : Run) : Run → Type 0 where
  read :
      (me n : ℕ)
      → 0 < n
      → Step r (record {
        world = (read_round me n r.world).1;
        sent = r.sent;
        received = r.received ++ given (read_round me n r.world).0;
      })
  write :
      (me written : ℕ) (src : List ℕ)
      → Step r (record {
        world = (write_round me written src r.world).1;
        sent = r.sent ++ taken src (write_round me written src r.world).0;
        received = r.received;
      })

pub data Reach (r : Run) : Run → Type 0 where
  here : Reach r r
  next : {s t : Run} → Reach r s → Step s t → Reach r t

-- What was sent is what was received, and then what is in the pipe.
pub record IsFifo (r : Run) : Type 0 where
  pub valid : IsValid r.world.pipe
  pub order : r.sent ≡ r.received ++ contents r.world.pipe

read-IsFifo :
    (sent received : List ℕ) (me n : ℕ) (w w' : World) (t : Turn (List ℕ) ℕ)
    → 0 < n
    → IsValid w.pipe
    → sent ≡ received ++ contents w.pipe
    → IsReadTurn me n w t w'
    → sent ≡ (received ++ given t) ++ contents w'.pipe
read-IsFifo sent received me n w w' t hn v e turn = elim (dec_lt 0 (unread w.pipe)) [
  | yes some_there ↦
      let s = turn.served hn some_there in rw (s.0, s.1, append_assoc, take-append-drop) e
  | no none_there ↦
      let s = turn.empty (omega arith) in
      rw (s.0, s.1, append-nil, append-nil)
        (e
          ∙ ap (λ l. received ++ l) (nil_of_length _ (omega (arith, length-contents w.pipe)))
          ∙ append-nil received)
]
  where
    nil_of_length : (xs : List ℕ) → length xs ≡ 0 → xs ≡ []
    nil_of_length [] h = refl
    nil_of_length (x ∷ xs) h = absurd (omega arith)

length-drop_lt : (n : ℕ) (xs : List ℕ) → n < length xs → length xs - length (drop n xs) ≡ n
length-drop_lt n xs h = omega (arith, length-drop n xs)

write-IsFifo :
    (sent received : List ℕ) (me written : ℕ) (src : List ℕ) (w w' : World)
    (t : Turn ℕ (ℕ × List ℕ))
    → sent ≡ received ++ contents w.pipe
    → IsWriteTurn me written src w t w'
    → sent ++ taken src t ≡ received ++ contents w'.pipe
write-IsFifo sent received me written src w w' t e turn =
    elim (dec_lt (available w.pipe) (length src)) [
      | yes more ↦
          let s = turn.full more in
          rw (s.0, s.1, e, length-drop_lt (available w.pipe) src more)
            (append_assoc received (contents w.pipe) (take (available w.pipe) src))
      | no fits ↦
          let s = turn.fits (omega arith) in
          rw (s.0, s.1, e) (append_assoc received (contents w.pipe) src)
    ]

Step-IsFifo : {r s : Run} → Step r s → IsFifo r → IsFifo s
Step-IsFifo {r} (read me n hn) f =
    let turn = read_round-IsReadTurn me n r.world f.valid in
    record {
      valid = turn.valid;
      order = read-IsFifo r.sent r.received me n r.world _ _ hn f.valid f.order turn;
    }
Step-IsFifo {r} (write me written src) f =
    let turn = write_round-IsWriteTurn me written src r.world f.valid in
    record {
      valid = turn.valid;
      order = write-IsFifo r.sent r.received me written src r.world _ _ f.order turn;
    }

-- However the turns of any number of readers and writers interleave, the pipe stays valid, and the
-- bytes sent are the bytes received followed by those in the pipe: none is lost, invented,
-- repeated or overtaken.
pub Reach-IsFifo : {r s : Run} → IsFifo r → Reach r s → IsFifo s
Reach-IsFifo f here = f
Reach-IsFifo f (next reach step) = Step-IsFifo step (Reach-IsFifo f reach)
