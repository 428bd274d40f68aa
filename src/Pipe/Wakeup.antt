-- ===== src/Pipe/Wakeup.antt =====
-- One process that reads a pipe and one that writes it, with the wait queues between them.
use bingos.Common.{true, ℕ, ◌<◌, ◌≡◌, ◌⊎◌, List, [], ◌∷◌}
use bingos.Sched.Wait.{sched_available}
use bingos.Pipe.{World, available, unread, read_round, write_round}
use bingos.Pipe.Ring.{IsValid}

-- A process takes a turn when it stands in no queue of the pipe, and while another process is ready, so
-- that it does sleep when the turn ends with sleep_on. In between the other processes come and go.
module _ (reader writer : ℕ) where
  pub data Move (w : World) : World → Type 0 where
    read :
        (n : ℕ)
        → 0 < n
        → w.pipe.readers ≡ []
        → sched_available w.ready ≡ true
        → Move w (read_round reader n w).1
    write :
        (written : ℕ) (src : List ℕ)
        → w.pipe.writers ≡ []
        → sched_available w.ready ≡ true
        → Move w (write_round writer written src w).1
    others : (ready : List ℕ) → Move w (record w { ready = ready })

  pub data Moves (w : World) : World → Type 0 where
    here : Moves w w
    next : {u v : World} → Moves w u → Move u v → Moves w v

  -- A sleeping reader waits at an empty pipe, and a sleeping writer at a full one.
  pub record IsAwake (w : World) : Type 0 where
    pub valid : IsValid w.pipe
    pub room : 1 < w.pipe.size
    pub reader_waits :
        (w.pipe.readers ≡ []) ⊎ ((w.pipe.readers ≡ reader ∷ []) × (unread w.pipe ≡ 0))
    pub writer_waits :
        (w.pipe.writers ≡ []) ⊎ ((w.pipe.writers ≡ writer ∷ []) × (available w.pipe ≡ 0))
