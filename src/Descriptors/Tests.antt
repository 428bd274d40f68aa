-- ===== src/Descriptors/Tests.antt =====
-- fs/open.c and fs/read_write.c: a table with three descriptors, one of them closed.
use bingos.Common.{ℕ, ◌≡◌, refl, false, Option, none, some, ◌==◌, if◌then◌else◌}
use bingos.Descriptors.{
  Table, ok, free_from, set_entry, do_open, sys_close, validate_fd, sys_read, sys_write,
  sys_readdir,
}
use bingos.Descriptors.Laws.{OpenOutcome, do_open-OpenOutcome}

abbrev three_open : Table
three_open = record {
  entries =
      λ i. if i == 0 then some 10 else if i == 1 then some 11 else if i == 2 then some 12 else none;
  length = 3;
  offset = λ n. 5;
}

abbrev first_closed : Table
first_closed = set_entry 0 none 2 three_open

close-first : sys_close (λ n. ok 0) 0 three_open ≡ some (ok 0, first_closed)
unfolding sys_close
close-first = refl

-- The descriptor 2 is open and is refused, since two descriptors are open in all.
validate_fd-refused : validate_fd 2 first_closed ≡ false
unfolding validate_fd set_entry
validate_fd-refused = refl

open-reuses :
    ◌≡◌ {A = Option ℕ}
      (elim (do_open (some 13) first_closed) [ none ↦ none | some (r, t) ↦ t.entries 0 ])
      (some 13)
unfolding do_open free_from set_entry
open-reuses = refl

read-moves : (sys_read (λ n off count. count) 1 4 three_open).1.offset 11 ≡ 9
unfolding sys_read
read-moves = refl

write-stays : sys_write (λ n off count. off) 1 4 three_open ≡ ok 5
unfolding sys_write
write-stays = refl

readdir-end : sys_readdir (λ n index. false) 1 4 three_open ≡ ok 1
unfolding sys_readdir
readdir-end = refl

do_open-OpenOutcome_example : OpenOutcome (some 13) first_closed (do_open (some 13) first_closed)
do_open-OpenOutcome_example = do_open-OpenOutcome (some 13) first_closed
