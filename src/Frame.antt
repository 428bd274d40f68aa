-- ===== src/Frame.antt =====
-- kernel/frame.c: the allocator of physical frames, a bitmap with one bit for each frame.
--
-- The words of the bitmap are the memory at `_frame_map`, which the source reads and writes without
-- a bound. A PANIC, a failed ASSERT and the end of `get_first_frame` without a return are `none`.
-- Frame numbers are below 2 ^ 20 (addresses have 32 bits), so `int` and `uint32_t` agree on them.
pub mod Bitmap
pub mod Alloc
pub mod Region
mod Tests
use Prim.Native.Nat.{bit_and, bit_or}
use bingos.Common.{
  ℕ, zero, suc, ◌+◌, ◌-◌, ◌*◌, ◌/◌, ◌%◌, ◌^◌, ◌≤◌, ◌≡◌, Bool, true, false, not, ◌&&◌, Option, none,
  some, ltb, ◌==◌, if◌then◌else◌,
}

-- The static variables of the file.
pub record Frames : Type 0 where
  pub frame_map : ℕ → ℕ
  pub used_frames : ℕ
  pub max_frames : ℕ
  pub placement_addr : ℕ

-- `_frame_map[i] = word`
unfoldable pub store : ℕ → ℕ → Frames → Frames
store i word f = record f { frame_map = λ k. if k == i then word else f.frame_map k }

unfoldable pub bitmap_set : ℕ → Frames → Frames
unfolding store
bitmap_set b f = store (b / 32) (bit_or (f.frame_map (b / 32)) (2 ^ (b % 32))) f

pub bitmap_unset : ℕ → Frames → Frames
unfolding store
bitmap_unset b f = store (b / 32) (bit_and (f.frame_map (b / 32)) (2 ^ 32 - 1 - 2 ^ (b % 32))) f

unfoldable pub bitmap_test : ℕ → Frames → ℕ
bitmap_test b f = bit_and (f.frame_map (b / 32)) (2 ^ (b % 32))

-- The address returned and the state after it; `*phys` is the same address.
pub pre_alloc : ℕ → Bool → Frames → ℕ × Frames
pre_alloc size align f =
    let t =
      if align && not (f.placement_addr % 2 ^ 12 == 0)
      then (f.placement_addr - f.placement_addr % 2 ^ 12 + 2 ^ 12) % 2 ^ 32
      else f.placement_addr in
    (t, record f { placement_addr = (t + size) % 2 ^ 32 })

-- The loop of `memory_region_init`, with the number of frames left.
pub clear_frames : ℕ → ℕ → Frames → Frames
clear_frames zero b f = f
clear_frames (suc left) b f =
    let f' = bitmap_unset b f in
    clear_frames left (suc b) (record f' { used_frames = (f'.used_frames + 2 ^ 32 - 1) % 2 ^ 32 })

pub memory_region_init : ℕ → ℕ → Frames → Frames
memory_region_init base size f = clear_frames (size / 2 ^ 12) (base / 2 ^ 12) f

-- The loop of `memory_region_deinit`.
pub mark_frames : ℕ → ℕ → Frames → Frames
mark_frames zero b f = f
mark_frames (suc left) b f =
    let f' = bitmap_set b f in
    mark_frames left (suc b) (record f' { used_frames = (f'.used_frames + 1) % 2 ^ 32 })

pub memory_region_deinit : ℕ → ℕ → Frames → Frames
memory_region_deinit base size f = mark_frames (size / 4096) (base / 4096) f

-- The inner loop of `get_first_frame` on one word, from bit `j`.
unfoldable pub first_clear : ℕ → ℕ → ℕ → Option ℕ
first_clear zero j word = none
first_clear (suc left) j word =
    let rest = first_clear left (suc j) word in if bit_and word (2 ^ j) == 0 then some j else rest

-- Its outer loop, from word `i`.
unfoldable pub first_frame_from : ℕ → ℕ → (ℕ → ℕ) → Option ℕ
first_frame_from zero i words = none
first_frame_from (suc left) i words =
    let rest = first_frame_from left (suc i) words in
    if words i == 2 ^ 32 - 1
    then rest
    else elim (first_clear 32 0 (words i)) [ none ↦ rest | some j ↦ some (i * 32 + j) ]

unfoldable pub get_first_frame : Frames → Option ℕ
get_first_frame f = first_frame_from f.max_frames 0 f.frame_map

unfoldable pub alloc_frame : Frames → Option (ℕ × Frames)
alloc_frame f = if f.max_frames == 0 then none else elim (get_first_frame f) [
  | none ↦ none
  | some frame ↦
      some (frame, record (bitmap_set frame f) { used_frames = (f.used_frames + 1) % 2 ^ 32 })
]

unfoldable pub get_frame : ℕ → Frames → Option Frames
get_frame frame f =
    if ltb f.max_frames frame
    then some f
    else if bitmap_test frame f == 0
    then some (record (bitmap_set frame f) { used_frames = (f.used_frames + 1) % 2 ^ 32 })
    else none

pub free_frame : ℕ → Frames → Frames
free_frame frame f = record (bitmap_unset frame f) {
  used_frames = (f.used_frames + 2 ^ 32 - 1) % 2 ^ 32;
}

pub free_pages : Frames → ℕ
free_pages f = (f.max_frames + 2 ^ 32 - f.used_frames) % 2 ^ 32

-- Whether the bit of a frame is set.
unfoldable pub is_used : Frames → ℕ → Bool
is_used f b = not (bitmap_test b f == 0)

-- The words of the bitmap have 32 bits.
pub IsWords : Frames → Type 0
IsWords f = (i : ℕ) → f.frame_map i ≤ 2 ^ 32 - 1
