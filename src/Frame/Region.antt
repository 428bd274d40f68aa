-- ===== src/Frame/Region.antt =====
-- kernel/frame.c: freeing and reserving a region of physical memory.
use bingos.Common.{
  ℕ, zero, suc, ◌+◌, ◌-◌, ◌/◌, ◌%◌, ◌^◌, ◌≡◌, refl, Bool, true, false, ◌&&◌, ltb, leb, ◌==◌,
  if◌then◌else◌, arith,
}
use bingos.Frame.{
  Frames, bitmap_set, bitmap_unset, bitmap_test, is_used, clear_frames, mark_frames,
  memory_region_init, memory_region_deinit,
}
use bingos.Frame.Bitmap.{is_used-set, is_used-unset}

-- Whether frame `b` is one of the `n` frames from `i`.
abbrev pub within : ℕ → ℕ → ℕ → Bool
within i n b = leb i b && ltb b (i + n)

within_step :
    (i n b : ℕ) (x y : Bool)
    → (if within (suc i) n b then x else (if b == i then x else y))
      ≡ (if within i (suc n) b then x else y)
within_step i n b x y = ground arith

used_frames-is_used :
    (f : Frames) (u b : ℕ) → is_used (record f { used_frames = u }) b ≡ is_used f b
unfolding is_used bitmap_test
used_frames-is_used f u b = refl

clear_frames-is_used :
    (n i : ℕ) (f : Frames) (b : ℕ)
    → is_used (clear_frames n i f) b ≡ (if within i n b then false else is_used f b)
unfolding clear_frames
clear_frames-is_used zero i f b = ground arith
clear_frames-is_used (suc n) i f b =
    let u = ((bitmap_unset i f).used_frames + 2 ^ 32 - 1) % 2 ^ 32 in
    rw
      (
        clear_frames-is_used n (suc i) (record (bitmap_unset i f) { used_frames = u }) b,
        used_frames-is_used (bitmap_unset i f) u b,
        is_used-unset f i b,
      )
      (within_step i n b false (is_used f b))

mark_frames-is_used :
    (n i : ℕ) (f : Frames) (b : ℕ)
    → is_used (mark_frames n i f) b ≡ (if within i n b then true else is_used f b)
unfolding mark_frames
mark_frames-is_used zero i f b = ground arith
mark_frames-is_used (suc n) i f b =
    let u = ((bitmap_set i f).used_frames + 1) % 2 ^ 32 in
    rw
      (
        mark_frames-is_used n (suc i) (record (bitmap_set i f) { used_frames = u }) b,
        used_frames-is_used (bitmap_set i f) u b,
        is_used-set f i b,
      )
      (within_step i n b true (is_used f b))

-- memory_region_init frees and memory_region_deinit reserves exactly the frames from base / 4096, as
-- many as there are whole frames in size, whatever their state was before.
pub memory_region_lem :
    (base size : ℕ) (f : Frames) (b : ℕ)
    → (is_used (memory_region_init base size f) b
        ≡ (if within (base / 4096) (size / 4096) b then false else is_used f b))
      × (is_used (memory_region_deinit base size f) b
          ≡ (if within (base / 4096) (size / 4096) b then true else is_used f b))
unfolding memory_region_init memory_region_deinit
memory_region_lem base size f b = (
  clear_frames-is_used (size / 4096) (base / 4096) f b,
  mark_frames-is_used (size / 4096) (base / 4096) f b,
)
