-- ===== src/Frame/Tests.antt =====
-- kernel/frame.c: runs on a small bitmap.
use bingos.Common.{ℕ, ◌-◌, ◌/◌, ◌^◌, ◌≡◌, refl, true, false, none, some, arith, ◌==◌, if◌then◌else◌}
use bingos.Frame.{
  Frames, bitmap_set, bitmap_test, is_used, alloc_frame, free_frame, get_frame, free_pages,
  first_clear, first_frame_from, get_first_frame, memory_region_init, memory_region_deinit,
  pre_alloc,
}
use bingos.Frame.Alloc.{IsLeastFree, alloc_frame-IsLeastFree, free_frame-alloc_frame}
use bingos.Frame.Region.{within, memory_region_lem}

-- Two words: the first full, the second with its three lowest frames in use.
abbrev some_frames : Frames
some_frames = record {
  frame_map = λ i. if i == 0 then 2 ^ 32 - 1 else if i == 1 then 7 else 0;
  used_frames = 35;
  max_frames = 64;
  placement_addr = 4097;
}

alloc_frame-some_frames :
    (alloc_frame some_frames) ≡ some (35, record (bitmap_set 35 some_frames) { used_frames = 36 })
unfolding alloc_frame get_first_frame first_frame_from first_clear
alloc_frame-some_frames = refl

get_frame-taken : get_frame 34 some_frames ≡ none
unfolding get_frame bitmap_test
get_frame-taken = refl

pre_alloc-aligned : (pre_alloc 100 true some_frames).0 ≡ 8192
unfolding pre_alloc
pre_alloc-aligned = refl

free_pages-some_frames : free_pages some_frames ≡ 29
unfolding free_pages
free_pages-some_frames = refl

alloc_frame-IsLeastFree_example : IsLeastFree some_frames (alloc_frame some_frames)
alloc_frame-IsLeastFree_example = alloc_frame-IsLeastFree some_frames

free_frame-alloc_frame_example :
    ((b : ℕ)
      → is_used (free_frame 35 (record (bitmap_set 35 some_frames) { used_frames = 36 })) b
        ≡ is_used some_frames b)
    × ((free_frame 35 (record (bitmap_set 35 some_frames) { used_frames = 36 })).used_frames
        ≡ some_frames.used_frames)
free_frame-alloc_frame_example =
    free_frame-alloc_frame some_frames (record (bitmap_set 35 some_frames) { used_frames = 36 }) 35
      (omega arith) alloc_frame-some_frames

memory_region_lem_example :
    (is_used (memory_region_init 8192 12288 some_frames) 3
      ≡ (if within (8192 / 4096) (12288 / 4096) 3 then false else is_used some_frames 3))
    × (is_used (memory_region_deinit 8192 12288 some_frames) 3
        ≡ (if within (8192 / 4096) (12288 / 4096) 3 then true else is_used some_frames 3))
memory_region_lem_example = memory_region_lem 8192 12288 some_frames 3
