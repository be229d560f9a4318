-- ===== src/Frames/Boot.antt =====
-- kern/memory_manager.c: `boot_allocate_space`, and which frames `initialize_paging` leaves free.
use fos_kernel.Prelude.{
  ℕ, zero, suc, ◌+◌, ◌-◌, ◌/◌, ◌%◌, ◌^◌, ◌<◌, ◌≤◌, ◌≡◌, refl, sym, ap, ◌∙◌, Bool, ◌&&◌, ◌||◌, [],
  ◌∷◌, ◌==◌, if◌then◌else◌, leb, ltb, arith, subst,
}
use fos_kernel.Queue.Chain.{has}
use fos_kernel.Frames.{Vm, set_references, initialize_frame_info}
use fos_kernel.Frames.Counts.{references}

-- `ROUNDUP` to a multiple of `n`, on `uint32`.
abbrev pub roundup : ℕ → ℕ → ℕ
roundup a n = let b = (a + n + 2 ^ 32 - 1) % 2 ^ 32 in b - b % n

-- `boot_allocate_space`: the space and the next value of `ptr_free_mem`, where `end_of_kernel` is what
-- the linker sets.
unfoldable pub boot_allocate_space : ℕ → ℕ → ℕ → ℕ → ℕ × ℕ
boot_allocate_space end_of_kernel size align ptr_free_mem =
    let start = roundup (if ptr_free_mem == 0 then end_of_kernel else ptr_free_mem) align in
    (start, (start + size) % 2 ^ 32)

-- The loop that puts the `left` frames from `i` on into the free list.
unfoldable pub insert_free : ℕ → ℕ → Vm → Vm
insert_free zero i m = m
insert_free (suc left) i m =
    let j = initialize_frame_info i m in
    insert_free left (i + 1) (record j { free_frame_list = i ∷ j.free_frame_list })

-- The loop that gives the `left` frames from `i` on one reference.
unfoldable pub mark_used : ℕ → ℕ → Vm → Vm
mark_used zero i m = m
mark_used (suc left) i m = mark_used left (i + 1) (set_references i 1 m)

abbrev pub first_marked : Vm → Vm
first_marked m =
    set_references 2 1 (set_references 1 1 (set_references 0 1 (record m { free_frame_list = [] })))

-- The loops of `initialize_paging`. 160 and 256 are the frames of PHYS_IO_MEM and PHYS_EXTENDED_MEM.
unfoldable pub mark_frames : ℕ → Vm → Vm
mark_frames range_end m =
    let low = insert_free 157 3 (first_marked m) in
    let hole = mark_used 96 160 low in
    let kernel = mark_used (range_end - 256) 256 hole in
    insert_free (kernel.number_of_frames - range_end) range_end kernel

-- `initialize_paging`, where `kernel_end` is the physical address of `ptr_free_mem`. The contents of the
-- zero page and of the temporary page, the list of modified frames and the page file are not part of
-- this state.
unfoldable pub initialize_paging : ℕ → Vm → Vm
initialize_paging kernel_end m = mark_frames (roundup kernel_end 4096 / 4096) m

abbrev within : ℕ → ℕ → ℕ → Bool
within i left f = leb i f && ltb f (i + left)

insert_free-references :
    (left i f : ℕ) (m : Vm)
    → references (insert_free left i m) f ≡ (if within i left f then 0 else references m f)
unfolding insert_free initialize_frame_info
insert_free-references zero i f m = ground arith
insert_free-references (suc left) i f m =
    let j = initialize_frame_info i m in
    ground (
      arith,
      insert_free-references left (i + 1) f (record j { free_frame_list = i ∷ j.free_frame_list }),
    )

insert_free-has :
    (left i f : ℕ) (m : Vm)
    → has f (insert_free left i m).free_frame_list ≡ (within i left f || has f m.free_frame_list)
unfolding insert_free initialize_frame_info
insert_free-has zero i f m = ground arith
insert_free-has (suc left) i f m =
    let j = initialize_frame_info i m in
    ground
      (arith, insert_free-has left (i + 1) f (record j { free_frame_list = i ∷ j.free_frame_list }))

insert_free-number :
    (left i : ℕ) (m : Vm) → (insert_free left i m).number_of_frames ≡ m.number_of_frames
unfolding insert_free initialize_frame_info
insert_free-number zero i m = refl
insert_free-number (suc left) i m = insert_free-number left (i + 1) _

mark_used-references :
    (left i f : ℕ) (m : Vm)
    → references (mark_used left i m) f ≡ (if within i left f then 1 else references m f)
unfolding mark_used
mark_used-references zero i f m = ground arith
mark_used-references (suc left) i f m =
    ground (arith, mark_used-references left (i + 1) f (set_references i 1 m))

mark_used-free : (left i : ℕ) (m : Vm) → (mark_used left i m).free_frame_list ≡ m.free_frame_list
unfolding mark_used
mark_used-free zero i m = refl
mark_used-free (suc left) i m = mark_used-free left (i + 1) (set_references i 1 m)

mark_used-number :
    (left i : ℕ) (m : Vm) → (mark_used left i m).number_of_frames ≡ m.number_of_frames
unfolding mark_used
mark_used-number zero i m = refl
mark_used-number (suc left) i m = mark_used-number left (i + 1) (set_references i 1 m)

-- The frames that are free at the start: those of the base memory but the first three, and those
-- behind the kernel.
abbrev pub starts_free : ℕ → ℕ → Bool
starts_free range_end f = (leb 3 f && ltb f 160) || leb range_end f

abbrev pub Marked : ℕ → ℕ → Vm → Type 0
Marked range_end f j =
    (has f j.free_frame_list ≡ starts_free range_end f)
    × (references j f ≡ (if starts_free range_end f then 0 else 1))

module _ (range_end f : ℕ) (m : Vm) (lo : 256 ≤ range_end) (hi : range_end ≤ m.number_of_frames)
    (inside : f < m.number_of_frames) where
  abbrev low : Vm
  low = insert_free 157 3 (first_marked m)

  abbrev hole : Vm
  hole = mark_used 96 160 low

  abbrev kernel : Vm
  kernel = mark_used (range_end - 256) 256 hole

  number : kernel.number_of_frames ≡ m.number_of_frames
  number =
      mark_used-number (range_end - 256) 256 hole
      ∙ mark_used-number 96 160 low
      ∙ insert_free-number 157 3 (first_marked m)

  kept : has f kernel.free_frame_list ≡ has f low.free_frame_list
  kept = ap (has f) (mark_used-free (range_end - 256) 256 hole ∙ mark_used-free 96 160 low)

  low-references :
      references low f ≡ (if ltb f 3 then 1 else if ltb f 160 then 0 else references m f)
  low-references = ground (arith, insert_free-references 157 3 f (first_marked m))

  kernel-references :
      references kernel f ≡ (if leb 160 f && ltb f range_end then 1 else references low f)
  kernel-references =
      ground (
        arith,
        mark_used-references (range_end - 256) 256 f hole,
        mark_used-references 96 160 f low,
      )

  mark_frames-Marked : Marked range_end f (mark_frames range_end m)
  unfolding mark_frames
  mark_frames-Marked =
      let left = kernel.number_of_frames - range_end in
      (
        ground (
          arith,
          insert_free-has left range_end f kernel,
          kept,
          insert_free-has 157 3 f (first_marked m),
          number,
        ),
        ground (
          arith,
          insert_free-references left range_end f kernel,
          kernel-references,
          low-references,
          number,
        ),
      )

-- Behind `initialize_paging`, with the kernel's end between PHYS_EXTENDED_MEM and the end of the
-- machine's memory, a frame of the machine is in the free list exactly if it lies in the base memory
-- behind the first three or behind the kernel, and then it has no references; every other frame has
-- one.
pub initialize_paging_lem :
    (kernel_end range_end f : ℕ) (m : Vm)
    → roundup kernel_end 4096 / 4096 ≡ range_end
    → 256 ≤ range_end
    → range_end ≤ m.number_of_frames
    → f < m.number_of_frames
    → Marked range_end f (initialize_paging kernel_end m)
unfolding initialize_paging
initialize_paging_lem kernel_end range_end f m e lo hi inside =
    subst (Marked range_end f) (sym (ap (λ r. mark_frames r m) e))
      (mark_frames-Marked range_end f m lo hi inside)
