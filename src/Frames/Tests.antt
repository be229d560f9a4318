-- ===== src/Frames/Tests.antt =====
-- A machine of ten frames with one mapping, and the theorems at it.
use fos_kernel.Prelude.{
  false, ℕ, ◌≡◌, refl, ◌&&◌, none, some, List, [], ◌∷◌, ◌==◌, if◌then◌else◌, arith,
}
use fos_kernel.Frames.{Vm, blank, construct_entry, allocate_frame, unmap_frame, map_frame}
use fos_kernel.Frames.Entries.{Slot, slot_of, same_slot, entry_at, count}
use fos_kernel.Frames.Counts.{references, Counted}
use fos_kernel.Frames.Unmap.{Unmapped, unmap_frame-Unmapped}
use fos_kernel.Frames.Map.{allocate_frame-Counted, map_frame-Counted}

-- Environment 7 has one page table, whose entry 1 holds frame 3. Frames 5 and 4 are free, and frame 6
-- has been allocated and is not mapped.
abbrev table : ℕ → ℕ
table i = if i == 1 then 12295 else 0

abbrev machine : Vm
machine = record {
  frames_info = λ f. if f == 3 then record blank { references = 1 } else blank;
  free_frame_list = 5 ∷ 4 ∷ [];
  number_of_frames = 10;
  directories = λ e d. if (e == 7) && (d == 0) then some table else none;
  lost = λ e d. false;
}

abbrev slots : List Slot
slots = slot_of 7 4096 ∷ slot_of 7 8192 ∷ []

machine-Counted : Counted (λ f. 0) slots machine
unfolding count
machine-Counted = record {
  counts = λ f. ground arith;
  free_unused = λ f h. ground arith;
  word = λ f. ground arith;
  valid = λ s ne. ground arith;
}

unmap_frame_example : Unmapped (λ f. 0) slots (slot_of 7 4096) machine (unmap_frame 7 4096 machine)
unmap_frame_example =
    unmap_frame-Unmapped (λ f. 0) [] (slot_of 7 8192 ∷ []) machine 7 4096 machine-Counted tt
      (refl, tt) refl

allocate_frame_example :
    (j : Vm) × (allocate_frame machine ≡ some (5, j))
    × (j.free_frame_list ≡ 4 ∷ [])
    × (count 5 machine.directories slots ≡ 0)
    × (references j 5 ≡ 0)
    × Counted (λ f. 0) slots j
allocate_frame_example =
    allocate_frame-Counted (λ f. 0) slots machine 5 (4 ∷ []) machine-Counted refl refl

map_frame_example :
    (j : Vm) × (map_frame (λ m. none) 7 6 8192 6 machine ≡ some j)
    × ((r : Slot)
        → entry_at j.directories r ≡ (
            if same_slot r (slot_of 7 8192)
            then construct_entry 6 6
            else entry_at machine.directories r))
    × (references j 6 ≡ 1)
    × Counted (λ f. 0) slots j
map_frame_example =
    map_frame-Counted (λ f. 0) (slot_of 7 4096 ∷ []) [] machine 7 8192 6 6 table machine-Counted
      (refl, tt) tt refl refl (omega arith) refl (omega arith) (omega arith) (λ m. none) refl

-- 1 MB of extended memory behind a kernel that ends at its start and 100 bytes.
abbrev at_boot : Vm
at_boot = record machine { number_of_frames = 512 }
