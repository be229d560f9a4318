-- ===== src/KernelHeap/Tests.antt =====
-- Kernel heaps that are empty, full and with one block, and the theorems at them.
use fos_kernel.Prelude.{
  false, ap, ℕ, zero, suc, ◌+◌, ◌*◌, ◌<◌, ◌≡◌, refl, subst, ◌⊎◌, inl, Option, none, some, List, [],
  ◌∷◌, ◌==◌, ◌&&◌, if◌then◌else◌, arith,
}
use fos_kernel.Frames.{pdx, Vm, blank, get_frame_info, get_page_table, frame_in, entry_frame}
use fos_kernel.Frames.Entries.{get_page_table-reached, reached-kernel, Slot, slot_of, count}
use fos_kernel.Frames.Counts.{Counted}
use fos_kernel.KernelHeap.{
  kernel, heap_start, heap_max, Block, KernelHeap, find_block, kmalloc, kfree,
  kheap_virtual_address, kheap_physical_address,
}
use fos_kernel.KernelHeap.Alloc.{Inv, Null, Wrapped}
use fos_kernel.KernelHeap.Endless.{IsFull, kmalloc-endless}
use fos_kernel.KernelHeap.Rounds.{pages, address}
use fos_kernel.KernelHeap.Fill.{Ready}
use fos_kernel.KernelHeap.Serve.{AllTables, heap_slots, heap_slots-Listed, Served, kmalloc-Served}
use fos_kernel.KernelHeap.Release.{Listed, in_block, Released, kfree-Released}
use fos_kernel.KernelHeap.Translate.{Passed, kheap_virtual_address-physical}

abbrev no_block : Block
no_block = record { first = 0; last = 0; size = 0 }

abbrev empty_vm : Vm
empty_vm = record {
  frames_info = λ f. blank;
  free_frame_list = 5 ∷ 4 ∷ 6 ∷ [];
  number_of_frames = 10;
  directories = λ e d. none;
  lost = λ e d. false;
}

abbrev empty_heap : KernelHeap
empty_heap = record { start_add = heap_start; idx = 0; kheap_arr = λ n. no_block; vm = empty_vm }

-- `kmalloc` of one page where all tables are there already takes no further page.
abbrev no_page : Vm → Option Vm
no_page m = none

-- All page tables of the kernel are there, and nothing is mapped.
abbrev ready_heap : KernelHeap
ready_heap = record empty_heap { vm = record empty_vm { directories = λ e d. some (λ i. 0) } }

-- The tables of the kernel are always found.
found :
    (p : ℕ) (m : Vm) → get_page_table kernel (address p) m ≡ m.directories kernel (pdx (address p))
found p m =
    get_page_table-reached kernel (address p) m (reached-kernel kernel (address p) m (omega arith))

ready_heap-Inv : Inv ready_heap
unfolding get_frame_info frame_in entry_frame
ready_heap-Inv = record {
  start = 0;
  start_in = omega arith;
  start_at = refl;
  known = λ p lt. inl (ap (λ o. frame_in o (address p) ready_heap.vm) (found p ready_heap.vm));
}

count-unmapped : (f : ℕ) (ss : List Slot) → count f ready_heap.vm.directories ss ≡ 0
unfolding count
count-unmapped f [] = refl
count-unmapped f (s ∷ ss) = omega (arith, count-unmapped f ss)

ready_heap-Ready : Ready (λ f. 0) (heap_slots pages 0) ready_heap.vm
ready_heap-Ready = record {
  counted = record {
    counts = λ f. omega (arith, count-unmapped f (heap_slots pages 0));
    free_unused = λ f h. refl;
    word = λ f. omega arith;
    valid = λ s ne. absurd (ne refl);
  };
  different = (refl, (refl, (refl, tt)));
  real = λ f h. ground arith;
  plain = λ f h. refl;
}

ready_heap-AllTables : AllTables (heap_slots pages 0) ready_heap
ready_heap-AllTables = record {
  listed = λ p lt.
      subst (λ x. Listed (heap_slots pages 0) (slot_of kernel (address x))) (omega arith)
        (heap_slots-Listed pages 0 p (omega arith) lt);
  tables = λ p lt. (λ i. 0, refl);
}

kmalloc-Served_example :
    Null ready_heap (kmalloc 50000 no_page 10000 ready_heap)
    ⊎ (Served
          (λ f. 0)
          (heap_slots pages 0)
          (5 ∷ 4 ∷ 6 ∷ [])
          []
          ready_heap
          (kmalloc 50000 no_page 10000 ready_heap)
        ⊎ Wrapped ready_heap 3 (kmalloc 50000 no_page 10000 ready_heap))
kmalloc-Served_example =
    kmalloc-Served (λ f. 0) (heap_slots pages 0) no_page ready_heap (5 ∷ 4 ∷ 6 ∷ []) [] 50000 10000
      ready_heap-Inv ready_heap-Ready ready_heap-AllTables refl (omega arith) (omega arith)
      (omega arith) refl

-- Every page holds frame 3, and the last block ended at the end of the heap.
abbrev full_heap : KernelHeap
full_heap = record empty_heap {
  start_add = heap_max;
  vm = record empty_vm { directories = λ e d. some (λ i. 12295) };
}

full_heap-IsFull : IsFull full_heap
unfolding get_frame_info frame_in entry_frame
full_heap-IsFull p lt = (3, ap (λ o. frame_in o (address p) full_heap.vm) (found p full_heap.vm))

kmalloc-endless_example : kmalloc 90000 no_page 1 full_heap ≡ none
kmalloc-endless_example =
    kmalloc-endless no_page full_heap 90000 1 refl full_heap-IsFull (omega arith)

-- One block of two pages, which hold the frames 3 and 4.
abbrev two_pages : ℕ → ℕ
two_pages i = if i == 0 then 12291 else if i == 1 then 16387 else 0

abbrev block : Block
block = record { first = heap_start; last = heap_start + 4096; size = 8192 }

abbrev one_block : KernelHeap
one_block = record {
  start_add = heap_start + 8192;
  idx = 1;
  kheap_arr = λ n. if n == 0 then block else no_block;
  vm = record empty_vm {
    frames_info = λ f.
        if (f == 3)
        then record blank { references = 1 }
        else if f == 4
        then record blank { references = 1 }
        else blank;
    free_frame_list = 5 ∷ [];
    directories = λ e d. if (e == kernel) && (d == 984) then some two_pages else none;
  };
}

abbrev slots : List Slot
slots = slot_of kernel heap_start ∷ slot_of kernel (heap_start + 4096) ∷ []

one_block-Counted : Counted (λ f. 0) slots one_block.vm
unfolding count
one_block-Counted = record {
  counts = λ f. ground arith;
  free_unused = λ f h. ground arith;
  word = λ f. ground arith;
  valid = λ s ne. ground arith;
}

slots-Listed : (q : ℕ) → q < 2 → Listed slots (slot_of kernel (heap_start + q * 4096))
slots-Listed zero lt = ([], slot_of kernel (heap_start + 4096) ∷ [], refl, tt, (refl, tt))
slots-Listed (suc zero) lt = (slot_of kernel heap_start ∷ [], [], refl, (refl, tt), tt)
slots-Listed (suc (suc q)) lt = absurd (omega arith)

block_found : find_block 1 heap_start one_block.kheap_arr ≡ some block
unfolding find_block
block_found = refl

kfree_example :
    (j : Vm) × (kfree 3 heap_start one_block ≡ some (record one_block { vm = j }))
    × Released (λ f. 0) slots (in_block heap_start 2) one_block.vm j
kfree_example =
    kfree-Released (λ f. 0) slots 2 3 heap_start block one_block one_block-Counted block_found refl
      slots-Listed (omega arith) (omega arith)

first-Passed :
    (q : ℕ) → q < 1 → Passed 4 (get_frame_info kernel (heap_start + q * 4096) one_block.vm)
unfolding get_frame_info get_page_table frame_in entry_frame
first-Passed zero lt = (refl, refl)
first-Passed (suc q) lt = absurd (omega arith)

virtual_example :
    kheap_virtual_address (kheap_physical_address (heap_start + 1 * 4096) one_block) one_block
    ≡ some (heap_start + 1 * 4096)
unfolding get_frame_info get_page_table frame_in entry_frame
virtual_example = kheap_virtual_address-physical 4 1 one_block (omega arith) first-Passed refl
