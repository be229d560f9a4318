-- ===== src/KernelHeap/Serve.antt =====
-- kern/kheap.c: `kmalloc` while there are frames.
use fos_kernel.Prelude.{
  ℕ, zero, suc, ◌+◌, ◌-◌, ◌*◌, ◌/◌, ◌^◌, ◌<◌, ◌≤◌, ◌≡◌, refl, sym, ap, ◌∙◌, ◌⊎◌, inl, inr, Bool,
  true, false, Option, none, some, List, [], ◌∷◌, ◌++◌, leb, ◌==◌, arith, Bool-cases, subst, length,
}
use mathlib.Core.Option.{some-injective}
use fos_kernel.Frames.{
  Vm, Mapped, no_frame, invalid, frame, ptx, pdx, get_frame_info, frame_in, entry_frame,
}
use fos_kernel.Frames.Entries.{
  get_page_table-reached, reached-kernel, Slot, slot_of, same_slot, Absent, index_in, entry_at,
}
use fos_kernel.KernelHeap.{kernel, KernelHeap, roundup, kmalloc}
use fos_kernel.KernelHeap.Rounds.{pages, address}
use fos_kernel.KernelHeap.Alloc.{Inv, Null, Wrapped, page_in, kmalloc-Outcome}
use fos_kernel.KernelHeap.Release.{Listed}
use fos_kernel.KernelHeap.Fill.{Ready, HasTable, Filled, Room, map_pages-Filled}

is_empty : Mapped → Bool
is_empty no_frame = true
is_empty invalid = false
is_empty (frame f) = false

-- A page without a frame has an entry of 0, or no table.
no_entry :
    (va : ℕ) (m : Vm) (o : Option (ℕ → ℕ)) → frame_in o va m ≡ no_frame → index_in o (ptx va) ≡ 0
unfolding frame_in entry_frame is_empty
no_entry va m none is = refl
no_entry va m (some t) is = elim (Bool-cases (t (ptx va) == 0)) [
  | inl empty ↦ ground (arith, empty)
  | inr mapped ↦ elim (Bool-cases (leb m.number_of_frames (t (ptx va) / 4096))) [
    | inl out ↦
        let now : frame_in (some t) va m ≡ invalid = rw (mapped, out) refl in
        absurd (ground (arith, ap is_empty (sym now ∙ is)))
    | inr known ↦
        let now : frame_in (some t) va m ≡ frame (t (ptx va) / 4096) = rw (mapped, known) refl in
        absurd (ground (arith, ap is_empty (sym now ∙ is)))
  ]
]

-- Every page of the heap has a page table, and the entries of its pages are counted.
pub record AllTables (ss : List Slot) (h : KernelHeap) : Type 0 where
  pub listed : (p : ℕ) → p < pages → Listed ss (slot_of kernel (address p))
  pub tables : (p : ℕ) → p < pages → HasTable h.vm (address p)

-- The entries of `n` pages of the heap, from `p` on.
unfoldable pub heap_slots : ℕ → ℕ → List Slot
heap_slots zero p = []
heap_slots (suc n) p = slot_of kernel (address p) ∷ heap_slots n (p + 1)

heap_slots-Absent :
    (n p q : ℕ) → p + n ≤ pages → q < p → Absent (slot_of kernel (address q)) (heap_slots n p)
unfolding heap_slots
heap_slots-Absent zero p q fits lt = tt
heap_slots-Absent (suc n) p q fits lt =
    (ground (arith, fits, lt), heap_slots-Absent n (p + 1) q (omega arith) (omega arith))

-- Each entry of the heap is among them once.
pub heap_slots-Listed :
    (n p q : ℕ) → p + n ≤ pages → q < n → Listed (heap_slots n p) (slot_of kernel (address (p + q)))
unfolding heap_slots
heap_slots-Listed zero p q fits lt = absurd (omega arith)
heap_slots-Listed (suc n) p zero fits lt =
    subst
      (λ x. Listed (slot_of kernel (address p) ∷ heap_slots n (p + 1)) (slot_of kernel (address x)))
      (omega arith)
      (
        [],
        heap_slots n (p + 1),
        refl,
        tt,
        heap_slots-Absent n (p + 1) p (omega arith) (omega arith),
      )
heap_slots-Listed (suc n) p (suc q) fits lt =
    let apart : same_slot (slot_of kernel (address p)) (slot_of kernel (address (p + suc q)))
        ≡ false =
      ground (arith, fits, lt) in
    let (xs, ys, split, ax, ay) =
      subst (λ x. Listed (heap_slots n (p + 1)) (slot_of kernel (address x))) (omega arith)
        (heap_slots-Listed n (p + 1) q (omega arith) (omega arith)) in
    (
      slot_of kernel (address p) ∷ xs,
      ys,
      ap (λ l. slot_of kernel (address p) ∷ l) split,
      (apart, ax),
      ay,
    )

Room-at :
    (ss : List Slot) (h : KernelHeap) (f n : ℕ)
    → AllTables ss h
    → f + n ≤ pages
    → ((q : ℕ) → f ≤ q → q < f + n → page_in h.vm (address q) ≡ no_frame)
    → Room ss (address f) n h.vm
unfolding get_frame_info
Room-at ss h f n all fits free =
    let at : (q : ℕ) → address (f + q) ≡ address f + q * 4096 = λ q. omega arith in
    record {
      listed = λ q lt.
          subst (λ a. Listed ss (slot_of kernel a)) (at q) (all.listed (f + q) (omega arith));
      tables = λ q lt. subst (HasTable h.vm) (at q) (all.tables (f + q) (omega arith));
      empty = λ q lt.
          subst (λ a. entry_at h.vm.directories (slot_of kernel a) ≡ 0) (at q)
            (no_entry (address (f + q)) h.vm (h.vm.directories kernel (pdx (address (f + q)))) (
              ap (λ o. frame_in o (address (f + q)) h.vm)
                (sym (
                  get_page_table-reached kernel (address (f + q)) h.vm
                    (reached-kernel kernel (address (f + q)) h.vm (omega arith))))
              ∙ free (f + q) (omega arith) (omega arith)));
    }

-- The address of a block whose pages are mapped to the first free frames.
abbrev pub Served :
    (ℕ → ℕ) → List Slot → List ℕ → List ℕ → KernelHeap → Option (ℕ × KernelHeap) → Type 0
Served pinned ss fs rest h r =
    (f : ℕ) × (j : KernelHeap) × (f + length fs ≤ pages)
    × (r ≡ some (address f, j))
    × Filled pinned ss (address f) fs rest h.vm j.vm

-- `kmalloc` of as many pages as there are frames in `fs`, the first of the free ones, with a search that
-- begins inside of the heap, every page of which has a page table. The search ends. Its result is
-- NULL with nothing mapped; or free pages that follow one another, mapped to the frames of `fs` in
-- order, with no other entry changed and the counts of references right; or, where the free pages
-- lie at both ends of the heap, the address of the first of them with nothing mapped.
pub kmalloc-Served :
    (pinned : ℕ → ℕ) (ss : List Slot) (new_page : Vm → Option Vm) (h : KernelHeap)
    (fs rest : List ℕ) (fuel size : ℕ)
    → Inv h
    → Ready pinned ss h.vm
    → AllTables ss h
    → h.vm.free_frame_list ≡ fs ++ rest
    → 0 < length fs
    → length fs < 2 ^ 20
    → pages + 1 < fuel
    → roundup size ≡ length fs * 4096
    → Null h (kmalloc fuel new_page size h)
      ⊎ (Served pinned ss fs rest h (kmalloc fuel new_page size h)
          ⊎ Wrapped h (length fs) (kmalloc fuel new_page size h))
kmalloc-Served pinned ss new_page h fs rest fuel size inv ready all free some_pages sized enough
      rounded =
    let n = length fs in
    elim (kmalloc-Outcome new_page h n fuel size inv some_pages sized enough rounded) [
      | inl null ↦ inl null
      | inr (inr wrapped) ↦ inr (inr wrapped)
      | inr (inl (f, fits, unmapped, outcome)) ↦
          let (m, is, filled) =
            map_pages-Filled pinned ss new_page fs rest fuel (address f) (address (f + n - 1)) h.vm
              ready (Room-at ss h f n all fits unmapped) free (omega arith) (omega arith)
              (omega arith) (omega arith) in
          elim outcome [
            | inl (stops, r) ↦ cc (stops, is)
            | inr (k, j, is_k, r, vm, start) ↦
                let same : m ≡ k = some-injective m k (sym is ∙ is_k) in
                inr (
                  inl (
                    f,
                    j,
                    fits,
                    r,
                    subst (Filled pinned ss (address f) fs rest h.vm) (same ∙ sym vm) filled,
                  ))
          ]
    ]
