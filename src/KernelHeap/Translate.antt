-- ===== src/KernelHeap/Translate.antt =====
-- kern/kheap.c: the translation of addresses of the kernel heap in both directions.
use fos_kernel.Prelude.{
  ℕ, zero, suc, ◌+◌, ◌*◌, ◌/◌, ◌<◌, ◌≡◌, refl, sym, ap, ◌∙◌, inl, inr, Bool, true, false, Option,
  none, some, leb, ◌==◌, ==-refl, if◌then◌else◌, arith, Bool-cases, subst,
}
use fos_kernel.Frames.{
  Vm, Mapped, no_frame, invalid, frame, ptx, get_page_table, get_frame_info, frame_in, entry_frame,
  to_frame_info,
}
use fos_kernel.KernelHeap.{
  kernel, heap_start, KernelHeap, is_frame, panics_at, find_page, heap_pages, find_frame,
  kheap_virtual_address, address_in, kheap_physical_address,
}

-- No page holds the frame, and no entry is one of a number that is no frame's.
abbrev pub Passed : ℕ → Mapped → Type 0
Passed f at = (is_frame f at ≡ false) × (panics_at at ≡ false)

find_page-first :
    (f p n i : ℕ) (m : Vm)
    → p < n
    → ((q : ℕ) → q < p → Passed f (get_frame_info kernel (i + q * 4096) m))
    → get_frame_info kernel (i + p * 4096) m ≡ frame f
    → find_page n f i m ≡ some (i + p * 4096)
unfolding find_page
find_page-first f p zero i m lt before here = absurd (omega arith)
find_page-first f zero (suc n) i m lt before here =
    let at_i : get_frame_info kernel i m ≡ frame f =
      ap (λ k. get_frame_info kernel k m) (omega arith) ∙ here in
    let rest = find_page n f (i + 4096) m in
    ap (λ k. if panics_at k then none else if is_frame f k then some i else rest) at_i
    ∙ ap (λ b. if b then some i else rest) (==-refl f)
    ∙ ap some (omega arith)
find_page-first f (suc p) (suc n) i m lt before here =
    let at_i : Passed f (get_frame_info kernel i m) =
      subst (λ k. Passed f (get_frame_info kernel k m)) (omega arith) (before 0 (omega arith)) in
    let rest =
      find_page-first f p n (i + 4096) m (omega arith)
        (λ q lt1.
          subst (λ k. Passed f (get_frame_info kernel k m)) (omega arith)
            (before (q + 1) (omega arith)))
        (ap (λ k. get_frame_info kernel k m) (omega arith) ∙ here) in
    rw (at_i.0, at_i.1) (rest ∙ ap some (omega arith))

-- A page that holds a frame has its address, and the frame is one of the machine.
abbrev pub Found : ℕ → Vm → Option (ℕ → ℕ) → ℕ → Type 0
Found va m o f = (address_in o va ≡ f * 4096) × (f < m.number_of_frames)

frame_of : Mapped → ℕ
frame_of no_frame = 0
frame_of invalid = 0
frame_of (frame f) = f

is_one : Mapped → Bool
is_one no_frame = false
is_one invalid = false
is_one (frame f) = true

frame_in-Found :
    (va f : ℕ) (m : Vm) (o : Option (ℕ → ℕ)) → frame_in o va m ≡ frame f → Found va m o f
unfolding frame_in entry_frame is_one frame_of
frame_in-Found va f m none is = absurd (ground (arith, ap is_one is))
frame_in-Found va f m (some t) is = elim (Bool-cases (t (ptx va) == 0)) [
  | inl empty ↦
      let now : frame_in (some t) va m ≡ no_frame = rw empty refl in
      absurd (ground (arith, ap is_one (sym now ∙ is)))
  | inr mapped ↦ elim (Bool-cases (leb m.number_of_frames (t (ptx va) / 4096))) [
    | inl out ↦
        let now : frame_in (some t) va m ≡ invalid = rw (mapped, out) refl in
        absurd (ground (arith, ap is_one (sym now ∙ is)))
    | inr known ↦
        let now : frame_in (some t) va m ≡ frame (t (ptx va) / 4096) = rw (mapped, known) refl in
        let same : t (ptx va) / 4096 ≡ f = ap frame_of (sym now ∙ is) in
        (omega (arith, same), ground (arith, same, known))
  ]
]

-- For a page of the heap below `startAdd` that holds a frame, which no earlier page of the heap holds, and
-- with no number among the earlier entries that is no frame's: `kheap_virtual_address` of what
-- `kheap_physical_address` gives for the page's address is that address again.
pub kheap_virtual_address-physical :
    (f p : ℕ) (h : KernelHeap)
    → p < heap_pages h
    → ((q : ℕ) → q < p → Passed f (get_frame_info kernel (heap_start + q * 4096) h.vm))
    → get_frame_info kernel (heap_start + p * 4096) h.vm ≡ frame f
    → kheap_virtual_address (kheap_physical_address (heap_start + p * 4096) h) h
      ≡ some (heap_start + p * 4096)
unfolding kheap_virtual_address kheap_physical_address get_frame_info to_frame_info
kheap_virtual_address-physical f p h inside before here =
    let va = heap_start + p * 4096 in
    let (at, known) = frame_in-Found va f h.vm (get_page_table kernel va h.vm) here in
    let in_machine : leb h.vm.number_of_frames (f * 4096 / 4096) ≡ false = ground arith in
    ap (λ pa. find_frame (to_frame_info pa h.vm) h) at
    ∙ ap (λ b. find_frame (if b then none else some (f * 4096 / 4096)) h) in_machine
    ∙ ap (λ k. find_page (heap_pages h) k heap_start h.vm) (omega arith)
    ∙ find_page-first f p (heap_pages h) heap_start h.vm inside before here
