-- ===== src/KernelHeap/Endless.antt =====
-- kern/kheap.c: where the search of `kmalloc` does not end.
use fos_kernel.Prelude.{
  ℕ, zero, suc, ◌+◌, ◌%◌, ◌^◌, ◌<◌, ◌≤◌, ◌≡◌, refl, ap, ◌∙◌, false, Option, none, some, ltb, ◌==◌,
  ==-refl, ==-ne, if◌then◌else◌, arith,
}
use fos_kernel.Frames.{Vm, Mapped, frame}
use fos_kernel.KernelHeap.{
  heap_max, Block, KernelHeap, roundup, Cursor, ends, enter, visit, after_visit, search, block_at,
  after_search, begin, next_fit_algo, kmalloc,
}
use fos_kernel.KernelHeap.Rounds.{pages, address}
use fos_kernel.KernelHeap.Alloc.{page_in}

-- Every page of the heap is in use.
abbrev pub IsFull : KernelHeap → Type 0
IsFull h = (p : ℕ) → p < pages → (f : ℕ) × (page_in h.vm (address p) ≡ frame f)

module _ (page : ℕ → Mapped) (size : ℕ)
    (full : (p : ℕ) → p < pages → (f : ℕ) × (page (address p) ≡ frame f))
    (some_size : 0 < size) where
  endless :
      (fuel p : ℕ) (c : Cursor)
      → p ≤ pages
      → c.i ≡ address p
      → c.y ≡ 0
      → search fuel page heap_max size c ≡ none
  unfolding search
  endless zero p c le at y_zero = refl
  endless (suc fuel) p c le at y_zero =
      let q : ℕ = if p == pages then 0 else p in
      let e = enter heap_max c in
      let q_in : q < pages = ground arith in
      let e_i : e.i ≡ address q = ground (arith, at) in
      let e_y : e.y ≡ 0 = ground (arith, at, y_zero, le) in
      let inside : ltb heap_max c.i ≡ false = ground (arith, at, le) in
      let not_two : (e.y == 2) ≡ false = ap (λ y. y == 2) e_y in
      let (f, busy) = full q q_in in
      let go =
        λ (d : Cursor). search fuel page heap_max size (record d { i = (d.i + 4096) % 2 ^ 32 }) in
      let d = record e { x = 0 } in
      let more : (0 == size) ≡ false = ==-ne 0 size (λ z. omega (arith, z)) in
      rw (inside, not_two)
        (ap (λ m. after_visit size (visit m e) go) (ap page e_i ∙ busy)
          ∙ ap (λ b. if b then some (ends d) else go d) more
          ∙ endless fuel (q + 1) (record d { i = (d.i + 4096) % 2 ^ 32 }) (omega (arith, q_in))
              (omega (arith, e_i, q_in)) e_y)

-- Where the last block ended at the end of the heap and every page is in use, the search of `kmalloc` never
-- meets the place where it began, so it never ends: no fuel is enough.
pub kmalloc-endless :
    (new_page : Vm → Option Vm) (h : KernelHeap) (fuel size : ℕ)
    → h.start_add ≡ heap_max
    → IsFull h
    → 0 < roundup size
    → kmalloc fuel new_page size h ≡ none
unfolding kmalloc next_fit_algo
kmalloc-endless new_page h fuel size at_end full some_size =
    let b : Block = record {
      first = (h.kheap_arr h.idx).first;
      last = (h.kheap_arr h.idx).last;
      size = roundup size;
    } in
    let h1 = record h { kheap_arr = block_at h.kheap_arr h.idx b } in
    let page = page_in h.vm in
    let size_now : (h1.kheap_arr h.idx).size ≡ roundup size =
      ap (λ t. (if t then b else h.kheap_arr h.idx).size) (==-refl h.idx) in
    let at_max : h.start_add ≡ address pages = omega (arith, at_end) in
    ap (λ r. after_search fuel new_page h1 r)
      (ap (λ a. search fuel page a (h1.kheap_arr h.idx).size (begin h1)) at_end
        ∙ ap (λ k. search fuel page heap_max k (begin h1)) size_now
        ∙ endless page (roundup size) full some_size fuel pages (begin h1) (omega arith) at_max
            refl)
