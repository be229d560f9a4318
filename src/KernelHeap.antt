-- ===== src/KernelHeap.antt =====
-- kern/kheap.c: the kernel heap, over the frames and page tables of kern/memory_manager.c.
-- The kernel's page directory stands in `directories` at `kernel`. The strategy is next fit. A result none is
-- a panic, or that the fuel is used up.
pub mod Rounds
pub mod Search
pub mod Alloc
pub mod Endless
pub mod Release
pub mod Fill
pub mod Serve
pub mod Translate
mod Tests
use fos_kernel.Prelude.{
  ℕ, zero, suc, ◌+◌, ◌-◌, ◌*◌, ◌/◌, ◌%◌, ◌^◌, Bool, true, false, not, ◌&&◌, Option, none, some,
  List, [], ◌∷◌, ltb, leb, ◌==◌, if◌then◌else◌,
}
use fos_kernel.Frames.{
  Vm, pdx, ptx, Mapped, no_frame, invalid, frame, get_frame_info, get_page_table, write_in,
  unmap_frame, allocate_frame, map_frame, to_frame_info,
}

-- The place of `ptr_page_directory`, behind those of the environments.
abbrev pub kernel : ℕ
kernel = 1266

abbrev pub heap_start : ℕ
heap_start = 0xF6000000

abbrev pub heap_max : ℕ
heap_max = 0xFFFFF000

-- `struct KernelHEAP`
pub record Block : Type 0 where
  pub first : ℕ
  pub last : ℕ
  pub size : ℕ

pub record KernelHeap : Type 0 where
  pub start_add : ℕ
  pub idx : ℕ
  pub kheap_arr : ℕ → Block
  pub vm : Vm

abbrev pub roundup : ℕ → ℕ
roundup a = let b = (a + 4095) % 2 ^ 32 in b - b % 4096

-- The variables of the search, with `kHeapArr[IDX].first` and `.last`.
pub record Cursor : Type 0 where
  pub i : ℕ
  pub x : ℕ
  pub y : ℕ
  pub first : ℕ
  pub last : ℕ

-- The loop of the search ends, or returns NULL.
pub data Result : Type 0 where
  ends : Cursor → Result
  null : Cursor → Result

abbrev pub enter : ℕ → Cursor → Cursor
enter start s =
    let i = if s.i == heap_max then heap_start else s.i in
    record s { i = i; y = if i == start then s.y + 1 else s.y }

abbrev pub grow : Cursor → Cursor
grow s = record s {
  first = if s.x == 0 then s.i else s.first;
  last = s.i;
  x = (s.x + 4096) % 2 ^ 32;
}

-- The page at `i`, by what `get_frame_info` gives; none is a panic of `to_frame_info`.
abbrev pub visit : Mapped → Cursor → Option Cursor
visit no_frame s = some (grow s)
visit invalid s = none
visit (frame f) s = some (record s { x = 0 })

abbrev pub after_visit : ℕ → Option Cursor → (Cursor → Option Result) → Option Result
after_visit size none go = none
after_visit size (some s) go = if s.x == size then some (ends s) else go s

-- The loop of `nextFitAlgo`, by the pages of the kernel.
unfoldable pub search : ℕ → (ℕ → Mapped) → ℕ → ℕ → Cursor → Option Result
search zero page start size s = none
search (suc fuel) page start size s =
    let e = enter start s in
    let go =
      after_visit size (visit (page e.i) e)
        (λ s1. search fuel page start size (record s1 { i = (s1.i + 4096) % 2 ^ 32 })) in
    if ltb heap_max s.i
    then some (ends s)
    else if (e.y == 2) && not (e.x == size)
    then some (null e)
    else go

-- The loop that maps the pages `j` to `last`, with `new_page` as in `map_frame`.
unfoldable pub map_pages : ℕ → (Vm → Option Vm) → ℕ → ℕ → Vm → Option Vm
map_pages zero new_page j last m = none
map_pages (suc fuel) new_page j last m =
    let go : Option Vm = elim (allocate_frame m) [
      | none ↦ none
      | some (f, m1) ↦ elim (map_frame new_page kernel f j 3 m1) [
        | none ↦ none
        | some m2 ↦ map_pages fuel new_page (j + 4096) last m2
      ]
    ] in
    if leb j last then go else some m

abbrev pub block_at : (ℕ → Block) → ℕ → Block → ℕ → Block
block_at arr k b n = if n == k then b else arr n

-- What is left of `nextFitAlgo` when the loop has ended.
abbrev pub finish : ℕ → KernelHeap → Option Vm → Option (ℕ × KernelHeap)
finish last h none = none
finish last h (some m) = some (
  (h.kheap_arr h.idx).first,
  record h { vm = m; start_add = (last + 4096) % 2 ^ 32; idx = h.idx + 1 },
)

abbrev pub with_search : KernelHeap → Cursor → KernelHeap
with_search h s = record h {
  kheap_arr =
      block_at h.kheap_arr h.idx
        (record { first = s.first; last = s.last; size = (h.kheap_arr h.idx).size });
}

abbrev pub after_search :
    ℕ → (Vm → Option Vm) → KernelHeap → Option Result → Option (ℕ × KernelHeap)
after_search fuel new_page h none = none
after_search fuel new_page h (some (null s)) = some (0, with_search h s)
after_search fuel new_page h (some (ends s)) = finish s.last (with_search h s) (
    if s.x == (h.kheap_arr h.idx).size
    then map_pages fuel new_page s.first s.last h.vm
    else some h.vm)

abbrev pub begin : KernelHeap → Cursor
begin h =
    let b = h.kheap_arr h.idx in
    record { i = h.start_add; x = 0; y = 0; first = b.first; last = b.last }

unfoldable pub next_fit_algo : ℕ → (Vm → Option Vm) → KernelHeap → Option (ℕ × KernelHeap)
next_fit_algo fuel new_page h = after_search fuel new_page h (
    search fuel (λ va. get_frame_info kernel va h.vm) h.start_add (h.kheap_arr h.idx).size
      (begin h))

unfoldable pub kmalloc : ℕ → (Vm → Option Vm) → ℕ → KernelHeap → Option (ℕ × KernelHeap)
kmalloc fuel new_page size h =
    let b = h.kheap_arr h.idx in
    next_fit_algo fuel new_page (record h {
      kheap_arr =
          block_at h.kheap_arr h.idx
            (record { first = b.first; last = b.last; size = roundup size });
    })

-- The loop of `kfree` over the blocks below `n`: the last one that begins at the address.
unfoldable pub find_block : ℕ → ℕ → (ℕ → Block) → Option Block
find_block zero va arr = none
find_block (suc n) va arr =
    let rest = find_block n va arr in if (arr n).first == va then some (arr n) else rest

-- A page of a block is unmapped, and its entry is cleared.
abbrev pub free_page : ℕ → Vm → Option Vm
free_page va m = elim (unmap_frame kernel va m) [
  | none ↦ none
  | some m1 ↦ some (write_in (get_page_table kernel va m1) kernel va 0 m1)
]

-- The loop of `kfree` over the pages `i` to `end`.
unfoldable pub free_pages : ℕ → ℕ → ℕ → Vm → Option Vm
free_pages zero i end m = none
free_pages (suc fuel) i end m =
    let go : Option Vm = elim (free_page i m) [
      | none ↦ none
      | some m1 ↦ free_pages fuel (i + 4096) end m1
    ] in
    if leb i end then go else some m

abbrev pub with_vm : KernelHeap → Option Vm → Option KernelHeap
with_vm h none = none
with_vm h (some m) = some (record h { vm = m })

abbrev pub free_block : ℕ → Option Block → ℕ → KernelHeap → Option KernelHeap
free_block fuel none va h = some h
free_block fuel (some b) va h = with_vm h (free_pages fuel va b.last h.vm)

unfoldable pub kfree : ℕ → ℕ → KernelHeap → Option KernelHeap
kfree fuel va h = free_block fuel (find_block h.idx va h.kheap_arr) va h

abbrev pub is_frame : ℕ → Mapped → Bool
is_frame f no_frame = false
is_frame f invalid = false
is_frame f (frame g) = g == f

abbrev pub panics_at : Mapped → Bool
panics_at invalid = true
panics_at m = false

-- The loop of `kheap_virtual_address` over the pages from `i` on, with `n` left.
unfoldable pub find_page : ℕ → ℕ → ℕ → Vm → Option ℕ
find_page zero f i m = some 0
find_page (suc n) f i m =
    let rest = find_page n f (i + 4096) m in
    let here = get_frame_info kernel i m in
    if panics_at here then none else if is_frame f here then some i else rest

-- As many pages as the loop runs through, from the start of the heap up to `start_add`.
abbrev pub heap_pages : KernelHeap → ℕ
heap_pages h = (h.start_add - heap_start + 4095) / 4096

abbrev pub find_frame : Option ℕ → KernelHeap → Option ℕ
find_frame none h = none
find_frame (some f) h = find_page (heap_pages h) f heap_start h.vm

unfoldable pub kheap_virtual_address : ℕ → KernelHeap → Option ℕ
kheap_virtual_address pa h = find_frame (to_frame_info pa h.vm) h

abbrev pub address_in : Option (ℕ → ℕ) → ℕ → ℕ
address_in none va = 0
address_in (some t) va = t (ptx va) - t (ptx va) % 4096

unfoldable pub kheap_physical_address : ℕ → KernelHeap → ℕ
kheap_physical_address va h = address_in (get_page_table kernel va h.vm) va
