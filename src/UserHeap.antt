-- ===== src/UserHeap.antt =====
-- lib/uheap.c: `malloc` and `free` of the user heap, with the next-fit search.
-- The heap has 131072 pages of 4096 bytes from USER_HEAP_START on, up to USER_HEAP_MAX. The calls of
-- the kernel, sys_allocateMem and sys_freeMem, are written to a trace.
pub mod Inv
pub mod Round
pub mod NextFit
pub mod Allocate
pub mod Release
mod Tests
use fos_kernel.Prelude.{
  ℕ, zero, suc, ◌+◌, ◌-◌, ◌*◌, ◌/◌, ◌%◌, ◌^◌, Bool, true, false, Option, none, some, List, [], ◌∷◌,
  leb, ◌==◌, if◌then◌else◌,
}

abbrev pub heap_start : ℕ
heap_start = 2147483648

abbrev pub heap_max : ℕ
heap_max = 2684354560

abbrev pub pages : ℕ
pages = 131072

-- `(a - USER_HEAP_START) / PAGE_SIZE` on `uint32`.
abbrev pub page : ℕ → ℕ
page a = (a + 2 ^ 32 - heap_start) % 2 ^ 32 / 4096

abbrev pub roundup : ℕ → ℕ
roundup a = let b = (a + 4095) % 2 ^ 32 in b - b % 4096

pub data Call : Type 0 where
  sys_allocate_mem sys_free_mem : ℕ → ℕ → Call

-- `check_list` has the number of pages of the block that starts at a page, and `first` and `size` are
-- the two columns of `uHeapArr`.
pub record UserHeap : Type 0 where
  pub start_add : ℕ
  pub check_list : ℕ → ℕ
  pub first : ℕ → ℕ
  pub size : ℕ → ℕ
  pub calls : List Call

-- The local variables of `nextFitAlgo`. `tmp` has no value at the start.
pub record Search : Type 0 where
  pub new_add : ℕ
  pub new_size : ℕ
  pub tmp : ℕ
  pub flag : Bool
  pub space_pages : ℕ

abbrev pub write : (ℕ → ℕ) → ℕ → ℕ → ℕ → ℕ
write f p v q = if q == p then v else f q

-- The first two branches of the loop: one more free page.
abbrev pub take_page : Search → Search
take_page s = record {
  new_add = (s.new_add + 4096) % 2 ^ 32;
  new_size = (s.new_size + 4096) % 2 ^ 32;
  tmp = if s.flag then s.tmp else s.new_add;
  flag = true;
  space_pages = s.space_pages - 1;
}

-- The third branch: past the block that starts here.
abbrev pub skip_block : ℕ → Search → Search
skip_block n s = record {
  new_add = (s.new_add + n * 4096) % 2 ^ 32;
  new_size = 0;
  tmp = s.tmp;
  flag = false;
  space_pages = (s.space_pages + 2 ^ 32 - n) % 2 ^ 32;
}

-- The last test of the loop's body.
abbrev pub wrap_around : Search → Search
wrap_around s =
    if leb heap_max s.new_add
    then record s { new_add = heap_start; new_size = 0; flag = false }
    else s

-- The loop of `nextFitAlgo`: `found`, and the variables behind it.
unfoldable pub search : ℕ → (ℕ → ℕ) → ℕ → Search → Option (Bool × Search)
search zero check size s = none
search (suc fuel) check size s =
    let n = check (page s.new_add) in
    let s1 = if n == 0 then take_page s else skip_block n s in
    let rest = search fuel check size (wrap_around s1) in
    if s.space_pages == 0
    then some (false, s)
    else if n == 0
    then if leb size s1.new_size then some (true, s1) else rest
    else if leb size s.new_size
    then some (true, s)
    else if leb size s1.new_size
    then some (true, s1)
    else rest

-- One round more than there are pages.
abbrev pub rounds : ℕ
rounds = 131073

-- What `nextFitAlgo` does once `startAdd` is at the block: the result and the state.
unfoldable pub allocate_at : ℕ → ℕ → UserHeap → ℕ × UserHeap
allocate_at a size u = (
  a,
  record {
    start_add = if leb heap_max ((a + size) % 2 ^ 32) then heap_start else a;
    check_list = write u.check_list (page a) (size / 4096);
    first = write u.first (page a) a;
    size = write u.size (page a) size;
    calls = sys_allocate_mem a size ∷ u.calls;
  },
)

-- `nextFitAlgo` behind its loop.
unfoldable pub after_search : ℕ → UserHeap → Option (Bool × Search) → Option (ℕ × UserHeap)
after_search size u none = none
after_search size u (some (found, s)) =
    if found
    then some (allocate_at s.tmp size u)
    else if leb size s.new_size
    then some (allocate_at s.tmp size u)
    else some (0, u)

abbrev pub begin : ℕ → UserHeap → Search
begin garbage u = record {
  new_add = u.start_add;
  new_size = 0;
  tmp = garbage;
  flag = false;
  space_pages = pages;
}

unfoldable pub next_fit_algo : ℕ → ℕ → UserHeap → Option (ℕ × UserHeap)
next_fit_algo garbage size u =
    after_search size u (search rounds u.check_list size (begin garbage u))

-- `malloc`, where `next_fit` is what sys_isUHeapPlacementStrategyNEXTFIT answers; with any other
-- strategy the result is NULL.
unfoldable pub malloc : Bool → ℕ → ℕ → UserHeap → Option (ℕ × UserHeap)
malloc next_fit garbage size u =
    if next_fit then next_fit_algo garbage (roundup size) u else some (0, u)

-- The loop of `free`, with `left` entries to go: the first entry whose block starts at `a`.
unfoldable pub find_entry : ℕ → (ℕ → ℕ) → ℕ → ℕ → Option ℕ
find_entry zero first a i = none
find_entry (suc left) first a i =
    let rest = find_entry left first a (i + 1) in if first i == a then some i else rest

-- `free` behind its loop; `garbage` is the value of `size` where no entry is found.
unfoldable pub release : ℕ → ℕ → UserHeap → Option ℕ → UserHeap
release garbage a u none = record u { calls = sys_free_mem a garbage ∷ u.calls }
release garbage a u (some i) = record u {
  first = write u.first i 0;
  size = write u.size i 0;
  check_list = write u.check_list (page a) 0;
  calls = sys_free_mem a (u.size i) ∷ u.calls;
}

unfoldable pub free : ℕ → ℕ → UserHeap → UserHeap
free garbage a u = release garbage a u (find_entry pages u.first a 0)
