-- ===== src/UserHeap/Tests.antt =====
-- The user heap at its first allocations, and the theorems at concrete heaps.
use fos_kernel.Prelude.{◌≡◌, refl, true, some, [], ◌∷◌, arith}
use fos_kernel.UserHeap.{
  heap_start, UserHeap, sys_allocate_mem, write, malloc, next_fit_algo, search, after_search,
  allocate_at, free,
}
use fos_kernel.UserHeap.Inv.{Inv}
use fos_kernel.UserHeap.Allocate.{Allocated, Served, malloc_lem}
use fos_kernel.UserHeap.Release.{Released, free_lem, free-Allocated}

abbrev empty : UserHeap
empty = record {
  start_add = heap_start;
  check_list = λ p. 0;
  first = λ p. 0;
  size = λ p. 0;
  calls = [];
}

empty-Inv : Inv empty
empty-Inv = record {
  start = 0;
  start_at = refl;
  start_in = omega arith;
  start_Boundary = λ q lt. absurd (omega arith);
  inside = λ p l. absurd (omega arith);
  apart = λ p l. absurd (omega arith);
  entry = λ p i l. absurd (omega arith);
  no_entry = λ p i e. refl;
}

-- A first request of 5000 bytes takes the first two pages.
abbrev used : UserHeap
used = record {
  start_add = heap_start;
  check_list = write empty.check_list 0 2;
  first = write empty.first 0 heap_start;
  size = write empty.size 0 8192;
  calls = sys_allocate_mem heap_start 8192 ∷ [];
}

first_request : malloc true 0 5000 empty ≡ some (heap_start, used)
unfolding malloc next_fit_algo search after_search allocate_at
first_request = refl

malloc_example : Served empty 2 (malloc true 0 5000 empty)
malloc_example = malloc_lem 0 5000 empty empty-Inv (omega arith) (omega arith)

used-Inv : Inv used
used-Inv = record {
  start = 0;
  start_at = refl;
  start_in = omega arith;
  start_Boundary = λ q lt. absurd (omega arith);
  inside = λ p l. ground arith;
  apart = λ p l q lt. ground arith;
  entry = λ p i l. ground arith;
  no_entry = λ p i e. ground arith;
}

free_example : Released used 0 (free 7 heap_start used)
free_example = free_lem used 0 used-Inv (omega arith) 7

used-Allocated : Allocated empty 2 heap_start used
used-Allocated = record {
  block = 0;
  at = refl;
  fits = omega arith;
  apart = λ q l. absurd (omega arith);
  now = λ q. refl;
  called = refl;
  kept = used-Inv;
}

free-Allocated_example : (free 7 heap_start used).check_list 0 ≡ 0
free-Allocated_example = free-Allocated empty 2 heap_start used 7 (omega arith) used-Allocated 0
