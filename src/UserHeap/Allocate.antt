-- ===== src/UserHeap/Allocate.antt =====
-- lib/uheap.c: what `malloc` gives, and what it leaves.
use fos_kernel.Prelude.{
  ℕ, ◌+◌, ◌-◌, ◌*◌, ◌/◌, ◌%◌, ◌^◌, ◌<◌, ◌≤◌, ◌≡◌, refl, sym, ap, ◌∙◌, ◌≢◌, ◌⊎◌, inl, inr, Bool,
  true, false, Option, none, some, ◌∷◌, ◌==◌, if◌then◌else◌, leb, arith, subst,
}
use native.Mathlib.Decide.{dec_lt, ℕ_discrete}
use fos_kernel.UserHeap.{
  heap_start, heap_max, pages, page, roundup, rounds, sys_allocate_mem, UserHeap, Search, write,
  search, allocate_at, begin, after_search, next_fit_algo, malloc,
}
use fos_kernel.UserHeap.Inv.{Boundary, address, page-address, Inv}
use fos_kernel.UserHeap.Round.{FreeRun, At}
use fos_kernel.UserHeap.NextFit.{leb-false, leb-true, Ends, search-Ends}

-- The block of `n` pages at `a` is inside the heap and apart from every block of `u`, and `j` has it
-- besides them; the kernel was asked to allocate it.
pub record Allocated (u : UserHeap) (n a : ℕ) (j : UserHeap) : Type 0 where
  pub block : ℕ
  pub at : a ≡ address block
  pub fits : block + n ≤ pages
  pub apart : (q : ℕ) → 0 < u.check_list q → (q + u.check_list q ≤ block) ⊎ (block + n ≤ q)
  pub now : (q : ℕ) → j.check_list q ≡ (if q == block then n else u.check_list q)
  pub called : j.calls ≡ sys_allocate_mem a (n * 4096) ∷ u.calls
  pub kept : Inv j

pub write_self : (f : ℕ → ℕ) (p v : ℕ) → write f p v p ≡ v
write_self f p v = ground arith

pub write_ne : (f : ℕ → ℕ) (p v q : ℕ) → q ≢ p → write f p v q ≡ f q
write_ne f p v q h = ground arith

module _ (u : UserHeap) (t n : ℕ) (inv : Inv u) (run : FreeRun u.check_list t n)
    (some_pages : 0 < n) where
  abbrev check : ℕ → ℕ
  check = write u.check_list t n

  stays-Boundary : (p : ℕ) → Boundary u.check_list p → (p ≤ t) ⊎ (t + n ≤ p) → Boundary check p
  stays-Boundary p b side q lt = elim (ℕ_discrete q t) [
    | yes e ↦ ground (arith, side)
    | no ne ↦ rw (write_ne u.check_list t n q ne) (b q lt)
  ]

  -- A block of `u` lies before or behind the new one.
  sides : (q : ℕ) → 0 < u.check_list q → (q + u.check_list q ≤ t) ⊎ (t + n ≤ q)
  sides q live = elim (dec_lt q t) [
    | yes l ↦ inl (run.boundary q l)
    | no g ↦ elim (dec_lt q (t + n)) [
      | yes inner ↦ absurd (omega (arith, run.free q (omega arith) inner))
      | no behind ↦ inr (omega arith)
    ]
  ]

  side-of : (q : ℕ) → 0 < u.check_list q → (q ≤ t) ⊎ (t + n ≤ q)
  side-of q live = omega (arith, sides q live)

  abbrev with_block : ℕ → UserHeap
  with_block st = record {
    start_add = st;
    check_list = check;
    first = write u.first t (address t);
    size = write u.size t (n * 4096);
    calls = sys_allocate_mem (address t) (n * 4096) ∷ u.calls;
  }

  new-inside : (p : ℕ) → 0 < check p → p + check p ≤ pages
  new-inside p live = elim (ℕ_discrete p t) [
    | yes e ↦ ground (arith, run.fits)
    | no ne ↦ ground (arith, inv.inside p)
  ]

  new-apart : (p : ℕ) → 0 < check p → Boundary check p
  new-apart p live = elim (ℕ_discrete p t) [
    | yes e ↦
        stays-Boundary p (subst (Boundary u.check_list) (sym e) run.boundary) (inl (omega arith))
    | no ne ↦
        let old : 0 < u.check_list p = subst (λ k. 0 < k) (write_ne u.check_list t n p ne) live in
        stays-Boundary p (inv.apart p old) (side-of p old)
  ]

  new-entry :
      (p : ℕ)
      → p < pages
      → 0 < check p
      → (write u.first t (address t) p ≡ address p) × (write u.size t (n * 4096) p ≡ check p * 4096)
  new-entry p inner live = elim (ℕ_discrete p t) [
    | yes e ↦ rw e (
      write_self u.first t (address t),
      write_self u.size t (n * 4096) ∙ ap (λ k. k * 4096) (sym (write_self u.check_list t n)),
    )
    | no ne ↦
        let same = write_ne u.check_list t n p ne in
        let old = inv.entry p inner (subst (λ k. 0 < k) same live) in
        (
          write_ne u.first t (address t) p ne ∙ old.0,
          write_ne u.size t (n * 4096) p ne ∙ old.1 ∙ ap (λ k. k * 4096) (sym same),
        )
  ]

  new-no_entry : (p : ℕ) → p < pages → check p ≡ 0 → write u.first t (address t) p ≡ 0
  new-no_entry p inner unused = elim (ℕ_discrete p t) [
    | yes e ↦ absurd (omega (arith, sym (write_self u.check_list t n) ∙ ap check (sym e) ∙ unused))
    | no ne ↦
        write_ne u.first t (address t) p ne
        ∙ inv.no_entry p inner (sym (write_ne u.check_list t n p ne) ∙ unused)
  ]

  with_block-Inv : (s : ℕ) → s < pages → Boundary check s → Inv (with_block (address s))
  with_block-Inv s lt b = record {
    start = s;
    start_at = refl;
    start_in = lt;
    start_Boundary = b;
    inside = new-inside;
    apart = new-apart;
    entry = new-entry;
    no_entry = new-no_entry;
  }

  abbrev marked : ℕ → ℕ → ℕ → ℕ × UserHeap
  marked st p k = (
    address t,
    record {
      start_add = st;
      check_list = write u.check_list p k;
      first = write u.first p (address t);
      size = write u.size p (n * 4096);
      calls = sys_allocate_mem (address t) (n * 4096) ∷ u.calls;
    },
  )

  allocate_at-with :
      (st : ℕ)
      → (if leb heap_max ((address t + n * 4096) % 2 ^ 32) then heap_start else address t) ≡ st
      → allocate_at (address t) (n * 4096) u ≡ (address t, with_block st)
  unfolding allocate_at
  allocate_at-with st e =
      let st0 = if leb heap_max ((address t + n * 4096) % 2 ^ 32) then heap_start else address t in
      let at_t : page (address t) ≡ t = page-address t (omega (arith, run.fits)) in
      let whole : n * 4096 / 4096 ≡ n = omega arith in
      ap (λ p. marked st0 p (n * 4096 / 4096)) at_t
      ∙ ap (λ k. marked st0 t k) whole
      ∙ ap (λ b. marked b t n) e

  allocated :
      (s : ℕ) → s < pages → Boundary check s → Allocated u n (address t) (with_block (address s))
  allocated s lt b = record {
    block = t;
    at = refl;
    fits = run.fits;
    apart = sides;
    now = λ q. refl;
    called = refl;
    kept = with_block-Inv s lt b;
  }

  pub allocate_at-Allocated :
      (j : UserHeap) × (allocate_at (address t) (n * 4096) u ≡ (address t, j))
      × Allocated u n (address t) j
  allocate_at-Allocated = elim (dec_lt (t + n) pages) [
    | yes inner ↦
        let st =
          ap (λ (b : Bool). if b then heap_start else address t)
            (leb-false heap_max ((address t + n * 4096) % 2 ^ 32) (omega arith)) in
        (
          with_block (address t),
          allocate_at-with (address t) st,
          allocated t (omega arith) (stays-Boundary t run.boundary (inl (omega arith))),
        )
    | no end ↦
        let st =
          ap (λ (b : Bool). if b then heap_start else address t)
            (leb-true heap_max ((address t + n * 4096) % 2 ^ 32) (omega (arith, run.fits))) in
        (
          with_block (address 0),
          allocate_at-with (address 0) st,
          allocated 0 (omega arith) (λ q lt. absurd (omega arith)),
        )
  ]

-- What `malloc` of `n` pages does: NULL and no change, or a block.
abbrev pub Served : UserHeap → ℕ → Option (ℕ × UserHeap) → Type 0
Served u n r =
    (r ≡ some (0, u)) ⊎ ((a : ℕ) × (j : UserHeap) × (r ≡ some (a, j)) × Allocated u n a j)

begin-At :
    (garbage : ℕ) (u : UserHeap) (inv : Inv u)
    → At u.check_list inv.start inv.start 0 (begin garbage u)
begin-At garbage u inv = record {
  add = inv.start_at;
  in_heap = inv.start_in;
  here = inv.start_Boundary;
  counted = omega arith;
  behind = omega arith;
  no_run = λ h. refl;
  first = λ h. absurd (cc h);
  free = λ q lo hi. absurd (omega arith);
  run_start = subst (Boundary u.check_list) (omega arith) inv.start_Boundary;
  left = inl (omega arith);
}

after_search-Served :
    (u : UserHeap) (n : ℕ) (r : Option (Bool × Search))
    → Inv u
    → 0 < n
    → Ends u.check_list n r
    → Served u n (after_search (n * 4096) u r)
unfolding after_search
after_search-Served u n none inv pos e = absurd e
after_search-Served u n (some (true, s)) inv pos (t, at, run) =
    let (j, ran, a) = allocate_at-Allocated u t n inv run pos in
    inr (address t, j, ap (λ x. some (allocate_at x (n * 4096) u)) at ∙ ap some ran, a)
after_search-Served u n (some (false, s)) inv pos short = inl (
    ap (λ b. if b then some (allocate_at s.tmp (n * 4096) u) else some (0, u))
      (leb-false (n * 4096) s.new_size short))

-- In a heap whose tables are sound, `malloc` with the next-fit strategy, of at least one byte and of
-- not so many that the rounding to pages wraps, gives either NULL and changes nothing, or a block of
-- as many pages as it takes: inside the heap, apart from every other block, known to the kernel, and
-- the tables are sound again.
pub malloc_lem :
    (garbage size : ℕ) (u : UserHeap)
    → Inv u
    → 0 < size
    → size ≤ 2 ^ 32 - 4096
    → Served u ((size + 4095) / 4096) (malloc true garbage size u)
unfolding malloc next_fit_algo
malloc_lem garbage size u inv pos small =
    let n = (size + 4095) / 4096 in
    let some_pages : 0 < n = omega arith in
    let whole : n * 4096 ≡ roundup size = omega arith in
    let ended =
      search-Ends u.check_list inv.start n inv.apart inv.inside inv.start_in inv.start_Boundary
        some_pages rounds inv.start 0 (begin garbage u) (begin-At garbage u inv) some_pages
        (omega arith) in
    subst
      (λ size. Served u n (after_search size u (search rounds u.check_list size (begin garbage u))))
      whole
      (after_search-Served u n (search rounds u.check_list (n * 4096) (begin garbage u)) inv
        some_pages ended)
