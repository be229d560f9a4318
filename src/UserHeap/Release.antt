-- ===== src/UserHeap/Release.antt =====
-- lib/uheap.c: what `free` leaves of the tables.
use fos_kernel.Prelude.{
  ℕ, zero, suc, ◌+◌, ◌*◌, ◌<◌, ◌≤◌, ◌≡◌, refl, sym, ap, ◌∙◌, ◌≢◌, true, some, ◌∷◌, ◌==◌, ==-ne,
  if◌then◌else◌, arith, subst,
}
use native.Mathlib.Decide.{dec_lt, ℕ_discrete}
use fos_kernel.UserHeap.{pages, sys_free_mem, UserHeap, write, find_entry, release, free}
use fos_kernel.UserHeap.Inv.{Boundary, address, page-address, Inv}
use fos_kernel.UserHeap.Allocate.{Allocated, write_self, write_ne}

find_entry-at :
    (left : ℕ) (first : ℕ → ℕ) (a i p : ℕ)
    → i ≤ p
    → p < i + left
    → first p ≡ a
    → ((q : ℕ) → q < p → first q ≢ a)
    → find_entry left first a i ≡ some p
unfolding find_entry
find_entry-at zero first a i p lo hi hit misses = absurd (omega arith)
find_entry-at (suc left) first a i p lo hi hit misses = elim (ℕ_discrete i p) [
  | yes e ↦
      let here : (first i == a) ≡ true = ground (arith, ap first e, hit) in
      ap (λ b. if b then some i else find_entry left first a (i + 1)) here ∙ ap some e
  | no ne ↦
      let other = ==-ne (first i) a (misses i (omega arith)) in
      ap (λ b. if b then some i else find_entry left first a (i + 1)) other
      ∙ find_entry-at left first a (i + 1) p (omega arith) (omega arith) hit misses
]

-- Block `p` of `u` is gone from `j`, the kernel was asked to free it, and all else is as it was.
pub record Released (u : UserHeap) (p : ℕ) (j : UserHeap) : Type 0 where
  pub now : (q : ℕ) → j.check_list q ≡ (if q == p then 0 else u.check_list q)
  pub called : j.calls ≡ sys_free_mem (address p) (u.check_list p * 4096) ∷ u.calls
  pub kept : Inv j

module _ (u : UserHeap) (p : ℕ) (inv : Inv u) (live : 0 < u.check_list p) where
  abbrev check : ℕ → ℕ
  check = write u.check_list p 0

  in_heap : p < pages
  in_heap = omega (arith, inv.inside p live)

  only_entry : (q : ℕ) → q < p → u.first q ≢ address p
  only_entry q lt e = elim (dec_lt 0 (u.check_list q)) [
    | yes other ↦ omega (arith, (inv.entry q (omega (arith, in_heap)) other).0, e)
    | no unused ↦ omega (arith, inv.no_entry q (omega (arith, in_heap)) (omega arith), e)
  ]

  less : (q : ℕ) → check q ≤ u.check_list q
  less q = ground arith

  old_live : (q : ℕ) → 0 < check q → 0 < u.check_list q
  old_live q l = omega (arith, less q)

  stays-Boundary : (s : ℕ) → Boundary u.check_list s → Boundary check s
  stays-Boundary s b q lt = omega (arith, b q lt, less q)

  abbrev without : UserHeap
  without = record u {
    first = write u.first p 0;
    size = write u.size p 0;
    check_list = check;
    calls = sys_free_mem (address p) (u.size p) ∷ u.calls;
  }

  free-without : (garbage : ℕ) → free garbage (address p) u ≡ without
  unfolding free release
  free-without garbage =
      ap (release garbage (address p) u) (
        find_entry-at pages u.first (address p) 0 p (omega arith) in_heap
          (inv.entry p in_heap live).0 only_entry)
      ∙ ap (λ b. record without { check_list = write u.check_list b 0 }) (page-address p in_heap)

  entry-kept :
      (q : ℕ)
      → q < pages
      → 0 < check q
      → (write u.first p 0 q ≡ address q) × (write u.size p 0 q ≡ check q * 4096)
  entry-kept q inner l = elim (ℕ_discrete q p) [
    | yes e ↦ absurd (omega (arith, ap check e, write_self u.check_list p 0))
    | no ne ↦
        let old = inv.entry q inner (old_live q l) in
        (
          write_ne u.first p 0 q ne ∙ old.0,
          write_ne u.size p 0 q ne
              ∙ old.1
              ∙ ap (λ k. k * 4096) (sym (write_ne u.check_list p 0 q ne)),
        )
  ]

  no_entry-kept : (q : ℕ) → q < pages → check q ≡ 0 → write u.first p 0 q ≡ 0
  no_entry-kept q inner unused = elim (ℕ_discrete q p) [
    | yes e ↦ rw e (write_self u.first p 0)
    | no ne ↦
        write_ne u.first p 0 q ne
        ∙ inv.no_entry q inner (sym (write_ne u.check_list p 0 q ne) ∙ unused)
  ]

  without-Inv : Inv without
  without-Inv = record {
    start = inv.start;
    start_at = inv.start_at;
    start_in = inv.start_in;
    start_Boundary = stays-Boundary inv.start inv.start_Boundary;
    inside = λ q l. omega (arith, inv.inside q (old_live q l), less q);
    apart = λ q l. stays-Boundary q (inv.apart q (old_live q l));
    entry = entry-kept;
    no_entry = no_entry-kept;
  }

  -- In a heap whose tables are sound, `free` of the address of a block takes it out of the tables, has
  -- the kernel free as many bytes as it holds, and leaves the tables sound.
  pub free_lem : (garbage : ℕ) → Released u p (free garbage (address p) u)
  free_lem garbage = subst (Released u p) (sym (free-without garbage)) (record {
    now = λ q. refl;
    called = ap (λ k. sys_free_mem (address p) k ∷ u.calls) (inv.entry p in_heap live).1;
    kept = without-Inv;
  })

-- `free` of a block of at least one page that `malloc` has just allocated restores the table of
-- blocks.
pub free-Allocated :
    (u : UserHeap) (n a : ℕ) (j : UserHeap) (garbage : ℕ)
    → 0 < n
    → Allocated u n a j
    → (q : ℕ) → (free garbage a j).check_list q ≡ u.check_list q
free-Allocated u n a j garbage pos al q =
    let b = al.block in
    let held : j.check_list b ≡ n = ground (arith, al.now b) in
    let r = free_lem j b al.kept (omega (arith, held)) garbage in
    let unused : u.check_list b ≡ 0 = elim (dec_lt 0 (u.check_list b)) [
      | yes other ↦ absurd (omega (arith, al.apart b other))
      | no none_left ↦ omega arith
    ] in
    ap (λ x. (free garbage x j).check_list q) al.at ∙ r.now q ∙ elim (ℕ_discrete q b) [
      | yes e ↦ ground (arith, ap u.check_list e, unused)
      | no ne ↦ ground (arith, al.now q)
    ]
