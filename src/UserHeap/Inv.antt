-- ===== src/UserHeap/Inv.antt =====
-- lib/uheap.c: when the tables of the user heap describe blocks that are apart.
use fos_kernel.Prelude.{ℕ, ◌+◌, ◌*◌, ◌<◌, ◌≤◌, ◌≡◌, arith}
use native.Mathlib.Decide.{dec_lt, ℕ_discrete}
use fos_kernel.UserHeap.{heap_start, pages, page, UserHeap}

-- No block lies across the start of page `p`.
abbrev pub Boundary : (ℕ → ℕ) → ℕ → Type 0
Boundary check p = (q : ℕ) → q < p → q + check q ≤ p

abbrev pub address : ℕ → ℕ
address p = heap_start + p * 4096

pub record Inv (u : UserHeap) : Type 0 where
  -- The search starts at a page that is not inside a block.
  pub start : ℕ
  pub start_at : u.start_add ≡ address start
  pub start_in : start < pages
  pub start_Boundary : Boundary u.check_list start
  -- A block is inside the heap, and not inside another.
  pub inside : (p : ℕ) → 0 < u.check_list p → p + u.check_list p ≤ pages
  pub apart : (p : ℕ) → 0 < u.check_list p → Boundary u.check_list p
  -- The table that `free` reads agrees.
  pub entry :
      (p : ℕ)
      → p < pages
      → 0 < u.check_list p
      → (u.first p ≡ address p) × (u.size p ≡ u.check_list p * 4096)
  pub no_entry : (p : ℕ) → p < pages → u.check_list p ≡ 0 → u.first p ≡ 0

pub page-address : (p : ℕ) → p < pages → page (address p) ≡ p
page-address p lt = omega arith

-- From a boundary, a free page leads to a boundary, and so does the block that starts there.
pub Boundary-free :
    (check : ℕ → ℕ) (p : ℕ) → check p ≡ 0 → Boundary check p → Boundary check (p + 1)
Boundary-free check p none b q lt = elim (dec_lt q p) [
  | yes l ↦ omega (arith, b q l)
  | no g ↦ let e : q ≡ p = omega arith in rw e (omega (arith, none))
]

pub Boundary-block :
    (check : ℕ → ℕ) (p : ℕ)
    → ((q : ℕ) → 0 < check q → Boundary check q)
    → 0 < check p
    → Boundary check p
    → Boundary check (p + check p)
Boundary-block check p apart live b q lt = elim (dec_lt q p) [
  | yes l ↦ omega (arith, b q l)
  | no g ↦ elim (ℕ_discrete q p) [
    | yes e ↦ rw e (omega arith)
    | no ne ↦ elim (dec_lt 0 (check q)) [
      | yes other ↦ absurd (omega (arith, apart q other p (omega arith)))
      | no none ↦ omega arith
    ]
  ]
]
