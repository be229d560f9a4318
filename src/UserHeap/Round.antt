-- ===== src/UserHeap/Round.antt =====
-- lib/uheap.c: where the loop of `nextFitAlgo` stands, and how a round of it moves on.
use fos_kernel.Prelude.{
  ℕ, ◌+◌, ◌-◌, ◌*◌, ◌%◌, ◌^◌, ◌<◌, ◌≤◌, ◌≡◌, refl, sym, ap, ◌∙◌, ◌≢◌, ◌⊎◌, inl, inr, true, false,
  if◌then◌else◌, leb, arith, Bool-cases, subst,
}
use native.Mathlib.Decide.{dec_lt}
use fos_kernel.UserHeap.{heap_start, heap_max, pages, Search, take_page, skip_block, wrap_around}
use fos_kernel.UserHeap.Inv.{Boundary, address, Boundary-free, Boundary-block}

-- The pages from `t` on are free, and no block lies across the first of them.
pub record FreeRun (check : ℕ → ℕ) (t n : ℕ) : Type 0 where
  pub fits : t + n ≤ pages
  pub boundary : Boundary check t
  pub free : (q : ℕ) → t ≤ q → q < t + n → check q ≡ 0

-- Within the loop: the search stands at page `p`, behind a free run of `run` pages, and `space_pages`
-- pages are left until it is back where it began.
pub record At (check : ℕ → ℕ) (start p run : ℕ) (s : Search) : Type 0 where
  pub add : s.new_add ≡ address p
  pub in_heap : p < pages
  pub here : Boundary check p
  pub counted : s.new_size ≡ run * 4096
  pub behind : run ≤ p
  pub no_run : s.flag ≡ false → run ≡ 0
  pub first : s.flag ≡ true → s.tmp ≡ address (p - run)
  pub free : (q : ℕ) → p - run ≤ q → q < p → check q ≡ 0
  pub run_start : Boundary check (p - run)
  pub left : ((start ≤ p) × (s.space_pages + p ≡ pages + start)) ⊎ (s.space_pages + p ≡ start)

module _ (check : ℕ → ℕ) (start n : ℕ) (live : (p : ℕ) → 0 < check p → Boundary check p)
    (inside : (p : ℕ) → 0 < check p → p + check p ≤ pages) (start_in : start < pages)
    (start_Boundary : Boundary check start) (some_pages : 0 < n) where
  pub grown-first :
      (p run : ℕ) (s : Search)
      → At check start p run s
      → (take_page s).tmp ≡ address (p + 1 - (run + 1))
  grown-first p run s a =
      let same : address (p - run) ≡ address (p + 1 - (run + 1)) = omega arith in
      elim (Bool-cases s.flag) [
        | inl on ↦ ap (λ b. if b then s.tmp else s.new_add) on ∙ a.first on ∙ same
        | inr off ↦
            ap (λ b. if b then s.tmp else s.new_add) off ∙ omega (arith, a.add, a.no_run off)
      ]

  pub grown-free :
      (p run : ℕ) (s : Search)
      → At check start p run s
      → check p ≡ 0
      → (q : ℕ) → p + 1 - (run + 1) ≤ q
      → q < p + 1
      → check q ≡ 0
  grown-free p run s a unused q lo hi = elim (dec_lt q p) [
    | yes l ↦ a.free q (omega arith) l
    | no g ↦ let e : q ≡ p = omega arith in rw e unused
  ]

  grown-left :
      (p run space : ℕ)
      → ((start ≤ p) × (space + p ≡ pages + start)) ⊎ (space + p ≡ start)
      → space ≢ 0
      → ((start ≤ p + 1) × (space - 1 + (p + 1) ≡ pages + start)) ⊎ (space - 1 + (p + 1) ≡ start)
  grown-left p run space (inl h) more = inl (omega arith)
  grown-left p run space (inr h) more = inr (omega arith)

  -- One more free page, not the last of the heap.
  pub grown :
      (p run : ℕ) (s : Search)
      → At check start p run s
      → check p ≡ 0
      → s.space_pages ≢ 0
      → p + 1 < pages
      → At check start (p + 1) (run + 1) (take_page s)
  grown p run s a unused more inner = record {
    add = omega (arith, a.add);
    in_heap = inner;
    here = Boundary-free check p unused a.here;
    counted = omega (arith, a.counted, a.behind);
    behind = omega (arith, a.behind);
    no_run = λ h. absurd (cc h);
    first = λ h. grown-first p run s a;
    free = grown-free p run s a unused;
    run_start =
        let same : p - run ≡ p + 1 - (run + 1) = omega arith in
        subst (Boundary check) same a.run_start;
    left = grown-left p run s.space_pages a.left more;
  }

  -- Behind the last page, the search starts anew at the first, with no run.
  pub wrapped :
      (s : Search)
      → s.new_add ≡ heap_max
      → s.space_pages ≡ start
      → At check start 0 0 (wrap_around s)
  wrapped s a e = subst (At check start 0 0) (sym (at_max s a)) (record {
    add = omega arith;
    in_heap = omega arith;
    here = λ q lt. absurd (omega arith);
    counted = omega arith;
    behind = omega arith;
    no_run = λ h. refl;
    first = λ h. absurd (cc h);
    free = λ q lo hi. absurd (omega arith);
    run_start = λ q lt. absurd (omega arith);
    left = inr (omega arith);
  })
    where
      at_max :
          (s : Search)
          → s.new_add ≡ heap_max
          → wrap_around s ≡ record s { new_add = heap_start; new_size = 0; flag = false }
      at_max s h =
          ap
            (λ a.
              if leb heap_max a
              then record s { new_add = heap_start; new_size = 0; flag = false }
              else s)
            h

  -- The block at `p` is not longer than what is left to search.
  pub block-left :
      (p space : ℕ)
      → ((start ≤ p) × (space + p ≡ pages + start)) ⊎ (space + p ≡ start)
      → 0 < check p
      → space ≢ 0
      → check p ≤ space
  block-left p space (inl h) taken more = omega (arith, inside p taken)
  block-left p space (inr h) taken more = omega (arith, start_Boundary p (omega arith))

  skipped-left :
      (p space k : ℕ)
      → ((start ≤ p) × (space + p ≡ pages + start)) ⊎ (space + p ≡ start)
      → k ≤ space
      → let rest = (space + 2 ^ 32 - k) % 2 ^ 32 in
        ((start ≤ p + k) × (rest + (p + k) ≡ pages + start)) ⊎ (rest + (p + k) ≡ start)
  skipped-left p space k (inl h) le = inl (omega arith)
  skipped-left p space k (inr h) le = inr (omega arith)

  pub skipped :
      (p run : ℕ) (s : Search)
      → At check start p run s
      → 0 < check p
      → s.space_pages ≢ 0
      → p + check p < pages
      → At check start (p + check p) 0 (skip_block (check p) s)
  skipped p run s a taken more inner =
      let past = Boundary-block check p live taken a.here in
      record {
        add = omega (arith, a.add);
        in_heap = inner;
        here = past;
        counted = omega arith;
        behind = omega arith;
        no_run = λ h. refl;
        first = λ h. absurd (cc h);
        free = λ q lo hi. absurd (omega arith);
        run_start = subst (Boundary check) (omega arith) past;
        left =
            skipped-left p s.space_pages (check p) a.left
              (block-left p s.space_pages a.left taken more);
      }
