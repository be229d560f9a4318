-- ===== src/UserHeap/NextFit.antt =====
-- lib/uheap.c: the loop of `nextFitAlgo`, to its end.
use fos_kernel.Prelude.{
  ℕ, zero, suc, ◌+◌, ◌-◌, ◌*◌, ◌<◌, ◌≤◌, ◌≡◌, refl, sym, ap, ◌∙◌, ◌≢◌, Bool, true, false, Option,
  none, some, ◌==◌, ==-ne, if◌then◌else◌, leb, arith, subst,
}
use native.Mathlib.Decide.{dec_lt, ℕ_discrete}
use fos_kernel.UserHeap.{
  heap_start, heap_max, pages, page, Search, take_page, skip_block, wrap_around, search,
}
use fos_kernel.UserHeap.Inv.{Boundary, address, page-address}
use fos_kernel.UserHeap.Round.{
  FreeRun, At, grown-first, grown-free, grown, wrapped, block-left, skipped,
}

-- What the search gives.
abbrev pub Ends : (ℕ → ℕ) → ℕ → Option (Bool × Search) → Type 0
Ends check n none = ⊥
Ends check n (some (true, s)) = (t : ℕ) × (s.tmp ≡ address t) × FreeRun check t n
Ends check n (some (false, s)) = s.new_size < n * 4096

pub leb-false : (a b : ℕ) → b < a → leb a b ≡ false
leb-false a b h = ground arith

pub leb-true : (a b : ℕ) → a ≤ b → leb a b ≡ true
leb-true a b h = ground arith

wrap-space : (s : Search) → (wrap_around s).space_pages ≡ s.space_pages
wrap-space s = ground arith

-- One round of the loop, by its branches.
search-done :
    (fuel : ℕ) (check : ℕ → ℕ) (size : ℕ) (s : Search)
    → (s.space_pages == 0) ≡ true
    → search (suc fuel) check size s ≡ some (false, s)
unfolding search
search-done fuel check size s e = rw e refl

search-free :
    (fuel : ℕ) (check : ℕ → ℕ) (size : ℕ) (s : Search)
    → (s.space_pages == 0) ≡ false
    → check (page s.new_add) ≡ 0
    → search (suc fuel) check size s ≡ (
        if leb size (take_page s).new_size
        then some (true, take_page s)
        else search fuel check size (wrap_around (take_page s)))
unfolding search
search-free fuel check size s e unused = rw (e, unused) refl

search-taken :
    (fuel : ℕ) (check : ℕ → ℕ) (size k : ℕ) (s : Search)
    → (s.space_pages == 0) ≡ false
    → check (page s.new_add) ≡ k
    → (k == 0) ≡ false
    → leb size s.new_size ≡ false
    → leb size 0 ≡ false
    → search (suc fuel) check size s ≡ search fuel check size (wrap_around (skip_block k s))
unfolding search
search-taken fuel check size k s e taken ne short some_size =
    rw (e, taken, ne, short, some_size) refl

module _ (check : ℕ → ℕ) (start n : ℕ) (live : (p : ℕ) → 0 < check p → Boundary check p)
    (inside : (p : ℕ) → 0 < check p → p + check p ≤ pages) (start_in : start < pages)
    (start_Boundary : Boundary check start) (some_pages : 0 < n) where
  -- The search goes on from page `p`, or from the first one where `p` is behind the last.
  abbrev Next : ℕ → Search → Type 0
  Next space s =
      (p : ℕ) × (run : ℕ) × At check start p run (wrap_around s)
      × (run < n)
      × (s.space_pages < space)

  not-at_max : (s : Search) → s.new_add < heap_max → wrap_around s ≡ s
  not-at_max s lt =
      let below : leb heap_max s.new_add ≡ false = ground arith in
      ap (λ b. if b then record s { new_add = heap_start; new_size = 0; flag = false } else s) below

  Next-grown :
      (p run : ℕ) (s : Search)
      → At check start p run s
      → check p ≡ 0
      → s.space_pages ≢ 0
      → run + 1 < n
      → Next s.space_pages (take_page s)
  Next-grown p run s a unused more short = elim (dec_lt (p + 1) pages) [
    | yes inner ↦
        let g =
          grown check start n live inside start_in start_Boundary some_pages p run s a unused more
            inner in
        (
          p + 1,
          run + 1,
          subst (At check start (p + 1) (run + 1))
              (sym (not-at_max (take_page s) (omega (arith, g.add)))) g,
          short,
          omega arith,
        )
    | no end ↦ (
      0,
      0,
      wrapped check start n live inside start_in start_Boundary some_pages (take_page s)
          (omega (arith, a.add, a.in_heap)) (omega (arith, a.left, a.in_heap)),
      some_pages,
      omega arith,
    )
  ]

  Next-skipped :
      (p run : ℕ) (s : Search)
      → At check start p run s
      → 0 < check p
      → s.space_pages ≢ 0
      → Next s.space_pages (skip_block (check p) s)
  Next-skipped p run s a taken more =
      let short =
        block-left check start n live inside start_in start_Boundary some_pages p s.space_pages
          a.left taken more in
      elim (dec_lt (p + check p) pages) [
        | yes inner ↦
            let g =
              skipped check start n live inside start_in start_Boundary some_pages p run s a taken
                more inner in
            (
              p + check p,
              0,
              subst (At check start (p + check p) 0)
                  (sym (not-at_max (skip_block (check p) s) (omega (arith, g.add)))) g,
              some_pages,
              omega arith,
            )
        | no end ↦ (
          0,
          0,
          wrapped check start n live inside start_in start_Boundary some_pages
              (skip_block (check p) s) (omega (arith, a.add, inside p taken))
              (omega (arith, a.left, inside p taken, start_Boundary p)),
          some_pages,
          omega arith,
        )
      ]

  found :
      (p run : ℕ) (s : Search)
      → At check start p run s
      → check p ≡ 0
      → run + 1 ≡ n
      → Ends check n (some (true, take_page s))
  found p run s a unused enough =
      let same : p - run ≡ p + 1 - (run + 1) = omega arith in
      (
        p - run,
        grown-first check start n live inside start_in start_Boundary some_pages p run s a
            ∙ ap address (sym same),
        record {
          fits = omega (arith, a.behind, a.in_heap);
          boundary = a.run_start;
          free = λ q lo hi.
              grown-free check start n live inside start_in start_Boundary some_pages p run s a
                unused q (omega arith) (omega (arith, a.behind));
        },
      )

  -- From page `p`, with more rounds than pages that are left, the search ends.
  pub search-Ends :
      (fuel p run : ℕ) (s : Search)
      → At check start p run s
      → run < n
      → s.space_pages < fuel
      → Ends check n (search fuel check (n * 4096) s)
  search-Ends zero p run s a short enough = absurd (omega arith)
  search-Ends (suc fuel) p run s a short enough =
      let at_p : check (page s.new_add) ≡ check p =
        ap (λ x. check (page x)) a.add ∙ ap check (page-address p a.in_heap) in
      elim (ℕ_discrete s.space_pages 0) [
        | yes e ↦
            subst (Ends check n) (sym (search-done fuel check (n * 4096) s (ground arith)))
              (omega (arith, a.counted))
        | no more ↦
            let going = ==-ne s.space_pages 0 more in
            elim (ℕ_discrete (check p) 0) [
              | yes unused ↦
                  subst (Ends check n)
                    (sym (search-free fuel check (n * 4096) s going (at_p ∙ unused)))
                    (elim (ℕ_discrete (run + 1) n) [
                      | yes enough_pages ↦
                          subst
                            (λ b. Ends check n (
                              if b
                              then some (true, take_page s)
                              else search fuel check (n * 4096) (wrap_around (take_page s))))
                            (sym (
                              leb-true (n * 4096) (take_page s).new_size
                                (omega (arith, a.counted, a.behind, a.in_heap))))
                            (found p run s a unused enough_pages)
                      | no fewer ↦
                          let (p1, run1, a1, short1, less) =
                            Next-grown p run s a unused more (omega arith) in
                          let too_short : leb (n * 4096) (take_page s).new_size ≡ false =
                            leb-false (n * 4096) (take_page s).new_size
                              (omega (arith, a.counted, a.behind, a.in_heap)) in
                          subst
                            (λ b. Ends check n (
                              if b
                              then some (true, take_page s)
                              else search fuel check (n * 4096) (wrap_around (take_page s))))
                            (sym too_short)
                            (search-Ends fuel p1 run1 (wrap_around (take_page s)) a1 short1
                              (omega (arith, wrap-space (take_page s))))
                    ])
              | no taken ↦
                  let (p1, run1, a1, short1, less) = Next-skipped p run s a (omega arith) more in
                  subst (Ends check n)
                    (sym (
                      search-taken fuel check (n * 4096) (check p) s going at_p
                        (==-ne (check p) 0 taken)
                        (leb-false (n * 4096) s.new_size (omega (arith, a.counted)))
                        (leb-false (n * 4096) 0 (omega arith))))
                    (search-Ends fuel p1 run1 (wrap_around (skip_block (check p) s)) a1 short1
                      (omega (arith, wrap-space (skip_block (check p) s))))
            ]
      ]
