-- ===== src/KernelHeap/Search.antt =====
-- kern/kheap.c: the loop of `nextFitAlgo`, which goes round the pages of the kernel heap.
use fos_kernel.Prelude.{
  ℕ, zero, suc, ◌+◌, ◌-◌, ◌*◌, ◌%◌, ◌^◌, ◌<◌, ◌≤◌, ◌≡◌, refl, sym, ap, ◌∙◌, ◌⊎◌, inl, inr, true,
  false, not, ◌&&◌, Option, some, ltb, ◌==◌, ==-refl, ==-ne, if◌then◌else◌, arith, subst,
}
use native.Mathlib.Decide.{ℕ_discrete}
use fos_kernel.Frames.{Mapped, no_frame, frame}
use fos_kernel.KernelHeap.{
  heap_max, Cursor, Result, ends, null, enter, grow, visit, after_visit, search,
}
use fos_kernel.KernelHeap.Rounds.{pages, address, round, FreeRound, Ends, At}

module _ (page : ℕ → Mapped) (start n : ℕ) (start_in : start < pages) (some_pages : 0 < n)
    (sized : n < 2 ^ 20)
    (known : (p : ℕ)
      → p < pages
      → (page (address p) ≡ no_frame) ⊎ ((f : ℕ) × (page (address p) ≡ frame f))) where
  -- The page that is visited: the first one where the search stands behind the last.
  abbrev here : ℕ → ℕ
  here p = if p == pages then 0 else p

  here-in : (p : ℕ) → p ≤ pages → here p < pages
  here-in p le = ground arith

  here-mod : (p : ℕ) → p ≤ pages → here p ≡ p % pages
  here-mod p le = ground arith

  enter-i :
      (p : ℕ) (c : Cursor)
      → p ≤ pages
      → c.i ≡ address p
      → (enter (address start) c).i ≡ address (here p)
  enter-i p c le e = ground (arith, e)

  same_test : (q s : ℕ) → (address q == address s) ≡ (q == s)
  same_test q s = ground arith

  -- After a page was entered: `y` is 2 only back at the start, in the last round.
  abbrev Entered : ℕ → ℕ → ℕ → Type 0
  Entered q left y =
      ((y ≡ 2) × (left ≡ 1))
      ⊎ ((y ≡ 1)
          × (((q ≡ start) × (left ≡ pages + 1))
              ⊎ ((start < q) × (left + q ≡ pages + start + 1))
              ⊎ ((q < start) × (left + q ≡ start + 1))))

  by_phase :
      (p left y : ℕ)
      → p ≤ pages
      → ((y ≡ 0) × (p ≡ start) × (left ≡ pages + 1))
        ⊎ ((y ≡ 1) × (start < p) × (left + p ≡ pages + start + 1))
        ⊎ ((y ≡ 1) × (p ≤ start) × (left + p ≡ start + 1))
      → Entered (here p) left (if here p == start then y + 1 else y)
  by_phase p left y le (inl h) =
      inr (ground (arith, h, start_in), inl (ground (arith, h, start_in)))
  by_phase p left y le (inr (inl h)) = elim (ℕ_discrete p pages) [
    | yes e ↦ elim (ℕ_discrete start 0) [
      | yes z ↦ inl (ground (arith, h, e, z))
      | no nz ↦ inr (ground (arith, h, e, nz), inr (inr (ground (arith, h, e, nz))))
    ]
    | no ne ↦ inr (ground (arith, h, ne), inr (inl (ground (arith, h, ne))))
  ]
  by_phase p left y le (inr (inr h)) = elim (ℕ_discrete p start) [
    | yes e ↦ inl (ground (arith, h, e, start_in))
    | no ne ↦ inr (ground (arith, h, ne, start_in), inr (inr (ground (arith, h, ne, start_in))))
  ]

  entered :
      (p run left : ℕ) (c : Cursor)
      → At page start n p run left c
      → Entered (here p) left (enter (address start) c).y
  entered p run left c a =
      subst (Entered (here p) left)
        (sym (
          ap (λ i. if i == address start then c.y + 1 else c.y) (enter-i p c a.in_heap a.at)
          ∙ ap (λ b. if b then c.y + 1 else c.y) (same_test (here p) start)))
        (by_phase p left c.y a.in_heap a.phase)

  -- The cursor that goes on to the next page.
  abbrev step : Cursor → Cursor
  step c = record c { i = (c.i + 4096) % 2 ^ 32 }

  next_phase :
      (q left y : ℕ)
      → q < pages
      → y ≡ 1
      → ((q ≡ start) × (left ≡ pages + 1))
        ⊎ ((start < q) × (left + q ≡ pages + start + 1))
        ⊎ ((q < start) × (left + q ≡ start + 1))
      → ((y ≡ 0) × (q + 1 ≡ start) × (left - 1 ≡ pages + 1))
        ⊎ ((y ≡ 1) × (start < q + 1) × (left - 1 + (q + 1) ≡ pages + start + 1))
        ⊎ ((y ≡ 1) × (q + 1 ≤ start) × (left - 1 + (q + 1) ≡ start + 1))
  next_phase q left y inner one (inl h) = inr (inl (omega arith))
  next_phase q left y inner one (inr (inl h)) = inr (inl (omega (arith, start_in)))
  next_phase q left y inner one (inr (inr h)) = inr (inr (omega (arith, start_in)))

  -- One round, from page `p` on, that does not end the search by NULL.
  module _ (p run left : ℕ) (c : Cursor) (a : At page start n p run left c)
      (one : (enter (address start) c).y ≡ 1)
      (place : ((here p ≡ start) × (left ≡ pages + 1))
        ⊎ ((start < here p) × (left + here p ≡ pages + start + 1))
        ⊎ ((here p < start) × (left + here p ≡ start + 1))) where
    abbrev q : ℕ
    q = here p

    abbrev e : Cursor
    e = enter (address start) c

    q-in : q < pages
    q-in = here-in p a.in_heap

    e-i : e.i ≡ address q
    e-i = enter-i p c a.in_heap a.at

    some_left : 1 < left
    some_left = by_place place
      where
        by_place :
            ((q ≡ start) × (left ≡ pages + 1))
              ⊎ ((start < q) × (left + q ≡ pages + start + 1))
              ⊎ ((q < start) × (left + q ≡ start + 1))
            → 1 < left
        by_place (inl h) = omega arith
        by_place (inr (inl h)) = omega (arith, q-in)
        by_place (inr (inr h)) = omega arith

    behind-q : round a.from run ≡ q
    behind-q = a.behind ∙ sym (here-mod p a.in_heap)

    step-i : (d : Cursor) → d.i ≡ address q → (step d).i ≡ address (q + 1)
    step-i d h = omega (arith, h, q-in)

    -- The page is in use.
    used : At page start n (q + 1) 0 (left - 1) (step (record e { x = 0 }))
    used = record {
      at = step-i e e-i;
      in_heap = omega (arith, q-in);
      counted = omega arith;
      short = some_pages;
      few = omega (arith, a.few);
      from = (q + 1) % pages;
      from_in = omega arith;
      behind = omega arith;
      first = λ h. absurd (omega arith);
      last = λ h. absurd (omega arith);
      free = λ j h. absurd (omega arith);
      phase = next_phase q left e.y q-in one place;
    }

    -- The page is free, and the run grows: it begins at `from_now`.
    abbrev from_now : ℕ
    from_now = if run == 0 then q else a.from

    from_now-in : from_now < pages
    from_now-in = ground (arith, q-in, a.from_in)

    run-at-q : round from_now run ≡ q
    run-at-q = elim (ℕ_discrete run 0) [
      | yes z ↦
          ap (λ b. round (if b then q else a.from) run) (ap (λ r. r == 0) z)
          ∙ omega (arith, z, q-in)
      | no ne ↦ ap (λ b. round (if b then q else a.from) run) (==-ne run 0 ne) ∙ behind-q
    ]

    grown-first : (grow e).first ≡ address from_now
    grown-first = elim (ℕ_discrete run 0) [
      | yes z ↦
          let none_yet : c.x ≡ 0 = omega (arith, a.counted, z) in
          let x_zero : (c.x == 0) ≡ true = ap (λ r. r == 0) none_yet in
          ap (λ b. if b then e.i else c.first) x_zero
          ∙ e-i
          ∙ sym (ap (λ b. address (if b then q else a.from)) (ap (λ r. r == 0) z))
      | no ne ↦
          let x_more : (c.x == 0) ≡ false = ==-ne c.x 0 (λ h. ne (omega (arith, a.counted, h))) in
          ap (λ b. if b then e.i else c.first) x_more
          ∙ a.first (omega arith)
          ∙ sym (ap (λ b. address (if b then q else a.from)) (==-ne run 0 ne))
    ]

    grown-free : page (address q) ≡ no_frame → FreeRound page from_now (run + 1)
    grown-free unused j lt = elim (ℕ_discrete j run) [
      | yes last ↦
          ap (λ k. page (address (round from_now k))) last
          ∙ ap (λ k. page (address k)) run-at-q
          ∙ unused
      | no before ↦
          let more : (run == 0) ≡ false = ==-ne run 0 (λ z. omega arith) in
          ap (λ b. page (address (round (if b then q else a.from) j))) more ∙ a.free j (omega arith)
    ]

    grown-x : (grow e).x ≡ (run + 1) * 4096
    grown-x = omega (arith, a.counted, a.short, sized)

    grown :
        page (address q) ≡ no_frame
        → run + 1 < n
        → At page start n (q + 1) (run + 1) (left - 1) (step (grow e))
    grown unused short = record {
      at = step-i (grow e) e-i;
      in_heap = omega (arith, q-in);
      counted = grown-x;
      short = short;
      few = omega (arith, a.few, some_left);
      from = from_now;
      from_in = from_now-in;
      behind = omega (arith, run-at-q);
      first = λ h. grown-first;
      last =
          λ h. e-i ∙ ap address (sym run-at-q) ∙ ap (λ k. address (round from_now k)) (omega arith);
      free = grown-free unused;
      phase = next_phase q left e.y q-in one place;
    }

    found : page (address q) ≡ no_frame → run + 1 ≡ n → Ends page n (some (ends (grow e)))
    found unused enough = (
      from_now,
      from_now-in,
      omega (arith, a.few, some_left),
      grown-x ∙ ap (λ k. k * 4096) enough,
      grown-first,
      e-i ∙ ap address (sym run-at-q) ∙ ap (λ k. address (round from_now k)) (omega arith),
      subst (FreeRound page from_now) enough (grown-free unused),
    )

  -- From a page on, with more rounds than are left, the search ends.
  pub search-at :
      (fuel p run left : ℕ) (c : Cursor)
      → At page start n p run left c
      → left < fuel
      → Ends page n (search fuel page (address start) (n * 4096) c)
  unfolding search
  search-at zero p run left c a enough = absurd (omega arith)
  search-at (suc fuel) p run left c a enough =
      let q = here p in
      let e = enter (address start) c in
      let inside : ltb heap_max c.i ≡ false = ground (arith, a.at, a.in_heap) in
      let differs : (e.x == n * 4096) ≡ false =
        ==-ne c.x (n * 4096) (λ h. omega (arith, a.counted, a.short, h)) in
      let visited : page e.i ≡ page (address q) = ap page (enter-i p c a.in_heap a.at) in
      let go = λ (d : Cursor). search fuel page (address start) (n * 4096) (step d) in
      elim (entered p run left c a) [
        | inl (two, last) ↦ rw (inside, two, differs) (λ h. omega (arith, a.counted, a.short, h))
        | inr (one, place) ↦
            subst (Ends page n)
              (sym (by_one inside one (after_visit (n * 4096) (visit (page e.i) e) go) e))
              (elim (known q (here-in p a.in_heap)) [
                | inr (f, busy) ↦
                    let d = record e { x = 0 } in
                    let not_all : (d.x == n * 4096) ≡ false =
                      ==-ne 0 (n * 4096) (λ h. omega (arith, h, some_pages)) in
                    subst (Ends page n)
                      (sym (
                        ap (λ m. after_visit (n * 4096) (visit m e) go) (visited ∙ busy)
                        ∙ ap (λ b. if b then some (ends d) else go d) not_all))
                      (search-at fuel (q + 1) 0 (left - 1) (step d) (used p run left c a one place)
                        (omega (arith, some_left p run left c a one place)))
                | inl unused ↦
                    let d = grow e in
                    let counted : d.x ≡ (run + 1) * 4096 = grown-x p run left c a one place in
                    subst (Ends page n)
                      (sym (ap (λ m. after_visit (n * 4096) (visit m e) go) (visited ∙ unused)))
                      (elim (ℕ_discrete (run + 1) n) [
                        | yes all ↦
                            let is_all : (d.x == n * 4096) ≡ true =
                              ap (λ k. k == n * 4096) (counted ∙ ap (λ k. k * 4096) all)
                              ∙ ==-refl (n * 4096) in
                            subst (Ends page n)
                              (sym (ap (λ b. if b then some (ends d) else go d) is_all))
                              (found p run left c a one place unused all)
                        | no more ↦
                            let not_all : (d.x == n * 4096) ≡ false =
                              ==-ne d.x (n * 4096) (λ h. more (omega (arith, counted, h))) in
                            subst (Ends page n)
                              (sym (ap (λ b. if b then some (ends d) else go d) not_all))
                              (search-at fuel (q + 1) (run + 1) (left - 1) (step d)
                                (grown p run left c a one place unused (omega (arith, a.short)))
                                (omega (arith, some_left p run left c a one place)))
                      ])
              ])
      ]
    where
      by_one :
          ltb heap_max c.i ≡ false
          → (enter (address start) c).y ≡ 1
          → (go : Option Result) (e : Cursor)
          → (if ltb heap_max c.i
              then some (ends c)
              else if ((enter (address start) c).y == 2) && not (e.x == n * 4096)
              then some (null e)
              else go)
            ≡ go
      by_one inside one go e = rw (inside, one) refl
