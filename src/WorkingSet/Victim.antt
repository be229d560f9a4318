-- ===== src/WorkingSet/Victim.antt =====
-- kern/trap.c: the victim of the clock.
use fos_kernel.Prelude.{ℕ, suc, ◌-◌, ◌<◌, ◌≤◌, ◌≡◌, sym, ap, ◌∙◌, inl, inr, true, false, not, arith}
use fos_kernel.WorkingSet.Clock.{Bits, is_clean, Sweep, victim, sweep_unused, choose, go_on}
use fos_kernel.WorkingSet.Sweep.{
  at, page_at, at-start, at-in, reach, sweep_unused-hit, first_sweep, second_sweep,
}

module _ (addresses : ℕ → ℕ) (size fp : ℕ) (in_set : fp < size) where
  abbrev second_half : ℕ → Bits → Sweep
  second_half turns b =
      go_on (sweep_unused size addresses size fp fp b) (choose turns addresses size fp)

  -- Where no page is used, one turn is enough.
  choose-unused :
      (turns : ℕ) (b : Bits)
      → b.used (addresses fp) ≡ false
      → (v : ℕ) × (b1 : Bits) × (v < size) × (choose (suc turns) addresses size fp b ≡ victim v b1)
  unfolding choose go_on
  choose-unused turns b free = elim (first_sweep addresses size fp in_set b) [
    | inl (j, lt, clean, r) ↦ (
      at size fp j,
      b,
      at-in addresses size fp in_set j lt,
      ap (λ s. go_on s (second_half turns)) r,
    )
    | inr (none_clean, r) ↦
        let fuel : size ≡ suc (size - 1) = omega arith in
        let hit : sweep_unused size addresses size fp fp b ≡ victim fp b =
          ap (λ n. sweep_unused n addresses size fp fp b) fuel
          ∙ ap (λ n. sweep_unused (suc (size - 1)) addresses size fp n b)
              (sym (at-start addresses size fp in_set))
          ∙ sweep_unused-hit addresses size fp in_set (size - 1) 0 b (
              ap (λ n. not (b.used (addresses n))) (at-start addresses size fp in_set)
              ∙ ap not free)
          ∙ ap (λ n. victim n b) (at-start addresses size fp in_set) in
        (
          fp,
          b,
          in_set,
          ap (λ s. go_on s (second_half turns)) r
              ∙ ap (λ s. go_on s (choose turns addresses size fp)) hit,
        )
  ]

  no_clean :
      (b : Bits)
      → ((k : ℕ) → 0 ≤ k → k < size → is_clean b (page_at addresses size fp in_set k) ≡ false)
      → (v s : ℕ) → s < size
      → is_clean b (addresses s) ≡ true
      → is_clean b (addresses v) ≡ true
  no_clean b none_clean v s lt clean =
      let (i, l, e) = reach addresses size fp in_set s lt in
      let dirty = ap (λ n. is_clean b (addresses n)) (sym e) ∙ none_clean i (omega arith) l in
      absurd (cc (clean, dirty))

  -- The result is an entry of the set, and a clean one where the set has one.
  abbrev pub Chosen : Bits → Sweep → Type 0
  Chosen b r =
      (v : ℕ) × (b1 : Bits) × (v < size)
      × (r ≡ victim v b1)
      × ((s : ℕ) → s < size → is_clean b (addresses s) ≡ true → is_clean b (addresses v) ≡ true)

  -- The clock of `page_fault_handler` over a working set that is not empty ends within two turns:
  -- its victim is an entry of the set, and the victim's page is neither used nor modified where the
  -- set has such a page.
  pub choose_lem : (b : Bits) → Chosen b (choose 2 addresses size fp b)
  unfolding choose go_on
  choose_lem b = elim (first_sweep addresses size fp in_set b) [
    | inl (j, lt, clean, r) ↦ (
      at size fp j,
      b,
      at-in addresses size fp in_set j lt,
      ap (λ s. go_on s (second_half 1)) r,
      (λ s l c. clean),
    )
    | inr (none_clean, r) ↦
        let vacuous : (v s : ℕ)
            → s < size
            → is_clean b (addresses s) ≡ true
            → is_clean b (addresses v) ≡ true =
          λ v s l c. no_clean b none_clean v s l c in
        elim (second_sweep addresses size fp in_set b) [
          | inl (j, b1, lt, r2) ↦ (
            at size fp j,
            b1,
            at-in addresses size fp in_set j lt,
            ap (λ s. go_on s (second_half 1)) r ∙ ap (λ s. go_on s (choose 1 addresses size fp)) r2,
            vacuous (at size fp j),
          )
          | inr (b1, behind, mono, r2) ↦
              let free =
                ap (λ n. b1.used (addresses n)) (sym (at-start addresses size fp in_set))
                ∙ behind 0 (omega arith) (omega arith) in
              let (v, b2, lt, r3) = choose-unused 0 b1 free in
              (
                v,
                b2,
                lt,
                ap (λ s. go_on s (second_half 1)) r
                    ∙ ap (λ s. go_on s (choose 1 addresses size fp)) r2
                    ∙ r3,
                vacuous v,
              )
        ]
  ]
