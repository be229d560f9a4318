-- ===== src/WorkingSet/Sweep.antt =====
-- kern/trap.c: the two sweeps of the clock over the working set.
use fos_kernel.Prelude.{
  ℕ, zero, suc, ◌+◌, ◌-◌, ◌<◌, ◌≤◌, ◌≡◌, ap, ◌∙◌, ◌⊎◌, inl, inr, Bool, true, false, not, ◌==◌,
  ==-refl, ltb, if◌then◌else◌, arith, Bool-cases, subst,
}
use native.Mathlib.Decide.{dec_lt, ℕ_discrete}
use fos_kernel.WorkingSet.Clock.{
  Bits, is_clean, clear_used, advance, Sweep, victim, came_back, sweep_clean, sweep_unused,
}

-- The entry `i` places behind `fp`.
abbrev pub at : ℕ → ℕ → ℕ → ℕ
at size fp i = if ltb (fp + i) size then fp + i else fp + i - size

module _ (addresses : ℕ → ℕ) (size fp : ℕ) (in_set : fp < size) where
  at-advance : (i : ℕ) → i < size → advance size (at size fp i) ≡ at size fp (i + 1)
  at-advance i lt = ground arith

  at-fp : (i : ℕ) → i < size → 0 < i → (at size fp i == fp) ≡ false
  at-fp i lt pos = ground arith

  at-end : at size fp size ≡ fp
  at-end = ground arith

  pub at-start : at size fp 0 ≡ fp
  at-start = ground arith

  pub at-in : (i : ℕ) → i < size → at size fp i < size
  at-in i lt = ground arith

  -- Every entry is some places behind `fp`.
  pub reach : (s : ℕ) → s < size → (i : ℕ) × (i < size) × (at size fp i ≡ s)
  reach s lt = elim (dec_lt s fp) [
    | yes l ↦ (s + size - fp, omega arith, ground arith)
    | no g ↦ (s - fp, omega arith, ground arith)
  ]

  abbrev pub page_at : ℕ → ℕ
  page_at i = addresses (at size fp i)

  -- From `i` on, the first sweep finds a clean page or there is none.
  abbrev pub CleanSweep : ℕ → Bits → Sweep → Type 0
  CleanSweep i b r =
      ((j : ℕ) × (j < size) × (is_clean b (page_at j) ≡ true) × (r ≡ victim (at size fp j) b))
      ⊎ (((k : ℕ) → i ≤ k → k < size → is_clean b (page_at k) ≡ false) × (r ≡ came_back b))

  sweep_clean-step :
      (fuel i : ℕ) (b : Bits)
      → i < size
      → is_clean b (page_at i) ≡ false
      → sweep_clean (suc fuel) addresses size fp (at size fp i) b ≡ (
          if at size fp (i + 1) == fp
          then came_back b
          else sweep_clean fuel addresses size fp (at size fp (i + 1)) b)
  unfolding sweep_clean
  sweep_clean-step fuel i b lt dirty =
      ap
        (λ c.
          if c
          then victim (at size fp i) b
          else if advance size (at size fp i) == fp
          then came_back b
          else sweep_clean fuel addresses size fp (advance size (at size fp i)) b)
        dirty
      ∙ ap (λ n. if n == fp then came_back b else sweep_clean fuel addresses size fp n b)
          (at-advance i lt)

  sweep_clean-hit :
      (fuel i : ℕ) (b : Bits)
      → is_clean b (page_at i) ≡ true
      → sweep_clean (suc fuel) addresses size fp (at size fp i) b ≡ victim (at size fp i) b
  unfolding sweep_clean
  sweep_clean-hit fuel i b clean =
      ap
        (λ c.
          if c
          then victim (at size fp i) b
          else if advance size (at size fp i) == fp
          then came_back b
          else sweep_clean fuel addresses size fp (advance size (at size fp i)) b)
        clean

  only-last :
      (i : ℕ) (b : Bits)
      → is_clean b (page_at i) ≡ false
      → (k : ℕ) → i ≤ k
      → k < i + 1
      → is_clean b (page_at k) ≡ false
  only-last i b dirty k lo hi =
      let e : k ≡ i = omega arith in ap (λ x. is_clean b (page_at x)) e ∙ dirty

  sweep_clean-CleanSweep :
      (left i : ℕ) (b : Bits)
      → i + left ≡ size
      → 0 < left
      → CleanSweep i b (sweep_clean left addresses size fp (at size fp i) b)
  sweep_clean-CleanSweep zero i b all some_left = absurd (omega arith)
  sweep_clean-CleanSweep (suc left) i b all some_left = elim (Bool-cases (is_clean b (page_at i))) [
    | inl clean ↦ inl (i, omega arith, clean, sweep_clean-hit left i b clean)
    | inr dirty ↦
        let step = sweep_clean-step left i b (omega arith) dirty in
        elim (ℕ_discrete left 0) [
          | yes e ↦
              let last : (at size fp (i + 1) == fp) ≡ true =
                ap (λ n. at size fp n == fp) (omega (arith, e, all))
                ∙ ap (λ a. a == fp) at-end
                ∙ ==-refl fp in
              inr (
                λ k lo hi. only-last i b dirty k lo (omega arith),
                step
                    ∙ ap
                        (λ c.
                          if c
                          then came_back b
                          else sweep_clean left addresses size fp (at size fp (i + 1)) b)
                        last,
              )
          | no more ↦
              let on =
                step
                ∙ ap
                    (λ c.
                      if c
                      then came_back b
                      else sweep_clean left addresses size fp (at size fp (i + 1)) b)
                    (at-fp (i + 1) (omega arith) (omega arith)) in
              elim (sweep_clean-CleanSweep left (i + 1) b (omega arith) (omega arith)) [
                | inl (j, lt, clean, r) ↦ inl (j, lt, clean, on ∙ r)
                | inr (none_clean, r) ↦ inr (
                  λ k lo hi. elim (dec_lt i k) [
                    | yes behind ↦ none_clean k (omega arith) hi
                    | no here ↦ only-last i b dirty k lo (omega arith)
                  ],
                  on ∙ r,
                )
              ]
        ]
  ]

  abbrev unused_round : ℕ → ℕ → Bits → Bool → Sweep
  unused_round fuel n b free =
      if free
      then victim n b
      else if advance size n == fp
      then came_back (clear_used (addresses n) b)
      else sweep_unused fuel addresses size fp (advance size n) (clear_used (addresses n) b)

  sweep_unused-step :
      (fuel i : ℕ) (b : Bits)
      → i < size
      → not (b.used (page_at i)) ≡ false
      → sweep_unused (suc fuel) addresses size fp (at size fp i) b ≡ (
          if at size fp (i + 1) == fp
          then came_back (clear_used (page_at i) b)
          else sweep_unused fuel addresses size fp (at size fp (i + 1)) (clear_used (page_at i) b))
  unfolding sweep_unused
  sweep_unused-step fuel i b lt used =
      ap (unused_round fuel (at size fp i) b) used
      ∙ ap
          (λ n.
            if n == fp
            then came_back (clear_used (page_at i) b)
            else sweep_unused fuel addresses size fp n (clear_used (page_at i) b))
          (at-advance i lt)

  pub sweep_unused-hit :
      (fuel i : ℕ) (b : Bits)
      → not (b.used (page_at i)) ≡ true
      → sweep_unused (suc fuel) addresses size fp (at size fp i) b ≡ victim (at size fp i) b
  unfolding sweep_unused
  sweep_unused-hit fuel i b free = ap (unused_round fuel (at size fp i) b) free

  -- Sweeps clear used bits and set none.
  abbrev pub Cleared : Bits → Bits → Type 0
  Cleared b b1 = (a : ℕ) → b.used a ≡ false → b1.used a ≡ false

  clear_used-Cleared : (va : ℕ) (b : Bits) → Cleared b (clear_used va b)
  clear_used-Cleared va b a h = ground (arith, h)

  cleared_self : (va : ℕ) (b : Bits) → (clear_used va b).used va ≡ false
  cleared_self va b = ground arith

  -- From `i` on, the second sweep finds a victim, or no page that it has passed is used any more.
  abbrev pub UnusedSweep : ℕ → Bits → Sweep → Type 0
  UnusedSweep i b r =
      ((j : ℕ) × (b1 : Bits) × (j < size) × (r ≡ victim (at size fp j) b1))
      ⊎ ((b1 : Bits) × ((k : ℕ) → i ≤ k → k < size → b1.used (page_at k) ≡ false)
          × Cleared b b1
          × (r ≡ came_back b1))

  sweep_unused-UnusedSweep :
      (left i : ℕ) (b : Bits)
      → i + left ≡ size
      → 0 < left
      → UnusedSweep i b (sweep_unused left addresses size fp (at size fp i) b)
  sweep_unused-UnusedSweep zero i b all some_left = absurd (omega arith)
  sweep_unused-UnusedSweep (suc left) i b all some_left =
      let c = clear_used (page_at i) b in
      let here : (k : ℕ) → k ≡ i → c.used (page_at k) ≡ false =
        λ k e. ap (λ x. c.used (page_at x)) e ∙ cleared_self (page_at i) b in
      elim (Bool-cases (not (b.used (page_at i)))) [
        | inl free ↦ inl (i, b, omega arith, sweep_unused-hit left i b free)
        | inr used ↦
            let step = sweep_unused-step left i b (omega arith) used in
            elim (ℕ_discrete left 0) [
              | yes e ↦
                  let last : (at size fp (i + 1) == fp) ≡ true =
                    ap (λ n. at size fp n == fp) (omega (arith, e, all))
                    ∙ ap (λ a. a == fp) at-end
                    ∙ ==-refl fp in
                  inr (
                    c,
                    (λ k lo hi. here k (omega (arith, e, all))),
                    clear_used-Cleared (page_at i) b,
                    step
                        ∙ ap
                            (λ t.
                              if t
                              then came_back c
                              else sweep_unused left addresses size fp (at size fp (i + 1)) c)
                            last,
                  )
              | no more ↦
                  let on =
                    step
                    ∙ ap
                        (λ t.
                          if t
                          then came_back c
                          else sweep_unused left addresses size fp (at size fp (i + 1)) c)
                        (at-fp (i + 1) (omega arith) (omega arith)) in
                  elim (sweep_unused-UnusedSweep left (i + 1) c (omega arith) (omega arith)) [
                    | inl (j, b1, lt, r) ↦ inl (j, b1, lt, on ∙ r)
                    | inr (b1, behind, mono, r) ↦ inr (
                      b1,
                      (λ k lo hi. elim (dec_lt i k) [
                        | yes later ↦ behind k (omega arith) hi
                        | no first ↦
                            let e : k ≡ i = omega arith in
                            ap (λ x. b1.used (page_at x)) e
                            ∙ mono (page_at i) (cleared_self (page_at i) b)
                      ]),
                      (λ a h. mono a (clear_used-Cleared (page_at i) b a h)),
                      on ∙ r,
                    )
                  ]
            ]
      ]

  pub first_sweep : (b : Bits) → CleanSweep 0 b (sweep_clean size addresses size fp fp b)
  first_sweep b =
      subst (λ n. CleanSweep 0 b (sweep_clean size addresses size fp n b)) at-start
        (sweep_clean-CleanSweep size 0 b (omega arith) (omega arith))

  pub second_sweep : (b : Bits) → UnusedSweep 0 b (sweep_unused size addresses size fp fp b)
  second_sweep b =
      subst (λ n. UnusedSweep 0 b (sweep_unused size addresses size fp n b)) at-start
        (sweep_unused-UnusedSweep size 0 b (omega arith) (omega arith))
