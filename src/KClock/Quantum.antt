-- ===== src/KClock/Quantum.antt =====
-- What counter 0 holds after `kclock_set_quantum`, for every quantum.
use fos_kernel.Prelude.{
  ℕ, zero, suc, ◌/◌, ◌^◌, ◌≤◌, ◌<◌, ◌≡◌, refl, ap, Bool, true, false, leb, ◌%◌, if◌then◌else◌, ◌&&◌,
  arith, ltb, ltb→lt, lt→ltb, not-ltb, ==-ne, sym, subst, ◌∙◌, ◌≢◌, ◌↔◌,
}
use native.Mathlib.Decide.{dec_le, ℕ_discrete}
use native.Mathlib.Nat.{mod-eq_of_lt}
use fos_kernel.KClock.{
  timer_div, Set, programmed, divide_error, panicked, kclock_set_quantum, kclock_read_cnt0,
  kclock_write_cnt0_lsb_first,
}

-- A 16-bit count that is written low byte first is read back as it was.
pub read-write : (v : ℕ) → v < 2 ^ 16 → kclock_read_cnt0 (kclock_write_cnt0_lsb_first v) ≡ v
unfolding kclock_read_cnt0 kclock_write_cnt0_lsb_first
read-write v h = omega arith

-- A test that each quantum up to the last one passes.
each_upto : (ℕ → Bool) → ℕ → Bool
each_upto test zero = test 0
each_upto test (suc last) = each_upto test last && test (suc last)

each_upto_lem :
    (test : ℕ → Bool) (last q : ℕ) → q ≤ last → each_upto test last ≡ true → test q ≡ true
unfolding each_upto
each_upto_lem test zero q le passed = let only : q ≡ 0 = omega arith in rw only passed
each_upto_lem test (suc last) q le passed = elim (dec_le q last) [
  | yes below ↦ each_upto_lem test last q below (ground arith)
  | no above ↦ let at_last : q ≡ suc last = omega arith in rw at_last (ground arith)
]

abbrev fits : ℕ → Bool
fits q = ltb (timer_div (1000 / q)) (2 ^ 16)

each_fits : each_upto fits 52 ≡ true
unfolding each_upto
each_fits = refl

count_fits : (q : ℕ) → q ≤ 52 → timer_div (1000 / q) < 2 ^ 16
count_fits q le = ltb→lt (timer_div (1000 / q)) (2 ^ 16) (each_upto_lem fits 52 q le each_fits)

-- Counter 0 is programmed, and reads the divisor for 1000 / q interrupts a second.
abbrev pub Programs : ℕ → Type 0
Programs q =
    (bytes : ℕ × ℕ) × (kclock_set_quantum q ≡ programmed bytes)
    × (kclock_read_cnt0 bytes ≡ timer_div (1000 / q))

-- From 53 ms on, the count takes more than 16 bits.
abbrev exceeds : ℕ → Bool
exceeds q = if ltb q 53 then true else leb (2 ^ 16) (timer_div (1000 / q))

each_exceeds : each_upto exceeds 255 ≡ true
unfolding each_upto
each_exceeds = refl

count_exceeds : (q : ℕ) → 53 ≤ q → q ≤ 255 → 2 ^ 16 ≤ timer_div (1000 / q)
count_exceeds q lo hi =
    let test : exceeds q ≡ true = each_upto_lem exceeds 255 q hi each_exceeds in
    let large : ltb q 53 ≡ false = not-ltb q 53 lo in ground (arith, test, large)

-- What `kclock_set_quantum` leaves, for every quantum but 0.
programs_count :
    (q : ℕ)
    → 1 ≤ q
    → q ≤ 255
    → kclock_set_quantum q
      ≡ programmed (kclock_write_cnt0_lsb_first (timer_div (1000 / q) % 2 ^ 16))
unfolding kclock_set_quantum
programs_count q lo hi = rw (lt→ltb q 1000 (omega arith), ==-ne q 0 (omega arith)) refl

exact : (q : ℕ) → 1 ≤ q → q ≤ 52 → Programs q
exact q lo hi =
    let small = count_fits q hi in
    (
      kclock_write_cnt0_lsb_first (timer_div (1000 / q)),
      programs_count q lo (omega arith)
          ∙ ap (λ n. programmed (kclock_write_cnt0_lsb_first n)) (mod-eq_of_lt small),
      read-write (timer_div (1000 / q)) small,
    )

bytes_of : Set → ℕ × ℕ
bytes_of (programmed bytes) = bytes
bytes_of divide_error = (0, 0)
bytes_of panicked = (0, 0)

not-large : (q : ℕ) → 53 ≤ q → q ≤ 255 → Programs q → ⊥
unfolding bytes_of
not-large q lo hi (bytes, set, read) =
    let n = timer_div (1000 / q) % 2 ^ 16 in
    let same : kclock_write_cnt0_lsb_first n ≡ bytes =
      ap bytes_of (sym (programs_count q (omega arith) hi) ∙ set) in
    let held : kclock_read_cnt0 bytes ≡ n =
      ap kclock_read_cnt0 (sym same) ∙ read-write n (omega arith) in
    omega (arith, held, read, count_exceeds q lo hi)

not-zero : Programs 0 → ⊥
unfolding kclock_set_quantum
not-zero (bytes, set, read) = cc

never-panics : (q : ℕ) → q ≤ 255 → kclock_set_quantum q ≢ panicked
unfolding kclock_set_quantum
never-panics q hi stop = elim (ℕ_discrete q 0) [
  | yes z ↦ let fault : kclock_set_quantum q ≡ divide_error = rw z refl in cc (sym fault ∙ stop)
  | no ne ↦ cc (sym (programs_count q (omega arith) hi) ∙ stop)
]

-- Of all quantums that a `uint8` holds, exactly those of 1 to 52 ms leave counter 0 with the divisor
-- of 1000 / quantum Hz; yet `kclock_set_quantum` panics for none of them.
pub kclock_set_quantum_iff :
    (q : ℕ) → q ≤ 255 → (Programs q ↔ ((1 ≤ q) × (q ≤ 52))) × (kclock_set_quantum q ≢ panicked)
kclock_set_quantum_iff q hi = ((bounds, λ b. exact q b.0 b.1), never-panics q hi)
  where
    bounds : Programs q → (1 ≤ q) × (q ≤ 52)
    bounds p =
        let ne_zero : q ≢ 0 = λ e. not-zero (subst Programs e p) in
        elim (dec_le q 52) [
          | yes small ↦ (omega arith, small)
          | no large ↦ absurd (not-large q (omega arith) hi p)
        ]
