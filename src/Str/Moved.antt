-- ===== src/Str/Moved.antt =====
-- lib/string.c: what `memset`, `memcpy` and `memmove` leave at every address.
use fos_kernel.Prelude.{
  ℕ, zero, suc, ◌+◌, ◌-◌, ◌^◌, ◌%◌, ◌≤◌, ◌≡◌, ap, ◌⊎◌, inl, inr, not, ◌&&◌, ltb, if◌then◌else◌,
  arith, Bool-cases, not-ltb,
}
use native.Mathlib.Decide.{dec_lt}
use fos_kernel.Str.{Memory, poke}
use fos_kernel.Str.Copy.{memset_from, memset, memcpy, memmove_down, memmove}

-- The block of `n` bytes at `d` holds `f` of the offset, and all else is as in `m`.
abbrev pub Block : Memory → Memory → ℕ → ℕ → (ℕ → ℕ) → Type 0
Block m m1 d n f = (a : ℕ) → m1 a ≡ (if not (ltb a d) && ltb a (d + n) then f (a - d) else m a)

memset_from-Block : (m : Memory) (p c n : ℕ) → Block m (memset_from m p c n) p n (λ _. c)
unfolding memset_from
memset_from-Block m p c zero a = ground arith
memset_from-Block m p c (suc n) a = ground (arith, memset_from-Block (poke m p c) (suc p) c n a)

-- Behind `memset` with a count of at most 2 ^ 31, every byte of the block is the low byte of `c`,
-- and no other byte changes.
pub memset_lem : (m : Memory) (v c n : ℕ) → n ≤ 2 ^ 31 → Block m (memset m v c n) v n (λ _. c % 256)
unfolding memset
memset_lem m v c n le = rw (not-ltb (2 ^ 31) n le) (memset_from-Block m v (c % 256) n)

next_apart : (d s n : ℕ) → (d ≤ s) ⊎ (s + suc n ≤ d) → (suc d ≤ suc s) ⊎ (suc s + n ≤ suc d)
next_apart d s n (inl h) = inl (omega arith)
next_apart d s n (inr h) = inr (omega arith)

-- A forward copy is right where it does not overwrite what it has still to read.
pub memcpy-Block :
    (m : Memory) (d s n : ℕ) → (d ≤ s) ⊎ (s + n ≤ d) → Block m (memcpy m d s n) d n (λ i. m (s + i))
unfolding memcpy
memcpy-Block m d s zero apart a = ground arith
memcpy-Block m d s (suc n) apart a =
    let ih = memcpy-Block (poke m d (m s)) (suc d) (suc s) n (next_apart d s n apart) a in
    elim (dec_lt d a) [
      | yes lt ↦
          let at_a : suc s + (a - suc d) ≡ s + (a - d) = omega arith in
          let same : m (suc s + (a - suc d)) ≡ m (s + (a - d)) = ap m at_a in
          ground (arith, ih, same, apart)
      | no ge ↦
          let first : d ≡ a → m (s + (a - d)) ≡ m s = λ e. ap m (omega (arith, e)) in
          ground (arith, ih, apart, first)
    ]

memmove_down-Block :
    (m : Memory) (d s n : ℕ) → s ≤ d → Block m (memmove_down m d s n) d n (λ i. m (s + i))
unfolding memmove_down
memmove_down-Block m d s zero le a = ground arith
memmove_down-Block m d s (suc n) le a =
    let ih = memmove_down-Block (poke m (d + n) (m (s + n))) d s n le a in
    let last : d + n ≡ a → m (s + (a - d)) ≡ m (s + n) = λ e. ap m (omega (arith, e)) in
    ground (arith, ih, last)

-- Behind `memmove`, the block of `n` bytes at `d` holds what the block at `s` held before the call,
-- however the two overlap, and no other byte changes.
pub memmove_lem : (m : Memory) (d s n : ℕ) → Block m (memmove m d s n) d n (λ i. m (s + i))
unfolding memmove
memmove_lem m d s n = elim (Bool-cases (ltb s d && ltb d (s + n))) [
  | inl over ↦ rw over (memmove_down-Block m d s n (ground arith))
  | inr apart ↦ rw apart (memcpy-Block m d s n (ground arith))
]
