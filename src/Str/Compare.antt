-- ===== src/Str/Compare.antt =====
-- lib/string.c: `strcmp` against the comparison of two sequences of bytes.
use fos_kernel.Prelude.{
  ℕ, zero, suc, ◌-◌, ◌<◌, ◌≡◌, refl, ap, sym, ◌↔◌, Bool, true, false, some, List, [], ◌∷◌, length,
  ◌==◌, ==-ne, ==-refl, if◌then◌else◌, arith, subst,
}
use native.Mathlib.Decide.{ℕ_discrete}
use fos_kernel.Str.{Memory, IsString}
use fos_kernel.Str.Scan.{ℤ, pos, negsuc, byte_diff, strcmp}

-- The difference at the first place where the sequences differ; behind its end a sequence has zeros.
pub compare_bytes : List ℕ → List ℕ → ℤ
compare_bytes [] [] = pos 0
compare_bytes [] (c ∷ cs) = byte_diff 0 c
compare_bytes (b ∷ bs) [] = byte_diff b 0
compare_bytes (b ∷ bs) (c ∷ cs) = if b == c then compare_bytes bs cs else byte_diff b c

pos-injective : (a b : ℕ) → pos a ≡ pos b → a ≡ b
pos-injective a b h = ap (λ z. elim z [ pos n ↦ n | negsuc n ↦ 0 ]) h

byte_diff-zero : (a b : ℕ) → byte_diff a b ≡ pos 0 → a ≡ b
byte_diff-zero a b h = ground (arith, pos-injective (a - b) 0)

if-some : (t : Bool) (x y : ℤ) → (if t then some x else some y) ≡ some (if t then x else y)
if-some true x y = refl
if-some false x y = refl

strcmp-runs :
    (fuel : ℕ) (m : Memory) (p q : ℕ) (bs cs : List ℕ)
    → IsString m p bs
    → IsString m q cs
    → length bs < fuel
    → strcmp fuel m p q ≡ some (compare_bytes bs cs)
unfolding strcmp compare_bytes
strcmp-runs zero m p q bs cs s t lt = absurd (omega arith)
strcmp-runs (suc fuel) m p q [] [] s t lt = rw (s, t) refl
strcmp-runs (suc fuel) m p q [] (c ∷ cs) s t lt = rw (s, t.0) refl
strcmp-runs (suc fuel) m p q (b ∷ bs) [] s t lt = rw (s.0, t, ==-ne b 0 s.1) refl
strcmp-runs (suc fuel) m p q (b ∷ bs) (c ∷ cs) s t lt =
    let ih = strcmp-runs fuel m (suc p) (suc q) bs cs s.2 t.2 (omega arith) in
    rw (s.0, t.0, ==-ne b 0 s.1, ih) (if-some (b == c) _ _)

compare_bytes-equal :
    (m : Memory) (p q : ℕ) (bs cs : List ℕ)
    → IsString m p bs
    → IsString m q cs
    → compare_bytes bs cs ≡ pos 0
    → bs ≡ cs
unfolding compare_bytes
compare_bytes-equal m p q [] [] s t h = refl
compare_bytes-equal m p q [] (c ∷ cs) s t h = absurd (t.1 (sym (byte_diff-zero 0 c h)))
compare_bytes-equal m p q (b ∷ bs) [] s t h = absurd (s.1 (byte_diff-zero b 0 h))
compare_bytes-equal m p q (b ∷ bs) (c ∷ cs) s t h = elim (ℕ_discrete b c) [
  | yes e ↦
      let ih = compare_bytes-equal m (suc p) (suc q) bs cs s.2 t.2 (ground arith) in cc (e, ih)
  | no ne ↦ absurd (
      ne (
        byte_diff-zero b c (
          subst (λ x. (if x then compare_bytes bs cs else byte_diff b c) ≡ pos 0) (==-ne b c ne)
            h)))
]

compare_bytes_self : (bs : List ℕ) → compare_bytes bs bs ≡ pos 0
unfolding compare_bytes
compare_bytes_self [] = refl
compare_bytes_self (b ∷ bs) = rw (==-refl b) (compare_bytes_self bs)

-- On two strings, with more fuel than the first has bytes, `strcmp` gives the difference at the first
-- place where they differ, and this is zero exactly when they are equal.
pub strcmp_lem :
    (fuel : ℕ) (m : Memory) (p q : ℕ) (bs cs : List ℕ)
    → IsString m p bs
    → IsString m q cs
    → length bs < fuel
    → (strcmp fuel m p q ≡ some (compare_bytes bs cs)) × ((compare_bytes bs cs ≡ pos 0) ↔ (bs ≡ cs))
strcmp_lem fuel m p q bs cs s t lt = (
  strcmp-runs fuel m p q bs cs s t lt,
  (
    compare_bytes-equal m p q bs cs s t,
    λ e. subst (λ l. compare_bytes bs l ≡ pos 0) e (compare_bytes_self bs),
  ),
)
