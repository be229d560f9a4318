-- ===== src/Str/Found.antt =====
-- lib/string.c: where `strlen`, `strnlen`, `strchr` and `strfind` end on a string.
use fos_kernel.Prelude.{
  ℕ, zero, suc, ◌+◌, ◌<◌, min, ◌≡◌, refl, ap, ◌∙◌, ◌≢◌, false, some, List, [], ◌∷◌, ◌++◌, length,
  ==-ne, ==-refl, arith,
}
use fos_kernel.Queue.Chain.{has}
use fos_kernel.Str.{Memory, IsString}
use fos_kernel.Str.Scan.{strlen_from, strlen, strnlen_from, strnlen, strchr, strfind}

strlen_from-IsString :
    (fuel : ℕ) (m : Memory) (s n : ℕ) (bs : List ℕ)
    → IsString m s bs
    → length bs < fuel
    → strlen_from fuel m s n ≡ some (n + length bs)
unfolding strlen_from
strlen_from-IsString zero m s n bs str lt = absurd (omega arith)
strlen_from-IsString (suc fuel) m s n [] str lt = rw str (ap some (omega arith))
strlen_from-IsString (suc fuel) m s n (b ∷ bs) str lt =
    rw (str.0, ==-ne b 0 str.1)
      (strlen_from-IsString fuel m (suc s) (n + 1) bs str.2 (omega arith) ∙ ap some (omega arith))

strnlen_from-IsString :
    (size : ℕ) (m : Memory) (s n : ℕ) (bs : List ℕ)
    → IsString m s bs
    → strnlen_from size m s n ≡ n + min size (length bs)
unfolding strnlen_from
strnlen_from-IsString zero m s n bs str = omega arith
strnlen_from-IsString (suc size) m s n [] str = rw str (omega arith)
strnlen_from-IsString (suc size) m s n (b ∷ bs) str =
    rw (str.0, ==-ne b 0 str.1)
      (omega (arith, strnlen_from-IsString size m (suc s) (n + 1) bs str.2))

-- On a string, `strlen` gives the number of its bytes, once the fuel exceeds it, and `strnlen` the
-- smaller of that number and the bound.
pub strlen_lem :
    (fuel : ℕ) (m : Memory) (s size : ℕ) (bs : List ℕ)
    → IsString m s bs
    → length bs < fuel
    → (strlen fuel m s ≡ some (length bs)) × (strnlen m s size ≡ min size (length bs))
unfolding strlen strnlen
strlen_lem fuel m s size bs str lt = (
  strlen_from-IsString fuel m s 0 bs str lt ∙ ap some (omega arith),
  strnlen_from-IsString size m s 0 bs str ∙ omega arith,
)

-- On a string with the byte `c`, with more fuel than there are bytes in front of it, `strchr` and
-- `strfind` give the address of its first occurrence.
pub strchr-at :
    (fuel : ℕ) (m : Memory) (s c : ℕ) (xs ys : List ℕ)
    → IsString m s (xs ++ c ∷ ys)
    → has c xs ≡ false
    → length xs < fuel
    → (strchr fuel m s c ≡ some (s + length xs)) × (strfind fuel m s c ≡ some (s + length xs))
unfolding strchr strfind
strchr-at zero m s c xs ys str out lt = absurd (omega arith)
strchr-at (suc fuel) m s c [] ys str out lt =
    rw (str.0, ==-ne c 0 str.1, ==-refl c) (ap some (omega arith), ap some (omega arith))
strchr-at (suc fuel) m s c (x ∷ xs) ys str out lt =
    let (left, right) = strchr-at fuel m (suc s) c xs ys str.2 (ground arith) (omega arith) in
    let other : x ≢ c = ground arith in
    let there : suc s + length xs ≡ s + suc (length xs) = omega arith in
    rw (str.0, ==-ne x 0 str.1, ==-ne x c other) (left ∙ ap some there, right ∙ ap some there)

-- On a string without the byte `c`, with more fuel than it has bytes, `strchr` gives NULL and
-- `strfind` the address of the terminator.
pub strchr-absent :
    (fuel : ℕ) (m : Memory) (s c : ℕ) (bs : List ℕ)
    → IsString m s bs
    → has c bs ≡ false
    → length bs < fuel
    → (strchr fuel m s c ≡ some 0) × (strfind fuel m s c ≡ some (s + length bs))
unfolding strchr strfind
strchr-absent zero m s c bs str out lt = absurd (omega arith)
strchr-absent (suc fuel) m s c [] str out lt = rw str (refl, ap some (omega arith))
strchr-absent (suc fuel) m s c (x ∷ xs) str out lt =
    let (left, right) = strchr-absent fuel m (suc s) c xs str.2 (ground arith) (omega arith) in
    let other : x ≢ c = ground arith in
    let there : suc s + length xs ≡ s + suc (length xs) = omega arith in
    rw (str.0, ==-ne x 0 str.1, ==-ne x c other) (left, right ∙ ap some there)
