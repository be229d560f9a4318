-- ===== src/Str/Tests.antt =====
-- Runs of lib/string.c on a small memory, and the theorems at concrete strings.
use fos_kernel.Prelude.{ℕ, ◌+◌, ◌-◌, ◌≡◌, refl, ◌↔◌, some, List, [], ◌∷◌, get_or, arith}
use fos_kernel.Str.{Memory, IsString}
use fos_kernel.Str.Scan.{pos, strcmp}
use fos_kernel.Str.Copy.{memmove}
use fos_kernel.Str.Number.{strtol, ltostr}
use fos_kernel.Str.Compare.{compare_bytes, strcmp_lem}
use fos_kernel.Str.Moved.{Block, memmove_lem}
use fos_kernel.Str.Digits.{strtol-decimal, ltostr-drops}

-- "420" at 10 and "42" at 20.
abbrev memory : Memory
memory a = get_or (52 ∷ 50 ∷ 48 ∷ 0 ∷ 0 ∷ 0 ∷ 0 ∷ 0 ∷ 0 ∷ 0 ∷ 52 ∷ 50 ∷ 0 ∷ []) (a - 10) 0

strcmp_example :
    (strcmp 9 memory 10 20 ≡ some (compare_bytes (52 ∷ 50 ∷ 48 ∷ []) (52 ∷ 50 ∷ [])))
    × ((compare_bytes (52 ∷ 50 ∷ 48 ∷ []) (52 ∷ 50 ∷ []) ≡ pos 0)
        ↔ (◌≡◌ {A = List ℕ} (52 ∷ 50 ∷ 48 ∷ []) (52 ∷ 50 ∷ [])))
strcmp_example =
    strcmp_lem 9 memory 10 20 (52 ∷ 50 ∷ 48 ∷ []) (52 ∷ 50 ∷ []) (omega arith) (omega arith)
      (omega arith)

memmove_example : Block memory (memmove memory 11 10 3) 11 3 (λ i. memory (10 + i))
memmove_example = memmove_lem memory 11 10 3

strtol-decimal_example : strtol 9 memory 10 10 ≡ some (pos 420, 13)
strtol-decimal_example =
    strtol-decimal 9 memory 10 (4 ∷ 2 ∷ 0 ∷ []) (omega arith) (omega arith) (omega arith)
      (omega arith)

ltostr-drops_example :
    (m1 : Memory) × (ltostr memory (pos 105) 40 ≡ some m1) × IsString m1 40 (53 ∷ [])
ltostr-drops_example = ltostr-drops memory 105 40 refl
