-- ===== src/PrintFmt.antt =====
-- lib/printfmt.c: how the formatted output writes a number.
pub mod Number
mod Tests
use fos_kernel.Prelude.{
  ℕ, zero, suc, ◌-◌, ◌/◌, ◌%◌, Option, none, some, List, [], ◌∷◌, ◌++◌, leb, if◌then◌else◌,
  replicate, get_elem?,
}

-- The character codes of "0123456789abcdef".
abbrev pub digit_chars : List ℕ
digit_chars = 48 ∷ 49 ∷ 50 ∷ 51 ∷ 52 ∷ 53 ∷ 54 ∷ 55 ∷ 56 ∷ 57 ∷ 97 ∷ 98 ∷ 99 ∷ 100 ∷ 101 ∷ 102 ∷ []

-- `putch(c, putdat)`, behind what the recursive call has put. A digit without a character fails.
abbrev pub put : Option ℕ → Option (List ℕ) → Option (List ℕ)
put (some c) (some out) = some (out ++ c ∷ [])
put (some c) none = none
put none r = none

-- The characters that `printnum` puts, in their order. A width below 1 pads nothing, so a negative one
-- is 0 here. The fuel bounds the depth of the recursion.
unfoldable pub printnum : ℕ → ℕ → ℕ → ℕ → ℕ → Option (List ℕ)
printnum zero num base width padc = none
printnum (suc fuel) num base width padc =
    let rest = printnum fuel (num / base) base (width - 1) padc in
    put (get_elem? digit_chars (num % base))
      (if leb base num then rest else some (replicate (width - 1) padc))
