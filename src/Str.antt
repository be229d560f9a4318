-- ===== src/Str.antt =====
-- lib/string.c: the string and memory routines, on a memory of bytes.
-- An address is a number, and 0 is NULL; a block does not run past the end of the address space. A
-- loop that ends at a terminator runs on fuel, and gives none when the fuel ends before it does.
pub mod Scan
pub mod Copy
pub mod Number
pub mod Found
pub mod Compare
pub mod Moved
pub mod Copied
pub mod Digits
mod Tests
use fos_kernel.Prelude.{ℕ, suc, ◌≡◌, ◌≢◌, List, [], ◌∷◌, ◌==◌, if◌then◌else◌}

abbrev pub Memory : Type 0
Memory = ℕ → ℕ

abbrev pub poke : Memory → ℕ → ℕ → Memory
poke m a v q = if q == a then v else m q

-- From `s` on, the memory holds these bytes, none of them zero, and then the terminator.
abbrev pub IsString : Memory → ℕ → List ℕ → Type 0
IsString m s [] = m s ≡ 0
IsString m s (b ∷ bs) = (m s ≡ b) × (b ≢ 0) × IsString m (suc s) bs
