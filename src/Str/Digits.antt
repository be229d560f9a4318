-- ===== src/Str/Digits.antt =====
-- lib/string.c: what `strtol` reads, and what `ltostr` writes.
use fos_kernel.Prelude.{
  ℕ, zero, suc, ◌+◌, ◌-◌, ◌*◌, ◌/◌, ◌%◌, ◌^◌, ◌<◌, ◌≤◌, ◌≡◌, refl, ap, ◌∙◌, true, false, none, some,
  List, [], ◌∷◌, length, leb, ltb, if◌then◌else◌, arith, ◌⊎◌, inl, inr,
}
use native.Mathlib.Nat.{mod-eq_of_lt}
use fos_kernel.Str.{Memory, poke, IsString}
use fos_kernel.Str.Scan.{pos, negsuc}
use fos_kernel.Str.Number.{
  skip_blanks, read_sign, read_prefix, digit_value, read_digits, strtol, write_digits,
  reverse_digits, ltostr,
}

-- `val` with the decimal digits behind it.
abbrev pub decimal : ℕ → List ℕ → ℕ
decimal val [] = val
decimal val (d ∷ ds) = decimal (val * 10 + d) ds

abbrev pub AreDigits : List ℕ → Type 0
AreDigits [] = Unit {0}
AreDigits (d ∷ ds) = (d < 10) × AreDigits ds

abbrev pub to_text : List ℕ → List ℕ
to_text [] = []
to_text (d ∷ ds) = (d + 48) ∷ to_text ds

digit_value-digit : (d : ℕ) → d < 10 → digit_value (d + 48) ≡ some d
unfolding digit_value
digit_value-digit d lt =
    let back : d + 48 - 48 ≡ d = omega arith in
    rw (not-below 48 (d + 48) (omega arith), not-below (d + 48) 57 (omega arith)) (ap some back)
  where
    not-below : (a b : ℕ) → a ≤ b → leb a b ≡ true
    not-below a b h = ground arith

digit_value-end : digit_value 0 ≡ none
unfolding digit_value
digit_value-end = refl

decimal-grows : (val : ℕ) (ds : List ℕ) → val ≤ decimal val ds
decimal-grows val [] = omega arith
decimal-grows val (d ∷ ds) = omega (arith, decimal-grows (val * 10 + d) ds)

read_digits-decimal :
    (fuel : ℕ) (m : Memory) (s val : ℕ) (ds : List ℕ)
    → AreDigits ds
    → IsString m s (to_text ds)
    → length ds < fuel
    → decimal val ds < 2 ^ 32
    → read_digits fuel m s 10 val ≡ some (decimal val ds, s + length ds)
unfolding read_digits
read_digits-decimal zero m s val ds are str lt small = absurd (omega arith)
read_digits-decimal (suc fuel) m s val [] are str lt small =
    rw (read_digits, str, digit_value-end) (ap (λ a. some (val, a)) (omega arith))
read_digits-decimal (suc fuel) m s val (d ∷ ds) are str lt small =
    let fits : (val * 10 + d) % 2 ^ 32 ≡ val * 10 + d =
      mod-eq_of_lt (omega (arith, decimal-grows (val * 10 + d) ds)) in
    let digit : leb 10 d ≡ false = ground (arith, are.0) in
    rw (read_digits, str.0, digit_value-digit d are.0, digit, fits)
      (read_digits-decimal fuel m (suc s) (val * 10 + d) ds are.1 str.2 (omega arith) small
        ∙ ap (λ a. some (decimal (val * 10 + d) ds, a)) (omega arith))

-- The first byte of a string of digits: the terminator or a digit.
abbrev Starts : ℕ → Type 0
Starts c = (c ≡ 0) ⊎ ((48 ≤ c) × (c < 58))

to_text-Starts :
    (m : Memory) (s : ℕ) (ds : List ℕ) → AreDigits ds → IsString m s (to_text ds) → Starts (m s)
to_text-Starts m s [] are str = inl str
to_text-Starts m s (d ∷ ds) are str = inr (omega (arith, str.0, are.0), omega (arith, str.0, are.0))

skip_blanks-none :
    (fuel : ℕ) (m : Memory) (s : ℕ) → Starts (m s) → skip_blanks (suc fuel) m s ≡ some s
unfolding skip_blanks
skip_blanks-none fuel m s first = ground (arith, first)

read_sign-none : (m : Memory) (s : ℕ) → Starts (m s) → read_sign m s ≡ (s, false)
unfolding read_sign
read_sign-none m s first = ground (arith, first)

read_prefix-ten : (m : Memory) (s : ℕ) → read_prefix m s 10 ≡ (s, 10)
unfolding read_prefix
read_prefix-ten m s = refl

-- A string of decimal digits whose value is below 2 ^ 32 is read in base 10, with the end at the
-- terminator, once the fuel exceeds the number of digits: as that value below 2 ^ 31, and as the
-- value less 2 ^ 32, a negative number, from there on.
pub strtol-decimal :
    (fuel : ℕ) (m : Memory) (s : ℕ) (ds : List ℕ)
    → AreDigits ds
    → IsString m s (to_text ds)
    → length ds < fuel
    → decimal 0 ds < 2 ^ 32
    → strtol fuel m s 10
      ≡ some (
        if ltb (decimal 0 ds) (2 ^ 31)
            then pos (decimal 0 ds)
            else negsuc (2 ^ 32 - 1 - decimal 0 ds),
        s + length ds,
      )
unfolding strtol
strtol-decimal zero m s ds are str lt small = absurd (omega arith)
strtol-decimal (suc fuel) m s ds are str lt small =
    let first = to_text-Starts m s ds are str in
    rw
      (
        strtol,
        skip_blanks-none fuel m s first,
        read_sign-none m s first,
        read_prefix-ten m s,
        read_digits-decimal (suc fuel) m s 0 ds are str lt small,
      )
      (rw (read_sign-none m s first) refl)

write_digits-stops :
    (fuel : ℕ) (m : Memory) (str s value : ℕ)
    → value / 10 % 10 ≡ 0
    → write_digits (suc fuel) m str s value ≡ some (poke m (str + s) (value % 10 + 48), s + 1)
unfolding write_digits
write_digits-stops fuel m str s value last = rw last refl

-- `ltostr` writes a value that is not negative and whose second-last decimal digit is zero as its
-- last digit alone, as 105 as "5".
pub ltostr-drops :
    (m : Memory) (value str : ℕ)
    → value / 10 % 10 ≡ 0
    → (m1 : Memory) × (ltostr m (pos value) str ≡ some m1)
      × IsString m1 str ((value % 10 + 48) ∷ [])
unfolding ltostr reverse_digits
ltostr-drops m value str last = (
  poke (poke m (str + 0) (value % 10 + 48)) (str + 1) 0,
  rw (ltostr, write_digits-stops 10 m str 0 value last) refl,
  (ground arith, (λ h. omega (arith, h)), ground arith),
)
