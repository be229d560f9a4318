-- ===== src/PrintFmt/Number.antt =====
-- lib/printfmt.c: the digits that `printnum` writes.
use fos_kernel.Prelude.{
  ℕ, zero, suc, ◌+◌, ◌-◌, ◌*◌, ◌/◌, ◌%◌, ◌^◌, ◌<◌, ◌≤◌, ◌≡◌, refl, sym, ap, ◌∙◌, true, false,
  Option, some, List, [], ◌∷◌, ◌++◌, map, leb, replicate, length, length-append, get_elem?, get_or,
  arith,
}
use native.Mathlib.Decide.{dec_lt}
use native.Mathlib.Nat.{
  mod-lt, mod-eq_of_lt, div-add-mod', mul-le-mul_left, div-lt_iff_lt-mul, le-div_iff_mul-le,
}
use mathlib.Core.List.{map-append, append_assoc}
use fos_kernel.PrintFmt.{digit_chars, put, printnum}

-- `val` with the digits `ds` to the base `base` behind it.
abbrev pub digits_value : ℕ → ℕ → List ℕ → ℕ
digits_value base val [] = val
digits_value base val (d ∷ ds) = digits_value base (val * base + d) ds

abbrev pub AllBelow : ℕ → List ℕ → Type 0
AllBelow base [] = Unit {0}
AllBelow base (d ∷ ds) = (d < base) × AllBelow base ds

abbrev pub digit_char : ℕ → ℕ
digit_char d = get_or digit_chars d 0

-- `num` is printed with the digits `first ∷ others`, which have its value and no leading zero, behind
-- as many pad characters as the width wants.
pub record Printed (num base width padc : ℕ) (r : Option (List ℕ)) : Type 0 where
  pub first : ℕ
  pub others : List ℕ
  pub value : digits_value base 0 (first ∷ others) ≡ num
  pub below : AllBelow base (first ∷ others)
  pub no_leading : 0 < num → 0 < first
  pub alone : num ≡ 0 → others ≡ []
  pub put_so :
      r ≡ some (replicate (width - length (first ∷ others)) padc ++ map digit_char (first ∷ others))

digits_value-append :
    (base val d : ℕ) (ds : List ℕ)
    → digits_value base val (ds ++ d ∷ []) ≡ digits_value base val ds * base + d
digits_value-append base val d [] = refl
digits_value-append base val d (x ∷ ds) = digits_value-append base (val * base + x) d ds

AllBelow-append :
    (base d : ℕ) (ds : List ℕ) → AllBelow base ds → d < base → AllBelow base (ds ++ d ∷ [])
AllBelow-append base d [] all lt = (lt, tt)
AllBelow-append base d (x ∷ ds) all lt = (all.0, AllBelow-append base d ds all.1 lt)

leb-true : (a b : ℕ) → a ≤ b → leb a b ≡ true
leb-true a b h = ground arith

leb-false : (a b : ℕ) → b < a → leb a b ≡ false
leb-false a b h = ground arith

known : (xs : List ℕ) (i : ℕ) → i < length xs → get_elem? xs i ≡ some (get_or xs i 0)
known [] i lt = absurd (omega arith)
known (x ∷ xs) zero lt = refl
known (x ∷ xs) (suc i) lt = known xs i (omega arith)

digit-known : (d : ℕ) → d < 16 → get_elem? digit_chars d ≡ some (digit_char d)
digit-known d lt = known digit_chars d lt

put-digits :
    (n padc d : ℕ) (ds : List ℕ)
    → put (some (digit_char d)) (some (replicate n padc ++ map digit_char ds))
      ≡ some (replicate n padc ++ map digit_char (ds ++ d ∷ []))
put-digits n padc d ds = ap some (
    append_assoc (replicate n padc) (map digit_char ds) (digit_char d ∷ [])
    ∙ ap (λ xs. replicate n padc ++ xs) (sym (map-append digit_char ds (d ∷ []))))

module _ (base padc : ℕ) (some_base : 2 ≤ base) (few : base ≤ 16) where
  -- A number of one digit.
  one_digit :
      (fuel num width : ℕ)
      → num < base
      → Printed num base width padc (printnum (suc fuel) num base width padc)
  unfolding printnum
  one_digit fuel num width lt = record {
    first = num;
    others = [];
    value = omega arith;
    below = (lt, tt);
    no_leading = λ h. h;
    alone = λ e. refl;
    put_so = rw (leb-false base num lt, mod-eq_of_lt lt, digit-known num (omega arith)) refl;
  }

  quotient-shrinks : (num b : ℕ) → num < 2 * b → num / base < b
  quotient-shrinks num b lt =
      (div-lt_iff_lt-mul (omega arith)).1 (omega (arith, mul-le-mul_left b some_base))

  quotient-pos : (num : ℕ) → base ≤ num → 0 < num / base
  quotient-pos num le = (le-div_iff_mul-le (omega arith)).1 (omega arith)

  -- One more digit, behind those of the quotient.
  more_digits :
      (fuel num width : ℕ)
      → base ≤ num
      → Printed
          (num / base)
          base
          (width - 1)
          padc
          (printnum fuel (num / base) base (width - 1) padc)
      → Printed num base width padc (printnum (suc fuel) num base width padc)
  unfolding printnum
  more_digits fuel num width le p =
      let digit : num % base < base = mod-lt num (omega arith) in
      record {
        first = p.first;
        others = p.others ++ num % base ∷ [];
        value =
            digits_value-append base 0 (num % base) (p.first ∷ p.others)
            ∙ ap (λ v. v * base + num % base) p.value
            ∙ div-add-mod' num base;
        below = AllBelow-append base (num % base) (p.first ∷ p.others) p.below digit;
        no_leading = λ h. p.no_leading (quotient-pos num le);
        alone = λ e. absurd (omega arith);
        put_so =
            rw (leb-true base num le, p.put_so, digit-known (num % base) (omega arith))
              (put-digits (width - 1 - length (p.first ∷ p.others)) padc (num % base)
                  (p.first ∷ p.others)
                ∙ ap
                    (λ n.
                      some (
                        replicate n padc ++ map digit_char (p.first ∷ p.others ++ num % base ∷ [])))
                    (omega (arith, length-append p.others (num % base ∷ []))));
      }

  printed :
      (fuel num width : ℕ)
      → num < 2 ^ fuel
      → Printed num base width padc (printnum (suc fuel) num base width padc)
  printed zero num width lt = one_digit 0 num width (omega arith)
  printed (suc fuel) num width lt = elim (dec_lt num base) [
    | yes l ↦ one_digit (suc fuel) num width l
    | no g ↦
        more_digits (suc fuel) num width (omega arith)
          (printed fuel (num / base) (width - 1) (quotient-shrinks num (2 ^ fuel) (omega arith)))
  ]

-- For a 64-bit number and a base from 2 to 16, `printnum` returns within a depth of 65 calls, and it puts
-- the digits of the number to that base, most significant first and without a leading zero, behind
-- the pad characters that the width asks for.
pub printnum-Printed :
    (base padc num width : ℕ)
    → 2 ≤ base
    → base ≤ 16
    → num < 2 ^ 64
    → Printed num base width padc (printnum 65 num base width padc)
printnum-Printed base padc num width some_base few lt =
    printed base padc some_base few 64 num width lt
