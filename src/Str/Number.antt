-- ===== src/Str/Number.antt =====
-- lib/string.c: `strtol`, `ltostr` and `strsplit`.
use fos_kernel.Prelude.{
  ℕ, zero, suc, ◌+◌, ◌-◌, ◌*◌, ◌/◌, ◌^◌, ◌%◌, Bool, true, false, not, ◌&&◌, ◌||◌, Option, none,
  some, List, [], ◌∷◌, ◌++◌, length, ltb, leb, ◌==◌, if◌then◌else◌,
}
use fos_kernel.Str.{Memory, poke}
use fos_kernel.Str.Scan.{ℤ, pos, negsuc, strchr}

-- Past the blanks: 32 is the space and 9 the tab.
unfoldable pub skip_blanks : ℕ → Memory → ℕ → Option ℕ
skip_blanks zero m s = none
skip_blanks (suc fuel) m s =
    let rest = skip_blanks fuel m (suc s) in if (m s == 32) || (m s == 9) then rest else some s

-- Past the sign, and whether it is a minus.
unfoldable pub read_sign : Memory → ℕ → ℕ × Bool
read_sign m s =
    if m s == 43 then (suc s, false) else if m s == 45 then (suc s, true) else (s, false)

-- Past the prefix, and the base.
unfoldable pub read_prefix : Memory → ℕ → ℕ → ℕ × ℕ
read_prefix m s base =
    if ((base == 0) || (base == 16)) && ((m s == 48) && (m (suc s) == 120))
    then (suc (suc s), 16)
    else if (base == 0) && (m s == 48)
    then (suc s, 8)
    else if base == 0
    then (s, 10)
    else (s, base)

-- `dig`, or none at a character that is no digit of any base.
unfoldable pub digit_value : ℕ → Option ℕ
digit_value c =
    if leb 48 c && leb c 57
    then some (c - 48)
    else if leb 97 c && leb c 122
    then some (c - 97 + 10)
    else if leb 65 c && leb c 90
    then some (c - 65 + 10)
    else none

-- The value, a 32-bit word that wraps, and the end.
unfoldable pub read_digits : ℕ → Memory → ℕ → ℕ → ℕ → Option (ℕ × ℕ)
read_digits zero m s base val = none
read_digits (suc fuel) m s base val = elim (digit_value (m s)) [
  | none ↦ some (val, s)
  | some dig ↦
      let rest = read_digits fuel m (suc s) base ((val * base + dig) % 2 ^ 32) in
      if leb base dig then some (val, s) else rest
]

-- The `long` that a 32-bit word stands for.
abbrev pub as_long : ℕ → ℤ
as_long w = if ltb w (2 ^ 31) then pos w else negsuc (2 ^ 32 - 1 - w)

-- `strtol`: the result, whose arithmetic wraps, and what `*endptr` is set to.
unfoldable pub strtol : ℕ → Memory → ℕ → ℕ → Option (ℤ × ℕ)
strtol fuel m s base = elim (skip_blanks fuel m s) [
  | none ↦ none
  | some s1 ↦
      let (s2, neg) = read_sign m s1 in
      let (s3, base1) = read_prefix m s2 base in
      elim (read_digits fuel m s3 base1 0) [
        | none ↦ none
        | some r ↦ some (as_long (if neg then (2 ^ 32 - r.0) % 2 ^ 32 else r.0), r.1)
      ]
]

-- The loop of `ltostr` that writes the digits, the last one first: the memory, and the next index.
unfoldable pub write_digits : ℕ → Memory → ℕ → ℕ → ℕ → Option (Memory × ℕ)
write_digits zero m str s value = none
write_digits (suc fuel) m str s value =
    let m1 = poke m (str + s) (value % 10 + 48) in
    let rest = write_digits fuel m1 str (s + 1) (value / 10) in
    if value / 10 % 10 == 0 then some (m1, s + 1) else rest

unfoldable pub reverse_digits : ℕ → Memory → ℕ → ℕ → ℕ → Memory
reverse_digits zero m str start end = m
reverse_digits (suc fuel) m str start end =
    let m1 = poke (poke m (str + start) (m (str + end))) (str + end) (m (str + start)) in
    let rest = reverse_digits fuel m1 str (start + 1) (end - 1) in if ltb start end then rest else m

-- `ltostr`, of a value that is not the least one. Ten digits hold every value.
unfoldable pub ltostr : Memory → ℤ → ℕ → Option Memory
ltostr m value str =
    let neg : Bool = elim value [ pos n ↦ false | negsuc n ↦ true ] in
    let magnitude : ℕ = elim value [ pos n ↦ n | negsuc n ↦ n + 1 ] in
    let m1 = if neg then poke m str 45 else m in
    elim (write_digits 11 m1 str (if neg then 1 else 0) magnitude) [
      | none ↦ none
      | some r ↦
          some (poke (reverse_digits 11 r.0 str (if neg then 1 else 0) (r.1 - 1)) (str + r.1) 0)
    ]

-- Whether the string of separators has the byte, when it is not the terminator.
unfoldable pub is_split : ℕ → Memory → ℕ → ℕ → Option Bool
is_split fuel m chars c = elim (strchr fuel m chars c) [
  | none ↦ none
  | some a ↦ some (not (a == 0))
]

-- `*string++ = 0` over separators.
unfoldable pub trim : ℕ → Memory → ℕ → ℕ → Option (Memory × ℕ)
trim zero m chars string = none
trim (suc fuel) m chars string = elim (is_split fuel m chars (m string)) [
  | none ↦ none
  | some split ↦
      let rest = trim fuel (poke m string 0) chars (suc string) in
      if not (m string == 0) && split then rest else some (m, string)
]

unfoldable pub past_argument : ℕ → Memory → ℕ → ℕ → Option ℕ
past_argument zero m chars string = none
past_argument (suc fuel) m chars string = elim (is_split fuel m chars (m string)) [
  | none ↦ none
  | some split ↦
      let rest = past_argument fuel m chars (suc string) in
      if not (m string == 0) && not split then rest else some string
]

-- `strsplit`: whether all arguments fit, the memory, and `argv` up to `*argc`. 16 is
-- `MAX_ARGUMENTS`.
pub record Split : Type 0 where
  pub fits : Bool
  pub memory : Memory
  pub argv : List ℕ

unfoldable pub split_from : ℕ → Memory → ℕ → ℕ → List ℕ → Option Split
split_from zero m chars string argv = none
split_from (suc fuel) m chars string argv = elim (trim fuel m chars string) [
  | none ↦ none
  | some r ↦ elim (past_argument fuel r.0 chars r.1) [
    | none ↦ none
    | some next ↦
        let rest = split_from fuel r.0 chars next (argv ++ r.1 ∷ []) in
        if r.0 r.1 == 0
        then some (record { fits = true; memory = r.0; argv = argv })
        else if length argv == 15
        then some (record { fits = false; memory = r.0; argv = argv })
        else rest
  ]
]

unfoldable pub strsplit : ℕ → Memory → ℕ → ℕ → Option Split
strsplit fuel m string chars = split_from fuel m chars string []
