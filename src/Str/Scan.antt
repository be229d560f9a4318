-- ===== src/Str/Scan.antt =====
-- lib/string.c: the routines that only read.
use fos_kernel.Prelude.{
  ℕ, zero, suc, ◌+◌, ◌-◌, not, ◌&&◌, Option, none, some, ltb, ◌==◌, if◌then◌else◌,
}
use fos_kernel.Str.{Memory}

-- `int`
pub data ℤ : Type 0 where
  pos negsuc : ℕ → ℤ

-- The difference of two bytes as `int`.
abbrev pub byte_diff : ℕ → ℕ → ℤ
byte_diff a b = if ltb a b then negsuc (b - a - 1) else pos (a - b)

unfoldable pub strlen_from : ℕ → Memory → ℕ → ℕ → Option ℕ
strlen_from zero m s n = none
strlen_from (suc fuel) m s n =
    let rest = strlen_from fuel m (suc s) (n + 1) in if m s == 0 then some n else rest

unfoldable pub strlen : ℕ → Memory → ℕ → Option ℕ
unfolding strlen_from
strlen fuel m s = strlen_from fuel m s 0

unfoldable pub strnlen_from : ℕ → Memory → ℕ → ℕ → ℕ
strnlen_from zero m s n = n
strnlen_from (suc size) m s n =
    let rest = strnlen_from size m (suc s) (n + 1) in if m s == 0 then n else rest

unfoldable pub strnlen : Memory → ℕ → ℕ → ℕ
unfolding strnlen_from
strnlen m s size = strnlen_from size m s 0

unfoldable pub strcmp : ℕ → Memory → ℕ → ℕ → Option ℤ
strcmp zero m p q = none
strcmp (suc fuel) m p q =
    let rest = strcmp fuel m (suc p) (suc q) in
    if not (m p == 0) && (m p == m q) then rest else some (byte_diff (m p) (m q))

unfoldable pub strncmp : Memory → ℕ → ℕ → ℕ → ℤ
strncmp m p q zero = pos 0
strncmp m p q (suc n) =
    let rest = strncmp m (suc p) (suc q) n in
    if not (m p == 0) && (m p == m q) then rest else byte_diff (m p) (m q)

unfoldable pub strchr : ℕ → Memory → ℕ → ℕ → Option ℕ
strchr zero m s c = none
strchr (suc fuel) m s c =
    let rest = strchr fuel m (suc s) c in
    if m s == 0 then some 0 else if m s == c then some s else rest

unfoldable pub strfind : ℕ → Memory → ℕ → ℕ → Option ℕ
strfind zero m s c = none
strfind (suc fuel) m s c =
    let rest = strfind fuel m (suc s) c in
    if m s == 0 then some s else if m s == c then some s else rest

unfoldable pub memcmp : Memory → ℕ → ℕ → ℕ → ℤ
memcmp m s1 s2 zero = pos 0
memcmp m s1 s2 (suc n) =
    let rest = memcmp m (suc s1) (suc s2) n in
    if m s1 == m s2 then rest else byte_diff (m s1) (m s2)

-- `memfind`, where `c` is a byte.
unfoldable pub memfind : Memory → ℕ → ℕ → ℕ → ℕ
memfind m s c zero = s
memfind m s c (suc n) = let rest = memfind m (suc s) c n in if m s == c then s else rest
