-- ===== src/Str/Copy.antt =====
-- lib/string.c: the routines that write a block of memory.
use fos_kernel.Prelude.{
  ℕ, zero, suc, ◌+◌, ◌-◌, ◌^◌, ◌%◌, ◌&&◌, Option, none, some, ltb, ◌==◌, if◌then◌else◌,
}
use fos_kernel.Str.{Memory, poke}
use fos_kernel.Str.Scan.{strlen}

-- The memory behind the call; the result is `dst`.
unfoldable pub strcpy : ℕ → Memory → ℕ → ℕ → Option Memory
strcpy zero m dst src = none
strcpy (suc fuel) m dst src =
    let m1 = poke m dst (m src) in
    let rest = strcpy fuel m1 (suc dst) (suc src) in if m src == 0 then some m1 else rest

-- `*src` is read again behind the write.
unfoldable pub strncpy : Memory → ℕ → ℕ → ℕ → Memory
strncpy m dst src zero = m
strncpy m dst src (suc size) =
    let m1 = poke m dst (m src) in strncpy m1 (suc dst) (if m1 src == 0 then src else suc src) size

-- The loop of `strlcpy`, with room for `size` bytes and the terminator: the memory, and where the
-- loop has stopped.
unfoldable pub strlcpy_from : Memory → ℕ → ℕ → ℕ → Memory × ℕ
strlcpy_from m dst src zero = (m, dst)
strlcpy_from m dst src (suc size) =
    let rest = strlcpy_from (poke m dst (m src)) (suc dst) (suc src) size in
    if m src == 0 then (m, dst) else rest

unfoldable pub strlcpy : Memory → ℕ → ℕ → ℕ → Memory × ℕ
unfolding strlcpy_from
strlcpy m dst src zero = (m, 0)
strlcpy m dst src (suc size) =
    let (m1, last) = strlcpy_from m dst src size in (poke m1 last 0, last - dst)

unfoldable pub memset_from : Memory → ℕ → ℕ → ℕ → Memory
memset_from m p c zero = m
memset_from m p c (suc n) = memset_from (poke m p c) (suc p) c n

-- The count is an `int`: more than 2 ^ 31 is negative, and `--m` wraps at 2 ^ 31 itself.
unfoldable pub memset : Memory → ℕ → ℕ → ℕ → Memory
unfolding memset_from
memset m v c n = memset_from m v (c % 256) (if ltb (2 ^ 31) n then 0 else n)

unfoldable pub memcpy : Memory → ℕ → ℕ → ℕ → Memory
memcpy m d s zero = m
memcpy m d s (suc n) = memcpy (poke m d (m s)) (suc d) (suc s) n

-- The loop of `memmove` from the end of the two blocks.
unfoldable pub memmove_down : Memory → ℕ → ℕ → ℕ → Memory
memmove_down m d s zero = m
memmove_down m d s (suc n) = memmove_down (poke m (d + n) (m (s + n))) d s n

unfoldable pub memmove : Memory → ℕ → ℕ → ℕ → Memory
unfolding memcpy memmove_down
memmove m d s n = if ltb s d && ltb d (s + n) then memmove_down m d s n else memcpy m d s n

-- `strcconcat`: both lengths are taken before the first write.
unfoldable pub strcconcat : ℕ → Memory → ℕ → ℕ → ℕ → Option Memory
unfolding strlen memcpy
strcconcat fuel m str1 str2 final = elim (strlen fuel m str1) [
  | none ↦ none
  | some len1 ↦ elim (strlen fuel m str2) [
    | none ↦ none
    | some len2 ↦
        let m1 = memcpy m final str1 len1 in
        let m2 = memcpy m1 (final + len1) str2 len2 in some (poke m2 (final + len1 + len2) 0)
  ]
]
