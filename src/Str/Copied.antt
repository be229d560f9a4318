-- ===== src/Str/Copied.antt =====
-- lib/string.c: what `strcpy` and `strncpy` leave, where the two blocks are apart.
use fos_kernel.Prelude.{
  ℕ, zero, suc, ◌+◌, ◌-◌, ◌<◌, ◌≤◌, ◌≡◌, refl, ap, sym, ◌∙◌, ◌≢◌, ◌⊎◌, inl, inr, false, some, List,
  [], ◌∷◌, length, get_or, ◌==◌, ==-ne, ==-refl, if◌then◌else◌, arith, subst,
}
use native.Mathlib.Decide.{dec_lt}
use fos_kernel.Str.{Memory, poke, IsString}
use fos_kernel.Str.Copy.{strcpy, strncpy}
use fos_kernel.Str.Moved.{Block}

-- No byte outside of the `n` bytes from `d` on differs.
abbrev pub Outside : Memory → Memory → ℕ → ℕ → Type 0
Outside m m1 d n = (a : ℕ) → (a < d) ⊎ (d + n ≤ a) → m1 a ≡ m a

poke_ne : (m : Memory) (d v a : ℕ) → a ≢ d → poke m d v a ≡ m a
poke_ne m d v a ne = rw (==-ne a d ne)

poke_self : (m : Memory) (d v : ℕ) → poke m d v d ≡ v
poke_self m d v = rw (==-refl d)

IsString-frame :
    (m m1 : Memory) (s : ℕ) (bs : List ℕ)
    → ((a : ℕ) → s ≤ a → a ≤ s + length bs → m1 a ≡ m a)
    → IsString m s bs
    → IsString m1 s bs
IsString-frame m m1 s [] same str = same s (omega arith) (omega arith) ∙ str
IsString-frame m m1 s (b ∷ bs) same str = (
  same s (omega arith) (omega arith) ∙ str.0,
  str.1,
  IsString-frame m m1 (suc s) bs (λ a lo hi. same a (omega arith) (omega arith)) str.2,
)

-- A string that a write spares is a string behind the write.
IsString-poke :
    (m : Memory) (d v s : ℕ) (bs : List ℕ)
    → (d < s) ⊎ (s + length bs < d)
    → IsString m s bs
    → IsString (poke m d v) s bs
IsString-poke m d v s bs apart str =
    IsString-frame m (poke m d v) s bs (λ a lo hi. poke_ne m d v a (λ e. omega (arith, apart))) str

abbrev pub Apart : ℕ → ℕ → ℕ → Type 0
Apart d s n = (d + n < s) ⊎ (s + n < d)

Apart-next : (d s n : ℕ) → Apart d s (suc n) → Apart (suc d) (suc s) n
Apart-next d s n (inl h) = inl (omega arith)
Apart-next d s n (inr h) = inr (omega arith)

Apart-spares : (d s n : ℕ) → Apart d s (suc n) → (d < suc s) ⊎ (suc s + n < d)
Apart-spares d s n (inl h) = inl (omega arith)
Apart-spares d s n (inr h) = inr (omega arith)

Outside-next :
    (m m1 : Memory) (d v n : ℕ) → Outside (poke m d v) m1 (suc d) n → Outside m m1 d (suc n)
Outside-next m m1 d v n out a (inl lt) = out a (inl (omega arith)) ∙ poke_ne m d v a (omega arith)
Outside-next m m1 d v n out a (inr ge) = out a (inr (omega arith)) ∙ poke_ne m d v a (omega arith)

-- `strcpy` of a string to a place apart from it, with more fuel than it has bytes, leaves the string
-- at that place and changes no byte outside of the copy.
pub strcpy_lem :
    (fuel : ℕ) (m : Memory) (dst src : ℕ) (bs : List ℕ)
    → IsString m src bs
    → Apart dst src (length bs)
    → length bs < fuel
    → (m1 : Memory) × (strcpy fuel m dst src ≡ some m1)
      × IsString m1 dst bs
      × Outside m m1 dst (suc (length bs))
unfolding strcpy
strcpy_lem zero m dst src bs str apart lt = absurd (omega arith)
strcpy_lem (suc fuel) m dst src [] str apart lt = (
  poke m dst (m src),
  rw str refl,
  poke_self m dst (m src) ∙ str,
  Outside-next m (poke m dst (m src)) dst (m src) 0 (λ a o. refl),
)
strcpy_lem (suc fuel) m dst src (b ∷ bs) str apart lt =
    let m1 = poke m dst (m src) in
    let next =
      IsString-poke m dst (m src) (suc src) bs (Apart-spares dst src (length bs) apart) str.2 in
    let (m2, ran, copied, out) =
      strcpy_lem fuel m1 (suc dst) (suc src) bs next (Apart-next dst src (length bs) apart)
        (omega arith) in
    let goes_on : (m src == 0) ≡ false = ap (λ x. x == 0) str.0 ∙ ==-ne b 0 str.1 in
    (
      m2,
      ap (λ t. if t then some m1 else strcpy fuel m1 (suc dst) (suc src)) goes_on ∙ ran,
      (out dst (inl (omega arith)) ∙ poke_self m dst (m src) ∙ str.0, str.1, copied),
      Outside-next m m2 dst (m src) (suc (length bs)) out,
    )

-- A block that grows by its first byte, which was written before the others.
Block-next :
    (m m2 : Memory) (d v n : ℕ) (f : ℕ → ℕ)
    → f 0 ≡ v
    → Block (poke m d v) m2 (suc d) n (λ i. f (suc i))
    → Block m m2 d (suc n) f
Block-next m m2 d v n f first rest a = elim (dec_lt d a) [
  | yes lt ↦
      let there : suc (a - suc d) ≡ a - d = omega arith in
      let same : f (suc (a - suc d)) ≡ f (a - d) = ap f there in ground (arith, rest a, same)
  | no ge ↦
      let here : d ≡ a → f (a - d) ≡ v = λ e. ap f (omega (arith, e)) ∙ first in
      ground (arith, rest a, here)
]

-- The source is apart from what `strncpy` writes.
abbrev pub Unwritten : ℕ → ℕ → ℕ → ℕ → Type 0
Unwritten dst size src n = (dst + size ≤ src) ⊎ (src + n < dst)

Unwritten-ne : (dst size src n : ℕ) → Unwritten dst (suc size) src n → src ≢ dst
Unwritten-ne dst size src n (inl h) e = omega (arith, e)
Unwritten-ne dst size src n (inr h) e = omega (arith, e)

Unwritten-stay :
    (dst size src : ℕ) → Unwritten dst (suc size) src 0 → Unwritten (suc dst) size src 0
Unwritten-stay dst size src (inl h) = inl (omega arith)
Unwritten-stay dst size src (inr h) = inr (omega arith)

Unwritten-next :
    (dst size src n : ℕ)
    → Unwritten dst (suc size) src (suc n)
    → Unwritten (suc dst) size (suc src) n
Unwritten-next dst size src n (inl h) = inl (omega arith)
Unwritten-next dst size src n (inr h) = inr (omega arith)

Unwritten-spares :
    (dst size src n : ℕ)
    → Unwritten dst (suc size) src (suc n)
    → (dst < suc src) ⊎ (suc src + n < dst)
Unwritten-spares dst size src n (inl h) = inl (omega arith)
Unwritten-spares dst size src n (inr h) = inr (omega arith)

-- Of a string apart from the destination, `strncpy` leaves the bytes in the first places of a block
-- of `size` bytes and zeros in the others, and it changes nothing outside of the block.
pub strncpy_lem :
    (m : Memory) (dst src size : ℕ) (bs : List ℕ)
    → IsString m src bs
    → Unwritten dst size src (length bs)
    → Block m (strncpy m dst src size) dst size (λ i. get_or bs i 0)
unfolding strncpy
strncpy_lem m dst src zero bs str apart = λ a. ground arith
strncpy_lem m dst src (suc size) [] str apart =
    let m1 = poke m dst (m src) in
    let kept : m1 src ≡ 0 = poke_ne m dst (m src) src (Unwritten-ne dst size src 0 apart) ∙ str in
    Block-next m _ dst (m src) size (λ i. 0) (sym str)
      (subst
        (λ t.
          Block m1 (strncpy m1 (suc dst) (if t then src else suc src) size) (suc dst) size (λ i. 0))
        (sym (ap (λ x. x == 0) kept))
        (strncpy_lem m1 (suc dst) src size [] kept (Unwritten-stay dst size src apart)))
strncpy_lem m dst src (suc size) (b ∷ bs) str apart =
    let m1 = poke m dst (m src) in
    let kept : m1 src ≡ b =
      poke_ne m dst (m src) src (Unwritten-ne dst size src (length (b ∷ bs)) apart) ∙ str.0 in
    let next =
      IsString-poke m dst (m src) (suc src) bs (Unwritten-spares dst size src (length bs) apart)
        str.2 in
    Block-next m _ dst (m src) size (λ i. get_or (b ∷ bs) i 0) (sym str.0)
      (subst
        (λ t.
          Block m1 (strncpy m1 (suc dst) (if t then src else suc src) size) (suc dst) size
            (λ i. get_or bs i 0))
        (sym (ap (λ x. x == 0) kept ∙ ==-ne b 0 str.1))
        (strncpy_lem m1 (suc dst) (suc src) size bs next
          (Unwritten-next dst size src (length bs) apart)))
