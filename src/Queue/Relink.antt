-- ===== src/Queue/Relink.antt =====
-- The tests for NULL in inc/queue.h: redirecting a neighbour's link if there is one.
use fos_kernel.Prelude.{
  ℕ, ◌≡◌, sym, subst, ◌≢◌, false, List, [], ◌∷◌, arith, ◌==◌, ==-ne, if◌then◌else◌,
}
use fos_kernel.Queue.{write}
use fos_kernel.Queue.Chain.{
  has, head_or, last_or, Seg, Distinct, Seg-set_prev, Seg-set_next, not-has-zero, ne_of_has,
  ne_of_mem, has-last_or,
}

-- A link is redirected only if there is an element to redirect.
abbrev pub relink : (ℕ → ℕ) → ℕ → ℕ → ℕ → ℕ
relink f p v = if p == 0 then f else write f p v

pub relink_ne : (f : ℕ → ℕ) (p v a : ℕ) → a ≢ p → relink f p v a ≡ f a
relink_ne f p v a h = ground arith

pub relink-ne_zero : (f : ℕ → ℕ) (p v : ℕ) → p ≢ 0 → relink f p v ≡ write f p v
relink-ne_zero f p v h = rw (==-ne p 0 h)

module _ (nx pv : ℕ → ℕ) where
  pub last-ne-zero : (x : ℕ) (xs : List ℕ) (q : ℕ) → Seg nx pv 0 (x ∷ xs) q → last_or x xs ≢ 0
  last-ne-zero x xs q s =
      ne_of_mem (last_or x xs) 0 (x ∷ xs) (has-last_or x xs) (not-has-zero nx pv 0 (x ∷ xs) q s)

  pub redirect_last :
      (xs : List ℕ) (q q' : ℕ)
      → Distinct xs
      → Seg nx pv 0 xs q
      → Seg (relink nx (last_or 0 xs) q') pv 0 xs q'
  redirect_last [] q q' d s = tt
  redirect_last (x ∷ xs) q q' d s =
      subst (λ f. Seg f pv 0 (x ∷ xs) q')
        (sym (relink-ne_zero nx (last_or x xs) q' (last-ne-zero x xs q s)))
        (Seg-set_next nx pv 0 x xs q q' d s)

  pub redirect_first :
      (p p' : ℕ) (ys : List ℕ)
      → Distinct ys
      → Seg nx pv p ys 0
      → Seg nx (relink pv (head_or 0 ys) p') p' ys 0
  redirect_first p p' [] d s = tt
  redirect_first p p' (y ∷ ys) d s =
      subst (λ f. Seg nx f p' (y ∷ ys) 0) (sym (relink-ne_zero pv y p' s.0))
        (Seg-set_prev nx pv p p' y ys 0 d s)

pub head-ne : (a : ℕ) (ys : List ℕ) → a ≢ 0 → has a ys ≡ false → a ≢ head_or 0 ys
head-ne a [] ne out = ne
head-ne a (y ∷ ys) ne out = ground arith

pub last-ne : (a : ℕ) (xs : List ℕ) → a ≢ 0 → has a xs ≡ false → a ≢ last_or 0 xs
last-ne a [] ne out = ne
last-ne a (x ∷ xs) ne out = ne_of_has a (last_or x xs) (x ∷ xs) out (has-last_or x xs)
