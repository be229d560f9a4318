-- ===== src/Queue/Remove.antt =====
-- `LIST_REMOVE` of inc/queue.h, on the sequence.
use fos_kernel.Prelude.{
  ℕ, ◌≡◌, refl, sym, ◌∙◌, ◌≢◌, inl, inr, true, false, List, [], ◌∷◌, ◌++◌, arith, ◌==◌, ==-ne,
  Bool-cases, length-append, if◌then◌else◌,
}
use mathlib.Core.List.{append-nil}
use fos_kernel.Queue.{Links, Head, size_dec, write, list_remove}
use fos_kernel.Queue.Relink.{
  relink, relink_ne, last-ne-zero, redirect_last, redirect_first, head-ne, last-ne,
}
use fos_kernel.Queue.Chain.{
  has, head_or, last_or, Seg, Distinct, IsList, Holds, Seg-frame, Seg-append, Seg-split,
  not-has-zero, ne_of_has, ne_of_mem, write_ne, append-Distinct, Distinct-append, last_or-append,
  has-append,
}

module _ (nx pv : ℕ → ℕ) (e : ℕ) (xs ys : List ℕ) (d : Distinct (xs ++ e ∷ ys))
    (s : Seg nx pv 0 (xs ++ e ∷ ys) 0) where
  abbrev before : ℕ
  before = last_or 0 xs

  abbrev after : ℕ
  after = head_or 0 ys

  halves : Seg nx pv 0 xs e × Seg nx pv before (e ∷ ys) 0
  halves = Seg-split nx pv 0 xs (e ∷ ys) 0 s

  parts : Distinct xs × Distinct (e ∷ ys) × ((a : ℕ) → has a xs ≡ true → has a (e ∷ ys) ≡ false)
  parts = Distinct-append xs (e ∷ ys) d

  not-has-left : has e xs ≡ false
  not-has-left = elim (Bool-cases (has e xs)) [
    | inl i ↦ absurd (ne_of_has e e (e ∷ ys) (parts.2 e i) (ground arith) refl)
    | inr o ↦ o
  ]

  -- What `LIST_NEXT` and `LIST_PREV` of the element are.
  pub neighbours : (nx e ≡ after) × (pv e ≡ before) × (e ≢ after) × (e ≢ before)
  neighbours = (
    halves.1.2,
    halves.1.1,
    head-ne e ys halves.1.0 parts.1.0,
    last-ne e xs halves.1.0 not-has-left,
  )

  left_ne_after : (a : ℕ) → has a xs ≡ true → a ≢ 0 → a ≢ after
  left_ne_after a i nz = head-ne a ys nz (ground (arith, parts.2 a i))

  right_ne_before : (a : ℕ) → has a ys ≡ true → a ≢ 0 → a ≢ before
  right_ne_before a i nz = last-ne a xs nz (elim (Bool-cases (has a xs)) [
    | inl j ↦ absurd (ne_of_has a a ys (ground (arith, parts.2 a j)) i refl)
    | inr o ↦ o
  ])

  -- The two halves, joined over the element that is gone.
  pub joined :
      Seg (write (relink nx before after) e 0) (write (relink pv after before) e 0) 0 (xs ++ ys) 0
  joined =
      Seg-append _ _ 0 xs ys 0
        (Seg-frame _ _ 0 xs after (redirect_last nx pv xs e after parts.0 halves.0) λ a i.
          let ne = ne_of_mem a e xs i not-has-left in
          let nz = ne_of_mem a 0 xs i (not-has-zero nx pv 0 xs e halves.0) in
          (
            write_ne (relink nx before after) e 0 a ne,
            write_ne (relink pv after before) e 0 a ne
                ∙ relink_ne pv after before a (left_ne_after a i nz),
          ))
        (Seg-frame _ _ before ys 0 (redirect_first nx pv e before ys parts.1.1 halves.1.3) λ a i.
          let ne = ne_of_mem a e ys i parts.1.0 in
          let nz = ne_of_mem a 0 ys i (not-has-zero nx pv e ys 0 halves.1.3) in
          (
            write_ne (relink nx before after) e 0 a ne
                ∙ relink_ne nx before after a (right_ne_before a i nz),
            write_ne (relink pv after before) e 0 a ne,
          ))

  pub remove-Distinct : Distinct (xs ++ ys)
  remove-Distinct = append-Distinct xs ys parts.0 parts.1.1 (λ a i. ground (arith, parts.2 a i))

module _ (nx pv : ℕ → ℕ) (e : ℕ) where
  pub remove-first :
      (xs ys : List ℕ)
      → Distinct (xs ++ e ∷ ys)
      → Seg nx pv 0 (xs ++ e ∷ ys) 0
      → (first : ℕ) → first ≡ head_or 0 (xs ++ e ∷ ys)
      → (if last_or 0 xs == 0 then head_or 0 ys else first) ≡ head_or 0 (xs ++ ys)
  remove-first [] ys d s first h = refl
  remove-first (x ∷ xs) ys d s first h =
      rw (==-ne (last_or x xs) 0 (last-ne-zero nx pv x xs e (halves nx pv e (x ∷ xs) ys d s).0)) h

  pub remove-last :
      (xs ys : List ℕ)
      → Distinct (xs ++ e ∷ ys)
      → Seg nx pv 0 (xs ++ e ∷ ys) 0
      → (last : ℕ) → last ≡ last_or 0 (xs ++ e ∷ ys)
      → (if head_or 0 ys == 0 then last_or 0 xs else last) ≡ last_or 0 (xs ++ ys)
  remove-last xs [] d s last h = rw append-nil
  remove-last xs (y ∷ ys) d s last h =
      rw (==-ne y 0 (halves nx pv e xs (y ∷ ys) d s).1.3.0)
        (h ∙ last_or-append 0 e xs (y ∷ ys) ∙ sym (last_or-append 0 y xs ys))

module _ (l : Links) (h : Head) (e p n : ℕ) (next : l.le_next e ≡ n) (prev : l.le_prev e ≡ p)
    (ne_n : e ≢ n) (ne_p : e ≢ p) where
  -- The macro in terms of the two neighbours, NULL or not.
  list_remove-neighbours : list_remove e l h ≡ record {
    links = record {
      le_next = write (relink l.le_next p n) e 0;
      le_prev = write (relink l.le_prev n p) e 0;
    };
    head = record {
      lh_first = if p == 0 then n else h.lh_first;
      lh_last = if n == 0 then p else h.lh_last;
      size = size_dec h.size;
    };
  }
  unfolding list_remove
  list_remove-neighbours = rw next (elim (Bool-cases (n == 0)) [
    | inl z ↦
        rw (z, prev) (elim (Bool-cases (p == 0)) [ inl y ↦ rw (y, next) | inr y ↦ rw (y, next) ])
    | inr z ↦
        rw (z, prev, ==-ne e n ne_n)
          (elim (Bool-cases (p == 0)) [ inl y ↦ rw (y, next) | inr y ↦ rw (y, next) ])
  ])

-- `LIST_REMOVE` of an element of a list leaves a list of the others, in their order, linked both
-- ways, with its first and last element and its size.
pub list_remove_lem :
    (l : Links) (h : Head) (e : ℕ) (xs ys : List ℕ)
    → IsList l h (xs ++ e ∷ ys)
    → Holds (list_remove e l h) (xs ++ ys)
list_remove_lem l h e xs ys v =
    let (next, prev, ne_n, ne_p) = neighbours nx pv e xs ys v.distinct v.chain in
    rw (list_remove-neighbours l h e p n next prev ne_n ne_p) (record {
      chain = joined nx pv e xs ys v.distinct v.chain;
      first = remove-first nx pv e xs ys v.distinct v.chain h.lh_first v.first;
      last = remove-last nx pv e xs ys v.distinct v.chain h.lh_last v.last;
      counted = omega (arith, v.counted, length-append xs (e ∷ ys), length-append xs ys);
      distinct = remove-Distinct nx pv e xs ys v.distinct v.chain;
    })
  where
    open l use {le_next as nx, le_prev as pv}

    p : ℕ
    p = last_or 0 xs

    n : ℕ
    n = head_or 0 ys

-- An element that is not in the list keeps its links.
pub remove_frame :
    (l : Links) (h : Head) (e : ℕ) (xs ys : List ℕ) (a : ℕ)
    → IsList l h (xs ++ e ∷ ys)
    → a ≢ 0
    → has a (xs ++ e ∷ ys) ≡ false
    → let s = list_remove e l h in
      (s.links.le_next a ≡ l.le_next a) × (s.links.le_prev a ≡ l.le_prev a)
remove_frame l h e xs ys a v nz out =
    let (next, prev, ne_n, ne_p) = neighbours l.le_next l.le_prev e xs ys v.distinct v.chain in
    let apart = has-append a xs (e ∷ ys) in
    let ne : a ≢ e = ground arith in
    let ne_after = head-ne a ys nz (ground arith) in
    let ne_before = last-ne a xs nz (ground arith) in
    rw (list_remove-neighbours l h e (last_or 0 xs) (head_or 0 ys) next prev ne_n ne_p) (
      write_ne (relink l.le_next (last_or 0 xs) (head_or 0 ys)) e 0 a ne
          ∙ relink_ne l.le_next (last_or 0 xs) (head_or 0 ys) a ne_before,
      write_ne (relink l.le_prev (head_or 0 ys) (last_or 0 xs)) e 0 a ne
          ∙ relink_ne l.le_prev (head_or 0 ys) (last_or 0 xs) a ne_after,
    )
