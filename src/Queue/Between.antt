-- ===== src/Queue/Between.antt =====
-- `LIST_INSERT_AFTER` and `LIST_INSERT_BEFORE` of inc/queue.h, beside an element of the list.
use fos_kernel.Prelude.{
  ℕ, ◌≡◌, refl, sym, ap, ◌∙◌, ◌≢◌, inl, inr, true, false, List, [], ◌∷◌, ◌++◌, arith, ◌==◌, ==-ne,
  ==-refl, Bool-cases, length-append, if◌then◌else◌,
}
use fos_kernel.Queue.{Links, Head, size_inc, write, list_insert_after, list_insert_before}
use fos_kernel.Queue.Relink.{
  relink, relink_ne, relink-ne_zero, last-ne-zero, redirect_last, redirect_first, head-ne, last-ne,
}
use fos_kernel.Queue.Chain.{
  has, head_or, last_or, Seg, Distinct, IsList, Holds, Seg-frame, Seg-append, Seg-split,
  not-has-zero, ne_of_mem, write_ne, write_self, append-Distinct, Distinct-append, last_or-append,
  has-append,
}

-- A new element `e` between `xs` and `ys`: its two links, and the two that lead to it.
module _ (nx pv : ℕ → ℕ) (e : ℕ) (xs ys : List ℕ) (d : Distinct (xs ++ ys))
    (s : Seg nx pv 0 (xs ++ ys) 0) (ne : e ≢ 0) (out : has e (xs ++ ys) ≡ false) where
  apart : (a : ℕ) → has a (xs ++ ys) ≡ true → a ≢ e
  apart a i = ne_of_mem a e (xs ++ ys) i out

  pub spliced :
      (nx' pv' : ℕ → ℕ)
      → nx' e ≡ head_or 0 ys
      → pv' e ≡ last_or 0 xs
      → ((a : ℕ)
          → a ≢ e
          → (nx' a ≡ relink nx (last_or 0 xs) e a) × (pv' a ≡ relink pv (head_or 0 ys) e a))
      → Seg nx' pv' 0 (xs ++ e ∷ ys) 0
  spliced nx' pv' next prev others =
      let (left, right) = Seg-split nx pv 0 xs ys 0 s in
      let (dl, dr, sep) = Distinct-append xs ys d in
      Seg-append nx' pv' 0 xs (e ∷ ys) 0
        (Seg-frame nx' pv' 0 xs e (redirect_last nx pv xs (head_or 0 ys) e dl left) λ a i.
          let in_list : has a (xs ++ ys) ≡ true = ground (arith, has-append a xs ys) in
          let nz = ne_of_mem a 0 xs i (not-has-zero nx pv 0 xs (head_or 0 ys) left) in
          let (n, p) = others a (apart a in_list) in
          (n, p ∙ relink_ne pv (head_or 0 ys) e a (head-ne a ys nz (sep a i))))
        (
          ne,
          prev,
          next,
          Seg-frame nx' pv' e ys 0 (redirect_first nx pv (last_or 0 xs) e ys dr right) λ a i.
              let in_list : has a (xs ++ ys) ≡ true = ground (arith, has-append a xs ys) in
              let nz = ne_of_mem a 0 ys i (not-has-zero nx pv (last_or 0 xs) ys 0 right) in
              let (n, p) = others a (apart a in_list) in
              let away : has a xs ≡ false = elim (Bool-cases (has a xs)) [
                | inl j ↦ absurd (ne_of_mem a a ys i (sep a j) refl)
                | inr o ↦ o
              ] in
              (n ∙ relink_ne nx (last_or 0 xs) e a (last-ne a xs nz away), p),
        )

  pub spliced-Distinct : Distinct (xs ++ e ∷ ys)
  spliced-Distinct =
      let (dl, dr, sep) = Distinct-append xs ys d in
      let split = has-append e xs ys in
      append-Distinct xs (e ∷ ys) dl (ground arith, dr)
        λ a i.
          let in_list : has a (xs ++ ys) ≡ true = ground (arith, has-append a xs ys) in
          let ne_e = apart a in_list in ground (arith, sep a i)

module _ (l : Links) (h : Head) (e x n : ℕ) (ne : e ≢ x) where
  insert_after-neighbours :
      l.le_next x ≡ n
      → list_insert_after x e l h ≡ record {
        links = record {
          le_next = write (write l.le_next e n) x e;
          le_prev = write (relink l.le_prev n e) e x;
        };
        head = record {
          lh_first = h.lh_first;
          lh_last = if n == 0 then e else h.lh_last;
          size = size_inc h.size;
        };
      }
  unfolding list_insert_after
  insert_after-neighbours next =
      rw (next, ==-ne x e (λ z. ne (sym z)), ==-ne e x ne)
        (elim (Bool-cases (n == 0)) [ inl z ↦ rw (z, ==-refl e, z) | inr z ↦ rw (z, ==-refl e, z) ])

  insert_before-neighbours :
      l.le_prev x ≡ n
      → list_insert_before x e l h ≡ record {
        links = record {
          le_next = relink (write l.le_next e x) n e;
          le_prev = write (write l.le_prev e n) x e;
        };
        head = record {
          lh_first = if n == 0 then e else h.lh_first;
          lh_last = h.lh_last;
          size = size_inc h.size;
        };
      }
  unfolding list_insert_before
  insert_before-neighbours prev =
      rw (prev, ==-ne x e (λ z. ne (sym z)))
        (elim (Bool-cases (n == 0)) [ inl z ↦ rw z | inr z ↦ rw z ])

relink-cong : (f g : ℕ → ℕ) (p v a : ℕ) → f a ≡ g a → relink f p v a ≡ relink g p v a
relink-cong f g p v a h = ground arith

write-cong : (f g : ℕ → ℕ) (p v a : ℕ) → f a ≡ g a → write f p v a ≡ write g p v a
write-cong f g p v a h = ground arith

before-first :
    (nx pv : ℕ → ℕ) (e x : ℕ) (ys xs : List ℕ)
    → Seg nx pv 0 xs x
    → (first : ℕ) → first ≡ head_or 0 (xs ++ x ∷ ys)
    → (if last_or 0 xs == 0 then e else first) ≡ head_or 0 (xs ++ e ∷ x ∷ ys)
before-first nx pv e x ys [] s first h = refl
before-first nx pv e x ys (z ∷ xs) s first h =
    rw (==-ne (last_or z xs) 0 (last-ne-zero nx pv z xs x s)) h

after-last :
    (nx pv : ℕ → ℕ) (e p : ℕ) (xs ys : List ℕ)
    → Seg nx pv p ys 0
    → (last : ℕ) → last ≡ last_or 0 (xs ++ ys)
    → (if head_or 0 ys == 0 then e else last) ≡ last_or 0 (xs ++ e ∷ ys)
after-last nx pv e p xs [] s last h = sym (last_or-append 0 e xs [])
after-last nx pv e p xs (y ∷ ys) s last h =
    rw (==-ne y 0 s.0) (h ∙ last_or-append 0 y xs ys ∙ sym (last_or-append 0 e xs (y ∷ ys)))

after-first :
    (e : ℕ) (xs : List ℕ) (x : ℕ) (ys : List ℕ)
    → head_or 0 ((xs ++ x ∷ []) ++ ys) ≡ head_or 0 ((xs ++ x ∷ []) ++ e ∷ ys)
after-first e [] x ys = refl
after-first e (z ∷ xs) x ys = refl

module _ (l : Links) (h : Head) (e x : ℕ) (xs ys : List ℕ) (ne : e ≢ 0)
    (v : IsList l h (xs ++ x ∷ ys)) (out : has e (xs ++ x ∷ ys) ≡ false) where
  open l use {le_next as nx, le_prev as pv}

  here : has x (xs ++ x ∷ ys) ≡ true
  here = ground (arith, has-append x xs (x ∷ ys))

  e-ne-x : e ≢ x
  e-ne-x z = ne_of_mem x e (xs ++ x ∷ ys) here out (sym z)

  around : Seg nx pv (last_or 0 xs) (x ∷ ys) 0
  around = (Seg-split nx pv 0 xs (x ∷ ys) 0 v.chain).1

  around_left : Seg nx pv 0 xs x
  around_left = (Seg-split nx pv 0 xs (x ∷ ys) 0 v.chain).0

  e-ne-last : e ≢ last_or 0 xs
  e-ne-last = last-ne e xs ne (ground (arith, has-append e xs (x ∷ ys)))

  next_e : relink (write nx e x) (last_or 0 xs) e e ≡ x
  next_e = relink_ne (write nx e x) (last_or 0 xs) e e e-ne-last ∙ write_self nx e x

  prev_e : write (write pv e (last_or 0 xs)) x e e ≡ last_or 0 xs
  prev_e = write_ne (write pv e (last_or 0 xs)) x e e e-ne-x ∙ write_self pv e (last_or 0 xs)

  others :
      (a : ℕ)
      → a ≢ e
      → (relink (write nx e x) (last_or 0 xs) e a ≡ relink nx (last_or 0 xs) e a)
        × (write (write pv e (last_or 0 xs)) x e a ≡ relink pv x e a)
  others a a_ne = (
    relink-cong (write nx e x) nx (last_or 0 xs) e a (write_ne nx e x a a_ne),
    write-cong (write pv e (last_or 0 xs)) pv x e a (write_ne pv e (last_or 0 xs) a a_ne)
        ∙ ap (λ f. f a) (sym (relink-ne_zero pv x e around.0)),
  )

  -- `LIST_INSERT_BEFORE` of an element that is not NULL and not in the list gives the list with it
  -- in front of the given one.
  pub list_insert_before_lem : Holds (list_insert_before x e l h) (xs ++ e ∷ x ∷ ys)
  list_insert_before_lem =
      rw (insert_before-neighbours l h e x (last_or 0 xs) e-ne-x around.1) (record {
        chain = spliced nx pv e xs (x ∷ ys) v.distinct v.chain ne out _ _ next_e prev_e others;
        first = before-first nx pv e x ys xs around_left h.lh_first v.first;
        last = v.last ∙ last_or-append 0 x xs ys ∙ sym (last_or-append 0 e xs (x ∷ ys));
        counted =
            omega (arith, v.counted, length-append xs (x ∷ ys), length-append xs (e ∷ x ∷ ys));
        distinct = spliced-Distinct nx pv e xs (x ∷ ys) v.distinct v.chain ne out;
      })

module _ (l : Links) (h : Head) (e x : ℕ) (xs ys : List ℕ) (ne : e ≢ 0)
    (v : IsList l h ((xs ++ x ∷ []) ++ ys)) (out : has e ((xs ++ x ∷ []) ++ ys) ≡ false) where
  open l use {le_next as nx, le_prev as pv}

  abbrev upto : List ℕ
  upto = xs ++ x ∷ []

  upto-last : last_or 0 upto ≡ x
  upto-last = last_or-append 0 x xs []

  x_in : has x upto ≡ true
  x_in = ground (arith, has-append x xs (x ∷ []))

  e-ne : e ≢ x
  e-ne z = ne_of_mem x e (upto ++ ys) (ground (arith, x_in, has-append x upto ys)) out (sym z)

  sides : Seg nx pv 0 upto (head_or 0 ys) × Seg nx pv (last_or 0 upto) ys 0
  sides = Seg-split nx pv 0 upto ys 0 v.chain

  x-next : nx x ≡ head_or 0 ys
  x-next = (Seg-split nx pv 0 xs (x ∷ []) (head_or 0 ys) sides.0).1.2

  x-ne-zero : x ≢ 0
  x-ne-zero = ne_of_mem x 0 upto x_in (not-has-zero nx pv 0 upto (head_or 0 ys) sides.0)

  e-ne-head : e ≢ head_or 0 ys
  e-ne-head = head-ne e ys ne (ground (arith, has-append e upto ys))

  -- `LIST_INSERT_AFTER` of an element that is not NULL and not in the list gives the list with it
  -- behind the given one.
  pub list_insert_after_lem : Holds (list_insert_after x e l h) (upto ++ e ∷ ys)
  list_insert_after_lem =
      let n = head_or 0 ys in
      rw (insert_after-neighbours l h e x n e-ne x-next) (record {
        chain =
            spliced nx pv e upto ys v.distinct v.chain ne out _ _
              (write_ne (write nx e n) x e e e-ne ∙ write_self nx e n)
              (write_self (relink pv n e) e x ∙ sym upto-last)
              λ a a_ne. (
                write-cong (write nx e n) nx x e a (write_ne nx e n a a_ne)
                    ∙ ap (λ f. f a) (sym (relink-ne_zero nx x e x-ne-zero))
                    ∙ ap (λ k. relink nx k e a) (sym upto-last),
                write_ne (relink pv n e) e x a a_ne,
              );
        first = v.first ∙ after-first e xs x ys;
        last = after-last nx pv e (last_or 0 upto) upto ys sides.1 h.lh_last v.last;
        counted = omega (arith, v.counted, length-append upto ys, length-append upto (e ∷ ys));
        distinct = spliced-Distinct nx pv e upto ys v.distinct v.chain ne out;
      })
