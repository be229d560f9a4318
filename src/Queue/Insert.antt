-- ===== src/Queue/Insert.antt =====
-- `LIST_INSERT_HEAD` and `LIST_INSERT_TAIL` of inc/queue.h, on the sequence.
use fos_kernel.Prelude.{
  ℕ, ◌≡◌, refl, sym, ◌∙◌, ◌≢◌, true, false, List, [], ◌∷◌, ◌++◌, arith, ◌==◌, ==-ne, length-append,
}
use fos_kernel.Queue.{Links, Head, size_inc, write, list_insert_head, list_insert_tail}
use fos_kernel.Queue.Chain.{
  has, last_or, Seg, Distinct, IsList, Holds, Seg-frame, Seg-append, Seg-set_next, not-has-zero,
  ne_of_has, ne_of_mem, write_ne, write_self, has-last_or, append-Distinct, last_or-append,
}

-- What the branches of the macros leave in the link fields, list empty or not.
module _ (nx pv : ℕ → ℕ) (e x : ℕ) (xs : List ℕ) (ne : e ≢ 0) (out : has e (x ∷ xs) ≡ false)
    (d : Distinct (x ∷ xs)) (s : Seg nx pv 0 (x ∷ xs) 0) where
  x-ne-e : x ≢ e
  x-ne-e = ne_of_mem x e (x ∷ xs) (ground arith) out

  xs-ne-e : (a : ℕ) → has a xs ≡ true → a ≢ e
  xs-ne-e a i = ne_of_mem a e xs i (ground arith)

  pub in_front : Seg (write nx e x) (write (write pv x e) e 0) 0 (e ∷ x ∷ xs) 0
  in_front = (
    ne,
    write_self (write pv x e) e 0,
    write_self nx e x,
    (
      s.0,
      write_ne (write pv x e) e 0 x x-ne-e ∙ write_self pv x e,
      write_ne nx e x x x-ne-e ∙ s.2,
      Seg-frame _ _ x xs 0 s.3 λ a i. (
        write_ne nx e x a (xs-ne-e a i),
        write_ne (write pv x e) e 0 a (xs-ne-e a i) ∙ write_ne pv x e a (ne_of_mem a x xs i d.0),
      ),
    ),
  )

  pub behind :
      let last = last_or x xs in
      Seg (write (write nx last e) e 0) (write pv e last) 0 (x ∷ xs ++ e ∷ []) 0
  behind =
      let last = last_or x xs in
      Seg-append _ _ 0 (x ∷ xs) (e ∷ []) 0
        (Seg-frame _ _ 0 (x ∷ xs) e (Seg-set_next nx pv 0 x xs 0 e d s) λ a i.
          let a-ne-e = ne_of_mem a e (x ∷ xs) i out in
          (write_ne (write nx last e) e 0 a a-ne-e, write_ne pv e last a a-ne-e))
        (ne, write_self pv e last, write_self (write nx last e) e 0, tt)

module _ (l : Links) (h : Head) (e : ℕ) where
  open l use {le_next as nx, le_prev as pv}

  insert_head-nonempty :
      (h.lh_first == 0) ≡ false
      → list_insert_head e l h ≡ record {
        links = record {
          le_next = write nx e h.lh_first;
          le_prev = write (write pv h.lh_first e) e 0;
        };
        head = record { lh_first = e; lh_last = h.lh_last; size = size_inc h.size };
      }
  unfolding list_insert_head
  insert_head-nonempty nz = rw nz

  insert_tail-nonempty :
      (h.lh_last == 0) ≡ false
      → list_insert_tail e l h ≡ record {
        links = record {
          le_next = write (write nx h.lh_last e) e 0;
          le_prev = write pv e h.lh_last;
        };
        head = record { lh_first = h.lh_first; lh_last = e; size = size_inc h.size };
      }
  unfolding list_insert_tail
  insert_tail-nonempty nz = rw nz

  insert_head-empty : IsList l h [] → e ≢ 0 → Holds (list_insert_head e l h) (e ∷ [])
  unfolding list_insert_head
  insert_head-empty v ne = record {
    chain = ground arith;
    first = refl;
    last = ground arith;
    counted = omega (arith, v.counted);
    distinct = (refl, tt);
  }

  -- `LIST_INSERT_HEAD` of an element that is not NULL and not in the list gives the list with it in
  -- front.
  pub list_insert_head_lem :
      (xs : List ℕ)
      → IsList l h xs
      → e ≢ 0
      → has e xs ≡ false
      → Holds (list_insert_head e l h) (e ∷ xs)
  list_insert_head_lem [] v ne out = insert_head-empty v ne
  list_insert_head_lem (x ∷ xs) v ne out =
      rw (insert_head-nonempty (==-ne h.lh_first 0 (λ z. v.chain.0 (sym v.first ∙ z))), v.first)
        (record {
          chain = in_front nx pv e x xs ne out v.distinct v.chain;
          first = refl;
          last = v.last;
          counted = omega (arith, v.counted);
          distinct = (out, v.distinct);
        })

  -- An element that is neither inserted nor in the list keeps its links.
  pub insert_head_frame :
      (xs : List ℕ) (a : ℕ)
      → IsList l h xs
      → a ≢ e
      → has a xs ≡ false
      → let s = list_insert_head e l h in (s.links.le_next a ≡ nx a) × (s.links.le_prev a ≡ pv a)
  unfolding list_insert_head
  insert_head_frame [] a v ne out = ground arith
  insert_head_frame (x ∷ xs) a v ne out = ground arith

  last-ne-zero : (x : ℕ) (xs : List ℕ) → IsList l h (x ∷ xs) → (h.lh_last == 0) ≡ false
  last-ne-zero x xs v = ==-ne h.lh_last 0 λ z.
      ne_of_mem (last_or x xs) 0 (x ∷ xs) (has-last_or x xs)
        (not-has-zero nx pv 0 (x ∷ xs) 0 v.chain) (sym v.last ∙ z)

  insert_tail-empty : IsList l h [] → e ≢ 0 → Holds (list_insert_tail e l h) (e ∷ [])
  unfolding list_insert_tail
  insert_tail-empty v ne = record {
    chain = ground arith;
    first = ground arith;
    last = refl;
    counted = omega (arith, v.counted);
    distinct = (refl, tt);
  }

  -- `LIST_INSERT_TAIL` of an element that is not NULL and not in the list gives the list with it
  -- behind the others.
  pub list_insert_tail_lem :
      (xs : List ℕ)
      → IsList l h xs
      → e ≢ 0
      → has e xs ≡ false
      → Holds (list_insert_tail e l h) (xs ++ e ∷ [])
  list_insert_tail_lem [] v ne out = insert_tail-empty v ne
  list_insert_tail_lem (x ∷ xs) v ne out =
      rw (insert_tail-nonempty (last-ne-zero x xs v), v.last)
        (record {
          chain = behind nx pv e x xs ne out v.distinct v.chain;
          first = v.first;
          last = sym (last_or-append x e xs []);
          counted = omega (arith, v.counted, length-append xs (e ∷ []));
          distinct =
              append-Distinct (x ∷ xs) (e ∷ []) v.distinct (refl, tt)
                (λ a i. ground (arith, ne_of_mem a e (x ∷ xs)));
        })

  insert_tail_frame-empty :
      (a : ℕ)
      → IsList l h []
      → a ≢ e
      → let s = list_insert_tail e l h in (s.links.le_next a ≡ nx a) × (s.links.le_prev a ≡ pv a)
  unfolding list_insert_tail
  insert_tail_frame-empty a v ne = ground arith

  -- An element that is neither inserted nor in the list keeps its links.
  pub insert_tail_frame :
      (xs : List ℕ) (a : ℕ)
      → IsList l h xs
      → a ≢ e
      → has a xs ≡ false
      → let s = list_insert_tail e l h in (s.links.le_next a ≡ nx a) × (s.links.le_prev a ≡ pv a)
  insert_tail_frame [] a v ne out = insert_tail_frame-empty a v ne
  insert_tail_frame (x ∷ xs) a v ne out = rw (insert_tail-nonempty (last-ne-zero x xs v)) (
    write_ne (write nx h.lh_last e) e 0 a ne
        ∙ write_ne nx h.lh_last e a
            (λ z. ne_of_has a (last_or x xs) (x ∷ xs) out (has-last_or x xs) (z ∙ v.last)),
    write_ne pv e h.lh_last a ne,
  )
