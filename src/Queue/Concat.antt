-- ===== src/Queue/Concat.antt =====
-- `LIST_CONCAT` of inc/queue.h: what the macro joins, and what it counts.
use fos_kernel.Prelude.{
  ℕ, ◌+◌, ◌%◌, ◌^◌, ◌<◌, ◌≡◌, refl, sym, ◌∙◌, ◌≢◌, true, false, List, ◌∷◌, ◌++◌, arith, ◌==◌, ==-ne,
  Bool-cases, inl, inr, length, length-append,
}
use fos_kernel.Queue.{Links, Head, Concatenated, write, list_init, list_concat}
use fos_kernel.Queue.Chain.{
  has, head_or, last_or, Seg, IsList, Seg-frame, Seg-append, Seg-set_prev, Seg-set_next,
  has-last_or, ne_of_mem, ne_of_has, write_ne, last_or-append,
}

-- The links and the ends of the first head are those of the joined sequence; the size that the
-- macro stores is given apart.
pub record Joined (c : Concatenated) (xs : List ℕ) (n : ℕ) : Type 0 where
  pub chain : Seg c.links.le_next c.links.le_prev 0 xs 0
  pub first : c.list1.lh_first ≡ head_or 0 xs
  pub last : c.list1.lh_last ≡ last_or 0 xs
  pub stored : c.list1.size ≡ n
  pub emptied : c.list2 ≡ list_init

module _ (l : Links) (h1 h2 : Head) where
  open l use {le_next as nx, le_prev as pv}

  concat-nonempty :
      (h1.lh_first == 0) ≡ false
      → (h2.lh_first == 0) ≡ false
      → list_concat l h1 h2 ≡ record {
        links = record {
          le_next = write nx h1.lh_last h2.lh_first;
          le_prev = write pv h2.lh_first h1.lh_last;
        };
        list1 = record {
          lh_first = h1.lh_first;
          lh_last = h2.lh_last;
          size = (h1.size + 0) % 2 ^ 32;
        };
        list2 = list_init;
      }
  unfolding list_concat list_init
  concat-nonempty a b = rw (a, b)

  -- Two lists, neither empty, with no element in common: `LIST_CONCAT` links the second behind the
  -- first, in both directions and with the ends of the joined list, and empties the second, but the
  -- size that it stores is that of the first list alone.
  pub list_concat_lem :
      (x : ℕ) (xs : List ℕ) (y : ℕ) (ys : List ℕ)
      → IsList l h1 (x ∷ xs)
      → IsList l h2 (y ∷ ys)
      → ((a : ℕ) → has a (x ∷ xs) ≡ true → has a (y ∷ ys) ≡ false)
      → Joined (list_concat l h1 h2) (x ∷ xs ++ y ∷ ys) (length (x ∷ xs) % 2 ^ 32)
  list_concat_lem x xs y ys v w apart =
      let first_ne : h1.lh_first ≢ 0 = λ z. v.chain.0 (sym v.first ∙ z) in
      rw
        (
          concat-nonempty (==-ne h1.lh_first 0 first_ne)
              (==-ne h2.lh_first 0 (λ z. w.chain.0 (sym w.first ∙ z))),
          v.last,
          w.first,
        )
        (record {
          chain =
              Seg-append _ _ 0 (x ∷ xs) (y ∷ ys) 0
                (Seg-frame _ _ 0 (x ∷ xs) y (Seg-set_next nx pv 0 x xs 0 y v.distinct v.chain)
                  λ a i. (refl, write_ne pv y last a (ne_of_mem a y (x ∷ xs) i y_out)))
                (Seg-frame _ _ last (y ∷ ys) 0 (Seg-set_prev nx pv 0 last y ys 0 w.distinct w.chain)
                  λ a i. (
                    write_ne nx last y a
                        (ne_of_mem a last (y ∷ ys) i (apart last (has-last_or x xs))),
                    refl,
                  ));
          first = v.first;
          last = w.last ∙ sym (last_or-append 0 y (x ∷ xs) ys);
          stored = omega (arith, v.counted);
          emptied = refl;
        })
    where
      last : ℕ
      last = last_or x xs

      y_out : has y (x ∷ xs) ≡ false
      y_out = elim (Bool-cases (has y (x ∷ xs))) [
        | inl i ↦ absurd (ne_of_has y y (y ∷ ys) (apart y i) (ground arith) refl)
        | inr o ↦ o
      ]

  -- `LIST_CONCAT` of two lists that are not empty, share no element and have fewer than 2 ^ 32
  -- elements together gives no list of the joined sequence, which has more elements than its size says.
  pub list_concat_miscounts :
      (x : ℕ) (xs : List ℕ) (y : ℕ) (ys : List ℕ)
      → IsList l h1 (x ∷ xs)
      → IsList l h2 (y ∷ ys)
      → ((a : ℕ) → has a (x ∷ xs) ≡ true → has a (y ∷ ys) ≡ false)
      → length (x ∷ xs) + length (y ∷ ys) < 2 ^ 32
      → let c = list_concat l h1 h2 in ¬ IsList c.links c.list1 (x ∷ xs ++ y ∷ ys)
  list_concat_miscounts x xs y ys v w apart small bad =
      let j = list_concat_lem x xs y ys v w apart in
      omega (arith, j.stored, bad.counted, length-append xs (y ∷ ys))
