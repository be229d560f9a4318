-- ===== src/WorkingSet/Size.antt =====
-- kern/memory_manager.c and kern/trap.c: how many entries of a working set are taken, and placing.
use fos_kernel.Prelude.{
  ℕ, zero, suc, ◌+◌, ◌<◌, ◌≤◌, ◌≡◌, refl, ap, ◌∙◌, ◌≢◌, true, false, Option, none, some, ◌==◌,
  ==-ne, ==-refl, lt→ltb, if◌then◌else◌, arith, Bool-cases, inl, inr,
}
use native.Mathlib.Decide.{ℕ_discrete}
use fos_kernel.WorkingSet.{
  Element, Ws, user_top, rounddown, page_unit, write_element, count_used, ws_get_size, ws_set_entry,
  ws_get_virtual_address, ws_is_entry_empty, place_from, place,
}

abbrev put : (ℕ → Element) → ℕ → Element → ℕ → Element
put elements i v j = if j == i then v else elements j

put_self : (elements : ℕ → Element) (i : ℕ) (v : Element) → put elements i v i ≡ v
put_self elements i v = ap (λ b. if b then v else elements i) (==-refl i)

put_ne : (elements : ℕ → Element) (i j : ℕ) (v : Element) → j ≢ i → put elements i v j ≡ elements j
put_ne elements i j v ne = ap (λ b. if b then v else elements j) (==-ne j i ne)

abbrev weight : Element → ℕ
weight v = if v.empty then 0 else 1

count_used-beyond :
    (elements : ℕ → Element) (i : ℕ) (v : Element) (n : ℕ)
    → n ≤ i
    → count_used (put elements i v) n ≡ count_used elements n
unfolding count_used
count_used-beyond elements i v zero le = refl
count_used-beyond elements i v (suc n) le =
    let same = ap weight (put_ne elements i n v (omega arith)) in
    omega (arith, count_used-beyond elements i v n (omega arith), same)

-- Writing an entry changes the count by the difference of the two entries.
count_used-put :
    (elements : ℕ → Element) (i : ℕ) (v : Element) (n : ℕ)
    → i < n
    → count_used (put elements i v) n + weight (elements i) ≡ count_used elements n + weight v
unfolding count_used
count_used-put elements i v zero lt = absurd (omega arith)
count_used-put elements i v (suc n) lt = elim (ℕ_discrete n i) [
  | yes e ↦
      let new : weight (put elements i v n) ≡ weight v =
        ap (λ k. weight (put elements i v k)) e ∙ ap weight (put_self elements i v) in
      let old : weight (elements n) ≡ weight (elements i) = ap (λ k. weight (elements k)) e in
      omega (arith, count_used-beyond elements i v n (omega (arith, e)), new, old)
  | no ne ↦
      let same = ap weight (put_ne elements i n v ne) in
      omega (arith, count_used-put elements i v n (omega arith), same)
]

-- Fewer taken entries than entries: one is empty.
some_empty :
    (elements : ℕ → Element) (n : ℕ)
    → count_used elements n < n
    → (i : ℕ) × (i < n) × ((elements i).empty ≡ true)
unfolding count_used
some_empty elements zero lt = absurd (omega arith)
some_empty elements (suc n) lt = elim (Bool-cases (elements n).empty) [
  | inl free ↦ (n, omega arith, free)
  | inr taken ↦
      let one : weight (elements n) ≡ 1 = ap (λ b. if b then 0 else 1) taken in
      let (i, l, free) = some_empty elements n (omega (arith, one)) in (i, omega arith, free)
]

-- The page of `va` is in entry `i` of `j`, which was empty, and the other entries are those of `w`.
pub record Placed (va : ℕ) (w : Ws) (i : ℕ) (j : Ws) : Type 0 where
  pub in_set : i < w.max_size
  pub was_empty : (w.elements i).empty ≡ true
  pub page : ws_get_virtual_address page_unit i j ≡ some (rounddown va page_unit)
  pub one_more : ws_get_size j ≡ ws_get_size w + 1
  pub others : (k : ℕ) → k ≢ i → j.elements k ≡ w.elements k
  pub last : j.last_index ≡ (if i + 1 == w.max_size then 0 else i + 1)

abbrev filled : ℕ → Element
filled va = record {
  virtual_address = rounddown va page_unit;
  time_stamp = 2147483648;
  empty = false;
}

abbrev placed : ℕ → ℕ → Ws → Ws
placed va i w = record (write_element i (filled va) w) {
  last_index = if i + 1 == w.max_size then 0 else i + 1;
}

placed-Placed :
    (va i : ℕ) (w : Ws)
    → i < w.max_size
    → (w.elements i).empty ≡ true
    → Placed va w i (placed va i w)
unfolding ws_get_virtual_address ws_get_size
placed-Placed va i w lt free = record {
  in_set = lt;
  was_empty = free;
  page = rw (lt→ltb i w.max_size lt) (
      ap some (
        ap (λ (v : Element). rounddown v.virtual_address page_unit)
          (put_self w.elements i (filled va))
        ∙ omega arith));
  one_more =
      let none_there : weight (w.elements i) ≡ 0 = ap (λ b. if b then 0 else 1) free in
      omega (arith, count_used-put w.elements i (filled va) w.max_size lt, none_there);
  others = λ k ne. put_ne w.elements i k (filled va) ne;
  last = refl;
}

first_taken : ℕ → ℕ → ℕ → Ws → Option Ws
first_taken left i va w = elim (ws_set_entry page_unit i va w) [
  | none ↦ none
  | some j ↦ some (record j { last_index = if i + 1 == j.max_size then 0 else i + 1 })
]

place_from-Placed :
    (left i k va : ℕ) (w : Ws)
    → i + left ≡ w.max_size
    → va < user_top
    → i ≤ k
    → k < w.max_size
    → (w.elements k).empty ≡ true
    → (e : ℕ) × (j : Ws) × (place_from left i va w ≡ some j) × Placed va w e j
unfolding place_from ws_is_entry_empty ws_set_entry first_taken
place_from-Placed zero i k va w all low le lt free = absurd (omega arith)
place_from-Placed (suc left) i k va w all low le lt free = elim (Bool-cases (w.elements i).empty) [
  | inl here ↦ (
    i,
    placed va i w,
    rw (here, lt→ltb i w.max_size (omega arith), lt→ltb va user_top low) refl,
    placed-Placed va i w (omega arith) here,
  )
  | inr taken ↦
      let other : k ≢ i = λ e. cc (ap (λ n. (w.elements n).empty) e, free, taken) in
      let (e, j, ran, p) =
        place_from-Placed left (i + 1) k va w (omega arith) low (omega arith) lt free in
      (
        e,
        j,
        ap (λ b. if b then first_taken left i va w else place_from left (i + 1) va w) taken ∙ ran,
        p,
      )
]

-- Where the working set has room, placing an address below USER_TOP puts its page into an entry that
-- was empty, leaves the other entries, counts one more, and sets the index behind the entry.
pub place_lem :
    (va : ℕ) (w : Ws)
    → va < user_top
    → ws_get_size w < w.max_size
    → (e : ℕ) × (j : Ws) × (place va w ≡ some j) × Placed va w e j
unfolding place ws_get_size
place_lem va w low room =
    let (k, lt, free) = some_empty w.elements w.max_size room in
    place_from-Placed w.max_size 0 k va w (omega arith) low (omega arith) lt free
