-- ===== src/UserPages/Residents.antt =====
-- kern/memory_manager.c: the entries that `freeMem` removes from a working set.
use fos_kernel.Prelude.{
  ℕ, zero, suc, ◌+◌, ◌<◌, ◌≤◌, ◌≡◌, refl, sym, ap, ◌∙◌, ◌≢◌, ◌⊎◌, inl, inr, Bool, true, false, ◌||◌,
  Option, none, some, ◌==◌, ==-refl, ==-ne, lt→ltb, if◌then◌else◌, arith,
}
use native.Mathlib.Decide.{ℕ_discrete}
use fos_kernel.WorkingSet.{
  Element, Ws, rounddown, page_unit, write_element, ws_get_virtual_address, ws_clear_entry,
}
use fos_kernel.UserPages.{at_entry, remove_resident}

-- The page of an entry.
abbrev page_of_element : Element → ℕ
page_of_element v = rounddown v.virtual_address page_unit

abbrev pub page_at : Ws → ℕ → ℕ
page_at w i = page_of_element (w.elements i)

-- A page, other than the one at 0, which stands for none, is in one entry at most.
abbrev pub Single : Ws → Type 0
Single w =
    (i k : ℕ)
    → i < w.max_size
    → k < w.max_size
    → page_at w i ≡ page_at w k
    → page_at w i ≢ 0
    → i ≡ k

abbrev pub cleared : Element
cleared = record { virtual_address = 0; time_stamp = 0; empty = true }

-- The pages of `gone` have left the working set, the others have stayed.
pub record Left (gone : ℕ → Bool) (w j : Ws) : Type 0 where
  pub size : j.max_size ≡ w.max_size
  pub out : (i : ℕ) → i < w.max_size → gone (page_at j i) ≡ false
  pub kept :
      (i : ℕ)
      → (j.elements i ≡ w.elements i) ⊎ ((gone (page_at w i) ≡ true) × (j.elements i ≡ cleared))

pub Left-Single : (gone : ℕ → Bool) (w j : Ws) → Left gone w j → Single w → Single j
Left-Single gone w j l single i k lt lt1 e ne = elim (l.kept i) [
  | inl same ↦ elim (l.kept k) [
    | inl same1 ↦
        let at_i : page_at j i ≡ page_at w i = ap page_of_element same in
        let at_k : page_at j k ≡ page_at w k = ap page_of_element same1 in
        single i k (omega (arith, l.size)) (omega (arith, l.size)) (sym at_i ∙ e ∙ at_k)
          (λ z. ne (at_i ∙ z))
    | inr (g, none_there) ↦ absurd (ne (e ∙ ap page_of_element none_there))
  ]
  | inr (g, none_there) ↦ absurd (ne (ap page_of_element none_there))
]

pub Left-then :
    (g h : ℕ → Bool) (w j k : Ws)
    → g 0 ≡ false
    → Left g w j
    → Left h j k
    → Left (λ a. g a || h a) w k
Left-then g h w j k zero_stays l m = record {
  size = m.size ∙ l.size;
  out = λ i lt.
      let h_out = m.out i (omega (arith, l.size)) in
      let g_out : g (page_at k i) ≡ false = elim (m.kept i) [
        | inl same ↦ ap (λ (v : Element). g (page_of_element v)) same ∙ l.out i lt
        | inr (x, none_there) ↦ ap (λ (v : Element). g (page_of_element v)) none_there ∙ zero_stays
      ] in
      ground arith;
  kept = λ i. elim (m.kept i) [
    | inl same ↦ elim (l.kept i) [
      | inl same1 ↦ inl (same ∙ same1)
      | inr (x, none_there) ↦ inr (ground (arith, x), same ∙ none_there)
    ]
    | inr (x, none_there) ↦ elim (l.kept i) [
      | inl same1 ↦
          let y : h (page_at w i) ≡ true =
            ap (λ (v : Element). h (page_of_element v)) (sym same1) ∙ x in
          inr (ground (arith, y), none_there)
      | inr (y, was) ↦ inr (ground (arith, y), none_there)
    ]
  ];
}

-- The loop ends at the first entry with the page, or behind the last one.
remove_resident-cases :
    (left k va : ℕ) (w : Ws)
    → k + left ≡ w.max_size
    → ((i : ℕ) × (k ≤ i)
        × (i < w.max_size)
        × (page_at w i ≡ va)
        × (remove_resident left k va w ≡ some (write_element i cleared w)))
      ⊎ ((remove_resident left k va w ≡ some w)
          × ((i : ℕ) → k ≤ i → i < w.max_size → page_at w i ≢ va))
unfolding remove_resident ws_get_virtual_address ws_clear_entry
remove_resident-cases zero k va w ends = inr (refl, λ i lo hi. absurd (omega arith))
remove_resident-cases (suc left) k va w ends =
    let done : Option Ws = some (write_element k cleared w) in
    let rest = remove_resident left (k + 1) va w in
    let now : remove_resident (suc left) k va w ≡ (if va == page_at w k then done else rest) =
      ap (λ b. at_entry (if b then some (page_at w k) else none) va (if b then done else none) rest)
        (lt→ltb k w.max_size (omega arith)) in
    elim (ℕ_discrete va (page_at w k)) [
      | yes hit ↦
          let test : (va == page_at w k) ≡ true =
            ap (λ x. x == page_at w k) hit ∙ ==-refl (page_at w k) in
          inl (k, omega arith, omega arith, sym hit, now ∙ ap (λ b. if b then done else rest) test)
      | no ne ↦
          let miss = now ∙ ap (λ b. if b then done else rest) (==-ne va (page_at w k) ne) in
          elim (remove_resident-cases left (k + 1) va w (omega arith)) [
            | inl (i, lo, hi, at_i, is) ↦ inl (i, omega arith, hi, at_i, miss ∙ is)
            | inr (is, free) ↦ inr (
              miss ∙ is,
              λ i lo hi at_i. elim (ℕ_discrete i k) [
                | yes e ↦ ne (sym at_i ∙ ap (page_at w) e)
                | no apart ↦ free i (omega arith) hi at_i
              ],
            )
          ]
    ]

pub remove_resident-Left :
    (va : ℕ) (w : Ws)
    → 0 < va
    → Single w
    → (j : Ws) × (remove_resident w.max_size 0 va w ≡ some j) × Left (λ a. a == va) w j
remove_resident-Left va w positive single =
    elim (remove_resident-cases w.max_size 0 va w (omega arith)) [
      | inl (i, lo, hi, at_i, is) ↦ (
        write_element i cleared w,
        is,
        record {
          size = refl;
          out = λ k lt. elim (ℕ_discrete k i) [
            | yes e ↦
                let gone : page_at (write_element i cleared w) k ≡ 0 =
                  ap (λ b. page_of_element (if b then cleared else w.elements k))
                    (ap (λ x. x == i) e ∙ ==-refl i) in
                ==-ne (page_at (write_element i cleared w) k) va (λ z. omega (arith, z, gone))
            | no apart ↦
                let same : page_at (write_element i cleared w) k ≡ page_at w k =
                  ap (λ b. page_of_element (if b then cleared else w.elements k))
                    (==-ne k i apart) in
                ==-ne (page_at (write_element i cleared w) k) va (λ z.
                  apart
                    (single k i lt hi (sym same ∙ z ∙ sym at_i) (λ x. omega (arith, x, same, z))))
          ];
          kept = λ k. elim (ℕ_discrete k i) [
            | yes e ↦ inr (
              ap (λ x. page_at w x == va) e ∙ ap (λ x. x == va) at_i ∙ ==-refl va,
              ap (λ b. if b then cleared else w.elements k) (ap (λ x. x == i) e ∙ ==-refl i),
            )
            | no apart ↦ inl (ap (λ b. if b then cleared else w.elements k) (==-ne k i apart))
          ];
        },
      )
      | inr (is, free) ↦ (
        w,
        is,
        record {
          size = refl;
          out = λ k lt. ==-ne (page_at w k) va (free k (omega arith) lt);
          kept = λ k. inl refl;
        },
      )
    ]
