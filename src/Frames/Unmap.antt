-- ===== src/Frames/Unmap.antt =====
-- kern/memory_manager.c: `unmap_frame`.
use fos_kernel.Prelude.{
  ℕ, ◌/◌, ◌<◌, ◌≡◌, sym, ap, ◌∙◌, ◌≢◌, ◌⊎◌, inl, inr, true, false, Option, some, List, ◌∷◌, ◌++◌,
  ◌==◌, ==-ne, ==-refl, if◌then◌else◌, leb, arith, Bool-cases, Option-cases, subst,
}
use native.Mathlib.Decide.{ℕ_discrete}
use fos_kernel.Queue.Chain.{has}
use fos_kernel.Frames.{
  Vm, pdx, ptx, no_frame, invalid, frame, write_entry, decrement_references, reached, entry_frame,
  frame_in, get_frame_info, unmap_mapped, unmap_frame,
}
use fos_kernel.Frames.Entries.{
  Directories, get_page_table-reached, index_in, Slot, slot_of, same_slot, entry_at, Absent,
}
use fos_kernel.Frames.Counts.{
  references, Counted, Frees, Frees-refl, dec, decrement-Decremented, dropped, write_entry-Wrote,
}

-- The entry of a page is 0, the others are those of `m`, the counts are right, and a frame whose last
-- reference has gone is free.
abbrev pub Unmapped : (ℕ → ℕ) → List Slot → Slot → Vm → Option Vm → Type 0
Unmapped pinned ss s m r =
    (j : Vm) × (r ≡ some j)
    × Counted pinned ss j
    × ((r : Slot)
        → entry_at j.directories r ≡ (if same_slot r s then 0 else entry_at m.directories r))
    × Frees m j

same_entry : (ds : Directories) (r s : Slot) → same_slot r s ≡ true → entry_at ds r ≡ entry_at ds s
same_entry ds r s same =
    let parts : (r.env ≡ s.env) × (r.dir ≡ s.dir) × (r.index ≡ s.index) = ground arith in
    ap (λ n. index_in (ds n r.dir) r.index) parts.0
    ∙ ap (λ n. index_in (ds s.env n) r.index) parts.1
    ∙ ap (λ n. index_in (ds s.env s.dir) n) parts.2

-- Where the entry is 0 already, setting it to 0 changes nothing.
pub cleared_before :
    (ds : Directories) (s : Slot)
    → entry_at ds s ≡ 0
    → (r : Slot) → entry_at ds r ≡ (if same_slot r s then 0 else entry_at ds r)
cleared_before ds s zero_entry r = elim (Bool-cases (same_slot r s)) [
  | inl hit ↦
      same_entry ds r s hit ∙ zero_entry ∙ sym (ap (λ b. if b then 0 else entry_at ds r) hit)
  | inr miss ↦ sym (ap (λ b. if b then 0 else entry_at ds r) miss)
]

module _ (pinned : ℕ → ℕ) (xs ys : List Slot) (m : Vm) (e va : ℕ)
    (c : Counted pinned (xs ++ slot_of e va ∷ ys) m) (out_xs : Absent (slot_of e va) xs)
    (out_ys : Absent (slot_of e va) ys) (found : reached e va m ≡ true) where
  abbrev s : Slot
  s = slot_of e va

  frame_known :
      (t : ℕ → ℕ)
      → m.directories e (pdx va) ≡ some t
      → t (ptx va) ≢ 0
      → get_frame_info e va m ≡ frame (t (ptx va) / 4096)
  unfolding get_frame_info frame_in entry_frame
  frame_known t here mapped =
      let at_s : entry_at m.directories s ≡ t (ptx va) = ap (λ o. index_in o (ptx va)) here in
      let good : t (ptx va) / 4096 < m.number_of_frames =
        omega (arith, c.valid s (λ z. mapped (sym at_s ∙ z)), ap (λ n. n / 4096) at_s) in
      let known : leb m.number_of_frames (t (ptx va) / 4096) ≡ false = ground arith in
      ap (λ o. frame_in o va m) (get_page_table-reached e va m found ∙ here)
      ∙ ap
          (λ b.
            if b
            then no_frame
            else if leb m.number_of_frames (t (ptx va) / 4096)
            then invalid
            else frame (t (ptx va) / 4096))
          (==-ne (t (ptx va)) 0 mapped)
      ∙ ap (λ b. if b then invalid else frame (t (ptx va) / 4096)) known

  unmapped :
      (t : ℕ → ℕ)
      → m.directories e (pdx va) ≡ some t
      → t (ptx va) ≢ 0
      → Unmapped pinned (xs ++ s ∷ ys) s m (unmap_frame e va m)
  unfolding unmap_frame unmap_mapped
  unmapped t here mapped =
      let at_s : entry_at m.directories s ≡ t (ptx va) = ap (λ o. index_in o (ptx va)) here in
      let f = t (ptx va) / 4096 in
      let m1 = decrement_references f m in
      let d = decrement-Decremented f m in
      let j = write_entry e va 0 m1 in
      let w = write_entry-Wrote e va 0 m1 t (ap (λ ds. ds e (pdx va)) d.tables ∙ here) in
      let f_is : f ≡ entry_at m.directories s / 4096 = ap (λ n. n / 4096) (sym at_s) in
      let tables : (r : Slot)
          → entry_at j.directories r ≡ (if same_slot r s then 0 else entry_at m.directories r) =
        λ r. w.tables r ∙ ap (λ ds. if same_slot r s then 0 else entry_at ds r) d.tables in
      (
        j,
        ap (λ o. unmap_mapped o e va m) (frame_known t here mapped),
        dropped pinned xs ys m s c out_xs out_ys j (λ z. mapped (sym at_s ∙ z))
            (λ g.
              ap (λ i. (i g).references) w.infos
              ∙ d.now g
              ∙ ap (λ x. if g == x then dec (references m x) else references m g) f_is)
            (λ g h.
              subst (λ x. ((g ≡ x) × (dec (references m x) ≡ 0)) ⊎ (has g m.free_frame_list ≡ true))
                f_is (d.freed g (sym (ap (has g) w.free) ∙ h)))
            (w.machine ∙ d.machine) tables,
        tables,
        record {
          freed = λ g ne z. elim (ℕ_discrete g f) [
            | yes e1 ↦
                let last : dec (references m f) ≡ 0 =
                  sym (
                    d.now f
                    ∙ ap (λ b. if b then dec (references m f) else references m f) (==-refl f))
                  ∙ ap (references m1) (sym e1)
                  ∙ sym (ap (λ i. (i g).references) w.infos)
                  ∙ z in
                ap (has g) w.free ∙ ap (λ x. has x m1.free_frame_list) e1 ∙ d.released last
            | no apart ↦ absurd (
                ne (
                  sym (
                    d.now g
                    ∙ ap (λ b. if b then dec (references m f) else references m g)
                        (==-ne g f apart))
                  ∙ sym (ap (λ i. (i g).references) w.infos)
                  ∙ z))
          ];
          stay = λ g h. ap (has g) w.free ∙ d.stay g h;
        },
      )

  -- Where a frame has as many references as entries hold it, besides those that are pinned,
  -- `unmap_frame` of a page among the counted ones, whose table is not lost, returns: the page's entry is
  -- 0, every other entry is as before, and the counts are right again, with no free frame
  -- referenced. A frame that has lost its last reference is free, and all that were free still are.
  pub unmap_frame-Unmapped : Unmapped pinned (xs ++ s ∷ ys) s m (unmap_frame e va m)
  unfolding unmap_frame unmap_mapped get_frame_info frame_in entry_frame
  unmap_frame-Unmapped = elim (Option-cases (m.directories e (pdx va))) [
    | inl missing ↦ (
      m,
      ap (λ o. unmap_mapped (frame_in o va m) e va m)
          (get_page_table-reached e va m found ∙ missing),
      c,
      cleared_before m.directories s (ap (λ o. index_in o (ptx va)) missing),
      Frees-refl m,
    )
    | inr (t, here) ↦ elim (ℕ_discrete (t (ptx va)) 0) [
      | yes zero_entry ↦
          let free_entry : (t (ptx va) == 0) ≡ true = ap (λ n. n == 0) zero_entry in
          (
            m,
            ap (λ o. unmap_mapped (frame_in o va m) e va m)
                  (get_page_table-reached e va m found ∙ here)
                ∙ ap
                    (λ b.
                      unmap_mapped
                        (if b
                          then no_frame
                          else if leb m.number_of_frames (t (ptx va) / 4096)
                          then invalid
                          else frame (t (ptx va) / 4096))
                        e va m)
                    free_entry,
            c,
            cleared_before m.directories s (ap (λ o. index_in o (ptx va)) here ∙ zero_entry),
            Frees-refl m,
          )
      | no mapped ↦ unmapped t here mapped
    ]
  ]
