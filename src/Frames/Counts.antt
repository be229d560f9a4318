-- ===== src/Frames/Counts.antt =====
-- kern/memory_manager.c: the reference counts of frames, and the writes of entries that they depend on.
use fos_kernel.Prelude.{
  ℕ, ◌+◌, ◌-◌, ◌/◌, ◌%◌, ◌^◌, ◌<◌, ◌≡◌, refl, sym, ap, ◌∙◌, ◌≢◌, ◌⊎◌, inl, inr, true, some, List,
  ◌∷◌, ◌++◌, ◌==◌, ==-ne, ==-refl, if◌then◌else◌, arith, Bool-cases, subst,
}
use native.Mathlib.Decide.{ℕ_discrete}
use fos_kernel.Queue.Chain.{has}
use fos_kernel.Frames.{
  Vm, pdx, ptx, write_in, write_entry, decrement_references, free_frame, initialize_frame_info,
}
use fos_kernel.Frames.Entries.{
  Slot, slot_of, same_slot, entry_at, entry_at-put, holds, count, Absent, count-write, holds_self,
  holds_other,
}

abbrev pub references : Vm → ℕ → ℕ
references m f = (m.frames_info f).references

-- The counts are right: a frame has as many references as entries of `ss` hold it, besides those that
-- `pinned` says. A free frame has none, and every entry holds a frame of the machine.
pub record Counted (pinned : ℕ → ℕ) (ss : List Slot) (m : Vm) : Type 0 where
  pub counts : (f : ℕ) → references m f ≡ pinned f + count f m.directories ss
  pub free_unused : (f : ℕ) → has f m.free_frame_list ≡ true → references m f ≡ 0
  pub word : (f : ℕ) → references m f < 2 ^ 16
  pub valid :
      (s : Slot)
      → entry_at m.directories s ≢ 0
      → entry_at m.directories s / 4096 < m.number_of_frames

abbrev pub dec : ℕ → ℕ
dec n = (n + 2 ^ 16 - 1) % 2 ^ 16

-- `decrement_references` frees a frame or not; either way its count goes down, and nothing else does.
pub record Decremented (f : ℕ) (m j : Vm) : Type 0 where
  pub now : (g : ℕ) → references j g ≡ (if g == f then dec (references m f) else references m g)
  pub tables : j.directories ≡ m.directories
  pub machine : j.number_of_frames ≡ m.number_of_frames
  pub lost_as : j.lost ≡ m.lost
  pub freed :
      (g : ℕ)
      → has g j.free_frame_list ≡ true
      → ((g ≡ f) × (dec (references m f) ≡ 0)) ⊎ (has g m.free_frame_list ≡ true)
  pub released : dec (references m f) ≡ 0 → has f j.free_frame_list ≡ true
  pub stay : (g : ℕ) → has g m.free_frame_list ≡ true → has g j.free_frame_list ≡ true

pub decrement-Decremented : (f : ℕ) (m : Vm) → Decremented f m (decrement_references f m)
unfolding decrement_references free_frame initialize_frame_info
decrement-Decremented f m = elim (Bool-cases (dec (references m f) == 0)) [
  | inl last ↦ rw last (record {
    now = λ g. ground arith;
    tables = refl;
    machine = refl;
    lost_as = refl;
    freed = λ g h. ground arith;
    released = λ z. ground arith;
    stay = λ g h. ground (arith, h);
  })
  | inr more ↦ rw more (record {
    now = λ g. ground arith;
    tables = refl;
    machine = refl;
    lost_as = refl;
    freed = λ g h. inr h;
    released = λ z. absurd (ground (arith, more, z));
    stay = λ g h. h;
  })
]

-- A frame whose last reference has gone is free, and free frames stay free.
pub record Frees (m j : Vm) : Type 0 where
  pub freed : (f : ℕ) → references m f ≢ 0 → references j f ≡ 0 → has f j.free_frame_list ≡ true
  pub stay : (g : ℕ) → has g m.free_frame_list ≡ true → has g j.free_frame_list ≡ true

pub Frees-refl : (m : Vm) → Frees m m
Frees-refl m = record { freed = λ f ne z. absurd (ne z); stay = λ g h. h }

pub Frees-then : (m j k : Vm) → Frees m j → Frees j k → Frees m k
Frees-then m j k a b = record {
  freed = λ f ne z. elim (ℕ_discrete (references j f) 0) [
    | yes gone ↦ b.stay f (a.freed f ne gone)
    | no left ↦ b.freed f left z
  ];
  stay = λ g h. b.stay g (a.stay g h);
}

-- Removing one mapping of frame `f`, which entry `s` holds.
module _ (pinned : ℕ → ℕ) (xs ys : List Slot) (m : Vm) (s : Slot)
    (c : Counted pinned (xs ++ s ∷ ys) m) (out_xs : Absent s xs) (out_ys : Absent s ys) where
  abbrev entry : ℕ
  entry = entry_at m.directories s

  -- What `j` has in common with the result: one reference less, the entry cleared.
  module _ (j : Vm) (mapped : entry ≢ 0)
      (refs : (g : ℕ)
        → references j g
          ≡ (if g == entry / 4096 then dec (references m (entry / 4096)) else references m g))
      (freed : (g : ℕ)
        → has g j.free_frame_list ≡ true
        → ((g ≡ entry / 4096) × (dec (references m (entry / 4096)) ≡ 0))
          ⊎ (has g m.free_frame_list ≡ true))
      (machine : j.number_of_frames ≡ m.number_of_frames)
      (tables : (r : Slot)
        → entry_at j.directories r ≡ (if same_slot r s then 0 else entry_at m.directories r)) where
    counted-write :
        (g : ℕ)
        → count g j.directories (xs ++ s ∷ ys) + holds g entry
          ≡ count g m.directories (xs ++ s ∷ ys)
    counted-write g =
        count-write g m.directories j.directories s 0 tables xs ys out_xs out_ys ∙ omega arith

    refs_self : references j (entry / 4096) ≡ dec (references m (entry / 4096))
    refs_self =
        refs (entry / 4096)
        ∙ ap (λ b. if b then dec (references m (entry / 4096)) else references m (entry / 4096))
            (==-refl (entry / 4096))

    refs_other : (g : ℕ) → g ≢ entry / 4096 → references j g ≡ references m g
    refs_other g ne =
        refs g
        ∙ ap (λ b. if b then dec (references m (entry / 4096)) else references m g)
            (==-ne g (entry / 4096) ne)

    at_least_one : 0 < references m (entry / 4096)
    at_least_one =
        omega
          (arith, counted-write (entry / 4096), holds_self entry mapped, c.counts (entry / 4096))

    new-counts : (g : ℕ) → references j g ≡ pinned g + count g j.directories (xs ++ s ∷ ys)
    new-counts g = elim (ℕ_discrete g (entry / 4096)) [
      | yes e ↦
          let here : references j (entry / 4096)
              ≡ pinned (entry / 4096) + count (entry / 4096) j.directories (xs ++ s ∷ ys) =
            omega (
              arith,
              counted-write (entry / 4096),
              holds_self entry mapped,
              c.counts (entry / 4096),
              c.word (entry / 4096),
              refs_self,
              at_least_one,
            ) in
          subst (λ x. references j x ≡ pinned x + count x j.directories (xs ++ s ∷ ys)) (sym e) here
      | no ne ↦ omega (arith, counted-write g, holds_other g entry ne, c.counts g, refs_other g ne)
    ]

    new-free : (g : ℕ) → has g j.free_frame_list ≡ true → references j g ≡ 0
    new-free g h = elim (freed g h) [
      | inl (e, none_left) ↦ ap (references j) e ∙ refs_self ∙ none_left
      | inr old ↦ elim (ℕ_discrete g (entry / 4096)) [
        | yes e ↦
            absurd (omega (arith, at_least_one, ap (references m) (sym e), c.free_unused g old))
        | no ne ↦ refs_other g ne ∙ c.free_unused g old
      ]
    ]

    new-word : (g : ℕ) → references j g < 2 ^ 16
    new-word g = elim (ℕ_discrete g (entry / 4096)) [
      | yes e ↦ subst (λ x. references j x < 2 ^ 16) (sym e) (omega (arith, refs_self))
      | no ne ↦ omega (arith, refs_other g ne, c.word g)
    ]

    new-valid :
        (r : Slot)
        → entry_at j.directories r ≢ 0
        → entry_at j.directories r / 4096 < j.number_of_frames
    new-valid r ne = elim (Bool-cases (same_slot r s)) [
      | inl hit ↦ absurd (ne (tables r ∙ ap (λ b. if b then 0 else entry_at m.directories r) hit))
      | inr miss ↦
          let kept = tables r ∙ ap (λ b. if b then 0 else entry_at m.directories r) miss in
          let old = c.valid r (λ z. ne (kept ∙ z)) in
          omega (arith, ap (λ n. n / 4096) kept, machine, old)
    ]

    pub dropped : Counted pinned (xs ++ s ∷ ys) j
    dropped = record {
      counts = new-counts;
      free_unused = new-free;
      word = new-word;
      valid = new-valid;
    }

-- What `write_entry` changes, where there is a page table.
pub record Wrote (e va v : ℕ) (m j : Vm) : Type 0 where
  pub tables :
      (r : Slot)
      → entry_at j.directories r
        ≡ (if same_slot r (slot_of e va) then v else entry_at m.directories r)
  pub infos : j.frames_info ≡ m.frames_info
  pub free : j.free_frame_list ≡ m.free_frame_list
  pub machine : j.number_of_frames ≡ m.number_of_frames
  pub lost_as : j.lost ≡ m.lost

pub write_entry-Wrote :
    (e va v : ℕ) (m : Vm) (t : ℕ → ℕ)
    → m.directories e (pdx va) ≡ some t
    → Wrote e va v m (write_entry e va v m)
unfolding write_entry write_in
write_entry-Wrote e va v m t here = record {
  tables = λ r.
      ap (λ o. entry_at (write_in o e va v m).directories r) here
      ∙ entry_at-put m.directories e (pdx va) (ptx va) v t r here;
  infos = ap (λ o. (write_in o e va v m).frames_info) here;
  free = ap (λ o. (write_in o e va v m).free_frame_list) here;
  machine = ap (λ o. (write_in o e va v m).number_of_frames) here;
  lost_as = ap (λ o. (write_in o e va v m).lost) here;
}
