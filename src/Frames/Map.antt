-- ===== src/Frames/Map.antt =====
-- kern/memory_manager.c: `allocate_frame`, `map_frame` and the reference counts.
use fos_kernel.Prelude.{
  ℕ, ◌+◌, ◌/◌, ◌^◌, ◌<◌, ◌≡◌, refl, sym, ap, ◌∙◌, ◌≢◌, inl, inr, Bool, true, false, Option, none,
  some, List, ◌∷◌, ◌++◌, if◌then◌else◌, arith, Bool-cases, subst,
}
use native.Mathlib.Decide.{ℕ_discrete}
use fos_kernel.Queue.Chain.{has}
use fos_kernel.Frames.{
  Vm, pdx, ptx, blank, set_info, set_references, construct_entry, initialize_frame_info,
  pt_clear_page_table_entry, then_initialize, allocate_from, allocate_frame, reached, add_mapping,
  map_in_table, map_with, map_frame,
}
use fos_kernel.Frames.Entries.{
  Slot, slot_of, same_slot, index_in, entry_at, holds, count, Absent, count-write, holds_self,
  holds_other,
}
use fos_kernel.Frames.Counts.{references, Counted, Wrote, write_entry-Wrote}

abbrev pub taken : ℕ → List ℕ → Vm → Vm
taken f rest m = set_info f blank (record m { free_frame_list = rest })

pub allocate_frame-taken :
    (m : Vm) (f : ℕ) (rest : List ℕ)
    → m.free_frame_list ≡ f ∷ rest
    → (m.frames_info f).is_buffered ≡ false
    → allocate_frame m ≡ some (f, taken f rest m)
unfolding allocate_frame allocate_from initialize_frame_info
allocate_frame-taken m f rest first plain =
    let without = record m { free_frame_list = rest } in
    ap (λ l. allocate_from l m) first
    ∙ ap
        (λ (b : Bool). then_initialize f (
          if b
          then pt_clear_page_table_entry (m.frames_info f).environment (m.frames_info f).va without
          else some without))
        plain

pub taken-Counted :
    (pinned : ℕ → ℕ) (ss : List Slot) (m : Vm) (f : ℕ) (rest : List ℕ)
    → Counted pinned ss m
    → m.free_frame_list ≡ f ∷ rest
    → Counted pinned ss (taken f rest m) × (references (taken f rest m) f ≡ 0)
taken-Counted pinned ss m f rest c first =
    let unused = c.free_unused f (ap (has f) first ∙ ground arith) in
    let same : (g : ℕ) → references (taken f rest m) g ≡ references m g =
      λ g. ground (arith, unused) in
    (
      record {
        counts = λ g. same g ∙ c.counts g;
        free_unused = λ g h. same g ∙ c.free_unused g (ap (has g) first ∙ ground (arith, h));
        word = λ g. omega (arith, same g, c.word g);
        valid = c.valid;
      },
      same f ∙ unused,
    )

-- Where the counts are right and the first free frame is not buffered, `allocate_frame` takes that
-- frame: none of the counted entries holds it, it has no references, and the counts stay right.
pub allocate_frame-Counted :
    (pinned : ℕ → ℕ) (ss : List Slot) (m : Vm) (f : ℕ) (rest : List ℕ)
    → Counted pinned ss m
    → m.free_frame_list ≡ f ∷ rest
    → (m.frames_info f).is_buffered ≡ false
    → (j : Vm) × (allocate_frame m ≡ some (f, j))
      × (j.free_frame_list ≡ rest)
      × (count f m.directories ss ≡ 0)
      × (references j f ≡ 0)
      × Counted pinned ss j
allocate_frame-Counted pinned ss m f rest c first plain =
    let (counted, none_left) = taken-Counted pinned ss m f rest c first in
    let unused = c.free_unused f (ap (has f) first ∙ ground arith) in
    (
      taken f rest m,
      allocate_frame-taken m f rest first plain,
      refl,
      omega (arith, c.counts f, unused),
      none_left,
      counted,
    )

-- A page whose table exists and whose entry is 0 is mapped by the last two statements alone.
pub map_frame-new :
    (new_page : Vm → Option Vm) (m : Vm) (e va f perm : ℕ) (t : ℕ → ℕ)
    → m.directories e (pdx va) ≡ some t
    → reached e va m ≡ true
    → t (ptx va) ≡ 0
    → map_frame new_page e f va perm m ≡ some (add_mapping e f va perm m)
unfolding map_frame map_with map_in_table
map_frame-new new_page m e va f perm t here found unused =
    ap (λ o. map_with o new_page e f va perm m) here
    ∙ ap (λ b. if b then map_in_table (t (ptx va)) e f va perm m else none) found
    ∙ ap (λ n. map_in_table n e f va perm m) unused

module _ (pinned : ℕ → ℕ) (xs ys : List Slot) (m : Vm) (e va f perm : ℕ) (t : ℕ → ℕ)
    (c : Counted pinned (xs ++ slot_of e va ∷ ys) m) (out_xs : Absent (slot_of e va) xs)
    (out_ys : Absent (slot_of e va) ys) (here : m.directories e (pdx va) ≡ some t)
    (unused : t (ptx va) ≡ 0) (real : f < m.number_of_frames)
    (in_use : has f m.free_frame_list ≡ false) (room : references m f + 1 < 2 ^ 16)
    (low : perm < 4096) where
  abbrev s : Slot
  s = slot_of e va

  abbrev mapped : Vm
  mapped = add_mapping e f va perm m

  abbrev word : ℕ
  word = construct_entry f perm

  word-frame : word / 4096 ≡ f
  word-frame = ground arith

  word-ne : word ≢ 0
  word-ne = λ h. ground arith

  abbrev raised : Vm
  raised = set_references f ((m.frames_info f).references + 1) m

  wrote : Wrote e va word raised mapped
  wrote = write_entry-Wrote e va word raised t here

  old_entry : entry_at m.directories s ≡ 0
  old_entry = ap (λ o. index_in o (ptx va)) here ∙ unused

  refs_self : references mapped f ≡ references m f + 1
  refs_self = ap (λ i. (i f).references) wrote.infos ∙ ground arith

  refs_other : (g : ℕ) → g ≢ f → references mapped g ≡ references m g
  refs_other g ne = ap (λ i. (i g).references) wrote.infos ∙ ground arith

  counted-write :
      (g : ℕ)
      → count g mapped.directories (xs ++ s ∷ ys)
        ≡ count g m.directories (xs ++ s ∷ ys) + holds g word
  counted-write g = omega (
    arith,
    count-write g m.directories mapped.directories s word wrote.tables xs ys out_xs out_ys,
    ap (holds g) old_entry,
  )

  mapped-counts :
      (g : ℕ) → references mapped g ≡ pinned g + count g mapped.directories (xs ++ s ∷ ys)
  mapped-counts g = elim (ℕ_discrete g f) [
    | yes e ↦
        let one : holds f word ≡ 1 =
          ap (λ x. holds x word) (sym word-frame) ∙ holds_self word word-ne in
        subst (λ x. references mapped x ≡ pinned x + count x mapped.directories (xs ++ s ∷ ys))
          (sym e) (omega (arith, refs_self, c.counts f, counted-write f, one))
    | no ne ↦ omega (
      arith,
      refs_other g ne,
      c.counts g,
      counted-write g,
      holds_other g word (λ z. ne (z ∙ word-frame)),
    )
  ]

  mapped-free : (g : ℕ) → has g mapped.free_frame_list ≡ true → references mapped g ≡ 0
  mapped-free g h =
      let was = sym (ap (has g) wrote.free) ∙ h in
      elim (ℕ_discrete g f) [
        | yes e ↦ absurd (cc (ap (λ x. has x m.free_frame_list) e, was, in_use))
        | no ne ↦ refs_other g ne ∙ c.free_unused g was
      ]

  mapped-word : (g : ℕ) → references mapped g < 2 ^ 16
  mapped-word g = elim (ℕ_discrete g f) [
    | yes e ↦ subst (λ x. references mapped x < 2 ^ 16) (sym e) (omega (arith, refs_self, room))
    | no ne ↦ omega (arith, refs_other g ne, c.word g)
  ]

  mapped-valid :
      (r : Slot)
      → entry_at mapped.directories r ≢ 0
      → entry_at mapped.directories r / 4096 < mapped.number_of_frames
  mapped-valid r ne = elim (Bool-cases (same_slot r s)) [
    | inl hit ↦
        let new = wrote.tables r ∙ ap (λ b. if b then word else entry_at m.directories r) hit in
        omega (arith, ap (λ n. n / 4096) new, word-frame, wrote.machine, real)
    | inr miss ↦
        let kept = wrote.tables r ∙ ap (λ b. if b then word else entry_at m.directories r) miss in
        let old = c.valid r (λ z. ne (kept ∙ z)) in
        omega (arith, ap (λ n. n / 4096) kept, wrote.machine, old)
  ]

  pub mapped-Counted : Counted pinned (xs ++ s ∷ ys) mapped
  mapped-Counted = record {
    counts = mapped-counts;
    free_unused = mapped-free;
    word = mapped-word;
    valid = mapped-valid;
  }

  -- Where the counts are right, `map_frame` of a frame of the machine that is not free and has room
  -- for a reference, at a page among the counted ones whose table exists and is not lost and whose
  -- entry is 0,
  -- returns: the entry holds the frame with the permissions and the present bit, every other entry
  -- is as before, the frame has one reference more, and the counts stay right.
  pub map_frame-Counted :
      (new_page : Vm → Option Vm)
      → reached e va m ≡ true
      → (j : Vm) × (map_frame new_page e f va perm m ≡ some j)
        × ((r : Slot)
            → entry_at j.directories r
              ≡ (if same_slot r s then construct_entry f perm else entry_at m.directories r))
        × (references j f ≡ references m f + 1)
        × Counted pinned (xs ++ s ∷ ys) j
  map_frame-Counted new_page found = (
    mapped,
    map_frame-new new_page m e va f perm t here found unused,
    wrote.tables,
    refs_self,
    mapped-Counted,
  )
