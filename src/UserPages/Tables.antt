-- ===== src/UserPages/Tables.antt =====
-- kern/memory_manager.c: the page tables as `freeMem` changes them.
use fos_kernel.Prelude.{
  not, ℕ, zero, suc, ◌+◌, ◌*◌, ◌/◌, ◌%◌, ◌<◌, ◌≤◌, ◌≡◌, refl, sym, ap, ◌∙◌, inl, inr, Bool, true,
  false, ◌&&◌, Option, none, some, leb, ◌==◌, ==-ne, if◌then◌else◌, arith, Bool-cases, Option-cases,
}
use native.Mathlib.Decide.{ℕ_discrete}
use fos_kernel.Frames.{
  user_top, reached, Vm, pdx, ptx, no_frame, invalid, frame, write_entry, decrement_references,
  get_page_table, entry_frame, frame_in, get_frame_info, unmap_mapped, unmap_frame, set_table,
  set_references, free_frame, initialize_frame_info, to_frame_info,
}
use fos_kernel.Frames.Entries.{get_page_table-reached, index_in, Slot, slot_of, same_slot, entry_at}
use fos_kernel.Frames.Counts.{decrement-Decremented, write_entry-Wrote}
use fos_kernel.Frames.Unmap.{cleared_before}
use fos_kernel.UserPages.{any_present, drop_table, drop_empty, release_page}
use fos_kernel.UserPages.Gone.{Valid, Gone, Gone-then, cleared-Gone}

-- `unmap_frame` does not panic where every entry is valid.
unmap_frame-Gone :
    (e va : ℕ) (m : Vm)
    → Valid m
    → reached e va m ≡ true
    → (j : Vm) × (unmap_frame e va m ≡ some j) × Gone (λ r. same_slot r (slot_of e va)) m j
unfolding unmap_frame unmap_mapped get_frame_info frame_in entry_frame
unmap_frame-Gone e va m valid found = elim (Option-cases (m.directories e (pdx va))) [
  | inl missing ↦ (
    m,
    ap (λ o. unmap_mapped (frame_in o va m) e va m) (get_page_table-reached e va m found ∙ missing),
    cleared-Gone m m (slot_of e va) refl refl
        (cleared_before m.directories (slot_of e va) (ap (λ o. index_in o (ptx va)) missing)),
  )
  | inr (t, here) ↦
      let enter =
        ap (λ o. unmap_mapped (frame_in o va m) e va m)
          (get_page_table-reached e va m found ∙ here) in
      let at_s : entry_at m.directories (slot_of e va) ≡ t (ptx va) =
        ap (λ o. index_in o (ptx va)) here in
      let f = t (ptx va) / 4096 in
      let out = leb m.number_of_frames f in
      elim (ℕ_discrete (t (ptx va)) 0) [
        | yes empty ↦ (
          m,
          enter
              ∙ ap
                  (λ b.
                    unmap_mapped (if b then no_frame else if out then invalid else frame f) e va m)
                  (ap (λ n. n == 0) empty),
          cleared-Gone m m (slot_of e va) refl refl
              (cleared_before m.directories (slot_of e va) (at_s ∙ empty)),
        )
        | no mapped ↦
            let d = decrement-Decremented f m in
            let m1 = decrement_references f m in
            let w = write_entry-Wrote e va 0 m1 t (ap (λ ds. ds e (pdx va)) d.tables ∙ here) in
            let good : f < m.number_of_frames =
              omega (
                arith,
                valid (slot_of e va) (λ z. mapped (sym at_s ∙ z)),
                ap (λ n. n / 4096) at_s,
              ) in
            let known : out ≡ false = ground (arith, good) in
            (
              write_entry e va 0 m1,
              enter
                  ∙ ap
                      (λ b.
                        unmap_mapped (if b then no_frame else if out then invalid else frame f) e va
                          m)
                      (==-ne (t (ptx va)) 0 mapped)
                  ∙ ap (λ b. unmap_mapped (if b then invalid else frame f) e va m) known,
              cleared-Gone m (write_entry e va 0 m1) (slot_of e va) (w.machine ∙ d.machine)
                  (w.lost_as ∙ d.lost_as)
                  (λ r.
                    w.tables r
                    ∙ ap (λ ds. if same_slot r (slot_of e va) then 0 else entry_at ds r) d.tables),
            )
      ]
]

-- A table without a present entry.
absent_entries :
    (left k : ℕ) (t : ℕ → ℕ)
    → any_present left k t ≡ false
    → (i : ℕ) → k ≤ i
    → i < k + left
    → t i % 2 ≡ 0
unfolding any_present
absent_entries zero k t absent i lo hi = absurd (omega arith)
absent_entries (suc left) k t absent i lo hi = elim (ℕ_discrete i k) [
  | yes e ↦ let even : t k % 2 ≡ 0 = ground arith in omega (arith, ap (λ x. t x % 2) e, even)
  | no ne ↦
      let rest : any_present left (k + 1) t ≡ false = ground arith in
      absent_entries left (k + 1) t rest i (omega arith) (omega arith)
]

-- Setting the directory's entry to 0 loses the entries of the table.
module _ (e va f : ℕ) (m : Vm) (t : ℕ → ℕ) (here : m.directories e (pdx va) ≡ some t)
    (absent : any_present 1024 0 t ≡ false) where
  abbrev dropped : Vm
  dropped = set_table e (pdx va) none (free_frame f (set_references f 0 m))

  abbrev in_table : Slot → Bool
  in_table r = (r.env == e) && (r.dir == pdx va)

  now :
      (r : Slot)
      → entry_at dropped.directories r ≡ (if in_table r then 0 else entry_at m.directories r)
  unfolding free_frame initialize_frame_info
  now r = elim (Bool-cases (in_table r)) [ inl hit ↦ rw hit refl | inr miss ↦ rw miss refl ]

  was_absent : (r : Slot) → in_table r ≡ true → r.index < 1024 → entry_at m.directories r % 2 ≡ 0
  was_absent r hit lt =
      let parts : (r.env ≡ e) × (r.dir ≡ pdx va) = ground arith in
      let at_r : entry_at m.directories r ≡ t r.index =
        ap (λ n. index_in (m.directories n r.dir) r.index) parts.0
        ∙ ap (λ n. index_in (m.directories e n) r.index) parts.1
        ∙ ap (λ o. index_in o r.index) here in
      ap (λ n. n % 2) at_r ∙ absent_entries 1024 0 t absent r.index (omega arith) (omega arith)

  dropped-Gone : Gone (λ r. false) m dropped
  unfolding free_frame initialize_frame_info
  dropped-Gone = record {
    machine = refl;
    lost_as = refl;
    cleared = λ r no_slot. ground arith;
    kept = λ r lt. elim (Bool-cases (in_table r)) [
      | inl hit ↦ inr (
        now r ∙ ap (λ b. if b then 0 else entry_at m.directories r) hit,
        inr (was_absent r hit lt),
      )
      | inr miss ↦ inl (now r ∙ ap (λ b. if b then 0 else entry_at m.directories r) miss)
    ];
    zero_or_kept = λ r. elim (Bool-cases (in_table r)) [
      | inl hit ↦ inr (now r ∙ ap (λ b. if b then 0 else entry_at m.directories r) hit)
      | inr miss ↦ inl (now r ∙ ap (λ b. if b then 0 else entry_at m.directories r) miss)
    ];
  }

unchanged : (m : Vm) → Gone (λ r. false) m m
unchanged m = record {
  machine = refl;
  lost_as = refl;
  cleared = λ r no_slot. ground arith;
  kept = λ r lt. inl refl;
  zero_or_kept = λ r. inl refl;
}

drop_empty-Gone :
    (e va f : ℕ) (m : Vm)
    → f < m.number_of_frames
    → reached e va m ≡ true
    → (j : Vm) × (drop_empty (get_page_table e va m) f e va m ≡ some j) × Gone (λ r. false) m j
unfolding to_frame_info
drop_empty-Gone e va f m real found = elim (Option-cases (m.directories e (pdx va))) [
  | inl missing ↦ (
    m,
    ap (λ o. drop_empty o f e va m) (get_page_table-reached e va m found ∙ missing),
    unchanged m,
  )
  | inr (t, here) ↦
      let enter = ap (λ o. drop_empty o f e va m) (get_page_table-reached e va m found ∙ here) in
      let drop = drop_table (to_frame_info (f * 4096) m) e va m in
      elim (Bool-cases (any_present 1024 0 t)) [
        | inl used ↦ (m, enter ∙ ap (λ b. if b then some m else drop) used, unchanged m)
        | inr absent ↦
            let known : leb m.number_of_frames (f * 4096 / 4096) ≡ false = ground arith in
            let same : f * 4096 / 4096 ≡ f = omega arith in
            (
              dropped e va f m t here absent,
              enter
                  ∙ ap (λ b. if b then some m else drop) absent
                  ∙ ap (λ b. drop_table (if b then none else some (f * 4096 / 4096)) e va m) known
                  ∙ ap (λ g. drop_table (some g) e va m) same,
              dropped-Gone e va f m t here absent,
            )
      ]
]

pub release_page-Gone :
    (f e va : ℕ) (m : Vm)
    → Valid m
    → f < m.number_of_frames
    → reached e va m ≡ true
    → (j : Vm) × (release_page f e va m ≡ some j) × Gone (λ r. same_slot r (slot_of e va)) m j
unfolding release_page
release_page-Gone f e va m valid real found =
    let (m1, is, first) = unmap_frame-Gone e va m valid found in
    let found1 : reached e va m1 ≡ true =
      ap (λ (l : ℕ → ℕ → Bool). if leb user_top va then true else not (l e (pdx va))) first.lost_as
      ∙ found in
    let (j, then_is, rest) = drop_empty-Gone e va f m1 (omega (arith, first.machine)) found1 in
    let both = Gone-then (λ r. same_slot r (slot_of e va)) (λ r. false) m m1 j first rest in
    let go : Option Vm → Option Vm =
      λ o. elim o [ none ↦ none | some k ↦ drop_empty (get_page_table e va k) f e va k ] in
    (
      j,
      ap go is ∙ then_is,
      record {
        machine = both.machine;
        lost_as = both.lost_as;
        cleared = λ r hit. both.cleared r (ground (arith, hit));
        kept = λ r lt. elim (both.kept r lt) [
          | inl same ↦ inl same
          | inr (empty, inl hit) ↦ inr (empty, inl (ground (arith, hit)))
          | inr (empty, inr absent) ↦ inr (empty, inr absent)
        ];
        zero_or_kept = both.zero_or_kept;
      },
    )
