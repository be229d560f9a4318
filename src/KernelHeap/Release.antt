-- ===== src/KernelHeap/Release.antt =====
-- kern/kheap.c: what `kfree` releases.
use fos_kernel.Prelude.{
  ℕ, zero, suc, ◌+◌, ◌*◌, ◌/◌, ◌<◌, ◌≤◌, ◌≡◌, refl, sym, ap, ◌∙◌, inl, inr, Bool, true, false, ◌||◌,
  Option, none, some, List, [], ◌∷◌, ◌++◌, leb, if◌then◌else◌, arith, Option-cases, subst,
}
use fos_kernel.Frames.{user_top, Vm, pdx, get_page_table, write_in, write_entry}
use fos_kernel.Frames.Entries.{
  get_page_table-reached, reached-kernel, Slot, slot_of, same_slot, same_slot_refl, entry_at,
  Directories, holds, count, Absent,
}
use fos_kernel.Frames.Counts.{Counted, Frees, Frees-refl, Frees-then, write_entry-Wrote}
use fos_kernel.Queue.Chain.{has}
use fos_kernel.Frames.Unmap.{cleared_before, unmap_frame-Unmapped}
use fos_kernel.KernelHeap.{
  heap_start, kernel, Block, KernelHeap, find_block, free_page, free_pages, kfree,
}
use fos_kernel.KernelHeap.Rounds.{address}

-- The entry is one of those that are counted, once.
abbrev pub Listed : List Slot → Slot → Type 0
Listed ss s = (xs : List Slot) × (ys : List Slot) × (ss ≡ xs ++ s ∷ ys) × Absent s xs × Absent s ys

abbrev pub slot : ℕ → Slot
slot p = slot_of kernel (address p)

count-same :
    (f : ℕ) (ds ds1 : Directories) (ss : List Slot)
    → ((r : Slot) → entry_at ds1 r ≡ entry_at ds r)
    → count f ds1 ss ≡ count f ds ss
unfolding count
count-same f ds ds1 [] same = refl
count-same f ds ds1 (s ∷ ss) same =
    omega (arith, ap (holds f) (same s), count-same f ds ds1 ss same)

-- The counts stay right where no entry changes.
same-Counted :
    (pinned : ℕ → ℕ) (ss : List Slot) (m j : Vm)
    → Counted pinned ss m
    → j.frames_info ≡ m.frames_info
    → j.free_frame_list ≡ m.free_frame_list
    → j.number_of_frames ≡ m.number_of_frames
    → ((r : Slot) → entry_at j.directories r ≡ entry_at m.directories r)
    → Counted pinned ss j
same-Counted pinned ss m j c infos free machine same = record {
  counts = λ f.
      ap (λ i. (i f).references) infos
      ∙ c.counts f
      ∙ ap (λ k. pinned f + k) (sym (count-same f m.directories j.directories ss same));
  free_unused =
      λ f h. ap (λ i. (i f).references) infos ∙ c.free_unused f (ap (has f) (sym free) ∙ h);
  word = λ f. omega (arith, c.word f, ap (λ i. (i f).references) infos);
  valid =
      λ r ne. omega (arith, c.valid r (λ z. ne (same r ∙ z)), ap (λ n. n / 4096) (same r), machine);
}

same-Frees :
    (m j : Vm) → j.frames_info ≡ m.frames_info → j.free_frame_list ≡ m.free_frame_list → Frees m j
same-Frees m j infos free = record {
  freed = λ f ne z. absurd (ne (sym (ap (λ i. (i f).references) infos) ∙ z));
  stay = λ g h. ap (has g) free ∙ h;
}

-- What a second clearing of an entry leaves.
abbrev Again : (ℕ → ℕ) → List Slot → Vm → Vm → Type 0
Again pinned ss m j =
    Counted pinned ss j
    × ((r : Slot) → entry_at j.directories r ≡ entry_at m.directories r)
    × Frees m j

-- The entry of a page is set to 0 twice, by `unmap_frame` and by `kfree`.
stays_zero :
    (pinned : ℕ → ℕ) (ss : List Slot) (va : ℕ) (m : Vm)
    → Counted pinned ss m
    → entry_at m.directories (slot_of kernel va) ≡ 0
    → user_top ≤ va
    → Again pinned ss m (write_in (get_page_table kernel va m) kernel va 0 m)
unfolding write_in write_entry
stays_zero pinned ss va m c empty high =
    subst (λ o. Again pinned ss m (write_in o kernel va 0 m))
      (sym (get_page_table-reached kernel va m (reached-kernel kernel va m high)))
      (elim (Option-cases (m.directories kernel (pdx va))) [
        | inl missing ↦ rw missing (c, (λ r. refl), Frees-refl m)
        | inr (t, there) ↦
            let w = write_entry-Wrote kernel va 0 m t there in
            let j = write_entry kernel va 0 m in
            let same : (r : Slot) → entry_at j.directories r ≡ entry_at m.directories r =
              λ r. w.tables r ∙ sym (cleared_before m.directories (slot_of kernel va) empty r) in
            (
              same-Counted pinned ss m j c w.infos w.free w.machine same,
              same,
              same-Frees m j w.infos w.free,
            )
      ])

-- The slot is that of one of the `n` pages from `va` on.
abbrev pub in_block : ℕ → ℕ → Slot → Bool
in_block va zero r = false
in_block va (suc n) r = same_slot r (slot_of kernel va) || in_block (va + 4096) n r

-- The pages' entries are 0, the others are those of `m`, the counts are right, and a frame whose last
-- reference has gone is free.
pub record Released (pinned : ℕ → ℕ) (ss : List Slot) (freed : Slot → Bool) (m j : Vm)
    : Type 0 where
  pub counted : Counted pinned ss j
  pub entries :
      (r : Slot) → entry_at j.directories r ≡ (if freed r then 0 else entry_at m.directories r)
  pub frees : Frees m j

free_page-Released :
    (pinned : ℕ → ℕ) (ss : List Slot) (va : ℕ) (m : Vm)
    → Counted pinned ss m
    → Listed ss (slot_of kernel va)
    → user_top ≤ va
    → (j : Vm) × (free_page va m ≡ some j)
      × Released pinned ss (λ r. same_slot r (slot_of kernel va)) m j
free_page-Released pinned ss va m c (xs, ys, split, ax, ay) high =
    let clear_again : Option Vm → Option Vm = λ o. elim o [
      | none ↦ none
      | some k ↦ some (write_in (get_page_table kernel va k) kernel va 0 k)
    ] in
    let s = slot_of kernel va in
    let (m1, is, c1, entries, frees) =
      unmap_frame-Unmapped pinned xs ys m kernel va (subst (λ l. Counted pinned l m) split c) ax ay
        (reached-kernel kernel va m high) in
    let empty : entry_at m1.directories s ≡ 0 =
      entries s ∙ ap (λ b. if b then 0 else entry_at m.directories s) (same_slot_refl s) in
    let (c2, same, frees_none) =
      stays_zero pinned ss va m1 (subst (λ l. Counted pinned l m1) (sym split) c1) empty high in
    (
      write_in (get_page_table kernel va m1) kernel va 0 m1,
      ap clear_again is,
      record {
        counted = c2;
        entries = λ r. same r ∙ entries r;
        frees =
            Frees-then m m1 (write_in (get_page_table kernel va m1) kernel va 0 m1) frees
              frees_none;
      },
    )

twice : (a b : Bool) (e : ℕ) → (if a then 0 else if b then 0 else e) ≡ (if b || a then 0 else e)
twice true true e = refl
twice true false e = refl
twice false true e = refl
twice false false e = refl

free_pages-Released :
    (pinned : ℕ → ℕ) (ss : List Slot) (n fuel va end : ℕ) (m : Vm)
    → Counted pinned ss m
    → ((q : ℕ) → q < n → Listed ss (slot_of kernel (va + q * 4096)))
    → va + n * 4096 ≡ end + 4096
    → n < fuel
    → user_top ≤ va
    → (j : Vm) × (free_pages fuel va end m ≡ some j) × Released pinned ss (in_block va n) m j
unfolding free_pages
free_pages-Released pinned ss n zero va end m c listed ends enough high = absurd (omega arith)
free_pages-Released pinned ss zero (suc fuel) va end m c listed ends enough high =
    let past : leb va end ≡ false = ground arith in
    (m, rw past refl, record { counted = c; entries = λ r. refl; frees = Frees-refl m })
free_pages-Released pinned ss (suc n) (suc fuel) va end m c listed ends enough high =
    let inside : leb va end ≡ true = ground arith in
    let (m1, is, first) =
      free_page-Released pinned ss va m c
        (subst (λ k. Listed ss (slot_of kernel k)) (omega arith) (listed 0 (omega arith))) high in
    let (j, is_rest, rest) =
      free_pages-Released pinned ss n fuel (va + 4096) end m1 first.counted
        (λ q lt.
          subst (λ k. Listed ss (slot_of kernel k)) (omega arith) (listed (q + 1) (omega arith)))
        (omega arith) (omega arith) (omega arith) in
    (
      j,
      rw (inside, is, is_rest) refl,
      record {
        counted = rest.counted;
        entries = λ r.
            rest.entries r
            ∙ ap (λ e. if in_block (va + 4096) n r then 0 else e) (first.entries r)
            ∙ twice (in_block (va + 4096) n r) (same_slot r (slot_of kernel va))
                (entry_at m.directories r);
        frees = Frees-then m m1 j first.frees rest.frees;
      },
    )

-- `kfree` of a block of `n` pages of the kernel heap, where the references of the frames are those that the counted entries
-- hold besides the pinned ones, and the entries of the block's pages are counted. It returns, each page
-- of the block is unmapped, no other entry of any page table changes, and the counts are right again.
-- Each frame that has lost its last reference is free, and all that were free still are.
pub kfree-Released :
    (pinned : ℕ → ℕ) (ss : List Slot) (n fuel va : ℕ) (b : Block) (h : KernelHeap)
    → Counted pinned ss h.vm
    → find_block h.idx va h.kheap_arr ≡ some b
    → b.last + 4096 ≡ va + n * 4096
    → ((q : ℕ) → q < n → Listed ss (slot_of kernel (va + q * 4096)))
    → n < fuel
    → heap_start ≤ va
    → (j : Vm) × (kfree fuel va h ≡ some (record h { vm = j }))
      × Released pinned ss (in_block va n) h.vm j
unfolding kfree
kfree-Released pinned ss n fuel va b h c found ends listed enough in_heap =
    let (j, is, released) =
      free_pages-Released pinned ss n fuel va b.last h.vm c listed (sym ends) enough
        (omega arith) in
    (j, rw (found, is) refl, released)
