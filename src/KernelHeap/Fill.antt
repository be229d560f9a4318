-- ===== src/KernelHeap/Fill.antt =====
-- kern/kheap.c: the loop of `nextFitAlgo` that maps the pages of a block.
use fos_kernel.Prelude.{
  ℕ, zero, suc, ◌+◌, ◌*◌, ◌%◌, ◌^◌, ◌<◌, ◌≤◌, ◌≡◌, refl, sym, ap, ◌∙◌, ◌≢◌, inl, inr, true, false,
  Option, none, some, List, [], ◌∷◌, ◌++◌, leb, ◌==◌, ==-ne, if◌then◌else◌, arith, Bool-cases,
  subst, length,
}
use fos_kernel.Queue.Chain.{has, Distinct}
use fos_kernel.Frames.{
  user_top, Vm, FrameInfo, pdx, ptx, blank, construct_entry, set_references, write_entry, write_in,
  write_table, add_mapping, allocate_frame, map_frame,
}
use fos_kernel.Frames.Entries.{
  reached-kernel, Slot, slot_of, same_slot, same_slot_refl, index_in, entry_at,
}
use fos_kernel.Frames.Counts.{Counted, write_entry-Wrote}
use fos_kernel.Frames.Map.{
  taken, allocate_frame-taken, taken-Counted, map_frame-new, mapped-Counted,
}
use fos_kernel.KernelHeap.{kernel, map_pages}
use fos_kernel.KernelHeap.Release.{Listed, in_block}

-- The counts are right, and the free frames are different frames of the machine that are not buffered.
pub record Ready (pinned : ℕ → ℕ) (ss : List Slot) (m : Vm) : Type 0 where
  pub counted : Counted pinned ss m
  pub different : Distinct m.free_frame_list
  pub real : (f : ℕ) → has f m.free_frame_list ≡ true → f < m.number_of_frames
  pub plain : (f : ℕ) → has f m.free_frame_list ≡ true → (m.frames_info f).is_buffered ≡ false

-- The page has a page table, which is made at the boot for every page of the kernel's part.
abbrev pub HasTable : Vm → ℕ → Type 0
HasTable m va = (t : ℕ → ℕ) × (m.directories kernel (pdx va) ≡ some t)

-- The pages from `va` on are mapped to the frames, in order.
abbrev pub MapsTo : Vm → ℕ → List ℕ → Type 0
MapsTo m va [] = Unit {0}
MapsTo m va (f ∷ fs) =
    (entry_at m.directories (slot_of kernel va) ≡ construct_entry f 3) × MapsTo m (va + 4096) fs

-- One page is mapped to the first free frame.
pub record One (pinned : ℕ → ℕ) (ss : List Slot) (va f : ℕ) (rest : List ℕ) (m j : Vm)
    : Type 0 where
  pub ready : Ready pinned ss j
  pub left : j.free_frame_list ≡ rest
  pub entries :
      (r : Slot)
      → entry_at j.directories r ≡ (
          if same_slot r (slot_of kernel va) then construct_entry f 3 else entry_at m.directories r)
  pub tables : (a : ℕ) → HasTable m a → HasTable j a

table_kept :
    (m : Vm) (va v a : ℕ) (t : ℕ → ℕ)
    → m.directories kernel (pdx va) ≡ some t
    → HasTable m a
    → HasTable (write_entry kernel va v m) a
unfolding write_entry write_in
table_kept m va v a t here (u, there) = elim (Bool-cases (pdx a == pdx va)) [
  | inl hit ↦ (
    write_table t (ptx va) v,
    ap (λ o. (write_in o kernel va v m).directories kernel (pdx a)) here ∙ rw hit refl,
  )
  | inr miss ↦
      (u, ap (λ o. (write_in o kernel va v m).directories kernel (pdx a)) here ∙ rw miss there)
]

map-One :
    (pinned : ℕ → ℕ) (ss : List Slot) (new_page : Vm → Option Vm) (va f : ℕ) (rest : List ℕ)
    (m : Vm)
    → Ready pinned ss m
    → m.free_frame_list ≡ f ∷ rest
    → Listed ss (slot_of kernel va)
    → HasTable m va
    → entry_at m.directories (slot_of kernel va) ≡ 0
    → user_top ≤ va
    → let m1 = taken f rest m in
      let j = add_mapping kernel f va 3 m1 in
      (allocate_frame m ≡ some (f, m1))
      × (map_frame new_page kernel f va 3 m1 ≡ some j)
      × One pinned ss va f rest m j
map-One pinned ss new_page va f rest m ready first (xs, ys, split, ax, ay) (t, here) empty high =
    let m1 = taken f rest m in
    let j = add_mapping kernel f va 3 m1 in
    let in_list : has f m.free_frame_list ≡ true = ap (has f) first ∙ ground arith in
    let different : Distinct (f ∷ rest) = subst Distinct first ready.different in
    let (c1, none_left) = taken-Counted pinned ss m f rest ready.counted first in
    let unused : t (ptx va) ≡ 0 = sym (ap (λ o. index_in o (ptx va)) here) ∙ empty in
    let w =
      write_entry-Wrote kernel va (construct_entry f 3)
        (set_references f ((m1.frames_info f).references + 1) m1) t here in
    let was : (g : ℕ) → has g rest ≡ true → has g m.free_frame_list ≡ true =
      λ g h. ap (has g) first ∙ ground (arith, h) in
    (
      allocate_frame-taken m f rest first (ready.plain f in_list),
      map_frame-new new_page m1 kernel va f 3 t here (reached-kernel kernel va m1 high) unused,
      record {
        ready = record {
          counted =
              subst (λ l. Counted pinned l j) (sym split)
                (mapped-Counted pinned xs ys m1 kernel va f 3 t
                  (subst (λ l. Counted pinned l m1) split c1) ax ay here unused
                  (ready.real f in_list) different.0 (omega (arith, none_left)) (omega arith));
          different = subst Distinct (sym w.free) different.1;
          real =
              λ g h. omega (arith, ready.real g (was g (sym (ap (has g) w.free) ∙ h)), w.machine);
          plain = λ g h.
              let in_rest : has g rest ≡ true = sym (ap (has g) w.free) ∙ h in
              let apart : g ≢ f = λ e. cc (ap (λ x. has x rest) e, in_rest, different.0) in
              ap (λ (i : ℕ → FrameInfo). (i g).is_buffered) w.infos
              ∙ ap
                  (λ b.
                    (if b
                      then record (m1.frames_info f) {
                        references = ((m1.frames_info f).references + 1) % 2 ^ 16;
                      }
                      else if b
                      then blank
                      else m.frames_info g).is_buffered)
                  (==-ne g f apart)
              ∙ ready.plain g (was g in_rest);
        };
        left = w.free;
        entries = w.tables;
        tables = λ a has_table.
            table_kept (set_references f ((m1.frames_info f).references + 1) m1) va
              (construct_entry f 3) a t here has_table;
      },
    )

later_slot :
    (n k va : ℕ)
    → va + (k + 1 + n) * 4096 ≤ 2 ^ 32
    → in_block (va + (k + 1) * 4096) n (slot_of kernel va) ≡ false
later_slot zero k va fits = refl
later_slot (suc n) k va fits =
    let rest : in_block (va + (k + 1) * 4096 + 4096) n (slot_of kernel va) ≡ false =
      ap (λ b. in_block b n (slot_of kernel va)) (omega arith)
      ∙ later_slot n (k + 1) va (omega arith) in
    let apart : same_slot (slot_of kernel va) (slot_of kernel (va + (k + 1) * 4096)) ≡ false =
      ground (arith, fits) in
    rw apart rest

-- The pages are mapped to the first free frames, no other entry changes, and the counts are right.
pub record Filled (pinned : ℕ → ℕ) (ss : List Slot) (va : ℕ) (fs rest : List ℕ) (m j : Vm)
    : Type 0 where
  pub ready : Ready pinned ss j
  pub left : j.free_frame_list ≡ rest
  pub pages : MapsTo j va fs
  pub others :
      (r : Slot)
      → in_block va (length fs) r ≡ false
      → entry_at j.directories r ≡ entry_at m.directories r

-- The pages from `va` on can be mapped.
pub record Room (ss : List Slot) (va n : ℕ) (m : Vm) : Type 0 where
  pub listed : (q : ℕ) → q < n → Listed ss (slot_of kernel (va + q * 4096))
  pub tables : (q : ℕ) → q < n → HasTable m (va + q * 4096)
  pub empty : (q : ℕ) → q < n → entry_at m.directories (slot_of kernel (va + q * 4096)) ≡ 0

Room-later :
    (ss : List Slot) (va n f : ℕ) (rest : List ℕ) (m j : Vm) (pinned : ℕ → ℕ)
    → One pinned ss va f rest m j
    → Room ss va (suc n) m
    → va + (n + 1) * 4096 ≤ 2 ^ 32
    → Room ss (va + 4096) n j
Room-later ss va n f rest m j pinned one room fits = record {
  listed = λ q lt.
      subst (λ a. Listed ss (slot_of kernel a)) (omega arith) (room.listed (q + 1) (omega arith));
  tables = λ q lt.
      one.tables (va + 4096 + q * 4096)
        (subst (HasTable m) (omega arith) (room.tables (q + 1) (omega arith)));
  empty = λ q lt.
      let later = slot_of kernel (va + 4096 + q * 4096) in
      let apart : same_slot later (slot_of kernel va) ≡ false = ground (arith, fits, lt) in
      one.entries later
      ∙ ap (λ b. if b then construct_entry f 3 else entry_at m.directories later) apart
      ∙ ap (λ a. entry_at m.directories (slot_of kernel a)) (omega arith)
      ∙ room.empty (q + 1) (omega arith);
}

pub map_pages-Filled :
    (pinned : ℕ → ℕ) (ss : List Slot) (new_page : Vm → Option Vm) (fs rest : List ℕ)
    (fuel va last : ℕ) (m : Vm)
    → Ready pinned ss m
    → Room ss va (length fs) m
    → m.free_frame_list ≡ fs ++ rest
    → last + 4096 ≡ va + length fs * 4096
    → va + length fs * 4096 ≤ 2 ^ 32
    → length fs < fuel
    → user_top ≤ va
    → (j : Vm) × (map_pages fuel new_page va last m ≡ some j) × Filled pinned ss va fs rest m j
unfolding map_pages
map_pages-Filled pinned ss new_page fs rest zero va last m ready room free ends fits enough high =
    absurd (omega arith)
map_pages-Filled pinned ss new_page [] rest (suc fuel) va last m ready room free ends fits enough
      high =
    let past : leb va last ≡ false = ground arith in
    (m, rw past refl, record { ready = ready; left = free; pages = tt; others = λ r miss. refl })
map_pages-Filled pinned ss new_page (f ∷ fs) rest (suc fuel) va last m ready room free ends fits
      enough high =
    let n = length fs in
    let m1 = taken f (fs ++ rest) m in
    let j1 = add_mapping kernel f va 3 m1 in
    let at_first : va + 0 * 4096 ≡ va = omega arith in
    let (alloc, map, one) =
      map-One pinned ss new_page va f (fs ++ rest) m ready free
        (subst (λ a. Listed ss (slot_of kernel a)) at_first (room.listed 0 (omega arith)))
        (subst (HasTable m) at_first (room.tables 0 (omega arith)))
        (ap (λ a. entry_at m.directories (slot_of kernel a)) (sym at_first)
          ∙ room.empty 0 (omega arith))
        high in
    let (j, is, more) =
      map_pages-Filled pinned ss new_page fs rest fuel (va + 4096) last j1 one.ready
        (Room-later ss va n f (fs ++ rest) m j1 pinned one room (omega arith)) one.left
        (omega arith) (omega arith) (omega arith) (omega arith) in
    let after_map : Option Vm → Option Vm =
      λ o. elim o [ none ↦ none | some k ↦ map_pages fuel new_page (va + 4096) last k ] in
    let after_alloc : Option (ℕ × Vm) → Option Vm =
      λ o. elim o [ none ↦ none | some (g, k) ↦ after_map (map_frame new_page kernel g va 3 k) ] in
    let inside : leb va last ≡ true = ground arith in
    let here = slot_of kernel va in
    (
      j,
      ap (λ b. if b then after_alloc (allocate_frame m) else some m) inside
          ∙ ap after_alloc alloc
          ∙ ap after_map map
          ∙ is,
      record {
        ready = more.ready;
        left = more.left;
        pages = (
          more.others here
                (ap (λ b. in_block b n here) (omega arith) ∙ later_slot n 0 va (omega arith))
              ∙ one.entries here
              ∙ ap (λ b. if b then construct_entry f 3 else entry_at m.directories here)
                  (same_slot_refl here),
          more.pages,
        );
        others = λ r miss.
            let apart : same_slot r here ≡ false = ground (arith, miss) in
            let beyond : in_block (va + 4096) n r ≡ false = ground (arith, miss) in
            more.others r beyond
            ∙ one.entries r
            ∙ ap (λ b. if b then construct_entry f 3 else entry_at m.directories r) apart;
      },
    )
