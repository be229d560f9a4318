-- ===== src/UserPages/Release.antt =====
-- kern/memory_manager.c: what `freeMem` releases.
use fos_kernel.Prelude.{
  true, not, ltb, leb, ◌&&◌, if◌then◌else◌, ℕ, zero, suc, ◌+◌, ◌*◌, ◌/◌, ◌%◌, ◌^◌, ◌<◌, ◌≡◌, refl,
  sym, ap, ◌∙◌, inl, Bool, false, ◌||◌, Option, none, some, ◌==◌, ==-ne, arith, subst,
}
use fos_kernel.Frames.{user_top, pdx}
use fos_kernel.Frames.Entries.{Slot, slot_of, same_slot}
use fos_kernel.WorkingSet.{Ws}
use fos_kernel.PageFile.{pf_remove_env_page}
use fos_kernel.PageFile.Inv.{same, Inv}
use fos_kernel.PageFile.Grant.{page_of}
use fos_kernel.PageFile.Clear.{Cleared, Cleared-then, Cleared-none}
use fos_kernel.PageFile.FreeEnv.{pf_remove_env_page_lem, lost-pf_remove_env_page}
use fos_kernel.UserPages.{UserPages, with_vm, release_page, free_page, free_pages, free_mem}
use fos_kernel.UserPages.Allocate.{in_pages}
use fos_kernel.UserPages.Residents.{Single, Left, Left-Single, Left-then, remove_resident-Left}
use fos_kernel.UserPages.Gone.{Valid, Gone, Gone-Valid, Gone-then}
use fos_kernel.UserPages.Tables.{release_page-Gone}

-- The address, or the slot, is that of one of the `n` pages from `va` on.
abbrev pub in_range : ℕ → ℕ → ℕ → Bool
in_range va zero a = false
in_range va (suc n) a = (a == va) || in_range (va + 4096) n a

abbrev pub in_slots : ℕ → ℕ → ℕ → Slot → Bool
in_slots e va zero r = false
in_slots e va (suc n) r = same_slot r (slot_of e va) || in_slots e (va + 4096) n r

-- The page file is sound, no page is in the working set twice, every entry and page table of the
-- environment is in a frame of the machine, and `kheap_virtual_address` finds the environment's page
-- tables, those on disk as well.
pub record Sound (e : ℕ) (s : UserPages) : Type 0 where
  pub page_file : Inv s.page_file
  pub single : Single s.ws
  pub valid : Valid s.vm
  pub table_frames : (d : ℕ) → s.table_frame e d < s.vm.number_of_frames
  pub found : (d : ℕ) → s.vm.lost e d ≡ false
  pub found_on_disk : (d : ℕ) → s.page_file.lost e d ≡ false

-- What is released of the page file, of the working set and of the page tables.
pub record Released (e va n : ℕ) (s j : UserPages) : Type 0 where
  pub disk : Cleared (in_pages e va n) s.page_file j.page_file
  pub residents : Left (in_range va n) s.ws j.ws
  pub tables : Gone (in_slots e va n) s.vm j.vm
  pub sound : Sound e j

nothing : (e va : ℕ) (s : UserPages) → Sound e s → Released e va 0 s s
nothing e va s sound = record {
  disk = Cleared-none s.page_file s.page_file (λ a. refl) refl refl refl sound.page_file;
  residents = record { size = refl; out = λ i lt. refl; kept = λ i. inl refl };
  tables = record {
    machine = refl;
    lost_as = refl;
    cleared = λ r no_slot. ground arith;
    kept = λ r lt. inl refl;
    zero_or_kept = λ r. inl refl;
  };
  sound = sound;
}

-- One page.
pub record One (e va : ℕ) (s j : UserPages) : Type 0 where
  pub disk : Cleared (λ a. same a (page_of e va)) s.page_file j.page_file
  pub residents : Left (λ a. a == va) s.ws j.ws
  pub tables : Gone (λ r. same_slot r (slot_of e va)) s.vm j.vm
  pub sound : Sound e j

free_page-One :
    (e va : ℕ) (s : UserPages)
    → Sound e s
    → 0 < va
    → (j : UserPages) × (free_page e va s ≡ some j) × One e va s j
unfolding free_page
free_page-One e va s sound positive =
    let p = pf_remove_env_page e va s.page_file in
    let c =
      pf_remove_env_page_lem s.page_file e va sound.page_file
        (ap (λ b. ltb va user_top && b) (sound.found_on_disk (pdx va)) ∙ never (ltb va user_top)) in
    let (w, is_w, left) = remove_resident-Left va s.ws positive sound.single in
    let f = s.table_frame e (pdx va) in
    let (m, is_m, gone) = release_page-Gone f e va s.vm sound.valid (sound.table_frames (pdx va)) (
      ap (λ b. if leb user_top va then true else not b) (sound.found (pdx va))
      ∙ always (leb user_top va)) in
    let go : Option Ws → Option UserPages =
      λ o. elim o [ none ↦ none | some k ↦ with_vm p k s (release_page f e va s.vm) ] in
    (
      record s { vm = m; page_file = p; ws = w },
      ap go is_w ∙ ap (with_vm p w s) is_m,
      record {
        disk = c;
        residents = left;
        tables = gone;
        sound = record {
          page_file = c.sound;
          single = Left-Single (λ a. a == va) s.ws w left sound.single;
          valid = Gone-Valid (λ r. same_slot r (slot_of e va)) s.vm m gone sound.valid;
          table_frames = λ d. omega (arith, sound.table_frames d, gone.machine);
          found = λ d. ap (λ l. l e d) gone.lost_as ∙ sound.found d;
          found_on_disk = λ d.
              ap (λ l. l e d) (lost-pf_remove_env_page e va s.page_file) ∙ sound.found_on_disk d;
        };
      },
    )
  where
    never : (b : Bool) → (b && false) ≡ false
    never true = refl
    never false = refl

    always : (b : Bool) → (if b then true else true) ≡ true
    always true = refl
    always false = refl

pub free_pages-Released :
    (n e va : ℕ) (s : UserPages)
    → Sound e s
    → 0 < va
    → va + n * 4096 < 2 ^ 32
    → (j : UserPages) × (free_pages n e va s ≡ some j) × Released e va n s j
unfolding free_pages
free_pages-Released zero e va s sound positive fits = (s, refl, nothing e va s sound)
free_pages-Released (suc n) e va s sound positive fits =
    let (k, is, one) = free_page-One e va s sound positive in
    let (j, then_is, rest) =
      free_pages-Released n e (va + 4096) k one.sound (omega arith) (omega arith) in
    let go : Option UserPages → Option UserPages =
      λ o. elim o [ none ↦ none | some i ↦ free_pages n e ((va + 4096) % 2 ^ 32) i ] in
    let no_wrap : (va + 4096) % 2 ^ 32 ≡ va + 4096 = omega arith in
    (
      j,
      ap go is ∙ ap (λ a. free_pages n e a k) no_wrap ∙ then_is,
      record {
        disk =
            Cleared-then (λ a. same a (page_of e va)) (in_pages e (va + 4096) n) s.page_file
              k.page_file j.page_file one.disk rest.disk;
        residents =
            Left-then (λ a. a == va) (in_range (va + 4096) n) s.ws k.ws j.ws
              (==-ne 0 va (λ z. omega (arith, z))) one.residents rest.residents;
        tables =
            Gone-then (λ r. same_slot r (slot_of e va)) (in_slots e (va + 4096) n) s.vm k.vm j.vm
              one.tables rest.tables;
        sound = rest.sound;
      },
    )

-- `freeMem` of `n` pages, from the address of a page above 0 on, which end below 4 GB, where the page file is
-- sound, no page is in the working set twice, all frames are the machine's and
-- `kheap_virtual_address` finds the page tables of the environment. It returns without a
-- panic: the pages are in neither the page file nor the working set, and their entries in the page
-- tables are 0; their disk frames are free; all other pages and tables keep their disk frame, all
-- others in the working set their entry, and all present entries of the page tables their frame.
pub free_mem-Released :
    (n e va size : ℕ) (s : UserPages)
    → Sound e s
    → 0 < va
    → va % 4096 ≡ 0
    → va + n * 4096 < 2 ^ 32
    → (size + 4095) / 4096 ≡ n
    → (j : UserPages) × (free_mem e va size s ≡ some j) × Released e va n s j
unfolding free_mem
free_mem-Released n e va size s sound positive aligned fits rounds =
    subst (λ k. (j : UserPages) × (free_pages k e va s ≡ some j) × Released e va n s j) (sym rounds)
      (free_pages-Released n e va s sound positive fits)
