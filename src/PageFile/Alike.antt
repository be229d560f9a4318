-- ===== src/PageFile/Alike.antt =====
-- kern/file_manager.c: the directory and the table that `get_disk_page_directory` and `get_disk_page_table` give.
use fos_kernel.Prelude.{
  Bool, List, ℕ, ◌≡◌, refl, sym, ap, ◌∙◌, inl, inr, Option, none, some, ◌==◌, if◌then◌else◌, arith,
  Bool-cases,
}
use fos_kernel.PageFile.{PageFile, Kmalloc, Directory, put_table, set_pgdir, set_found}
use fos_kernel.PageFile.Free.{entry_of, table_of}
use fos_kernel.PageFile.Inv.{Slot, page, table, dfn}
use fos_kernel.PageFile.Entries.{dirs, look}

-- No frame has changed hands.
pub record Alike (s j : PageFile) : Type 0 where
  pub frames : (a : Slot) → dfn j a ≡ dfn s a
  pub free : j.disk_free_frame_list ≡ s.disk_free_frame_list
  pub disk : j.disk ≡ s.disk
  pub bad : j.bad_sector ≡ s.bad_sector

pub Alike-refl : (s : PageFile) → Alike s s
Alike-refl s = record { frames = λ a. refl; free = refl; disk = refl; bad = refl }

pub look-same :
    (ds : ℕ → Option Directory) (e : ℕ) (new : Option Directory)
    → ((d i : ℕ) → entry_of (table_of new d) i ≡ look ds e d i)
    → (e1 d i : ℕ) → look (dirs ds e new) e1 d i ≡ look ds e1 d i
look-same ds e new h e1 d i = elim (Bool-cases (e1 == e)) [
  | inl hit ↦
      let ee : e1 ≡ e = ground arith in
      ap (λ b. entry_of (table_of (if b then new else ds e1) d) i) hit
      ∙ h d i
      ∙ ap (λ n. look ds n d i) (sym ee)
  | inr miss ↦ ap (λ b. entry_of (table_of (if b then new else ds e1) d) i) miss
]

pub frames-same :
    (s : PageFile) (e : ℕ) (new : Option Directory)
    → ((d i : ℕ) → entry_of (table_of new d) i ≡ look s.disk_env_pgdir e d i)
    → (a : Slot) → dfn (set_pgdir e new s) a ≡ dfn s a
frames-same s e new h (page e1 d i) = look-same s.disk_env_pgdir e new h e1 d i
frames-same s e new h (table e1 d) = refl

pub dirs_self : (ds : ℕ → Option Directory) (e : ℕ) (new : Option Directory) → dirs ds e new e ≡ new
dirs_self ds e new = ground arith

-- A new table is empty.
pub new-zero :
    (dir : Directory) (d : ℕ)
    → dir d ≡ none
    → (d1 i : ℕ) → entry_of (put_table dir d (some (λ k. 0)) d1) i ≡ entry_of (dir d1) i
new-zero dir d missing d1 i = elim (Bool-cases (d1 == d)) [
  | inl hit ↦
      let dd : d1 ≡ d = ground arith in
      ap (λ b. entry_of (if b then some (λ k. 0) else dir d1) i) hit
      ∙ sym (ap (λ n. entry_of (dir n) i) dd ∙ ap (λ o. entry_of o i) missing)
  | inr miss ↦ ap (λ b. entry_of (if b then some (λ k. 0) else dir d1) i) miss
]

-- What `get_disk_page_directory` and `get_disk_page_table` leave when `kmalloc` has given a page.
abbrev pub with_directory : ℕ → List Kmalloc → (ℕ → ℕ → Bool) → PageFile → PageFile
with_directory e rest l s = set_pgdir e (some (λ i. none)) (record s { kmallocs = rest; lost = l })

pub with_directory-Alike :
    (e : ℕ) (rest : List Kmalloc) (l : ℕ → ℕ → Bool) (s : PageFile)
    → s.disk_env_pgdir e ≡ none
    → Alike s (with_directory e rest l s)
with_directory-Alike e rest l s missing = record {
  frames =
      frames-same (record s { kmallocs = rest; lost = l }) e (some (λ i. none))
        (λ d i. sym (ap (λ o. entry_of (table_of o d) i) missing));
  free = refl;
  disk = refl;
  bad = refl;
}

abbrev pub with_table : ℕ → ℕ → Directory → List Kmalloc → (ℕ → ℕ → Bool) → PageFile → PageFile
with_table e d dir rest l m =
    set_pgdir e (some (put_table dir d (some (λ k. 0))))
      (set_found e d (record m { kmallocs = rest; lost = l }))

pub with_table-Alike :
    (e d : ℕ) (dir : Directory) (rest : List Kmalloc) (l : ℕ → ℕ → Bool) (m : PageFile)
    → m.disk_env_pgdir e ≡ some dir
    → dir d ≡ none
    → Alike m (with_table e d dir rest l m)
with_table-Alike e d dir rest l m here missing = record {
  frames =
      frames-same (set_found e d (record m { kmallocs = rest; lost = l })) e
        (some (put_table dir d (some (λ k. 0))))
        (λ d1 i. new-zero dir d missing d1 i ∙ sym (ap (λ o. entry_of (table_of o d1) i) here));
  free = refl;
  disk = refl;
  bad = refl;
}
