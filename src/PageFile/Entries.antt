-- ===== src/PageFile/Entries.antt =====
-- kern/file_manager.c: what a write of one entry changes, and what the sectors of a frame hold.
use fos_kernel.Prelude.{
  ℕ, ◌+◌, ◌-◌, ◌*◌, ◌/◌, ◌%◌, ◌<◌, ◌≡◌, refl, ap, ◌∙◌, ◌≢◌, inl, inr, true, false, ◌&&◌, Option,
  some, ◌==◌, ltb, leb, if◌then◌else◌, arith, Bool-cases,
}
use fos_kernel.PageFile.{
  PageFile, Page, Table, Directory, put, put_table, set_pgdir, write_table, write_in, write_at,
  start_sector, write_sectors, pages_per_file,
}
use fos_kernel.PageFile.Free.{entry_of, table_of}
use fos_kernel.PageFile.Inv.{Slot, page, table, same, dfn}

-- The parts that stay as they are when only entries are written.
pub record Kept (s j : PageFile) : Type 0 where
  pub free : j.disk_free_frame_list ≡ s.disk_free_frame_list
  pub tables : j.disk_env_tabledir ≡ s.disk_env_tabledir
  pub disk : j.disk ≡ s.disk
  pub bad : j.bad_sector ≡ s.bad_sector
  pub lost : j.lost ≡ s.lost

pub Kept-refl : (s : PageFile) → Kept s s
Kept-refl s = record { free = refl; tables = refl; disk = refl; bad = refl; lost = refl }

-- An environment's directory is replaced.
abbrev pub dirs : (ℕ → Option Directory) → ℕ → Option Directory → ℕ → Option Directory
dirs ds e d n = if n == e then d else ds n

abbrev pub look : (ℕ → Option Directory) → ℕ → ℕ → ℕ → ℕ
look ds e d i = entry_of (table_of (ds e) d) i

pub look-put :
    (ds : ℕ → Option Directory) (e d i v : ℕ) (dir : Directory) (t : Table)
    → ds e ≡ some dir
    → dir d ≡ some t
    → (e1 d1 i1 : ℕ)
    → look (dirs ds e (some (put_table dir d (some (put t i v))))) e1 d1 i1
      ≡ (if same (page e1 d1 i1) (page e d i) then v else look ds e1 d1 i1)
look-put ds e d i v dir t here there e1 d1 i1 = elim (Bool-cases (e1 == e)) [
  | inl he ↦
      let ee : e1 ≡ e = ground arith in
      let old : look ds e1 d1 i1 ≡ entry_of (dir d1) i1 =
        ap (λ n. look ds n d1 i1) ee ∙ ap (λ o. entry_of (table_of o d1) i1) here in
      ap
        (λ b.
          entry_of (table_of (if b then some (put_table dir d (some (put t i v))) else ds e1) d1)
            i1)
        he
      ∙ elim (Bool-cases (d1 == d)) [
        | inl hd ↦
            let dd : d1 ≡ d = ground arith in
            let deep : look ds e1 d1 i1 ≡ t i1 =
              old ∙ ap (λ n. entry_of (dir n) i1) dd ∙ ap (λ o. entry_of o i1) there in
            ap (λ b. entry_of (if b then some (put t i v) else dir d1) i1) hd
            ∙ ground (arith, deep, he, hd)
        | inr hd ↦
            ap (λ b. entry_of (if b then some (put t i v) else dir d1) i1) hd
            ∙ ground (arith, old, hd)
      ]
  | inr he ↦
      ap
        (λ b.
          entry_of (table_of (if b then some (put_table dir d (some (put t i v))) else ds e1) d1)
            i1)
        he
      ∙ ground (arith, he)
]

module _ (e d i v : ℕ) (s : PageFile) (dir : Directory) (t : Table)
    (here : s.disk_env_pgdir e ≡ some dir) (there : dir d ≡ some t) where
  pub write_at-is : write_at e d i v s ≡ set_pgdir e (some (put_table dir d (some (put t i v)))) s
  unfolding write_at
  write_at-is = ap (λ o. write_in o e d i v s) here ∙ ap (λ o. write_table o e d i v dir s) there

  -- A write changes one entry.
  pub dfn-write_at :
      (a : Slot) → dfn (write_at e d i v s) a ≡ (if same a (page e d i) then v else dfn s a)
  dfn-write_at (page e1 d1 i1) =
      ap (λ m. dfn m (page e1 d1 i1)) write_at-is
      ∙ look-put s.disk_env_pgdir e d i v dir t here there e1 d1 i1
  dfn-write_at (table e1 d1) = ap (λ m. dfn m (table e1 d1)) write_at-is

  pub Kept-write_at : Kept s (write_at e d i v s)
  Kept-write_at = record {
    free = ap (λ m. m.disk_free_frame_list) write_at-is;
    tables = ap (λ m. m.disk_env_tabledir) write_at-is;
    disk = ap (λ m. m.disk) write_at-is;
    bad = ap (λ m. m.bad_sector) write_at-is;
    lost = ap (λ m. m.lost) write_at-is;
  }

-- The bytes of a disk frame.
abbrev pub content : (ℕ → ℕ → ℕ) → ℕ → ℕ → ℕ
content disk f i = disk (start_sector f + i / 512) (i % 512)

-- The frame that was written holds the page, and the sectors of no other frame are touched.
pub content-write_self :
    (f : ℕ) (p : Page) (disk : ℕ → ℕ → ℕ) (i : ℕ)
    → f < pages_per_file
    → i < 4096
    → content (write_sectors (start_sector f) p disk) f i ≡ p i
content-write_self f p disk i real lt =
    let inside : (leb (start_sector f) (start_sector f + i / 512)
          && ltb (start_sector f + i / 512) (start_sector f + 8))
        ≡ true =
      ground arith in
    let offset : (start_sector f + i / 512 - start_sector f) * 512 + i % 512 ≡ i = omega arith in
    ap
      (λ b.
        if b
        then p ((start_sector f + i / 512 - start_sector f) * 512 + i % 512)
        else disk (start_sector f + i / 512) (i % 512))
      inside
    ∙ ap p offset

pub content-write_other :
    (f g : ℕ) (p : Page) (disk : ℕ → ℕ → ℕ) (i : ℕ)
    → f < pages_per_file
    → g < pages_per_file
    → g ≢ f
    → i < 4096
    → content (write_sectors (start_sector f) p disk) g i ≡ content disk g i
content-write_other f g p disk i real_f real_g ne lt =
    let apart : (leb (start_sector f) (start_sector g + i / 512)
          && ltb (start_sector g + i / 512) (start_sector f + 8))
        ≡ false =
      ground arith in
    ap
      (λ b.
        if b
        then p ((start_sector g + i / 512 - start_sector f) * 512 + i % 512)
        else disk (start_sector g + i / 512) (i % 512))
      apart
