-- ===== src/UserPages.antt =====
-- kern/memory_manager.c: `allocateMem` and `freeMem`, which the system calls of the user heap end in. They
-- work on the page file, the working set and the page tables of an environment.
pub mod Allocate
pub mod Residents
pub mod Gone
pub mod Tables
pub mod Release
mod Tests
use fos_kernel.Prelude.{
  ℕ, zero, suc, ◌+◌, ◌-◌, ◌*◌, ◌/◌, ◌%◌, ◌^◌, Bool, true, false, Option, none, some, ◌==◌,
  if◌then◌else◌,
}
use fos_kernel.Frames.{
  Vm, pdx, set_table, set_references, free_frame, to_frame_info, unmap_frame, get_page_table,
}
use fos_kernel.WorkingSet.{Ws, page_unit, ws_get_virtual_address, ws_clear_entry}
use fos_kernel.PageFile.{
  PageFile, Code, Run, returns, ◌>>=◌, pf_add_empty_env_page, pf_remove_env_page,
}

abbrev pub roundup : ℕ → ℕ
roundup a = let b = (a + 4095) % 2 ^ 32 in b - b % 4096

-- The loop of `allocateMem` from the page `i` on, with `n` rounds to go. What `pf_add_empty_env_page`
-- returns is not looked at.
unfoldable pub allocate_pages : ℕ → ℕ → ℕ → PageFile → Run PageFile
allocate_pages zero e i s = returns s
allocate_pages (suc n) e i s =
    pf_add_empty_env_page e i true s >>= λ r. allocate_pages n e (i + 4096) r.1

-- As many rounds as the loop has, from `va` up to its bound.
abbrev pub rounds : ℕ → ℕ → ℕ
rounds va size = ((va + roundup size) % 2 ^ 32 - va + 4095) / 4096

unfoldable pub allocate_mem : ℕ → ℕ → ℕ → PageFile → Run PageFile
allocate_mem e va size s = allocate_pages (rounds va size) e va s

-- What `freeMem` works on. `table_frame` is the frame in which a page table stands, which
-- `kheap_physical_address` gives for its address.
pub record UserPages : Type 0 where
  pub vm : Vm
  pub page_file : PageFile
  pub ws : Ws
  pub table_frame : ℕ → ℕ → ℕ

-- An entry by its page: it is cleared, or the loop goes on.
abbrev pub at_entry : Option ℕ → ℕ → Option Ws → Option Ws → Option Ws
at_entry none va clear rest = none
at_entry (some a) va clear rest = if va == a then clear else rest

-- The loop over the working set from entry `j` on, with `left` entries to go. A failed assertion is none.
unfoldable pub remove_resident : ℕ → ℕ → ℕ → Ws → Option Ws
remove_resident zero j va w = some w
remove_resident (suc left) j va w =
    let rest = remove_resident left (j + 1) va w in
    at_entry (ws_get_virtual_address page_unit j w) va (ws_clear_entry j w) rest

-- The loop that looks for an entry with PERM_PRESENT, from entry `j` on, with `left` to go.
unfoldable pub any_present : ℕ → ℕ → (ℕ → ℕ) → Bool
any_present zero j t = false
any_present (suc left) j t =
    let rest = any_present left (j + 1) t in if t j % 2 == 1 then true else rest

-- The frame of the table is freed, whatever its references, and the directory's entry is set to 0.
abbrev pub drop_table : Option ℕ → ℕ → ℕ → Vm → Option Vm
drop_table none e va m = none
drop_table (some f) e va m = some (set_table e (pdx va) none (free_frame f (set_references f 0 m)))

abbrev pub drop_empty : Option (ℕ → ℕ) → ℕ → ℕ → ℕ → Vm → Option Vm
drop_empty none f e va m = some m
drop_empty (some t) f e va m =
    if any_present 1024 0 t then some m else drop_table (to_frame_info (f * 4096) m) e va m

abbrev pub with_vm : PageFile → Ws → UserPages → Option Vm → Option UserPages
with_vm p w s none = none
with_vm p w s (some m) = some (record s { vm = m; page_file = p; ws = w })

-- The page of `va` leaves the page tables, and its table goes if it is empty.
unfoldable pub release_page : ℕ → ℕ → ℕ → Vm → Option Vm
release_page f e va m = elim (unmap_frame e va m) [
  | none ↦ none
  | some m1 ↦ drop_empty (get_page_table e va m1) f e va m1
]

-- The body of the loop of `freeMem`.
unfoldable pub free_page : ℕ → ℕ → UserPages → Option UserPages
free_page e va s = elim (remove_resident s.ws.max_size 0 va s.ws) [
  | none ↦ none
  | some w ↦
      with_vm (pf_remove_env_page e va s.page_file) w s
        (release_page (s.table_frame e (pdx va)) e va s.vm)
]

unfoldable pub free_pages : ℕ → ℕ → ℕ → UserPages → Option UserPages
free_pages zero e va s = some s
free_pages (suc n) e va s = elim (free_page e va s) [
  | none ↦ none
  | some j ↦ free_pages n e ((va + 4096) % 2 ^ 32) j
]

-- `i` runs over the multiples of the page size below `size`.
unfoldable pub free_mem : ℕ → ℕ → ℕ → UserPages → Option UserPages
free_mem e va size s = free_pages ((size + 4095) / 4096) e va s
