-- ===== src/PageFile/Free.antt =====
-- kern/file_manager.c: what removes an environment from the page file, the counters, and the page tables
-- that are kept on disk.
use fos_kernel.Prelude.{
  ℕ, zero, suc, ◌+◌, Bool, true, false, Option, none, some, length, leb, ◌==◌, if◌then◌else◌,
}
use fos_kernel.Frames.{pdx}
use fos_kernel.PageFile.{
  PageFile, Run, returns, panics, faults, Code, no_page_file_space, table_not_exist_in_pf, Table,
  Directory, Page, kernel_base, user_tables, free_disk_frame, write_at, allocate_disk_frame,
  read_disk_page, write_disk_page, set_pgdir, set_tabledir, put, put_table, kmalloc_page, ◌>>=◌,
}

abbrev pub entry_of : Option Table → ℕ → ℕ
entry_of none i = 0
entry_of (some t) i = t i

abbrev pub table_of : Option Directory → ℕ → Option Table
table_of none d = none
table_of (some dir) d = dir d

-- `pt[i]` of the environment's table of index `d`
abbrev pub entry : ℕ → ℕ → ℕ → PageFile → ℕ
entry e d i s = entry_of (table_of (s.disk_env_pgdir e) d) i

-- The inner loop of `pf_free_env`, from entry `i` on with `n` entries left.
unfoldable pub free_entries : ℕ → ℕ → ℕ → ℕ → PageFile → PageFile
free_entries zero i e d s = s
free_entries (suc n) i e d s =
    free_entries n (i + 1) e d (free_disk_frame (entry e d i s) (write_at e d i 0 s))

abbrev pub drop_in : Option Directory → ℕ → ℕ → PageFile → PageFile
drop_in none e d s = s
drop_in (some dir) e d s = set_pgdir e (some (put_table dir d none)) s

-- The entries of a table are freed, then the table.
unfoldable pub drop_disk_table : ℕ → ℕ → PageFile → PageFile
drop_disk_table e d s = let j = free_entries 1024 0 e d s in drop_in (j.disk_env_pgdir e) e d j

-- The body of the outer loop. A table that `kheap_virtual_address` does not find is written through a null
-- pointer.
unfoldable pub free_table : Option Table → ℕ → ℕ → PageFile → Run PageFile
free_table none e d s = returns s
free_table (some t) e d s = if s.lost e d then faults else returns (drop_disk_table e d s)

-- The outer loop, from the table `d` on with `n` left.
unfoldable pub free_tables : ℕ → ℕ → ℕ → PageFile → Run PageFile
free_tables zero d e s = returns s
free_tables (suc n) d e s =
    free_table (table_of (s.disk_env_pgdir e) d) e d s >>= λ j. free_tables n (d + 1) e j

-- The loop of `__pf_remove_env_all_tables`.
unfoldable pub remove_tables : ℕ → ℕ → ℕ → PageFile → PageFile
remove_tables zero d e s = s
remove_tables (suc n) d e s =
    let t = s.disk_env_tabledir e in
    remove_tables n (d + 1) e
      (free_disk_frame (entry_of t d) (set_tabledir e (some (put (entry_of t) d 0)) s))

abbrev pub remove_all_of : Option Table → ℕ → PageFile → PageFile
remove_all_of none e s = s
remove_all_of (some t) e s = remove_tables user_tables 0 e s

unfoldable pub pf_remove_env_all_tables : ℕ → PageFile → PageFile
pf_remove_env_all_tables e s = remove_all_of (s.disk_env_tabledir e) e s

abbrev pub free_tabledir : Option Table → ℕ → PageFile → PageFile
free_tabledir none e s = s
free_tabledir (some t) e s = set_tabledir e none (pf_remove_env_all_tables e s)

abbrev pub free_directory : ℕ → PageFile → PageFile
free_directory e s = set_pgdir e none s

abbrev pub free_in : Option Directory → ℕ → PageFile → Run PageFile
free_in none e s = faults
free_in (some d) e s = free_tables user_tables 0 e s >>= λ m.
    let j = free_directory e m in returns (free_tabledir (j.disk_env_tabledir e) e j)

-- Without a disk page directory, `pf_free_env` reads through a null pointer.
unfoldable pub pf_free_env : ℕ → PageFile → Run PageFile
pf_free_env e s = free_in (s.disk_env_pgdir e) e s

-- The entries of a table, from `i` on, that are not 0.
unfoldable pub count_entries : ℕ → ℕ → Table → ℕ
count_entries zero i t = 0
count_entries (suc n) i t = (if t i == 0 then 0 else 1) + count_entries n (i + 1) t

abbrev pub count_table : Option Table → ℕ
count_table none = 0
count_table (some t) = count_entries 1024 0 t

unfoldable pub count_tables : ℕ → ℕ → Directory → ℕ
count_tables zero d dir = 0
count_tables (suc n) d dir = count_table (dir d) + count_tables n (d + 1) dir

abbrev pub count_in : Option Directory → Run ℕ
count_in none = faults
count_in (some dir) = returns (count_tables user_tables 0 dir)

unfoldable pub pf_calculate_allocated_pages : ℕ → PageFile → Run ℕ
pf_calculate_allocated_pages e s = count_in (s.disk_env_pgdir e)

unfoldable pub pf_calculate_free_frames : PageFile → ℕ
pf_calculate_free_frames s = length s.disk_free_frame_list

abbrev pub new_tabledir : ℕ → Bool × PageFile → PageFile
new_tabledir e (false, s) = s
new_tabledir e (true, s) = set_tabledir e (some (λ i. 0)) s

abbrev pub tabledir_from : Option Table → ℕ → PageFile → Run PageFile
tabledir_from (some t) e s = returns s
tabledir_from none e s = kmalloc_page s >>= λ r. returns (new_tabledir e r)

-- `get_disk_table_directory` into the environment's own field.
unfoldable pub get_disk_table_directory : ℕ → PageFile → Run PageFile
get_disk_table_directory e s = tabledir_from (s.disk_env_tabledir e) e s

abbrev pub store_table :
    Page → ℕ → ℕ → Table → Option (ℕ × PageFile) → PageFile → Run (Code × PageFile)
store_table src e d t none s = returns (no_page_file_space, s)
store_table src e d t (some (f, j)) s = write_disk_page f src (set_tabledir e (some (put t d f)) j)

abbrev pub write_env_table_in : Option Table → ℕ → ℕ → Page → PageFile → Run (Code × PageFile)
write_env_table_in none e d src s = faults
write_env_table_in (some t) e d src s =
    if t d == 0
    then store_table src e d t (allocate_disk_frame s) s
    else write_disk_page (t d) src s

unfoldable pub pf_write_env_table : ℕ → ℕ → Page → PageFile → Run (Code × PageFile)
pf_write_env_table e va src s = get_disk_table_directory e s >>= λ j.
    if leb kernel_base va
    then panics
    else write_env_table_in (j.disk_env_tabledir e) e (pdx va) src j

abbrev pub read_env_table_in : Option Table → ℕ → PageFile → Code × Page
read_env_table_in none d s = (table_not_exist_in_pf, λ i. 0)
read_env_table_in (some t) d s =
    if t d == 0 then (table_not_exist_in_pf, λ i. 0) else read_disk_page (t d) s

unfoldable pub pf_read_env_table : ℕ → ℕ → PageFile → Code × Page
pf_read_env_table e va s = read_env_table_in (s.disk_env_tabledir e) (pdx va) s

abbrev pub remove_table_in : Option Table → ℕ → ℕ → PageFile → PageFile
remove_table_in none e d s = s
remove_table_in (some t) e d s = free_disk_frame (t d) (set_tabledir e (some (put t d 0)) s)

unfoldable pub pf_remove_env_table : ℕ → ℕ → PageFile → PageFile
pf_remove_env_table e va s = remove_table_in (s.disk_env_tabledir e) e (pdx va) s
