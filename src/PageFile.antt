-- ===== src/PageFile.antt =====
-- kern/file_manager.c: the page file, which keeps the pages and the page tables of environments on disk.
-- A disk frame is its number, an environment its place in `envs`. A disk page table is its entries,
-- and a directory gives the tables by `PDX`. Of the kernel heap, in which the tables stand, there is
-- what its functions answer: the outcomes of the calls of `kmalloc` to come, and for which tables
-- `kheap_virtual_address` gives 0, since it looks below `startAdd` only.
pub mod Free
pub mod Inv
pub mod Entries
pub mod Alike
pub mod Grant
pub mod FrameFor
pub mod Add
pub mod Clear
pub mod Remove
pub mod Loops
pub mod FreeEnv
pub mod Freed
pub mod Boot
mod Tests
use fos_kernel.Prelude.{
  ℕ, zero, suc, ◌+◌, ◌-◌, ◌*◌, ◌/◌, ◌%◌, ◌^◌, Bool, true, false, ◌&&◌, Option, none, some, List, [],
  ◌∷◌, ltb, leb, ◌==◌, if◌then◌else◌, length,
}
use fos_kernel.Frames.{user_top, pdx, ptx}

-- 0 and the error codes of inc/error.h that these functions return, `disk_error` for those of `ide_read`.
pub data Code : Type 0 where
  success no_page_file_space page_not_exist_in_pf table_not_exist_in_pf disk_error : Code

-- How a call of `kmalloc` for one page ends: it gives a page, behind which `kheap_virtual_address` has the
-- tables that it does not find, it gives NULL, or it does not return: `allocate_frame` panics without
-- a free frame, and the search for pages can be endless.
pub data Kmalloc : Type 0 where
  gives : (ℕ → ℕ → Bool) → Kmalloc
  null stops : Kmalloc

-- A function returns, stops the kernel by `panic` or in a call of `kmalloc` that does not return, or
-- faults at a null pointer.
pub data Run {ℓ} (A : Type ℓ) : Type ℓ where
  returns : A → Run A
  panics faults : Run A

infixl 5 ◌>>=◌
abbrev pub ◌>>=◌ {ℓ κ} : {A : Type ℓ} {B : Type κ} → Run A → (A → Run B) → Run B
returns a >>= f = f a
panics >>= f = panics
faults >>= f = faults

abbrev pub Table : Type 0
Table = ℕ → ℕ

abbrev pub Directory : Type 0
Directory = ℕ → Option Table

-- The bytes of a page.
abbrev pub Page : Type 0
Page = ℕ → ℕ

pub record PageFile : Type 0 where
  pub disk_free_frame_list : List ℕ
  pub disk_env_pgdir : ℕ → Option Directory
  pub disk_env_tabledir : ℕ → Option Table
  pub disk : ℕ → ℕ → ℕ
  pub bad_sector : ℕ → Bool
  pub kmallocs : List Kmalloc
  pub lost : ℕ → ℕ → Bool

-- `PAGES_PER_FILE` and `PAGE_FILE_START_SECTOR`
abbrev pub pages_per_file : ℕ
pages_per_file = 520 * 2 ^ 20 / 4096

abbrev pub page_file_start_sector : ℕ
page_file_start_sector = 20 * 2 ^ 20 / 512

abbrev pub kernel_base : ℕ
kernel_base = 0xF0000000

-- `PDX(USER_TOP)`
abbrev pub user_tables : ℕ
user_tables = 955

abbrev pub start_sector : ℕ → ℕ
start_sector dfn = (page_file_start_sector + dfn * 8) % 2 ^ 32

-- One of the eight sectors cannot be read or written.
abbrev pub is_bad : ℕ → ℕ → PageFile → Bool
is_bad zero k s = false
is_bad (suc n) k s = if s.bad_sector k then true else is_bad n (k + 1) s

unfoldable pub read_disk_page : ℕ → PageFile → Code × Page
read_disk_page dfn s = (
  if is_bad 8 (start_sector dfn) s then disk_error else success,
  λ i. s.disk (start_sector dfn + i / 512) (i % 512),
)

abbrev pub write_sectors : ℕ → Page → (ℕ → ℕ → ℕ) → ℕ → ℕ → ℕ
write_sectors k p d n i = if leb k n && ltb n (k + 8) then p ((n - k) * 512 + i) else d n i

unfoldable pub write_disk_page : ℕ → Page → PageFile → Run (Code × PageFile)
write_disk_page dfn p s =
    if is_bad 8 (start_sector dfn) s
    then panics
    else returns (success, record s { disk = write_sectors (start_sector dfn) p s.disk })

-- The loop of `initialize_disk_page_file`, from `i` on with `n` frames left.
unfoldable pub insert_frames : ℕ → ℕ → List ℕ → List ℕ
insert_frames zero i l = l
insert_frames (suc n) i l = insert_frames n (i + 1) (i ∷ l)

unfoldable pub initialize_disk_page_file : PageFile → PageFile
initialize_disk_page_file s = record s {
  disk_free_frame_list = insert_frames (pages_per_file - 1) 1 [];
}

abbrev pub take_first : List ℕ → PageFile → Option (ℕ × PageFile)
take_first [] s = none
take_first (f ∷ rest) s = some (f, record s { disk_free_frame_list = rest })

-- `allocate_disk_frame`; none is E_NO_PAGE_FILE_SPACE.
unfoldable pub allocate_disk_frame : PageFile → Option (ℕ × PageFile)
allocate_disk_frame s = take_first s.disk_free_frame_list s

unfoldable pub free_disk_frame : ℕ → PageFile → PageFile
free_disk_frame dfn s =
    if dfn == 0 then s else record s { disk_free_frame_list = dfn ∷ s.disk_free_frame_list }

abbrev pub outcome : List Kmalloc → PageFile → Run (Bool × PageFile)
outcome [] s = panics
outcome (stops ∷ rest) s = panics
outcome (null ∷ rest) s = returns (false, record s { kmallocs = rest })
outcome (gives l ∷ rest) s = returns (true, record s { kmallocs = rest; lost = l })

-- `kmalloc` of one page: whether it gives one. What `kfree` takes back shows in the outcomes to come.
abbrev pub kmalloc_page : PageFile → Run (Bool × PageFile)
kmalloc_page s = outcome s.kmallocs s

abbrev pub set_pgdir : ℕ → Option Directory → PageFile → PageFile
set_pgdir e d s = record s { disk_env_pgdir = λ n. if n == e then d else s.disk_env_pgdir n }

abbrev pub set_tabledir : ℕ → Option Table → PageFile → PageFile
set_tabledir e t s = record s {
  disk_env_tabledir = λ n. if n == e then t else s.disk_env_tabledir n;
}

abbrev pub put : Table → ℕ → ℕ → Table
put t i v j = if j == i then v else t j

abbrev pub put_table : Directory → ℕ → Option Table → Directory
put_table d i t j = if j == i then t else d j

abbrev pub new_directory : ℕ → Bool × PageFile → PageFile
new_directory e (false, s) = s
new_directory e (true, s) = set_pgdir e (some (λ i. none)) s

abbrev pub directory_from : Option Directory → ℕ → PageFile → Run PageFile
directory_from (some d) e s = returns s
directory_from none e s = kmalloc_page s >>= λ r. returns (new_directory e r)

-- `get_disk_page_directory` into the environment's own field. No caller reads its result.
unfoldable pub get_disk_page_directory : ℕ → PageFile → Run PageFile
get_disk_page_directory e s = directory_from (s.disk_env_pgdir e) e s

-- `kheap_virtual_address` gives 0 for the table of `va`. It is asked for user addresses only.
abbrev pub is_lost : ℕ → ℕ → PageFile → Bool
is_lost e va s = ltb va user_top && s.lost e (pdx va)

-- The pointer to a table that is there.
abbrev pub find_table : Option Table → ℕ → ℕ → PageFile → Option Table
find_table none e va s = none
find_table (some t) e va s = if is_lost e va s then none else some t

-- The page that `kmalloc` has just given is below `startAdd`.
abbrev pub set_found : ℕ → ℕ → PageFile → PageFile
set_found e i s = record s { lost = λ n k. if (n == e) && (k == i) then false else s.lost n k }

abbrev pub new_table : ℕ → Directory → ℕ → Bool × PageFile → Option Table × PageFile
new_table e d i (false, s) = (none, s)
new_table e d i (true, s) =
    (some (λ k. 0), set_pgdir e (some (put_table d i (some (λ k. 0)))) (set_found e i s))

abbrev pub table_from :
    Option Table → Bool → ℕ → Directory → ℕ → PageFile → Run (Option Table × PageFile)
table_from (some t) create e d va s = returns (find_table (some t) e va s, s)
table_from none true e d va s = kmalloc_page s >>= λ r. returns (new_table e d (pdx va) r)
table_from none false e d va s = returns (none, s)

abbrev pub table_in : Option Directory → Bool → ℕ → ℕ → PageFile → Run (Option Table × PageFile)
table_in none create e va s = faults
table_in (some d) create e va s = table_from (d (pdx va)) create e d va s

-- `get_disk_page_table` of the environment's directory: the table, or none for a null pointer.
unfoldable pub get_disk_page_table : Bool → ℕ → ℕ → PageFile → Run (Option Table × PageFile)
get_disk_page_table create e va s = table_in (s.disk_env_pgdir e) create e va s

abbrev pub write_table : Option Table → ℕ → ℕ → ℕ → ℕ → Directory → PageFile → PageFile
write_table none e d i v dir s = s
write_table (some t) e d i v dir s = set_pgdir e (some (put_table dir d (some (put t i v)))) s

abbrev pub write_in : Option Directory → ℕ → ℕ → ℕ → ℕ → PageFile → PageFile
write_in none e d i v s = s
write_in (some dir) e d i v s = write_table (dir d) e d i v dir s

-- A write through the pointer to the environment's table of index `d`.
unfoldable pub write_at : ℕ → ℕ → ℕ → ℕ → PageFile → PageFile
write_at e d i v s = write_in (s.disk_env_pgdir e) e d i v s

abbrev pub new_frame : ℕ → ℕ → Option (ℕ × PageFile) → PageFile → Run (Option ℕ × PageFile)
new_frame e va none s = returns (none, s)
new_frame e va (some (f, j)) s = returns (some f, write_at e (pdx va) (ptx va) f j)

abbrev pub frame_in : ℕ → ℕ → Option Table × PageFile → Run (Option ℕ × PageFile)
frame_in e va (none, s) = faults
frame_in e va (some t, s) =
    if t (ptx va) == 0
    then new_frame e va (allocate_disk_frame s) s
    else returns (some (t (ptx va)), s)

-- The common part of `pf_add_env_page` and `pf_add_empty_env_page`: the disk frame of the page, which is
-- allocated where there is none. Without a frame they return E_NO_PAGE_FILE_SPACE.
unfoldable pub frame_for : ℕ → ℕ → PageFile → Run (Option ℕ × PageFile)
frame_for e va s =
    get_disk_page_directory e s >>= λ m. get_disk_page_table true e va m >>= λ r. frame_in e va r

abbrev pub store : Page → Option ℕ × PageFile → Run (Code × PageFile)
store src (none, s) = returns (no_page_file_space, s)
store src (some f, s) = write_disk_page f src s

unfoldable pub pf_add_env_page : ℕ → ℕ → Page → PageFile → Run (Code × PageFile)
pf_add_env_page e va src s =
    if leb kernel_base va then panics else frame_for e va s >>= λ r. store src r

abbrev pub keep : Option ℕ × PageFile → Run (Code × PageFile)
keep (none, s) = returns (no_page_file_space, s)
keep (some f, s) = returns (success, s)

-- `ptr_zero_page` is a page of zeros.
unfoldable pub pf_add_empty_env_page : ℕ → ℕ → Bool → PageFile → Run (Code × PageFile)
pf_add_empty_env_page e va initialize_by_zero s =
    if initialize_by_zero
    then pf_add_env_page e va (λ i. 0) s
    else if leb kernel_base va
    then panics
    else frame_for e va s >>= λ r. keep r

abbrev pub read_frame : ℕ → PageFile → Code × Page
read_frame dfn s = if dfn == 0 then (page_not_exist_in_pf, λ i. 0) else read_disk_page dfn s

abbrev pub read_from : Option Table → ℕ → PageFile → Code × Page
read_from none va s = (page_not_exist_in_pf, λ i. 0)
read_from (some t) va s = read_frame (t (ptx va)) s

abbrev pub read_in : Option Directory → ℕ → ℕ → PageFile → Code × Page
read_in none e va s = (page_not_exist_in_pf, λ i. 0)
read_in (some d) e va s = read_from (find_table (d (pdx va)) e va s) va s

-- `pf_read_env_page`: the code, and the bytes that it puts at the page of `va` where it is `success`. It
-- then clears PERM_MODIFIED of the page's entry.
unfoldable pub pf_read_env_page : ℕ → ℕ → PageFile → Code × Page
pf_read_env_page e va s = let page_va = va - va % 4096 in read_in (s.disk_env_pgdir e) e page_va s

abbrev pub remove_from : Option Table → ℕ → ℕ → PageFile → PageFile
remove_from none e va s = s
remove_from (some t) e va s = free_disk_frame (t (ptx va)) (write_at e (pdx va) (ptx va) 0 s)

abbrev pub remove_in : Option Directory → ℕ → ℕ → PageFile → PageFile
remove_in none e va s = s
remove_in (some d) e va s = remove_from (find_table (d (pdx va)) e va s) e va s

unfoldable pub pf_remove_env_page : ℕ → ℕ → PageFile → PageFile
pf_remove_env_page e va s = remove_in (s.disk_env_pgdir e) e va s
