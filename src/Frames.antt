-- ===== src/Frames.antt =====
-- kern/memory_manager.c: the physical frames, their reference counts and the page tables.
-- A frame is its number. The page tables of all environments are in memory: `directories` gives, by
-- environment and by `PDX`, the entries of the page table, or none where the directory entry is 0.
-- The kernel finds the table of a user address by `kheap_virtual_address`, which gives 0 for a table
-- that is not below `startAdd`: `lost` says of which tables this is so.
-- A result none is a panic, or a fault at a null pointer.
pub mod Entries
pub mod Counts
pub mod Unmap
pub mod Map
pub mod Boot
mod Tests
use fos_kernel.Prelude.{
  ℕ, zero, suc, ◌+◌, ◌-◌, ◌*◌, ◌/◌, ◌%◌, ◌^◌, Bool, true, false, not, ◌&&◌, Option, none, some,
  List, [], ◌∷◌, ltb, leb, ◌==◌, if◌then◌else◌,
}

-- `struct Frame_Info`, without its list link.
pub record FrameInfo : Type 0 where
  pub references : ℕ
  pub va : ℕ
  pub environment : ℕ
  pub is_buffered : Bool

pub record Vm : Type 0 where
  pub frames_info : ℕ → FrameInfo
  pub free_frame_list : List ℕ
  pub number_of_frames : ℕ
  pub directories : ℕ → ℕ → Option (ℕ → ℕ)
  pub lost : ℕ → ℕ → Bool

-- The index of the page of a `uint32` address, and `PDX` and `PTX` by it.
abbrev pub pdx : ℕ → ℕ
pdx va = va / 2 ^ 22 % 1024

abbrev pub ptx : ℕ → ℕ
ptx va = va / 2 ^ 12 % 1024

-- `CONSTRUCT_ENTRY` of a frame's address and of permissions below 4096 with `PERM_PRESENT`.
abbrev pub construct_entry : ℕ → ℕ → ℕ
construct_entry frame perm = frame * 4096 + (if perm % 2 == 0 then perm + 1 else perm)

abbrev pub blank : FrameInfo
blank = record { references = 0; va = 0; environment = 0; is_buffered = false }

abbrev pub set_info : ℕ → FrameInfo → Vm → Vm
set_info f i m = record m { frames_info = λ g. if g == f then i else m.frames_info g }

abbrev pub set_table : ℕ → ℕ → Option (ℕ → ℕ) → Vm → Vm
set_table e d t m = record m {
  directories = λ e1 d1. if (e1 == e) && (d1 == d) then t else m.directories e1 d1;
}

abbrev pub write_table : (ℕ → ℕ) → ℕ → ℕ → ℕ → ℕ
write_table t i v j = if j == i then v else t j

unfoldable pub initialize_frame_info : ℕ → Vm → Vm
initialize_frame_info f m = set_info f blank m

abbrev pub user_top : ℕ
user_top = 4005560320

-- The pointer to the table of an address is not 0, if there is a table: `CHECK_IF_KERNEL_ADDRESS`, or
-- `kheap_virtual_address` finds it.
abbrev pub reached : ℕ → ℕ → Vm → Bool
reached e va m = if leb user_top va then true else not (m.lost e (pdx va))

-- `get_page_table`: what `*ptr_page_table` points to, or none for 0.
unfoldable pub get_page_table : ℕ → ℕ → Vm → Option (ℕ → ℕ)
get_page_table e va m = if reached e va m then m.directories e (pdx va) else none

-- A write of the entry of `va` to the table that `get_page_table` has found.
unfoldable pub write_in : Option (ℕ → ℕ) → ℕ → ℕ → ℕ → Vm → Vm
write_in none e va v m = m
write_in (some t) e va v m = set_table e (pdx va) (some (write_table t (ptx va) v)) m

unfoldable pub write_entry : ℕ → ℕ → ℕ → Vm → Vm
write_entry e va v m = write_in (m.directories e (pdx va)) e va v m

unfoldable pub pt_clear_page_table_entry : ℕ → ℕ → Vm → Option Vm
unfolding write_entry write_in
pt_clear_page_table_entry e va m = elim (m.directories e (pdx va)) [
  | none ↦ none
  | some t ↦ if reached e va m then some (write_entry e va 0 m) else none
]

-- The end of `allocate_frame`: the entry that still named a buffered frame is cleared.
abbrev pub then_initialize : ℕ → Option Vm → Option (ℕ × Vm)
then_initialize f none = none
then_initialize f (some m) = some (f, initialize_frame_info f m)

unfoldable pub allocate_from : List ℕ → Vm → Option (ℕ × Vm)
allocate_from [] m = none
allocate_from (f ∷ rest) m =
    let taken = record m { free_frame_list = rest } in
    let i = m.frames_info f in
    then_initialize f
      (if i.is_buffered then pt_clear_page_table_entry i.environment i.va taken else some taken)

unfoldable pub allocate_frame : Vm → Option (ℕ × Vm)
allocate_frame m = allocate_from m.free_frame_list m

unfoldable pub free_frame : ℕ → Vm → Vm
free_frame f m =
    let j = initialize_frame_info f m in record j { free_frame_list = f ∷ j.free_frame_list }

-- `references` is a `uint16`.
abbrev pub set_references : ℕ → ℕ → Vm → Vm
set_references f n m = set_info f (record (m.frames_info f) { references = n % 2 ^ 16 }) m

unfoldable pub decrement_references : ℕ → Vm → Vm
decrement_references f m =
    let n = ((m.frames_info f).references + 2 ^ 16 - 1) % 2 ^ 16 in
    let j = set_references f n m in if n == 0 then free_frame f j else j

-- `to_frame_info` panics at an address that is no frame's.
unfoldable pub to_frame_info : ℕ → Vm → Option ℕ
to_frame_info pa m = if leb m.number_of_frames (pa / 4096) then none else some (pa / 4096)

pub data Mapped : Type 0 where
  no_frame invalid : Mapped
  frame : ℕ → Mapped

unfoldable pub entry_frame : ℕ → Vm → Mapped
entry_frame entry m =
    if entry == 0
    then no_frame
    else if leb m.number_of_frames (entry / 4096)
    then invalid
    else frame (entry / 4096)

unfoldable pub frame_in : Option (ℕ → ℕ) → ℕ → Vm → Mapped
frame_in none va m = no_frame
frame_in (some t) va m = entry_frame (t (ptx va)) m

unfoldable pub get_frame_info : ℕ → ℕ → Vm → Mapped
get_frame_info e va m = frame_in (get_page_table e va m) va m

-- `unmap_frame`, by what `get_frame_info` gives.
unfoldable pub unmap_mapped : Mapped → ℕ → ℕ → Vm → Option Vm
unmap_mapped no_frame e va m = some m
unmap_mapped invalid e va m = none
unmap_mapped (frame f) e va m = some (write_entry e va 0 (decrement_references f m))

unfoldable pub unmap_frame : ℕ → ℕ → Vm → Option Vm
unmap_frame e va m = unmap_mapped (get_frame_info e va m) e va m

abbrev pub set_found : ℕ → ℕ → Vm → Vm
set_found e d m = record m { lost = λ n k. if (n == e) && (k == d) then false else m.lost n k }

-- `create_page_table`, where `new_page` is what `kmalloc` of one page does: it clears the entries of
-- the new table, which is below `startAdd` and so is found.
unfoldable pub create_page_table : (Vm → Option Vm) → ℕ → ℕ → Vm → Option Vm
create_page_table new_page e va m = elim (new_page m) [
  | none ↦ none
  | some j ↦ some (set_found e (pdx va) (set_table e (pdx va) (some (λ i. 0)) j))
]

-- The last two statements of `map_frame`.
abbrev pub add_mapping : ℕ → ℕ → ℕ → ℕ → Vm → Vm
add_mapping e f va perm m =
    write_entry e va (construct_entry f perm)
      (set_references f ((m.frames_info f).references + 1) m)

abbrev pub then_add : ℕ → ℕ → ℕ → ℕ → Option Vm → Option Vm
then_add e f va perm none = none
then_add e f va perm (some m) = some (add_mapping e f va perm m)

-- `map_frame`, once the page table exists, by its entry.
unfoldable pub map_in_table : ℕ → ℕ → ℕ → ℕ → ℕ → Vm → Option Vm
map_in_table entry e f va perm m =
    if entry % 2 == 1
    then if entry / 4096 == f then some m else then_add e f va perm (unmap_frame e va m)
    else some (add_mapping e f va perm m)

abbrev pub map_new : ℕ → ℕ → ℕ → ℕ → Option Vm → Option Vm
map_new e f va perm none = none
map_new e f va perm (some m) = map_in_table 0 e f va perm m

-- By the directory's entry: TABLE_NOT_EXIST is for an entry of 0.
unfoldable pub map_with : Option (ℕ → ℕ) → (Vm → Option Vm) → ℕ → ℕ → ℕ → ℕ → Vm → Option Vm
map_with (some t) new_page e f va perm m =
    if reached e va m then map_in_table (t (ptx va)) e f va perm m else none
map_with none new_page e f va perm m = map_new e f va perm (create_page_table new_page e va m)

unfoldable pub map_frame : (Vm → Option Vm) → ℕ → ℕ → ℕ → ℕ → Vm → Option Vm
map_frame new_page e f va perm m = map_with (m.directories e (pdx va)) new_page e f va perm m
