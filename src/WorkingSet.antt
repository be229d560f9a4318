-- ===== src/WorkingSet.antt =====
-- The working set of an environment: the entries of kern/memory_manager.c, and in kern/trap.c where a
-- page is placed and which one is replaced.
pub mod Clock
pub mod Size
pub mod Sweep
pub mod Victim
mod Tests
use fos_kernel.Prelude.{
  ℕ, zero, suc, ◌+◌, ◌-◌, ◌%◌, Bool, true, false, not, ◌&&◌, Option, none, some, ltb, ◌==◌,
  if◌then◌else◌,
}

-- `struct WorkingSetElement`
pub record Element : Type 0 where
  pub virtual_address : ℕ
  pub time_stamp : ℕ
  pub empty : Bool

-- The array, its length and the index of the last entry. A working set of pages and one of tables
-- differ in the unit, 4096 bytes or 1024 times as many, that an address is rounded down to.
pub record Ws : Type 0 where
  pub elements : ℕ → Element
  pub max_size : ℕ
  pub last_index : ℕ

abbrev pub user_top : ℕ
user_top = 4005560320

abbrev pub rounddown : ℕ → ℕ → ℕ
rounddown a n = a - a % n

abbrev pub page_unit : ℕ
page_unit = 4096

abbrev pub table_unit : ℕ
table_unit = 4194304

abbrev pub write_element : ℕ → Element → Ws → Ws
write_element i v w = record w { elements = λ j. if j == i then v else w.elements j }

-- How many of the first `n` entries are not empty.
unfoldable pub count_used : (ℕ → Element) → ℕ → ℕ
count_used elements zero = 0
count_used elements (suc n) = count_used elements n + (if (elements n).empty then 0 else 1)

-- `env_page_ws_get_size`, and `env_table_ws_get_size` on the working set of tables.
unfoldable pub ws_get_size : Ws → ℕ
ws_get_size w = count_used w.elements w.max_size

-- A failed assertion panics: none.
unfoldable pub ws_set_entry : ℕ → ℕ → ℕ → Ws → Option Ws
ws_set_entry unit i va w =
    if ltb i w.max_size && ltb va user_top
    then some (
        write_element i
          (record { virtual_address = rounddown va unit; time_stamp = 2147483648; empty = false })
          w)
    else none

unfoldable pub ws_clear_entry : ℕ → Ws → Option Ws
ws_clear_entry i w =
    if ltb i w.max_size
    then some (write_element i (record { virtual_address = 0; time_stamp = 0; empty = true }) w)
    else none

unfoldable pub ws_get_virtual_address : ℕ → ℕ → Ws → Option ℕ
ws_get_virtual_address unit i w =
    if ltb i w.max_size then some (rounddown (w.elements i).virtual_address unit) else none

unfoldable pub ws_get_time_stamp : ℕ → Ws → Option ℕ
ws_get_time_stamp i w = if ltb i w.max_size then some (w.elements i).time_stamp else none

unfoldable pub ws_is_entry_empty : ℕ → Ws → Bool
ws_is_entry_empty i w = (w.elements i).empty

-- The loop of `ws_invalidate` from entry `i` on, with `left` entries to go.
unfoldable pub invalidate_from : ℕ → ℕ → ℕ → ℕ → Ws → Option Ws
invalidate_from unit zero i va w = some w
invalidate_from unit (suc left) i va w =
    let rest = invalidate_from unit left (i + 1) va w in
    if rounddown (w.elements i).virtual_address unit == rounddown va unit
    then ws_clear_entry i w
    else rest

unfoldable pub ws_invalidate : ℕ → ℕ → Ws → Option Ws
ws_invalidate unit va w = invalidate_from unit w.max_size 0 va w

-- `addTableToTableWorkingSet`; 50 is `__TWS_MAX_SIZE`.
unfoldable pub add_table_to_table_working_set : ℕ → Ws → Ws
add_table_to_table_working_set table_address w =
    let j =
      write_element w.last_index
        (record {
          virtual_address = rounddown table_address table_unit;
          time_stamp = 0;
          empty = false;
        })
        w in
    record j { last_index = (w.last_index + 1) % 50 }

-- The functions on the working set of tables, whose length is `__TWS_MAX_SIZE`.
abbrev pub env_table_ws_get_size : Ws → ℕ
env_table_ws_get_size w = ws_get_size (record w { max_size = 50 })

abbrev pub env_table_ws_invalidate : ℕ → Ws → Option Ws
env_table_ws_invalidate va w = ws_invalidate table_unit va (record w { max_size = 50 })

abbrev pub env_table_ws_set_entry : ℕ → ℕ → Ws → Option Ws
env_table_ws_set_entry i va w = ws_set_entry table_unit i va (record w { max_size = 50 })

abbrev pub env_table_ws_clear_entry : ℕ → Ws → Option Ws
env_table_ws_clear_entry i w = ws_clear_entry i (record w { max_size = 50 })

abbrev pub env_table_ws_get_virtual_address : ℕ → Ws → Option ℕ
env_table_ws_get_virtual_address i w =
    ws_get_virtual_address table_unit i (record w { max_size = 50 })

-- The last loop of `placement` in kern/trap.c, from entry `i` on.
unfoldable pub place_from : ℕ → ℕ → ℕ → Ws → Option Ws
place_from zero i fault_va w = some w
place_from (suc left) i fault_va w =
    let rest = place_from left (i + 1) fault_va w in
    if ws_is_entry_empty i w
    then elim (ws_set_entry page_unit i fault_va w) [
      | none ↦ none
      | some j ↦ some (record j { last_index = if i + 1 == j.max_size then 0 else i + 1 })
    ]
    else rest

unfoldable pub place : ℕ → Ws → Option Ws
place fault_va w = place_from w.max_size 0 fault_va w
