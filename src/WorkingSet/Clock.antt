-- ===== src/WorkingSet/Clock.antt =====
-- kern/trap.c: how `page_fault_handler` chooses the page to replace.
-- `addresses` gives the page of each entry, and a page's used and modified bits are in its page table
-- entry, which `pt_get_page_permissions` reads and `pt_set_page_permissions` writes.
use fos_kernel.Prelude.{ℕ, zero, suc, ◌+◌, Bool, false, not, ◌&&◌, ◌==◌, if◌then◌else◌}

pub record Bits : Type 0 where
  pub used : ℕ → Bool
  pub modified : ℕ → Bool

abbrev pub is_clean : Bits → ℕ → Bool
is_clean b va = not (b.used va) && not (b.modified va)

abbrev pub clear_used : ℕ → Bits → Bits
clear_used va b = record b { used = λ a. if a == va then false else b.used a }

-- `page_last_WS_index++`, and 0 at the end of the array.
abbrev pub advance : ℕ → ℕ → ℕ
advance size i = if i + 1 == size then 0 else i + 1

-- A sweep ends at a victim or back where it began; on fuel, it may also not end.
pub data Sweep : Type 0 where
  victim : ℕ → Bits → Sweep
  came_back : Bits → Sweep
  unfinished : Sweep

-- The outer loop up to the point where the index is `fp` again: a page neither used nor modified.
unfoldable pub sweep_clean : ℕ → (ℕ → ℕ) → ℕ → ℕ → ℕ → Bits → Sweep
sweep_clean zero addresses size fp i b = unfinished
sweep_clean (suc fuel) addresses size fp i b =
    let next = advance size i in
    let rest = sweep_clean fuel addresses size fp next b in
    if is_clean b (addresses i) then victim i b else if next == fp then came_back b else rest

-- The inner loop: a page that is not used, with the used bits of those before it cleared.
unfoldable pub sweep_unused : ℕ → (ℕ → ℕ) → ℕ → ℕ → ℕ → Bits → Sweep
sweep_unused zero addresses size fp i b = unfinished
sweep_unused (suc fuel) addresses size fp i b =
    let next = advance size i in
    let cleared = clear_used (addresses i) b in
    let rest = sweep_unused fuel addresses size fp next cleared in
    if not (b.used (addresses i))
    then victim i b
    else if next == fp
    then came_back cleared
    else rest

-- What follows a sweep that came back.
unfoldable pub go_on : Sweep → (Bits → Sweep) → Sweep
go_on (victim i b) again = victim i b
go_on (came_back b) again = again b
go_on unfinished again = unfinished

-- The loops together, `turns` times at most; the entry of the victim, and the bits behind them.
unfoldable pub choose : ℕ → (ℕ → ℕ) → ℕ → ℕ → Bits → Sweep
choose zero addresses size fp b = unfinished
choose (suc turns) addresses size fp b =
    go_on (sweep_clean size addresses size fp fp b)
      (λ b1. go_on (sweep_unused size addresses size fp fp b1) (choose turns addresses size fp))
