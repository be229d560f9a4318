-- ===== src/KernelHeap/Rounds.antt =====
-- kern/kheap.c: the state of the search of `nextFitAlgo`, by pages of the kernel heap.
use fos_kernel.Prelude.{ℕ, ◌+◌, ◌-◌, ◌*◌, ◌/◌, ◌%◌, ◌<◌, ◌≤◌, ◌≡◌, ◌≢◌, ◌⊎◌, Option, none, some}
use fos_kernel.Frames.{Mapped, no_frame}
use fos_kernel.KernelHeap.{heap_start, heap_max, Cursor, Result, ends, null}

-- The pages of the heap, and their addresses.
abbrev pub pages : ℕ
pages = (heap_max - heap_start) / 4096

abbrev pub address : ℕ → ℕ
address p = heap_start + p * 4096

-- The page `j` places behind `f`, going round.
abbrev pub round : ℕ → ℕ → ℕ
round f j = (f + j) % pages

-- `n` free pages from `f` on, going round, the result of a search.
abbrev pub FreeRound : (ℕ → Mapped) → ℕ → ℕ → Type 0
FreeRound page f n = (j : ℕ) → j < n → page (address (round f j)) ≡ no_frame

-- How the search can end: it does not use up its fuel.
abbrev pub Ends : (ℕ → Mapped) → ℕ → Option Result → Type 0
Ends page n none = ⊥
Ends page n (some (null c)) = c.x ≢ n * 4096
Ends page n (some (ends c)) =
    (f : ℕ) × (f < pages)
    × (n ≤ pages)
    × (c.x ≡ n * 4096)
    × (c.first ≡ address f)
    × (c.last ≡ address (round f (n - 1)))
    × FreeRound page f n

-- The search stands at page `p`, behind `run` free pages, with `left` rounds to go.
pub record At (page : ℕ → Mapped) (start n p run left : ℕ) (c : Cursor) : Type 0 where
  pub at : c.i ≡ address p
  pub in_heap : p ≤ pages
  pub counted : c.x ≡ run * 4096
  pub short : run < n
  pub few : run + left ≤ pages + 1
  pub from : ℕ
  pub from_in : from < pages
  pub behind : round from run ≡ p % pages
  pub first : 0 < run → c.first ≡ address from
  pub last : 0 < run → c.last ≡ address (round from (run - 1))
  pub free : FreeRound page from run
  pub phase :
      ((c.y ≡ 0) × (p ≡ start) × (left ≡ pages + 1))
      ⊎ ((c.y ≡ 1) × (start < p) × (left + p ≡ pages + start + 1))
      ⊎ ((c.y ≡ 1) × (p ≤ start) × (left + p ≡ start + 1))
