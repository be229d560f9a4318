-- ===== src/WorkingSet/Tests.antt =====
-- Working sets of three pages, and the theorems at them.
use fos_kernel.Prelude.{ℕ, ◌*◌, ◌<◌, ◌≡◌, refl, true, not, some, ◌==◌, arith}
use fos_kernel.WorkingSet.{Ws, ws_get_size, count_used, place}
use fos_kernel.WorkingSet.Clock.{
  Bits, Sweep, victim, came_back, unfinished, go_on, sweep_clean, sweep_unused, choose,
}
use fos_kernel.WorkingSet.Size.{Placed, place_lem}
use fos_kernel.WorkingSet.Victim.{Chosen, choose_lem}

abbrev addresses : ℕ → ℕ
addresses i = i * 4096

-- Every page is used, and the page of entry 1 alone is not modified.
abbrev bits : Bits
bits = record { used = λ a. true; modified = λ a. not (a == 4096) }

abbrev entry_of : Sweep → ℕ
entry_of (victim i b) = i
entry_of (came_back b) = 9
entry_of unfinished = 9

-- The first sweep and the second come back; the third finds the page that was not modified.
third_sweep : entry_of (choose 2 addresses 3 0 bits) ≡ 1
unfolding choose go_on sweep_clean sweep_unused
third_sweep = refl

choose_example : Chosen addresses 3 0 (omega arith) bits (choose 2 addresses 3 0 bits)
choose_example = choose_lem addresses 3 0 (omega arith) bits

abbrev half_full : Ws
half_full = record {
  elements = λ i. record { virtual_address = i * 4096; time_stamp = 0; empty = i == 1 };
  max_size = 3;
  last_index = 0;
}

room : ws_get_size half_full < 3
unfolding ws_get_size count_used
room = omega arith

place_example : (e : ℕ) × (j : Ws) × (place 20000 half_full ≡ some j) × Placed 20000 half_full e j
place_example = place_lem 20000 half_full (omega arith) room
