-- ===== src/KClock.antt =====
-- kern/kclock.c and inc/timerreg.h: the count that a scheduling quantum programs into counter 0.
pub mod Quantum
mod Tests
use fos_kernel.Prelude.{
  ℕ, ◌+◌, ◌*◌, ◌/◌, ◌%◌, ◌^◌, Bool, Option, none, some, ltb, ◌==◌, if◌then◌else◌,
}

abbrev pub timer_freq : ℕ
timer_freq = 1193182

-- `TIMER_DIV`, on `int` operands that are not negative.
abbrev pub timer_div : ℕ → ℕ
timer_div x = (timer_freq + x / 2) / x

-- `1000 * 1<<16 / TIMER_FREQ`: the shift binds less than the operators beside it.
abbrev pub quantum_limit : ℕ
quantum_limit = 1000 * 1 * 2 ^ (16 / timer_freq)

abbrev pub is_valid_quantum : ℕ → Bool
is_valid_quantum q = ltb q quantum_limit

-- The two bytes that `kclock_write_cnt0_LSB_first` sends to the counter; its parameter is `uint16`.
pub kclock_write_cnt0_lsb_first : ℕ → ℕ × ℕ
kclock_write_cnt0_lsb_first val = (val % 256, val / 2 ^ 8 % 256)

-- `kclock_read_cnt0`, of the two bytes that the counter answers.
pub kclock_read_cnt0 : ℕ × ℕ → ℕ
kclock_read_cnt0 (lo, hi) = hi * 2 ^ 8 + lo

pub data Set : Type 0 where
  programmed : ℕ × ℕ → Set
  divide_error panicked : Set

-- `kclock_set_quantum`, whose parameter is `uint8`: `1000/quantum_in_ms` faults for a quantum of 0.
unfoldable pub kclock_set_quantum : ℕ → Set
unfolding kclock_write_cnt0_lsb_first
kclock_set_quantum q =
    if is_valid_quantum q
    then if q == 0
      then divide_error
      else programmed (kclock_write_cnt0_lsb_first (timer_div (1000 / q) % 2 ^ 16))
    else panicked
