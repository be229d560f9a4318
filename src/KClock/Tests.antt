-- ===== src/KClock/Tests.antt =====
-- The timer theorems at concrete quantums.
use fos_kernel.Prelude.{◌≤◌, ◌≡◌, ◌≢◌, ◌↔◌, refl, arith}
use fos_kernel.KClock.{programmed, panicked, kclock_set_quantum}
use fos_kernel.KClock.Quantum.{Programs, kclock_set_quantum_iff}

-- 10 ms, the interval that `sched_init` sets.
default_interval : kclock_set_quantum 10 ≡ programmed (156, 46)
unfolding kclock_set_quantum
default_interval = refl

kclock_set_quantum_iff_example :
    (Programs 10 ↔ ((1 ≤ 10) × (10 ≤ 52))) × (kclock_set_quantum 10 ≢ panicked)
kclock_set_quantum_iff_example = kclock_set_quantum_iff 10 (omega arith)

-- The count of 60 ms is cut to 16 bits.
too_long : kclock_set_quantum 60 ≡ programmed (78, 35)
unfolding kclock_set_quantum
too_long = refl
