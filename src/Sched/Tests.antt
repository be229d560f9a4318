-- ===== src/Sched/Tests.antt =====
-- Runs of the scheduler on small states, and the theorems at concrete states.
use fos_kernel.Prelude.{ℕ, zero, suc, ◌+◌, ◌*◌, ◌≡◌, refl, ◌<◌, false, [], ◌∷◌, arith, get_or}
use fos_kernel.KClock
use fos_kernel.KClock.{kclock_set_quantum}
use fos_kernel.Sched.{
  sch_rr, sch_mlfq, sch_started, env_ready, env_unknown, Kernel, returns, stops, run_env,
  command_prompt, ready,
}
use fos_kernel.Sched.Queues.{dequeue}
use fos_kernel.Sched.Select.{fos_scheduler}
use fos_kernel.Sched.Admin.{sched_exit_env}
use fos_kernel.Sched.Fifo.{dequeue_oldest}
use fos_kernel.Sched.RoundRobin.{IsTurn, tick, ticks, fos_scheduler-turn, ticks-turn}
use fos_kernel.Sched.Exit.{Misses, sched_exit_env-new}
use fos_kernel.Sched.Mlfq.{to_prompt, fos_scheduler-mlfq_skips}

-- Environment `a` has the id 100 + a. Environment 1 runs, 2 and then 3 wait, and 4 and 5 are new.
abbrev busy : Kernel
busy = record {
  envs = λ a. record { env_id = 100 + a; env_status = env_ready; env_runs = 0 };
  env_new_queue = 5 ∷ 4 ∷ [];
  env_exit_queue = [];
  env_ready_queues = (3 ∷ 2 ∷ []) ∷ [];
  quantums = 10 ∷ [];
  num_of_ready_queues = 1;
  scheduler_method = sch_rr;
  scheduler_status = sch_started;
  curenv = 1;
  cnt0 = (0, 0);
  buffering = false;
  heap_block = [] ∷ (6 ∷ []) ∷ [] ∷ [];
  cleaned = [];
}

default_quantum : kclock_set_quantum 10 ≡ KClock.Set.programmed (156, 46)
unfolding kclock_set_quantum
default_quantum = refl

abbrev busy-IsTurn : IsTurn busy 1 (2 ∷ 3 ∷ [])
busy-IsTurn = record {
  method = refl;
  current = refl;
  others = [];
  waiting = refl;
  bytes = (156, 46);
  quantum = default_quantum;
  distinct = (refl, (refl, (refl, tt)));
  no_null = refl;
}

dequeue_oldest_example : dequeue (3 ∷ 2 ∷ []) ≡ (2, 3 ∷ [])
dequeue_oldest_example = dequeue_oldest 2 (3 ∷ []) (omega arith) refl

fos_scheduler-turn_example :
    (fos_scheduler {A = Unit {0}} busy ≡ stops (run_env 2) (tick busy))
    × IsTurn (tick busy) 2 (3 ∷ 1 ∷ [])
fos_scheduler-turn_example = fos_scheduler-turn busy 1 2 (3 ∷ []) busy-IsTurn

ticks-turn_example : (ticks 2 busy).curenv ≡ 3
ticks-turn_example = ticks-turn busy 1 3 (2 ∷ []) [] busy-IsTurn

sched_exit_env-new_example :
    (j : Kernel) × (sched_exit_env 104 busy ≡ returns tt j)
    × (j.env_new_queue ≡ 5 ∷ [])
    × (j.env_ready_queues ≡ busy.env_ready_queues)
    × (j.env_exit_queue ≡ busy.env_exit_queue)
    × ((j.envs 4).env_status ≡ env_unknown)
sched_exit_env-new_example =
    sched_exit_env-new 104 4 (5 ∷ []) [] busy (omega arith) refl refl (omega arith) refl tt
      (omega arith) (omega arith)

abbrev multilevel : Kernel
multilevel = record busy { scheduler_method = sch_mlfq; num_of_ready_queues = 3 }

abbrev idle : Kernel
idle = record multilevel { curenv = 0 }

even_empty : (h : ℕ) → h * 2 < 3 → get_or idle.heap_block (h * 2) [] ≡ []
even_empty zero lt = refl
even_empty (suc zero) lt = refl
even_empty (suc (suc h)) lt = absurd (omega arith)

fos_scheduler-mlfq_skips_example :
    fos_scheduler {A = Unit {0}} idle ≡ stops command_prompt (to_prompt idle)
fos_scheduler-mlfq_skips_example = fos_scheduler-mlfq_skips idle refl refl (omega arith) even_empty

not_queued : (q : ℕ) → Misses busy.envs 300 (ready busy q)
not_queued zero = omega arith
not_queued (suc q) = tt
