-- ===== src/Sched/Select.antt =====
-- kern/sched.c: choosing the next environment, and starting the scheduler.
use fos_kernel.Prelude.{ℕ, zero, suc, ◌+◌, ◌%◌, get_or, ltb, ◌==◌, if◌then◌else◌}
use fos_kernel.KClock
use fos_kernel.KClock.{kclock_set_quantum}
use fos_kernel.Sched.{
  Method, sch_rr, sch_mlfq, sch_stopped, sch_started, env_runnable, run_env, command_prompt,
  panicked, divide_fault, hangs, Exec, modify, pure, stop, update_env, ready, set_ready, ◌>>=◌,
  ◌>>◌,
}
use fos_kernel.Sched.Queues.{queue_size, enqueue, dequeue}

-- `kclock_set_quantum`, with the counter as part of the state.
unfoldable pub set_quantum : ℕ → Exec (Unit {0})
set_quantum q k = elim (kclock_set_quantum q) [
  | KClock.Set.programmed bytes ↦ modify (λ j. record j { cnt0 = bytes }) k
  | KClock.Set.divide_error ↦ stop divide_fault k
  | KClock.Set.panicked ↦ stop panicked k
]

-- `env_run` of kern/user_environment.c, which does not return. It also switches the page directory,
-- and `kclock_resume` goes on with the time that the hardware has counted.
unfoldable pub env_run : {A : Type 0} → ℕ → Exec A
env_run e k =
    let j =
      if k.curenv == e
      then k
      else update_env e (λ v. record v { env_runs = v.env_runs + 1 }) (record k { curenv = e }) in
    stop (run_env e) (update_env e (λ v. record v { env_status = env_runnable }) j)

-- What `fos_scheduler` does with the environment that it has picked.
unfoldable pub dispatch : {A : Type 0} → ℕ → Exec A
dispatch next_env k =
    if next_env == 0
    then stop command_prompt (record k { curenv = 0; scheduler_status = sch_stopped })
    else env_run next_env k

-- The round-robin branch of `fos_scheduler`: the environment that it picks.
unfoldable pub pick_rr : Exec ℕ
pick_rr k =
    let j = if k.curenv == 0 then k else set_ready 0 (enqueue (ready k 0) k.curenv) k in
    let (next_env, rest) = dequeue (ready j 0) in
    (set_quantum (get_or j.quantums 0 0) >> pure next_env) (set_ready 0 rest j)

-- The loop of `fos_scheduler_MLFQ`: `i` is a `uint8`, and goes up twice past an empty queue.
unfoldable pub mlfq_loop : ℕ → ℕ → Exec ℕ
mlfq_loop zero i k = stop hangs k
mlfq_loop (suc fuel) i k =
    let past_one = mlfq_loop fuel ((i + 1) % 256) k in
    let past_two = mlfq_loop fuel ((i + 2) % 256) k in
    let (next, rest) = dequeue (ready k i) in
    if ltb i k.num_of_ready_queues
    then if ltb 0 (queue_size (ready k i))
      then if next == 0 then past_one else pure next (set_ready i rest k)
      else past_two
    else pure 0 k

-- More rounds than `i` has values below a bound that it does not wrap past.
abbrev pub mlfq_rounds : ℕ
mlfq_rounds = 256

-- `fos_scheduler_MLFQ`. It first takes a block from the kernel heap for the ready queues. The
-- variable-length array `quantums`, which hides the global one, is unused.
unfoldable pub fos_scheduler_mlfq : Exec ℕ
fos_scheduler_mlfq k =
    let j = record k { env_ready_queues = k.heap_block } in
    if j.curenv == 0 then mlfq_loop mlfq_rounds 0 j else pure 0 j

-- The choice of `fos_scheduler`, by the method.
unfoldable pub pick : Method → Exec ℕ
pick sch_rr = pick_rr
pick sch_mlfq = fos_scheduler_mlfq

-- `fos_scheduler`, less the checks that the tests of the MLFQ scheduler switch on (`chk1`, `chk2`).
-- It does not return.
unfoldable pub fos_scheduler : {A : Type 0} → Exec A
fos_scheduler k =
    (pick k.scheduler_method >>= dispatch) (record k { scheduler_status = sch_started })
