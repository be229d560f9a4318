-- ===== src/Sched/Admin.antt =====
-- kern/sched.c: starting the scheduler, and the commands on one environment or on all.
-- A `LIST_FOREACH` reads the next element before its body runs, and each body takes out the element
-- at hand at most, so it runs over the elements that the queue held at the start.
use fos_kernel.Prelude.{
  ℕ, zero, suc, ◌+◌, Bool, true, false, List, [], ◌∷◌, get_or, ◌==◌, if◌then◌else◌,
}
use fos_kernel.Sched.{
  sch_rr, sch_stopped, sch_started, Env, panicked, Exec, modify, pure, stop, deref, ready,
  set_ready, ◌>>=◌, ◌>>◌,
}
use fos_kernel.Sched.Queues.{
  list_remove, init_queue, sched_insert_ready, sched_remove_new, sched_insert_exit,
}
use fos_kernel.Sched.Select.{set_quantum, fos_scheduler}

-- `sched_init_RR`, where the two blocks from the kernel heap are given. The blocks of the old queues
-- go back to the heap (`sched_delete_ready_queues`), which is not part of this state.
unfoldable pub sched_init_rr : ℕ → Exec (Unit {0})
unfolding set_quantum init_queue
sched_init_rr quantum = do
  modify (λ k. record k {
    scheduler_status = sch_stopped;
    scheduler_method = sch_rr;
    num_of_ready_queues = 1;
    quantums = quantum ∷ [];
    env_ready_queues = get_or k.heap_block 0 [] ∷ [];
  })
  set_quantum quantum
  modify (λ k. set_ready 0 (init_queue (ready k 0)) k)

-- `sched_init`: 10 is `CLOCK_INTERVAL_IN_MS`.
unfoldable pub sched_init : Exec (Unit {0})
unfolding sched_init_rr init_queue
sched_init = do
  sched_init_rr 10
  modify (λ k. record k { env_new_queue = init_queue k.env_new_queue })
  modify (λ k. record k { env_exit_queue = init_queue k.env_exit_queue })

-- `start_env_free` of kern/user_environment.c: with page buffering or without, it calls a function
-- that panics at once.
unfoldable pub start_env_free : ℕ → Exec (Unit {0})
start_env_free e = stop panicked

-- The test of the status at the end of `sched_run_all` and `sched_run_env`.
unfoldable pub start_if_stopped : Exec (Unit {0})
start_if_stopped k = elim k.scheduler_status [
  | sch_stopped ↦ fos_scheduler k
  | sch_started ↦ pure tt k
]

unfoldable pub run_each : List ℕ → Exec (Unit {0})
run_each [] = pure tt
run_each (e ∷ es) = do sched_remove_new e; sched_insert_ready e; run_each es

unfoldable pub sched_run_all : Exec (Unit {0})
unfolding run_each start_if_stopped
sched_run_all k = (run_each k.env_new_queue >> start_if_stopped) k

unfoldable pub run_first : ℕ → List ℕ → Exec (Unit {0})
unfolding start_if_stopped
run_first id [] k = pure tt k
run_first id (e ∷ es) k =
    let found = (sched_remove_new e >> sched_insert_ready e >> start_if_stopped) k in
    if (k.envs e).env_id == id then found else run_first id es k

unfoldable pub sched_run_env : ℕ → Exec (Unit {0})
unfolding run_first
sched_run_env id k = run_first id k.env_new_queue k

-- The loop over the NEW queue of `sched_exit_env` goes on behind a hit, so at its end `ptr_env` is
-- NULL. The result says whether there was a hit.
unfoldable pub exit_new : ℕ → List ℕ → Bool → Exec Bool
exit_new id [] found k = pure found k
exit_new id (e ∷ es) found k =
    let hit = (sched_remove_new e >> exit_new id es true) k in
    if (k.envs e).env_id == id then hit else exit_new id es found k

-- The loops over the ready queues: the environment with the id, taken out of its queue, or NULL.
unfoldable pub find_first : (ℕ → Env) → ℕ → List ℕ → ℕ
find_first envs id [] = 0
find_first envs id (e ∷ es) = if (envs e).env_id == id then e else find_first envs id es

unfoldable pub exit_ready : ℕ → ℕ → ℕ → Exec ℕ
unfolding find_first list_remove
exit_ready id zero i k = pure 0 k
exit_ready id (suc left) i k =
    let e = find_first k.envs id (ready k i) in
    if e == 0
    then exit_ready id left (i + 1) k
    else pure e (set_ready i (list_remove e (ready k i)) k)

-- The last part of `sched_exit_env`, once an environment has been found.
unfoldable pub exit_found : ℕ → ℕ → Exec (Unit {0})
exit_found id ptr_env = do
  sched_insert_exit ptr_env
  k ← (λ k. pure k k)
  current ← deref k.curenv
  if current.env_id == id then (λ j. fos_scheduler (record j { curenv = 0 })) else pure tt

-- The third search of `sched_exit_env`: the running environment.
unfoldable pub exit_current : ℕ → Exec (Unit {0})
unfolding exit_found
exit_current id = do
  k ← (λ k. pure k k)
  current ← deref k.curenv
  if current.env_id == id then exit_found id k.curenv else pure tt

unfoldable pub sched_exit_env : ℕ → Exec (Unit {0})
unfolding exit_new exit_ready exit_found exit_current
sched_exit_env id = do
  k ← (λ k. pure k k)
  found ← exit_new id k.env_new_queue false
  if found then exit_found id 0 else (do
    e ← exit_ready id k.num_of_ready_queues 0
    if e == 0 then exit_current id else exit_found id e)

unfoldable pub exit_each : ℕ → List ℕ → Exec (Unit {0})
unfolding list_remove
exit_each i [] = pure tt
exit_each i (e ∷ es) = do
  modify (λ k. set_ready i (list_remove e (ready k i)) k)
  sched_insert_exit e
  exit_each i es

unfoldable pub exit_queues : ℕ → ℕ → Exec (Unit {0})
unfolding exit_each
exit_queues zero i = pure tt
exit_queues (suc left) i = do k ← (λ k. pure k k); exit_each i (ready k i); exit_queues left (i + 1)

unfoldable pub sched_exit_all_ready_envs : Exec (Unit {0})
unfolding exit_queues
sched_exit_all_ready_envs k = exit_queues k.num_of_ready_queues 0 k
