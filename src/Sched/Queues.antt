-- ===== src/Sched/Queues.antt =====
-- kern/sched.c: the helper functions on one queue, and the moves between queues.
use fos_kernel.Prelude.{ℕ, zero, suc, ◌+◌, List, [], ◌∷◌, length, ◌==◌, if◌then◌else◌}
use fos_kernel.Sched.{
  env_ready, env_unknown, env_new, env_exit, Env, Kernel, Exec, modify, pure, set_status, ready,
  set_ready,
}

-- `LIST_REMOVE` on the sequence: the element, at its place.
unfoldable pub list_remove : ℕ → List ℕ → List ℕ
list_remove e [] = []
list_remove e (x ∷ xs) = if e == x then xs else x ∷ list_remove e xs

-- `LIST_LAST`
abbrev pub list_last : List ℕ → ℕ
list_last [] = 0
list_last (x ∷ []) = x
list_last (x ∷ y ∷ xs) = list_last (y ∷ xs)

unfoldable pub init_queue : List ℕ → List ℕ
init_queue queue = []

unfoldable pub queue_size : List ℕ → ℕ
queue_size queue = length queue

unfoldable pub enqueue : List ℕ → ℕ → List ℕ
enqueue queue env = if env == 0 then queue else env ∷ queue

-- The environment that leaves, or NULL, and the queue that is left.
unfoldable pub dequeue : List ℕ → ℕ × List ℕ
unfolding list_remove
dequeue queue =
    let env_item = list_last queue in
    if env_item == 0 then (0, queue) else (env_item, list_remove env_item queue)

unfoldable pub remove_from_queue : List ℕ → ℕ → List ℕ
unfolding list_remove
remove_from_queue queue e = if e == 0 then queue else list_remove e queue

unfoldable pub find_env_in_queue : (ℕ → Env) → List ℕ → ℕ → ℕ
find_env_in_queue envs [] id = 0
find_env_in_queue envs (x ∷ xs) id =
    if (envs x).env_id == id then x else find_env_in_queue envs xs id

unfoldable pub sched_insert_ready : ℕ → Exec (Unit {0})
unfolding enqueue
sched_insert_ready env k =
    if env == 0
    then pure tt k
    else modify (λ j. set_ready 0 (enqueue (ready j 0) env) (set_status env env_ready j)) k

-- The loop from queue `i` on, with `left` queues to go.
unfoldable pub remove_ready_from : ℕ → ℕ → ℕ → Kernel → Kernel
unfolding find_env_in_queue list_remove
remove_ready_from zero i env k = k
remove_ready_from (suc left) i env k =
    if find_env_in_queue k.envs (ready k i) (k.envs env).env_id == 0
    then remove_ready_from left (i + 1) env k
    else set_status env env_unknown (set_ready i (list_remove env (ready k i)) k)

unfoldable pub sched_remove_ready : ℕ → Exec (Unit {0})
unfolding remove_ready_from
sched_remove_ready env k =
    if env == 0 then pure tt k else modify (remove_ready_from k.num_of_ready_queues 0 env) k

unfoldable pub sched_insert_new : ℕ → Exec (Unit {0})
unfolding enqueue
sched_insert_new env k =
    if env == 0
    then pure tt k
    else modify
        (λ j. record (set_status env env_new j) { env_new_queue = enqueue j.env_new_queue env }) k

unfoldable pub sched_remove_new : ℕ → Exec (Unit {0})
unfolding list_remove
sched_remove_new env k =
    if env == 0
    then pure tt k
    else modify
        (λ j.
          set_status env env_unknown (record j { env_new_queue = list_remove env j.env_new_queue }))
        k

unfoldable pub sched_insert_exit : ℕ → Exec (Unit {0})
unfolding enqueue
sched_insert_exit env k =
    if env == 0
    then pure tt k
    else modify
        (λ j. record (set_status env env_exit j) {
          cleaned = if j.buffering then env ∷ j.cleaned else j.cleaned;
          env_exit_queue = enqueue j.env_exit_queue env;
        })
        k

unfoldable pub sched_remove_exit : ℕ → Exec (Unit {0})
unfolding list_remove
sched_remove_exit env k =
    if env == 0
    then pure tt k
    else modify
        (λ j.
          set_status env env_unknown
            (record j { env_exit_queue = list_remove env j.env_exit_queue }))
        k

-- `sched_new_env`
unfoldable pub sched_new_env : ℕ → Exec (Unit {0})
unfolding sched_insert_new
sched_new_env e k = if e == 0 then pure tt k else sched_insert_new e k
