-- ===== src/Sched/Kill.antt =====
-- kern/sched.c: `sched_kill_env` and `sched_kill_all`.
use fos_kernel.Prelude.{
  ℕ, zero, suc, ◌+◌, ◌≡◌, refl, ap, ◌∙◌, ◌≢◌, Bool, true, false, List, [], ◌∷◌, ◌++◌, ◌==◌, ==-ne,
  ==-refl, if◌then◌else◌,
}
use fos_kernel.Queue.Chain.{has}
use fos_kernel.Sched.{
  Env, Kernel, Run, returns, stops, panicked, Exec, pure, modify, stop, deref, and_then, ready,
  set_ready, ◌>>=◌, ◌>>◌,
}
use fos_kernel.Sched.Queues.{list_remove, sched_remove_new, sched_remove_exit}
use fos_kernel.Sched.Select.{fos_scheduler}
use fos_kernel.Sched.Admin.{start_env_free, find_first}
use fos_kernel.Sched.Exit.{Misses, unlisted, sched_remove_new-at}

-- The loops over the NEW and the EXIT queue of `sched_kill_env`; the result is `found`.
unfoldable pub kill_new : ℕ → List ℕ → Bool → Exec Bool
unfolding start_env_free
kill_new id [] found k = pure found k
kill_new id (e ∷ es) found k =
    let hit = (sched_remove_new e >> start_env_free e >> kill_new id es true) k in
    if (k.envs e).env_id == id then hit else kill_new id es found k

unfoldable pub kill_exit : ℕ → List ℕ → Bool → Exec Bool
unfolding start_env_free
kill_exit id [] found k = pure found k
kill_exit id (e ∷ es) found k =
    let hit = (sched_remove_exit e >> start_env_free e >> kill_exit id es true) k in
    if (k.envs e).env_id == id then hit else kill_exit id es found k

unfoldable pub kill_ready : ℕ → ℕ → ℕ → Exec Bool
unfolding find_first list_remove start_env_free
kill_ready id zero i k = pure false k
kill_ready id (suc left) i k =
    let e = find_first k.envs id (ready k i) in
    if e == 0
    then kill_ready id left (i + 1) k
    else (start_env_free e >> pure true) (set_ready i (list_remove e (ready k i)) k)

-- The running environment: the assertion compares its id with `ENV_RUNNABLE`, which is 2.
unfoldable pub kill_current : ℕ → Exec (Unit {0})
unfolding start_env_free
kill_current id k = and_then (deref k.curenv k) (λ current.
    if current.env_id == id
    then if current.env_id == 2 then start_env_free k.curenv else stop panicked
    else pure tt)

-- The end of `sched_kill_env`. `lcr3` loads the page directory of the kernel.
unfoldable pub kill_end : ℕ → Exec (Unit {0})
kill_end id k = and_then (deref k.curenv k) (λ current.
    if current.env_id == id then (λ j. fos_scheduler (record j { curenv = 0 })) else pure tt)

unfoldable pub sched_kill_env : ℕ → Exec (Unit {0})
unfolding kill_new kill_ready kill_exit kill_current kill_end
sched_kill_env id k =
    (do
      in_new ← kill_new id k.env_new_queue false
      in_ready ← (if in_new then pure true else kill_ready id k.num_of_ready_queues 0)
      in_exit ← (if in_ready then pure true else kill_exit id k.env_exit_queue false)
      (if in_exit then pure tt else kill_current id)
      kill_end id)
      k

-- The loops of `sched_kill_all`.
unfoldable pub kill_all_new : List ℕ → Exec (Unit {0})
unfolding start_env_free
kill_all_new [] = pure tt
kill_all_new (e ∷ es) = sched_remove_new e >> start_env_free e >> kill_all_new es

unfoldable pub kill_all_exit : List ℕ → Exec (Unit {0})
unfolding start_env_free
kill_all_exit [] = pure tt
kill_all_exit (e ∷ es) = sched_remove_exit e >> start_env_free e >> kill_all_exit es

unfoldable pub kill_all_queue : ℕ → List ℕ → Exec (Unit {0})
unfolding list_remove start_env_free
kill_all_queue i [] = pure tt
kill_all_queue i (e ∷ es) =
    modify (λ k. set_ready i (list_remove e (ready k i)) k)
    >> start_env_free e
    >> kill_all_queue i es

unfoldable pub kill_all_ready : ℕ → ℕ → Exec (Unit {0})
unfolding kill_all_queue
kill_all_ready zero i = pure tt
kill_all_ready (suc left) i = (λ k. kill_all_queue i (ready k i) k) >> kill_all_ready left (i + 1)

unfoldable pub sched_kill_all : Exec (Unit {0})
unfolding kill_all_new kill_all_ready kill_all_exit
sched_kill_all =
    (λ k. kill_all_new k.env_new_queue k)
    >> ((λ k. kill_all_ready k.num_of_ready_queues 0 k)
        >> ((λ k. kill_all_exit k.env_exit_queue k) >> λ k.
            fos_scheduler (record k { curenv = 0 })))

kill_new-skips :
    (id : ℕ) (xs ys : List ℕ) (k : Kernel)
    → Misses k.envs id xs
    → kill_new id (xs ++ ys) false k ≡ kill_new id ys false k
unfolding kill_new
kill_new-skips id [] ys k m = refl
kill_new-skips id (x ∷ xs) ys k m =
    rw (==-ne (k.envs x).env_id id m.0) (kill_new-skips id xs ys k m.1)

kill_new-hit :
    (id e : ℕ) (xs ys : List ℕ) (k : Kernel)
    → e ≢ 0
    → k.env_new_queue ≡ xs ++ e ∷ ys
    → has e xs ≡ false
    → (k.envs e).env_id ≡ id
    → kill_new id (e ∷ ys) false k ≡ stops panicked (unlisted e (xs ++ ys) k)
unfolding kill_new start_env_free
kill_new-hit id e xs ys k ne new out same =
    rw (same, ==-refl id)
      (ap
        (λ (r : Run (Unit {0})).
          and_then (and_then r (λ _. start_env_free e)) (λ _. kill_new id ys true))
        (sched_remove_new-at e xs ys k ne new out))

kill_new-Misses :
    (id : ℕ) (xs : List ℕ) (k : Kernel)
    → Misses k.envs id xs
    → kill_new id xs false k ≡ returns false k
unfolding kill_new
kill_new-Misses id [] k m = refl
kill_new-Misses id (x ∷ xs) k m = rw (==-ne (k.envs x).env_id id m.0) (kill_new-Misses id xs k m.1)

kill_exit-Misses :
    (id : ℕ) (xs : List ℕ) (k : Kernel)
    → Misses k.envs id xs
    → kill_exit id xs false k ≡ returns false k
unfolding kill_exit
kill_exit-Misses id [] k m = refl
kill_exit-Misses id (x ∷ xs) k m =
    rw (==-ne (k.envs x).env_id id m.0) (kill_exit-Misses id xs k m.1)

find_first-Misses :
    (envs : ℕ → Env) (id : ℕ) (xs : List ℕ) → Misses envs id xs → find_first envs id xs ≡ 0
unfolding find_first
find_first-Misses envs id [] m = refl
find_first-Misses envs id (x ∷ xs) m =
    rw (==-ne (envs x).env_id id m.0) (find_first-Misses envs id xs m.1)

kill_ready-Misses :
    (id left i : ℕ) (k : Kernel)
    → ((q : ℕ) → Misses k.envs id (ready k q))
    → kill_ready id left i k ≡ returns false k
unfolding kill_ready
kill_ready-Misses id zero i k m = refl
kill_ready-Misses id (suc left) i k m =
    rw (find_first-Misses k.envs id (ready k i) (m i)) (kill_ready-Misses id left (i + 1) k m)

kill_current-other :
    (id : ℕ) (k : Kernel)
    → k.curenv ≢ 0
    → (k.envs k.curenv).env_id ≢ id
    → kill_current id k ≡ returns tt k
unfolding kill_current
kill_current-other id k cur other =
    rw (==-ne k.curenv 0 cur, ==-ne (k.envs k.curenv).env_id id other) refl

kill_end-other :
    (id : ℕ) (k : Kernel)
    → k.curenv ≢ 0
    → (k.envs k.curenv).env_id ≢ id
    → kill_end id k ≡ returns tt k
unfolding kill_end
kill_end-other id k cur other =
    rw (==-ne k.curenv 0 cur, ==-ne (k.envs k.curenv).env_id id other) refl

-- `sched_kill_env` of an environment in the NEW queue, with none of its id in front of it, panics
-- when the environment is out of the queue.
pub sched_kill_env-new :
    (id e : ℕ) (xs ys : List ℕ) (k : Kernel)
    → e ≢ 0
    → k.env_new_queue ≡ xs ++ e ∷ ys
    → has e xs ≡ false
    → Misses k.envs id xs
    → (k.envs e).env_id ≡ id
    → sched_kill_env id k ≡ stops panicked (unlisted e (xs ++ ys) k)
unfolding sched_kill_env
sched_kill_env-new id e xs ys k ne new out before same =
    ap
      (λ r. and_then r (λ in_new. (do
        in_ready ← (if in_new then pure true else kill_ready id k.num_of_ready_queues 0)
        in_exit ← (if in_ready then pure true else kill_exit id k.env_exit_queue false)
        (if in_exit then pure tt else kill_current id)
        kill_end id)))
      (ap (λ l. kill_new id l false k) new
        ∙ kill_new-skips id xs (e ∷ ys) k before
        ∙ kill_new-hit id e xs ys k ne new out same)

-- `sched_kill_env` of an id that no environment in the queues has, nor the running one, returns and
-- changes nothing.
pub sched_kill_env-absent :
    (id : ℕ) (k : Kernel)
    → Misses k.envs id k.env_new_queue
    → ((q : ℕ) → Misses k.envs id (ready k q))
    → Misses k.envs id k.env_exit_queue
    → k.curenv ≢ 0
    → (k.envs k.curenv).env_id ≢ id
    → sched_kill_env id k ≡ returns tt k
unfolding sched_kill_env
sched_kill_env-absent id k new queues exit cur other =
    rw
      (
        kill_new-Misses id k.env_new_queue k new,
        kill_ready-Misses id k.num_of_ready_queues 0 k queues,
        kill_exit-Misses id k.env_exit_queue k exit,
        kill_current-other id k cur other,
      )
      (kill_end-other id k cur other)
