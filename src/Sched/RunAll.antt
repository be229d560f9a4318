-- ===== src/Sched/RunAll.antt =====
-- `sched_run_all` of kern/sched.c.
use mathlib.Core.List.{reverse, reverse-cons, append_assoc}
use fos_kernel.Prelude.{
  ℕ, ◌≡◌, refl, sym, ap, ◌∙◌, ◌≢◌, false, List, [], ◌∷◌, ◌++◌, arith, ◌==◌, ==-ne, ==-refl,
  if◌then◌else◌,
}
use fos_kernel.Queue.Chain.{has}
use fos_kernel.Sched.{env_ready, env_unknown, Kernel, returns, and_then, set_status}
use fos_kernel.Sched.Queues.{list_remove, enqueue, sched_insert_ready, sched_remove_new}
use fos_kernel.Sched.Admin.{run_each, start_if_stopped, sched_run_all}

-- `j` is `k` after the new environments `xs` have gone in front of the ready queue `q`.
pub record Moved (k : Kernel) (xs q : List ℕ) (others : List (List ℕ)) (j : Kernel) : Type 0 where
  pub new_empty : j.env_new_queue ≡ []
  pub ready_queues : j.env_ready_queues ≡ (reverse xs ++ q) ∷ others
  pub exit_same : j.env_exit_queue ≡ k.env_exit_queue
  pub current_same : j.curenv ≡ k.curenv
  pub status_same : j.scheduler_status ≡ k.scheduler_status
  pub made_ready :
      (a : ℕ) → (j.envs a).env_status ≡ (if has a xs then env_ready else (k.envs a).env_status)

abbrev step : ℕ → List ℕ → List (List ℕ) → Kernel → Kernel
step e es queues k = record (set_status e env_ready (set_status e env_unknown k)) {
  env_new_queue = es;
  env_ready_queues = queues;
}

move_one :
    (k : Kernel) (e : ℕ) (es q rest : List ℕ) (others : List (List ℕ))
    → e ≢ 0
    → k.env_new_queue ≡ e ∷ es
    → k.env_ready_queues ≡ q ∷ others
    → run_each (e ∷ rest) k ≡ run_each rest (step e es ((e ∷ q) ∷ others) k)
unfolding run_each sched_remove_new sched_insert_ready list_remove enqueue
move_one k e es q rest others ne new queues =
    rw (==-ne e 0 ne, new, ==-refl e, queues, ==-ne e 0 ne)

step_status :
    (k : Kernel) (e a : ℕ) (es : List ℕ) (queues : List (List ℕ))
    → ((step e es queues k).envs a).env_status
      ≡ (if a == e then env_ready else (k.envs a).env_status)
step_status k e a es queues = ground arith

run_each-Moved :
    (k : Kernel) (xs q : List ℕ) (others : List (List ℕ))
    → has 0 xs ≡ false
    → k.env_new_queue ≡ xs
    → k.env_ready_queues ≡ q ∷ others
    → (j : Kernel) × (run_each xs k ≡ returns tt j) × Moved k xs q others j
unfolding run_each
run_each-Moved k [] q others nz new queues = (
  k,
  refl,
  record {
    new_empty = new;
    ready_queues = queues;
    exit_same = refl;
    current_same = refl;
    status_same = refl;
    made_ready = λ a. refl;
  },
)
run_each-Moved k (e ∷ es) q others nz new queues =
    let k1 = step e es ((e ∷ q) ∷ others) k in
    let (j, ran, m) = run_each-Moved k1 es (e ∷ q) others (ground arith) refl refl in
    (
      j,
      move_one k e es q es others (ground arith) new queues ∙ ran,
      record {
        new_empty = m.new_empty;
        ready_queues =
            m.ready_queues
            ∙ ap (λ (l : List ℕ). l ∷ others)
                (sym (
                  ap (λ (l : List ℕ). l ++ q) (reverse-cons e es)
                  ∙ append_assoc (reverse es) (e ∷ []) q));
        exit_same = m.exit_same;
        current_same = m.current_same;
        status_same = m.status_same;
        made_ready = λ a. ground (arith, m.made_ready a, step_status k e a es ((e ∷ q) ∷ others));
      },
    )

-- `sched_run_all` empties a NEW queue without NULL: its environments are ready and stand in the
-- first ready queue in reverse order, in front of those that were there, the other queues, the other
-- statuses and the running environment stay, and the scheduler is started if it stands still.
pub sched_run_all_lem :
    (k : Kernel) (xs q : List ℕ) (others : List (List ℕ))
    → has 0 xs ≡ false
    → k.env_new_queue ≡ xs
    → k.env_ready_queues ≡ q ∷ others
    → (j : Kernel) × (sched_run_all k ≡ start_if_stopped j) × Moved k xs q others j
unfolding sched_run_all
sched_run_all_lem k xs q others nz new queues =
    let (j, ran, m) = run_each-Moved k xs q others nz new queues in
    (
      j,
      ap (λ l. and_then (run_each l k) (λ _. start_if_stopped)) new
          ∙ ap (λ r. and_then r (λ _. start_if_stopped)) ran,
      m,
    )
