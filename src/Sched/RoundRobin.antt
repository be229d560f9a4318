-- ===== src/Sched/RoundRobin.antt =====
-- Round robin in kern/sched.c: who runs next, and when each environment has its turn.
use mathlib.Core.List.{reverse, append_assoc}
use fos_kernel.Prelude.{
  ℕ, zero, suc, ◌≡◌, refl, ap, subst, inl, inr, Bool-cases, ◌∙◌, ◌≢◌, false, List, [], ◌∷◌, ◌++◌,
  length, get_or, arith, ◌==◌, ==-ne,
}
use fos_kernel.KClock.{programmed, kclock_set_quantum}
use fos_kernel.Queue.Chain.{has, Distinct, has-append, append-Distinct, ne_of_mem}
use fos_kernel.Sched.{sch_rr, sch_started, Kernel, Run, returns, stops, and_then, run_env}
use fos_kernel.Sched.Select.{fos_scheduler, pick_rr, pick, dispatch, env_run, set_quantum}
use fos_kernel.Sched.Fifo.{dequeue_oldest, enqueue_newest}

abbrev pub kernel_after : {A : Type 0} → Run A → Kernel
kernel_after (returns a k) = k
kernel_after (stops s k) = k

-- One clock interrupt, as far as the scheduler goes.
pub tick : Kernel → Kernel
tick k = kernel_after (fos_scheduler {A = Unit {0}} k)

pub ticks : ℕ → Kernel → Kernel
unfolding tick
ticks zero k = k
ticks (suc n) k = ticks n (tick k)

-- Environment `c` runs and the environments `ws` wait, the one that waits longest first.
pub record IsTurn (k : Kernel) (c : ℕ) (ws : List ℕ) : Type 0 where
  pub method : k.scheduler_method ≡ sch_rr
  pub current : k.curenv ≡ c
  pub others : List (List ℕ)
  pub waiting : k.env_ready_queues ≡ reverse ws ∷ others
  pub bytes : ℕ × ℕ
  pub quantum : kclock_set_quantum (get_or k.quantums 0 0) ≡ programmed bytes
  pub distinct : Distinct (c ∷ ws)
  pub no_null : has 0 (c ∷ ws) ≡ false

rotate-Distinct : (c w : ℕ) (ws : List ℕ) → Distinct (c ∷ w ∷ ws) → Distinct (w ∷ ws ++ c ∷ [])
rotate-Distinct c w ws d =
    append-Distinct (w ∷ ws) (c ∷ []) d.1 (refl, tt) (λ a i. ground (arith, ne_of_mem a c (w ∷ ws)))

rotate-has : (a c w : ℕ) (ws : List ℕ) → has a (w ∷ ws ++ c ∷ []) ≡ has a (c ∷ w ∷ ws)
rotate-has a c w ws = ground (arith, has-append a (w ∷ ws) (c ∷ []))

set_quantum-programmed :
    (q : ℕ) (bytes : ℕ × ℕ) (k : Kernel)
    → kclock_set_quantum q ≡ programmed bytes
    → set_quantum q k ≡ returns tt (record k { cnt0 = bytes })
unfolding set_quantum
set_quantum-programmed q bytes k e = rw (e, set_quantum)

abbrev picked : Kernel → List (List ℕ) → ℕ × ℕ → Kernel
picked k queues bytes = record k { env_ready_queues = queues; cnt0 = bytes }

pick_rr-turn :
    (k : Kernel) (c w : ℕ) (ws : List ℕ) (t : IsTurn k c (w ∷ ws))
    → pick_rr k ≡ returns w (picked k (reverse (ws ++ c ∷ []) ∷ t.others) t.bytes)
unfolding pick_rr
pick_rr-turn k c w ws t =
    let c_ne : c ≢ 0 = ground (arith, t.no_null) in
    let w_ne : w ≢ 0 = ground (arith, t.no_null) in
    let out : has w (ws ++ c ∷ []) ≡ false = (rotate-Distinct c w ws t.distinct).0 in
    rw (
      t.current,
      ==-ne c 0 c_ne,
      t.waiting,
      enqueue_newest (w ∷ ws) c c_ne,
      dequeue_oldest w (ws ++ c ∷ []) w_ne out,
      set_quantum-programmed (get_or k.quantums 0 0) t.bytes _ t.quantum,
    )

-- What `env_run` leaves: the environment is the current one, and only its own record changes.
pub env_run-stops :
    {A : Type 0} (e : ℕ) (k : Kernel)
    → (j : Kernel) × (env_run {A = A} e k ≡ stops (run_env e) j)
      × (j.curenv ≡ e)
      × (j.env_ready_queues ≡ k.env_ready_queues)
      × (j.scheduler_method ≡ k.scheduler_method)
      × (j.quantums ≡ k.quantums)
unfolding env_run
env_run-stops e k = elim (Bool-cases (k.curenv == e)) [
  | inl same ↦ rw same (_, refl, ground arith, refl, refl, refl)
  | inr other ↦ rw other (_, refl, refl, refl, refl, refl)
]

dispatch-runs : {A : Type 0} (e : ℕ) (k : Kernel) → e ≢ 0 → dispatch {A = A} e k ≡ env_run e k
unfolding dispatch
dispatch-runs e k ne = rw (==-ne e 0 ne)

module _ (k : Kernel) (c w : ℕ) (ws : List ℕ) (t : IsTurn k c (w ∷ ws)) where
  abbrev started : Kernel
  started = record k { scheduler_status = sch_started }

  abbrev started-turn : IsTurn started c (w ∷ ws)
  started-turn = record {
    method = t.method;
    current = t.current;
    others = t.others;
    waiting = t.waiting;
    bytes = t.bytes;
    quantum = t.quantum;
    distinct = t.distinct;
    no_null = t.no_null;
  }

  abbrev chosen : Kernel
  chosen = picked started (reverse (ws ++ c ∷ []) ∷ t.others) t.bytes

  schedules : {A : Type 0} → fos_scheduler {A = A} k ≡ env_run w chosen
  unfolding fos_scheduler pick
  schedules {A} =
      let w_ne : w ≢ 0 = ground (arith, t.no_null) in
      ap (λ m. and_then (pick m started) (dispatch {A = A})) t.method
      ∙ ap (λ r. and_then r (dispatch {A = A})) (pick_rr-turn started c w ws started-turn)
      ∙ dispatch-runs w chosen w_ne

  -- In round robin, with a running environment, a quantum that the timer can hold and no environment
  -- twice in the queue, `fos_scheduler` stops in the environment that has waited longest, and the
  -- one that ran waits behind the others, under the same conditions.
  pub fos_scheduler-turn :
      (fos_scheduler {A = Unit {0}} k ≡ stops (run_env w) (tick k))
      × IsTurn (tick k) w (ws ++ c ∷ [])
  unfolding tick
  fos_scheduler-turn =
      let (j, ran, current, queues, method, quanta) = env_run-stops {A = Unit {0}} w chosen in
      rw (schedules ∙ ran) (
        refl,
        record {
          method = method ∙ t.method;
          current = current;
          others = t.others;
          waiting = queues;
          bytes = t.bytes;
          quantum = ap (λ q. kclock_set_quantum (get_or q 0 0)) quanta ∙ t.quantum;
          distinct = rotate-Distinct c w ws t.distinct;
          no_null = rotate-has 0 c w ws ∙ t.no_null;
        },
      )

-- In round robin, with a running environment, a quantum that the timer can hold and no environment
-- twice in the queue, nobody starves: an environment with `n` others before it in the queue runs
-- after the scheduler has been called `n + 1` times.
pub ticks-turn :
    (k : Kernel) (c e : ℕ) (xs ys : List ℕ)
    → IsTurn k c (xs ++ e ∷ ys)
    → (ticks (suc (length xs)) k).curenv ≡ e
unfolding ticks
ticks-turn k c e [] ys t = (fos_scheduler-turn k c e ys t).1.current
ticks-turn k c e (x ∷ xs) ys t = ticks-turn (tick k) x e xs (ys ++ c ∷ []) (
    subst (IsTurn (tick k) x) (append_assoc xs (e ∷ ys) (c ∷ []))
      (fos_scheduler-turn k c x (xs ++ e ∷ ys) t).1)
