-- ===== src/Sched/Mlfq.antt =====
-- `fos_scheduler_MLFQ` of kern/sched.c.
use fos_kernel.Prelude.{
  ℕ, zero, suc, ◌+◌, ◌*◌, ◌%◌, ◌<◌, ◌≤◌, ◌≡◌, refl, ap, ◌∙◌, ◌≢◌, Bool, true, false, [], arith,
  ◌==◌, ==-ne, if◌then◌else◌, ltb, Bool-cases, inl, inr, get_or,
}
use fos_kernel.Sched.{
  Kernel, sch_mlfq, sch_started, sch_stopped, Run, returns, stops, command_prompt, ready, set_ready,
  and_then,
}
use fos_kernel.Sched.Queues.{queue_size, dequeue}
use fos_kernel.Sched.Select.{
  mlfq_loop, mlfq_rounds, fos_scheduler_mlfq, pick, dispatch, fos_scheduler,
}

abbrev pub Returns : Run ℕ → Type 0
Returns r = (next : ℕ) × (j : Kernel) × (r ≡ returns next j)

Returns-if : (b : Bool) (r s : Run ℕ) → Returns r → Returns s → Returns (if b then r else s)
Returns-if true r s p q = p
Returns-if false r s p q = q

mlfq_loop-Returns :
    (fuel i : ℕ) (k : Kernel)
    → k.num_of_ready_queues ≤ 254
    → i ≤ k.num_of_ready_queues + 1
    → k.num_of_ready_queues + 1 < i + fuel
    → Returns (mlfq_loop fuel i k)
unfolding mlfq_loop
mlfq_loop-Returns zero i k small near enough = absurd (omega arith)
mlfq_loop-Returns (suc fuel) i k small near enough =
    elim (Bool-cases (ltb i k.num_of_ready_queues)) [
      | inl more ↦
          let below : i < k.num_of_ready_queues = ground (arith) in
          let one : (i + 1) % 256 ≡ i + 1 = omega arith in
          let two : (i + 2) % 256 ≡ i + 2 = omega arith in
          rw (more, one, two)
            (Returns-if (ltb 0 (queue_size (ready k i))) _ _
              (Returns-if ((dequeue (ready k i)).0 == 0) _ _
                (mlfq_loop-Returns fuel (i + 1) k small (omega arith) (omega arith))
                ((dequeue (ready k i)).0, set_ready i (dequeue (ready k i)).1 k, refl))
              (mlfq_loop-Returns fuel (i + 2) k small (omega arith) (omega arith)))
      | inr done ↦ (0, k, rw done refl)
    ]

abbrev with_block : Kernel → Kernel
with_block k = record k { env_ready_queues = k.heap_block }

-- With at most 254 ready queues, `fos_scheduler_MLFQ` returns: the loop over its `uint8` counter
-- ends.
pub fos_scheduler_mlfq-Returns :
    (k : Kernel) → k.num_of_ready_queues ≤ 254 → Returns (fos_scheduler_mlfq k)
unfolding fos_scheduler_mlfq
fos_scheduler_mlfq-Returns k small =
    Returns-if (k.curenv == 0) (mlfq_loop mlfq_rounds 0 (with_block k)) (returns 0 (with_block k))
      (mlfq_loop-Returns mlfq_rounds 0 (with_block k) small (omega arith) (omega arith))
      (0, with_block k, refl)

abbrev pub to_prompt : Kernel → Kernel
to_prompt k = record k {
  env_ready_queues = k.heap_block;
  curenv = 0;
  scheduler_status = sch_stopped;
}

-- With the multilevel method and a running environment, the scheduler goes to the command prompt
-- with no running environment, and the ready queues are those of the block that the heap gives.
pub fos_scheduler-mlfq_drops :
    {A : Type 0} (k : Kernel)
    → k.scheduler_method ≡ sch_mlfq
    → k.curenv ≢ 0
    → fos_scheduler {A = A} k ≡ stops command_prompt (to_prompt k)
unfolding fos_scheduler pick fos_scheduler_mlfq dispatch
fos_scheduler-mlfq_drops k method cur = rw (method, ==-ne k.curenv 0 cur) refl

mlfq_loop-even :
    (fuel i : ℕ) (k : Kernel)
    → k.num_of_ready_queues ≤ 254
    → ((h : ℕ) → h * 2 < k.num_of_ready_queues → ready k (h * 2) ≡ [])
    → i * 2 ≤ k.num_of_ready_queues + 1
    → k.num_of_ready_queues + 1 < i * 2 + fuel
    → mlfq_loop fuel (i * 2) k ≡ returns 0 k
unfolding mlfq_loop queue_size
mlfq_loop-even zero i k small empty near enough = absurd (omega arith)
mlfq_loop-even (suc fuel) i k small empty near enough =
    elim (Bool-cases (ltb (i * 2) k.num_of_ready_queues)) [
      | inl more ↦
          let below : i * 2 < k.num_of_ready_queues = ground arith in
          let two : (i * 2 + 2) % 256 ≡ (i + 1) * 2 = omega arith in
          rw (more, two, empty i below)
            (mlfq_loop-even fuel (i + 1) k small empty (omega arith) (omega arith))
      | inr done ↦ rw done refl
    ]

-- With the multilevel method, at most 254 ready queues, no running environment and empty queues at
-- the even levels of the block that the heap gives, the scheduler goes to the command prompt,
-- whatever waits at the odd levels.
pub fos_scheduler-mlfq_skips :
    {A : Type 0} (k : Kernel)
    → k.scheduler_method ≡ sch_mlfq
    → k.curenv ≡ 0
    → k.num_of_ready_queues ≤ 254
    → ((h : ℕ) → h * 2 < k.num_of_ready_queues → get_or k.heap_block (h * 2) [] ≡ [])
    → fos_scheduler {A = A} k ≡ stops command_prompt (to_prompt k)
unfolding fos_scheduler pick fos_scheduler_mlfq dispatch
fos_scheduler-mlfq_skips {A} k method none small empty =
    let started = record k { scheduler_status = sch_started } in
    let found =
      mlfq_loop-even mlfq_rounds 0 (with_block started) small empty (omega arith) (omega arith) in
    ap (λ m. and_then (pick m started) (dispatch {A = A})) method
    ∙ ap
        (λ c.
          and_then
            (if c == 0
              then mlfq_loop mlfq_rounds 0 (with_block started)
              else returns 0 (with_block started))
            (dispatch {A = A}))
        none
    ∙ ap (λ r. and_then r (dispatch {A = A})) found
