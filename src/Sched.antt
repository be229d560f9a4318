-- ===== src/Sched.antt =====
-- kern/sched.c: the state of the scheduler, its queues, and the ways in which a call ends.
-- A queue is the sequence that its `LIST_HEAD` stands for, first element first; Refine relates it to the
-- macros. An environment is the address of its `struct Env`, and 0 is NULL.
pub mod Queues
pub mod Select
pub mod Admin
pub mod Fifo
pub mod RoundRobin
pub mod RunAll
pub mod Exit
pub mod Kill
pub mod Mlfq
pub mod Refine
mod Tests
use fos_kernel.Prelude.{
  ℕ, zero, suc, Bool, true, false, Option, none, some, List, [], ◌∷◌, ◌++◌, length, get_or, set,
  ◌==◌, if◌then◌else◌,
}

pub data Method : Type 0 where
  sch_rr sch_mlfq : Method

pub data Status : Type 0 where
  sch_stopped sch_started : Status

-- `ENV_FREE` and the others of inc/environment_definitions.h.
pub data EnvStatus : Type 0 where
  env_free env_ready env_runnable env_blocked env_new env_exit env_unknown : EnvStatus

-- The fields of `struct Env` that the scheduler reads or writes.
pub record Env : Type 0 where
  pub env_id : ℕ
  pub env_status : EnvStatus
  pub env_runs : ℕ

pub record Kernel : Type 0 where
  pub envs : ℕ → Env
  pub env_new_queue : List ℕ
  pub env_exit_queue : List ℕ
  pub env_ready_queues : List (List ℕ)
  pub quantums : List ℕ
  pub num_of_ready_queues : ℕ
  pub scheduler_method : Method
  pub scheduler_status : Status
  pub curenv : ℕ
  pub cnt0 : ℕ × ℕ
  pub buffering : Bool
  -- What the next block of the kernel heap holds, read as ready queues.
  pub heap_block : List (List ℕ)
  -- The environments for which `cleanup_buffers` was called.
  pub cleaned : List ℕ

-- How control leaves a function that does not return: into an environment, into the command prompt,
-- into `panic`, by a fault of the processor on NULL or on a division by zero, or never.
pub data Stop : Type 0 where
  run_env : ℕ → Stop
  command_prompt panicked null_fault divide_fault hangs : Stop

pub data Run (A : Type 0) : Type 0 where
  returns : A → Kernel → Run A
  stops : Stop → Kernel → Run A

abbrev pub Exec : Type 0 → Type 0
Exec A = Kernel → Run A

abbrev pub pure : {A : Type 0} → A → Exec A
pure a k = returns a k

abbrev pub and_then : {A B : Type 0} → Run A → (A → Exec B) → Run B
and_then (returns a k) f = f a k
and_then (stops s k) f = stops s k

infixl 5 ◌>>=◌ ◌>>◌
abbrev pub ◌>>=◌ : {A B : Type 0} → Exec A → (A → Exec B) → Exec B
◌>>=◌ m f k = and_then (m k) f

abbrev pub ◌>>◌ : {B : Type 0} → Exec (Unit {0}) → Exec B → Exec B
m >> n = m >>= λ _. n

abbrev pub modify : (Kernel → Kernel) → Exec (Unit {0})
modify f k = returns tt (f k)

abbrev pub stop : {A : Type 0} → Stop → Exec A
stop s k = stops s k

-- Reading a field through NULL faults.
abbrev pub deref : ℕ → Exec Env
deref e k = if e == 0 then stops null_fault k else returns (k.envs e) k

abbrev pub update_env : ℕ → (Env → Env) → Kernel → Kernel
update_env e f k = record k { envs = λ a. if a == e then f (k.envs a) else k.envs a }

abbrev pub set_status : ℕ → EnvStatus → Kernel → Kernel
set_status e s = update_env e (λ v. record v { env_status = s })

abbrev pub ready : Kernel → ℕ → List ℕ
ready k i = get_or k.env_ready_queues i []

abbrev pub set_ready : ℕ → List ℕ → Kernel → Kernel
set_ready i q k = record k { env_ready_queues = set k.env_ready_queues i q }
