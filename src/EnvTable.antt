-- ===== src/EnvTable.antt =====
-- kern/user_environment.c and kern/helpers.c: the table of environments, their free list and their ids.
-- An environment is its index in `envs`. A 32-bit number is its bits.
pub mod Init
pub mod Ids
mod Tests
use Prim.Native.Nat.{bit_and, bit_or}
use fos_kernel.Prelude.{
  ℕ, zero, suc, ◌+◌, ◌-◌, ◌*◌, ◌/◌, ◌%◌, ◌^◌, Bool, true, false, not, ◌&&◌, Option, none, some,
  List, [], ◌∷◌, ltb, leb, ◌==◌, if◌then◌else◌,
}
use fos_kernel.Sched.{EnvStatus, env_free, env_new, env_unknown}

-- The part of `struct Trapframe` that an environment starts with; the other registers are 0.
pub record Trapframe : Type 0 where
  pub ds : ℕ
  pub es : ℕ
  pub ss : ℕ
  pub esp : ℕ
  pub cs : ℕ
  pub eflags : ℕ
  pub eip : ℕ

pub record EnvSlot : Type 0 where
  pub env_tf : Trapframe
  pub env_id : ℕ
  pub env_parent_id : ℕ
  pub env_status : EnvStatus
  pub env_runs : ℕ
  pub env_page_directory : ℕ → ℕ
  pub env_cr3 : ℕ
  pub disk_env_pgdir : ℕ
  pub disk_env_tabledir : ℕ

pub record EnvTable : Type 0 where
  pub envs : ℕ → EnvSlot
  pub env_free_list : List ℕ
  pub curenv : Option ℕ

-- `sizeof(struct Env)` is 828: 68 bytes of registers, the list link, 12 words up to `ptr_pageWorkingSet`,
-- 50 elements of 12 bytes, 8 words of counters, 64 bytes of name and 2 words.
abbrev pub sizeof_env : ℕ
sizeof_env = 68 + 8 + 12 * 4 + 50 * 12 + 8 * 4 + 64 + 2 * 4

-- `(PTSIZE / 4) / sizeof(struct Env)`
abbrev pub nenv : ℕ
nenv = 2 ^ 22 / 4 / sizeof_env

abbrev pub envx : ℕ → ℕ
envx envid = bit_and envid (nenv - 1)

abbrev pub set_env : ℕ → EnvSlot → EnvTable → EnvTable
set_env e s t = record t { envs = λ n. if n == e then s else t.envs n }

-- The loop of `env_init`, with the environments below `n` left.
unfoldable pub init_below : ℕ → EnvTable → EnvTable
init_below zero t = t
init_below (suc n) t =
    let s = record (t.envs n) { env_status = env_free; env_id = 0 } in
    let j = set_env n s t in init_below n (record j { env_free_list = n ∷ j.env_free_list })

unfoldable pub env_init : EnvTable → EnvTable
env_init t = init_below nenv t

abbrev pub first_free : List ℕ → EnvTable → Option (ℕ × EnvTable)
first_free [] t = none
first_free (e ∷ es) t = some (e, set_env e (record (t.envs e) { env_status = env_unknown }) t)

-- none is E_NO_FREE_ENV. The environment stays in the free list for now.
unfoldable pub allocate_environment : EnvTable → Option (ℕ × EnvTable)
allocate_environment t = first_free t.env_free_list t

abbrev pub no_registers : Trapframe
no_registers = record { ds = 0; es = 0; ss = 0; esp = 0; cs = 0; eflags = 0; eip = 0 }

-- The structure after `memset(e, 0, sizeof(*e))`
abbrev pub blank : EnvSlot
blank = record {
  env_tf = no_registers;
  env_id = 0;
  env_parent_id = 0;
  env_status = env_free;
  env_runs = 0;
  env_page_directory = λ i. 0;
  env_cr3 = 0;
  disk_env_pgdir = 0;
  disk_env_tabledir = 0;
}

unfoldable pub free_environment : ℕ → EnvTable → EnvTable
free_environment e t = let j = set_env e blank t in record j { env_free_list = e ∷ j.env_free_list }

-- The first part of `initialize_environment`: the user part of the directory is empty, the rest is the kernel's.
unfoldable pub initialize_directory : (ℕ → ℕ) → ℕ → ℕ → EnvTable → EnvTable
initialize_directory kernel_directory cr3 e t =
    set_env e
      (record (t.envs e) {
        env_page_directory = λ i. if ltb i 955 then 0 else kernel_directory i;
        env_cr3 = cr3;
      })
      t

abbrev pub put : (ℕ → ℕ) → ℕ → ℕ → ℕ → ℕ
put f i v j = if j == i then v else f j

-- `1 << ENVGENSHIFT`
abbrev pub first_generation : ℕ
first_generation = 2 ^ 12

-- An `int32` that is 0 or negative.
abbrev pub is_not_positive : ℕ → Bool
is_not_positive g = if g == 0 then true else leb (2 ^ 31) g

abbrev pub next_generation : ℕ → ℕ
next_generation id =
    let g = bit_and ((id + first_generation) % 2 ^ 32) (2 ^ 32 - 1 - (nenv - 1)) in
    if is_not_positive g then first_generation else g

abbrev pub parent_of : Option ℕ → EnvTable → ℕ
parent_of none t = 0
parent_of (some c) t = (t.envs c).env_id

unfoldable pub remove : ℕ → List ℕ → List ℕ
remove e [] = []
remove e (x ∷ xs) = if x == e then xs else x ∷ remove e xs

-- `GD_UD | 3`, `USTACKTOP`, `GD_UT | 3` and `FL_IF`
abbrev pub user_registers : Trapframe
user_registers = record {
  ds = 35;
  es = 35;
  ss = 35;
  esp = 0xEEBFE000;
  cs = 27;
  eflags = 512;
  eip = 0;
}

-- `PDX(VPT)` and `PDX(UVPT)`
abbrev pub pdx_vpt : ℕ
pdx_vpt = 959

abbrev pub pdx_uvpt : ℕ
pdx_uvpt = 957

unfoldable pub complete_environment_initialization : ℕ → EnvTable → EnvTable
complete_environment_initialization e t =
    let s = t.envs e in
    let id = bit_or (next_generation s.env_id) e in
    let done = record s {
      env_page_directory =
          put (put s.env_page_directory pdx_vpt (bit_or s.env_cr3 3)) pdx_uvpt (bit_or s.env_cr3 5);
      disk_env_pgdir = 0;
      disk_env_tabledir = 0;
      env_id = id;
      env_parent_id = parent_of t.curenv (set_env e (record s { env_id = id }) t);
      env_status = env_new;
      env_runs = 0;
      env_tf = user_registers;
    } in
    let j = set_env e done t in record j { env_free_list = remove e j.env_free_list }

-- `envid2env` stores an environment (or NULL, for id 0 without a current one), fails with E_BAD_ENV, or
-- faults as it reads the id of a current environment that is not there.
pub data Lookup : Type 0 where
  found : Option ℕ → Lookup
  bad_env faults : Lookup

abbrev pub is_free : EnvStatus → Bool
is_free env_free = true
is_free _ = false

abbrev pub check_child : ℕ → Option ℕ → EnvTable → Lookup
check_child e none t = faults
check_child e (some c) t =
    if e == c
    then found (some e)
    else if (t.envs e).env_parent_id == (t.envs c).env_id
    then found (some e)
    else bad_env

unfoldable pub envid2env : ℕ → Bool → EnvTable → Lookup
envid2env envid checkperm t =
    if envid == 0
    then found t.curenv
    else if is_free (t.envs (envx envid)).env_status
    then bad_env
    else if not ((t.envs (envx envid)).env_id == envid)
    then bad_env
    else if checkperm
    then check_child (envx envid) t.curenv t
    else found (some (envx envid))
