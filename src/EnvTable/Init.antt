-- ===== src/EnvTable/Init.antt =====
-- kern/user_environment.c: the table after `env_init` and some creations of environments.
use Prim.Native.Nat.{bit_or}
use fos_kernel.Prelude.{
  ℕ, zero, suc, ◌+◌, ◌-◌, ◌<◌, ◌≤◌, ◌≡◌, refl, sym, ap, ◌∙◌, Bool, true, ◌&&◌, Option, none, some,
  List, [], ◌∷◌, ◌++◌, ◌==◌, ==-refl, ==-ne, ==_iff, if◌then◌else◌, arith,
}
use native.Mathlib.Decide.{ℕ_discrete}
use fos_kernel.Sched.{env_free, env_new}
use fos_kernel.EnvTable.{
  EnvTable, nenv, set_env, init_below, env_init, allocate_environment, initialize_directory,
  next_generation, first_generation, complete_environment_initialization,
}

-- A property of numbers that is checked one by one.
unfoldable pub all_below : ℕ → (ℕ → Bool) → Bool
all_below zero p = true
all_below (suc n) p = p n && all_below n p

pub all_below_holds : (n : ℕ) (p : ℕ → Bool) (x : ℕ) → all_below n p ≡ true → x < n → p x ≡ true
unfolding all_below
all_below_holds zero p x h lt = absurd (omega arith)
all_below_holds (suc n) p x h lt = ground (arith, all_below_holds n p x)

or_table : all_below nenv (λ i. bit_or first_generation i == first_generation + i) ≡ true
unfolding all_below
or_table = refl

pub first_id : (i : ℕ) → i < nenv → bit_or (next_generation 0) i ≡ 4096 + i
first_id i lt =
    (==_iff (bit_or first_generation i) (first_generation + i)).0
      (all_below_holds nenv (λ i. bit_or first_generation i == first_generation + i) i or_table lt)

-- `n` environments from `i` on.
abbrev pub count_up : ℕ → ℕ → List ℕ
count_up zero i = []
count_up (suc n) i = i ∷ count_up n (i + 1)

-- The calls of `env_create` that make an environment: it is allocated, its directory is set up from the
-- kernel's, and it is completed.
abbrev pub with_env : (ℕ → ℕ) → ℕ → Option (ℕ × EnvTable) → Option (ℕ × EnvTable)
with_env kernel_directory cr3 none = none
with_env kernel_directory cr3 (some (e, t)) =
    some (e, complete_environment_initialization e (initialize_directory kernel_directory cr3 e t))

unfoldable pub create : (ℕ → ℕ) → ℕ → EnvTable → Option (ℕ × EnvTable)
create kernel_directory cr3 t = with_env kernel_directory cr3 (allocate_environment t)

-- The environments below `n` were created, in order, and the others are free.
pub record Started (n : ℕ) (t : EnvTable) : Type 0 where
  pub free : t.env_free_list ≡ count_up (nenv - n) n
  pub used_id : (i : ℕ) → i < n → (t.envs i).env_id ≡ 4096 + i
  pub used_status : (i : ℕ) → i < n → (t.envs i).env_status ≡ env_new
  pub unused_id : (i : ℕ) → n ≤ i → i < nenv → (t.envs i).env_id ≡ 0
  pub unused_status : (i : ℕ) → n ≤ i → i < nenv → (t.envs i).env_status ≡ env_free

count_up-last : (n i : ℕ) → count_up (suc n) i ≡ count_up n i ++ (i + n) ∷ []
count_up-last zero i = ap (λ x. x ∷ []) (omega arith)
count_up-last (suc n) i =
    ap (λ l. i ∷ l) (count_up-last n (i + 1) ∙ ap (λ x. count_up n (i + 1) ++ x ∷ []) (omega arith))

append-one : (xs : List ℕ) (x : ℕ) (ys : List ℕ) → (xs ++ x ∷ []) ++ ys ≡ xs ++ x ∷ ys
append-one [] x ys = refl
append-one (y ∷ xs) x ys = ap (λ l. y ∷ l) (append-one xs x ys)

-- The loop of `env_init`.
init_free :
    (n : ℕ) (t : EnvTable) → (init_below n t).env_free_list ≡ count_up n 0 ++ t.env_free_list
unfolding init_below
init_free zero t = refl
init_free (suc n) t =
    let s = record (t.envs n) { env_status = env_free; env_id = 0 } in
    let j = set_env n s t in
    init_free n (record j { env_free_list = n ∷ j.env_free_list })
    ∙ sym (append-one (count_up n 0) n t.env_free_list)
    ∙ ap (λ l. l ++ t.env_free_list)
        (sym (count_up-last n 0 ∙ ap (λ x. count_up n 0 ++ x ∷ []) (omega arith)))

init_above : (n : ℕ) (t : EnvTable) (i : ℕ) → n ≤ i → (init_below n t).envs i ≡ t.envs i
unfolding init_below
init_above zero t i le = refl
init_above (suc n) t i le =
    let s = record (t.envs n) { env_status = env_free; env_id = 0 } in
    init_above n (record (set_env n s t) { env_free_list = n ∷ t.env_free_list }) i (omega arith)
    ∙ ap (λ b. if b then s else t.envs i) (==-ne i n (λ e. omega arith))

init_slots :
    (n : ℕ) (t : EnvTable) (i : ℕ)
    → i < n
    → (((init_below n t).envs i).env_id ≡ 0) × (((init_below n t).envs i).env_status ≡ env_free)
unfolding init_below
init_slots zero t i lt = absurd (omega arith)
init_slots (suc n) t i lt =
    let s = record (t.envs n) { env_status = env_free; env_id = 0 } in
    let j = record (set_env n s t) { env_free_list = n ∷ t.env_free_list } in
    elim (ℕ_discrete i n) [
      | yes e ↦
          let now : (init_below n j).envs i ≡ s =
            init_above n j i (omega (arith, e))
            ∙ ap (λ b. if b then s else t.envs i) (ap (λ x. x == n) e ∙ ==-refl n) in
          (ap (λ x. x.env_id) now, ap (λ x. x.env_status) now)
      | no ne ↦ init_slots n j i (omega arith)
    ]

pub env_init-Started : (t : EnvTable) → t.env_free_list ≡ [] → Started 0 (env_init t)
unfolding env_init
env_init-Started t empty = record {
  free = init_free nenv t ∙ ap (λ l. count_up nenv 0 ++ l) empty ∙ append_nil (count_up nenv 0);
  used_id = λ i lt. absurd (omega arith);
  used_status = λ i lt. absurd (omega arith);
  unused_id = λ i le lt. (init_slots nenv t i lt).0;
  unused_status = λ i le lt. (init_slots nenv t i lt).1;
}
  where
    append_nil : (l : List ℕ) → l ++ [] ≡ l
    append_nil [] = refl
    append_nil (x ∷ l) = ap (λ r. x ∷ r) (append_nil l)
