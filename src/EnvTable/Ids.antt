-- ===== src/EnvTable/Ids.antt =====
-- kern/user_environment.c and kern/helpers.c: the ids of environments, and which of them `envid2env` finds.
use Prim.Native.Nat.{bit_and, bit_or}
use fos_kernel.Prelude.{
  ℕ, suc, ◌+◌, ◌-◌, ◌<◌, ◌≤◌, ◌≡◌, refl, sym, ap, ◌∙◌, ◌≢◌, Bool, true, false, not, ◌&&◌, Option,
  none, some, List, ◌∷◌, ltb, ◌==◌, ==-refl, ==-ne, if◌then◌else◌, arith, subst,
}
use native.Mathlib.Decide.{ℕ_discrete, dec_lt}
use fos_kernel.Sched.{env_new, env_unknown}
use fos_kernel.EnvTable.{
  EnvTable, nenv, envx, set_env, first_free, allocate_environment, initialize_directory,
  next_generation, remove, pdx_vpt, pdx_uvpt, complete_environment_initialization, free_environment,
  Lookup, found, bad_env, is_free, envid2env,
}
use fos_kernel.EnvTable.Init.{
  all_below, all_below_holds, first_id, count_up, with_env, create, Started,
}

-- What the last step of a creation leaves in the table.
pub record Made (e : ℕ) (kernel_directory : ℕ → ℕ) (cr3 : ℕ) (t j : EnvTable) : Type 0 where
  pub id : (j.envs e).env_id ≡ bit_or (next_generation (t.envs e).env_id) e
  pub status : (j.envs e).env_status ≡ env_new
  pub others : (i : ℕ) → i ≢ e → j.envs i ≡ t.envs i
  pub user : (i : ℕ) → i < 955 → (j.envs e).env_page_directory i ≡ 0
  pub kernel :
      (i : ℕ)
      → 955 ≤ i
      → i ≢ pdx_vpt
      → i ≢ pdx_uvpt
      → (j.envs e).env_page_directory i ≡ kernel_directory i
  pub own : (j.envs e).env_page_directory pdx_vpt ≡ bit_or cr3 3
  pub own_user : (j.envs e).env_page_directory pdx_uvpt ≡ bit_or cr3 5

-- `create` of the environment `e`, the first of the free list: the id is the next generation's, the user
-- part of the directory is empty and the kernel part is the kernel's, but for the two entries
-- under which the directory maps itself, the environment leaves the free list, and no other
-- environment changes.
pub create-Made :
    (e : ℕ) (rest : List ℕ) (kernel_directory : ℕ → ℕ) (cr3 : ℕ) (t : EnvTable)
    → t.env_free_list ≡ e ∷ rest
    → (j : EnvTable) × (create kernel_directory cr3 t ≡ some (e, j))
      × (j.env_free_list ≡ rest)
      × Made e kernel_directory cr3 t j
unfolding create allocate_environment initialize_directory complete_environment_initialization
    remove
create-Made e rest kernel_directory cr3 t first =
    let taken = set_env e (record (t.envs e) { env_status = env_unknown }) t in
    let j =
      complete_environment_initialization e (initialize_directory kernel_directory cr3 e taken) in
    let hit = ==-refl e in
    (
      j,
      ap (λ l. with_env kernel_directory cr3 (first_free l t)) first,
      ap (remove e) first ∙ ap (λ b. if b then rest else e ∷ remove e rest) hit,
      record {
        id = rw hit refl;
        status = rw hit refl;
        others = λ i ne. rw (==-ne i e ne) refl;
        user = λ i lt. rw hit (ground arith);
        kernel = λ i le not_vpt not_uvpt. rw hit (ground (arith, not_vpt, not_uvpt));
        own = rw hit refl;
        own_user = rw hit refl;
      },
    )

-- After `env_init` and `n` creations, the next one takes the environment `n` while there is one: its id is
-- 4096 + n, so no two environments share an id.
pub create-Started :
    (n : ℕ) (kernel_directory : ℕ → ℕ) (cr3 : ℕ) (t : EnvTable)
    → n < nenv
    → Started n t
    → (j : EnvTable) × (create kernel_directory cr3 t ≡ some (n, j)) × Started (n + 1) j
create-Started n kernel_directory cr3 t lt s =
    let left : nenv - n ≡ suc (nenv - (n + 1)) = omega arith in
    let first = s.free ∙ ap (λ k. count_up k n) left in
    let (j, is, free, made) =
      create-Made n (count_up (nenv - (n + 1)) (n + 1)) kernel_directory cr3 t first in
    let new_id : (j.envs n).env_id ≡ 4096 + n =
      made.id
      ∙ ap (λ x. bit_or (next_generation x) n) (s.unused_id n (omega arith) lt)
      ∙ first_id n lt in
    (
      j,
      is,
      record {
        free = free;
        used_id = λ i le. elim (ℕ_discrete i n) [
          | yes e ↦ subst (λ x. (j.envs x).env_id ≡ 4096 + x) (sym e) new_id
          | no ne ↦ ap (λ x. x.env_id) (made.others i ne) ∙ s.used_id i (omega arith)
        ];
        used_status = λ i le. elim (ℕ_discrete i n) [
          | yes e ↦ subst (λ x. (j.envs x).env_status ≡ env_new) (sym e) made.status
          | no ne ↦ ap (λ x. x.env_status) (made.others i ne) ∙ s.used_status i (omega arith)
        ];
        unused_id = λ i le hi.
            ap (λ x. x.env_id) (made.others i (λ e. omega arith)) ∙ s.unused_id i (omega arith) hi;
        unused_status = λ i le hi.
            ap (λ x. x.env_status) (made.others i (λ e. omega arith))
            ∙ s.unused_status i (omega arith) hi;
      },
    )

pub create-full :
    (kernel_directory : ℕ → ℕ) (cr3 : ℕ) (t : EnvTable)
    → Started nenv t
    → create kernel_directory cr3 t ≡ none
unfolding create allocate_environment
create-full kernel_directory cr3 t s =
    ap (λ l. with_env kernel_directory cr3 (first_free l t)) s.free

-- `ENVX` keeps the bits of an index that are in NENV - 1.
mask_table :
    all_below nenv
      (λ i. (envx (4096 + i) == bit_and i (nenv - 1)) && ltb (bit_and i (nenv - 1)) nenv)
    ≡ true
unfolding all_below
mask_table = refl

envx_masks :
    (i : ℕ) → i < nenv → (envx (4096 + i) ≡ bit_and i (nenv - 1)) × (bit_and i (nenv - 1) < nenv)
envx_masks i lt =
    let h =
      all_below_holds nenv
        (λ i. (envx (4096 + i) == bit_and i (nenv - 1)) && ltb (bit_and i (nenv - 1)) nenv) i
        mask_table lt in
    ground (arith, h)

id_at :
    (n : ℕ) (t : EnvTable)
    → Started n t
    → (k : ℕ) → k < nenv
    → (i : ℕ) → i ≢ k
    → (t.envs k).env_id ≢ 4096 + i
id_at n t s k lt i ne e = elim (dec_lt k n) [
  | yes low ↦ absurd (omega (arith, s.used_id k low, e, ne))
  | no high ↦ absurd (omega (arith, s.unused_id k (omega arith) lt, e))
]

-- `envid2env` by the environment that `ENVX` points at.
abbrev look : ℕ → ℕ → Option ℕ → EnvTable → Lookup
look envid k current t =
    if envid == 0
    then found current
    else if is_free (t.envs k).env_status
    then bad_env
    else if not ((t.envs k).env_id == envid)
    then bad_env
    else found (some k)

-- After `env_init` and `n` creations, `envid2env` without a permission check finds the environment `i` by
-- its id only where `i` has no bit outside of NENV - 1 = 1265. At every other index, such as 2, 3
-- or 8, the id of a live environment gives E_BAD_ENV.
pub envid2env_iff :
    (n : ℕ) (t : EnvTable) (i : ℕ)
    → n ≤ nenv
    → Started n t
    → i < n
    → envid2env (4096 + i) false t ≡ (if bit_and i (nenv - 1) == i then found (some i) else bad_env)
unfolding envid2env
envid2env_iff n t i small s lt =
    let (mask, in_table) = envx_masks i (omega arith) in
    let k = bit_and i (nenv - 1) in
    let at_mask : envid2env (4096 + i) false t ≡ look (4096 + i) k t.curenv t =
      ap (λ x. look (4096 + i) x t.curenv t) mask in
    let no_zero : (4096 + i == 0) ≡ false = ground arith in
    elim (ℕ_discrete k i) [
      | yes e ↦
          let live : is_free (t.envs k).env_status ≡ false =
            ap (λ x. is_free (t.envs x).env_status) e ∙ ap is_free (s.used_status i lt) in
          let same : ((t.envs k).env_id == 4096 + i) ≡ true =
            ap (λ x. (t.envs x).env_id == 4096 + i) e
            ∙ ap (λ x. x == 4096 + i) (s.used_id i lt)
            ∙ ==-refl (4096 + i) in
          at_mask
          ∙ rw (no_zero, live, same) (ap (λ x. found (some x)) e)
          ∙ sym (ap (λ b. if b then found (some i) else bad_env) (ap (λ x. x == i) e ∙ ==-refl i))
      | no ne ↦
          let other : ((t.envs k).env_id == 4096 + i) ≡ false =
            ==-ne (t.envs k).env_id (4096 + i) (id_at n t s k in_table i (λ x. ne (sym x))) in
          at_mask
          ∙ rw (no_zero, other) (both (is_free (t.envs k).env_status))
          ∙ sym (ap (λ b. if b then found (some i) else bad_env) (==-ne k i ne))
    ]
  where
    both : (b : Bool) → (if b then bad_env else bad_env) ≡ bad_env
    both true = refl
    both false = refl

-- An environment that is freed and created again has its first id again, whatever the table: the id of an
-- environment that is gone is the id of the next one in its place.
pub free_environment-create :
    (e : ℕ) (t : EnvTable) (kernel_directory : ℕ → ℕ) (cr3 : ℕ)
    → e < nenv
    → (j : EnvTable) × (create kernel_directory cr3 (free_environment e t) ≡ some (e, j))
      × ((j.envs e).env_id ≡ 4096 + e)
unfolding free_environment
free_environment-create e t kernel_directory cr3 lt =
    let (j, is, free, made) =
      create-Made e t.env_free_list kernel_directory cr3 (free_environment e t) refl in
    let zero_id : ((free_environment e t).envs e).env_id ≡ 0 = ground arith in
    (j, is, made.id ∙ ap (λ x. bit_or (next_generation x) e) zero_id ∙ first_id e lt)
