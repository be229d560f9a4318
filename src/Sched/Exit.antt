-- ===== src/Sched/Exit.antt =====
-- `sched_exit_env` of kern/sched.c: what becomes of the environment, by the queue that it is in.
use fos_kernel.Prelude.{
  ℕ, suc, ◌≡◌, refl, sym, ap, ◌∙◌, ◌≢◌, Bool, true, false, List, [], ◌∷◌, ◌++◌, get_or, arith, ◌==◌,
  ==-ne, ==-refl, if◌then◌else◌, set,
}
use fos_kernel.Queue.Chain.{has}
use fos_kernel.Sched.{
  EnvStatus, env_unknown, env_exit, Env, Kernel, returns, and_then, Exec, ◌>>=◌, set_status,
}
use fos_kernel.Sched.Queues.{list_remove, enqueue, sched_remove_new, sched_insert_exit}
use fos_kernel.Sched.Admin.{
  exit_new, find_first, exit_ready, exit_found, exit_current, sched_exit_env,
}

-- No environment of the list has the id.
abbrev pub Misses : (ℕ → Env) → ℕ → List ℕ → Type 0
Misses envs id [] = Unit {0}
Misses envs id (x ∷ xs) = ((envs x).env_id ≢ id) × Misses envs id xs

pub list_remove-at :
    (e : ℕ) (xs ys : List ℕ) → has e xs ≡ false → list_remove e (xs ++ e ∷ ys) ≡ xs ++ ys
unfolding list_remove
list_remove-at e [] ys out = rw (==-refl e)
list_remove-at e (x ∷ xs) ys out = ground (arith, list_remove-at e xs ys)

exit_new-Misses :
    (id : ℕ) (xs : List ℕ) (found : Bool) (k : Kernel)
    → Misses k.envs id xs
    → exit_new id xs found k ≡ returns found k
unfolding exit_new
exit_new-Misses id [] found k m = refl
exit_new-Misses id (x ∷ xs) found k m =
    rw (==-ne (k.envs x).env_id id m.0) (exit_new-Misses id xs found k m.1)

exit_new-skips :
    (id : ℕ) (xs ys : List ℕ) (found : Bool) (k : Kernel)
    → Misses k.envs id xs
    → exit_new id (xs ++ ys) found k ≡ exit_new id ys found k
unfolding exit_new
exit_new-skips id [] ys found k m = refl
exit_new-skips id (x ∷ xs) ys found k m =
    rw (==-ne (k.envs x).env_id id m.0) (exit_new-skips id xs ys found k m.1)

abbrev pub unlisted : ℕ → List ℕ → Kernel → Kernel
unlisted e new k = set_status e env_unknown (record k { env_new_queue = new })

env_id-update :
    (e a : ℕ) (k : Kernel) (s : EnvStatus) → ((set_status e s k).envs a).env_id ≡ (k.envs a).env_id
env_id-update e a k s = ground arith

Misses-update :
    (e id : ℕ) (k : Kernel) (s : EnvStatus) (xs : List ℕ)
    → Misses k.envs id xs
    → Misses (set_status e s k).envs id xs
Misses-update e id k s [] m = tt
Misses-update e id k s (x ∷ xs) m =
    ((λ h. m.0 (sym (env_id-update e x k s) ∙ h)), Misses-update e id k s xs m.1)

pub sched_remove_new-at :
    (e : ℕ) (xs ys : List ℕ) (k : Kernel)
    → e ≢ 0
    → k.env_new_queue ≡ xs ++ e ∷ ys
    → has e xs ≡ false
    → sched_remove_new e k ≡ returns tt (unlisted e (xs ++ ys) k)
unfolding sched_remove_new
sched_remove_new-at e xs ys k ne new out =
    rw (==-ne e 0 ne)
      (ap (λ l. returns tt (unlisted e l k)) (ap (list_remove e) new ∙ list_remove-at e xs ys out))

exit_new-hit :
    (id e : ℕ) (xs ys : List ℕ) (k : Kernel)
    → e ≢ 0
    → k.env_new_queue ≡ xs ++ e ∷ ys
    → has e xs ≡ false
    → (k.envs e).env_id ≡ id
    → Misses k.envs id ys
    → exit_new id (e ∷ ys) false k ≡ returns true (unlisted e (xs ++ ys) k)
unfolding exit_new
exit_new-hit id e xs ys k ne new out same misses =
    rw (same, ==-refl id)
      (ap (λ r. and_then r (λ _. exit_new id ys true)) (sched_remove_new-at e xs ys k ne new out)
        ∙ exit_new-Misses id ys true (unlisted e (xs ++ ys) k)
            (Misses-update e id (record k { env_new_queue = xs ++ ys }) env_unknown ys misses))

exit_found-other :
    (id e : ℕ) (k j : Kernel)
    → sched_insert_exit e k ≡ returns tt j
    → j.curenv ≢ 0
    → (j.envs j.curenv).env_id ≢ id
    → exit_found id e k ≡ returns tt j
unfolding exit_found
exit_found-other id e k j inserted cur other =
    rw (inserted, ==-ne j.curenv 0 cur, ==-ne (j.envs j.curenv).env_id id other)

insert_exit-null : (k : Kernel) → sched_insert_exit 0 k ≡ returns tt k
unfolding sched_insert_exit
insert_exit-null k = refl

abbrev exited : ℕ → Kernel → Kernel
exited e k = record (set_status e env_exit k) {
  cleaned = if k.buffering then e ∷ k.cleaned else k.cleaned;
  env_exit_queue = e ∷ k.env_exit_queue;
}

insert_exit-adds : (e : ℕ) (k : Kernel) → e ≢ 0 → sched_insert_exit e k ≡ returns tt (exited e k)
unfolding sched_insert_exit enqueue
insert_exit-adds e k ne = rw (==-ne e 0 ne) refl

-- How `sched_exit_env` goes on behind the search of the NEW queue.
abbrev after_new : ℕ → ℕ → Bool → Exec (Unit {0})
after_new id num found =
    if found
    then exit_found id 0
    else (exit_ready id num 0 >>= λ e. if e == 0 then exit_current id else exit_found id e)

sched_exit_env-unfold :
    (id : ℕ) (k : Kernel)
    → sched_exit_env id k
      ≡ and_then (exit_new id k.env_new_queue false k) (after_new id k.num_of_ready_queues)
unfolding sched_exit_env
sched_exit_env-unfold id k = refl

-- An environment in the NEW queue, the only one there with its id and not the running one, is taken
-- out of that queue by `sched_exit_env` and put into no other: the ready queues and the EXIT queue
-- stay, and its status is unknown.
pub sched_exit_env-new :
    (id e : ℕ) (xs ys : List ℕ) (k : Kernel)
    → e ≢ 0
    → k.env_new_queue ≡ xs ++ e ∷ ys
    → has e xs ≡ false
    → Misses k.envs id xs
    → (k.envs e).env_id ≡ id
    → Misses k.envs id ys
    → k.curenv ≢ 0
    → (k.envs k.curenv).env_id ≢ id
    → (j : Kernel) × (sched_exit_env id k ≡ returns tt j)
      × (j.env_new_queue ≡ xs ++ ys)
      × (j.env_ready_queues ≡ k.env_ready_queues)
      × (j.env_exit_queue ≡ k.env_exit_queue)
      × ((j.envs e).env_status ≡ env_unknown)
sched_exit_env-new id e xs ys k ne new out before same behind cur other =
    let j = unlisted e (xs ++ ys) k in
    let searched =
      ap (λ l. exit_new id l false k) new
      ∙ exit_new-skips id xs (e ∷ ys) false k before
      ∙ exit_new-hit id e xs ys k ne new out same behind in
    (
      j,
      sched_exit_env-unfold id k
          ∙ ap (λ r. and_then r (after_new id k.num_of_ready_queues)) searched
          ∙ exit_found-other id 0 j j (insert_exit-null j) cur (λ h. other (
              sym (env_id-update e k.curenv (record k { env_new_queue = xs ++ ys }) env_unknown)
              ∙ h)),
      refl,
      refl,
      refl,
      ground arith,
    )

find_first-at :
    (envs : ℕ → Env) (id e : ℕ) (xs ys : List ℕ)
    → Misses envs id xs
    → (envs e).env_id ≡ id
    → find_first envs id (xs ++ e ∷ ys) ≡ e
unfolding find_first
find_first-at envs id e [] ys m same = rw (same, ==-refl id)
find_first-at envs id e (x ∷ xs) ys m same =
    rw (==-ne (envs x).env_id id m.0) (find_first-at envs id e xs ys m.1 same)

exit_ready-at :
    (id e left : ℕ) (xs ys : List ℕ) (others : List (List ℕ)) (k : Kernel)
    → e ≢ 0
    → k.env_ready_queues ≡ (xs ++ e ∷ ys) ∷ others
    → has e xs ≡ false
    → Misses k.envs id xs
    → (k.envs e).env_id ≡ id
    → exit_ready id (suc left) 0 k ≡ returns e (record k { env_ready_queues = (xs ++ ys) ∷ others })
unfolding exit_ready
exit_ready-at id e left xs ys others k ne queues out before same =
    ap
      (λ q.
        let hit = find_first k.envs id (get_or q 0 []) in
        if hit == 0
        then exit_ready id left 1 k
        else returns hit
            (record k { env_ready_queues = set q 0 (list_remove hit (get_or q 0 [])) }))
      queues
    ∙ rw (find_first-at k.envs id e xs ys before same, ==-ne e 0 ne)
        (ap (λ l. returns e (record k { env_ready_queues = l ∷ others }))
          (list_remove-at e xs ys out))

found_next :
    (id e : ℕ) (k : Kernel)
    → e ≢ 0
    → (if e == 0 then exit_current id else exit_found id e) k ≡ exit_found id e k
found_next id e k ne = rw (==-ne e 0 ne) refl

-- An environment in the first ready queue, whose id no environment in front of it nor in the NEW
-- queue has, and which is not the running one, is taken out of that queue by `sched_exit_env` and
-- put at the head of the EXIT queue with its status, and the NEW queue and the other ready queues
-- stay.
pub sched_exit_env-ready :
    (id e left : ℕ) (xs ys : List ℕ) (others : List (List ℕ)) (k : Kernel)
    → e ≢ 0
    → Misses k.envs id k.env_new_queue
    → k.num_of_ready_queues ≡ suc left
    → k.env_ready_queues ≡ (xs ++ e ∷ ys) ∷ others
    → has e xs ≡ false
    → Misses k.envs id xs
    → (k.envs e).env_id ≡ id
    → k.curenv ≢ 0
    → (k.envs k.curenv).env_id ≢ id
    → (j : Kernel) × (sched_exit_env id k ≡ returns tt j)
      × (j.env_new_queue ≡ k.env_new_queue)
      × (j.env_ready_queues ≡ (xs ++ ys) ∷ others)
      × (j.env_exit_queue ≡ e ∷ k.env_exit_queue)
      × ((j.envs e).env_status ≡ env_exit)
sched_exit_env-ready id e left xs ys others k ne new num queues out before same cur other =
    let k1 = record k { env_ready_queues = (xs ++ ys) ∷ others } in
    let j = exited e k1 in
    (
      j,
      sched_exit_env-unfold id k
          ∙ ap (λ r. and_then r (after_new id k.num_of_ready_queues))
              (exit_new-Misses id k.env_new_queue false k new)
          ∙ ap (λ n. after_new id n false k) num
          ∙ ap (λ r. and_then r (λ hit. if hit == 0 then exit_current id else exit_found id hit))
              (exit_ready-at id e left xs ys others k ne queues out before same)
          ∙ found_next id e k1 ne
          ∙ exit_found-other id e k1 j (insert_exit-adds e k1 ne) cur
              (λ h. other (sym (env_id-update e k.curenv k1 env_exit) ∙ h)),
      refl,
      refl,
      refl,
      ground arith,
    )
