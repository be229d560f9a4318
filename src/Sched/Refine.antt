-- ===== src/Sched/Refine.antt =====
-- kern/sched.c: the queue functions on the link fields, and the sequences that they stand for.
use fos_kernel.Prelude.{
  ℕ, ◌≡◌, refl, sym, ap, subst, ◌∙◌, Bool, true, false, ◌||◌, List, [], ◌∷◌, ◌++◌, ◌==◌, ==-ne,
  ==-refl, if◌then◌else◌,
}
use native.Mathlib.Decide.{ℕ_discrete}
use fos_kernel.Queue.{Links, Head, Lists, list_insert_head, list_remove}
use fos_kernel.Queue.Chain.{has, last_or, has-last_or, not-has-zero, ne_of_mem, IsList, Holds}
use fos_kernel.Queue.Insert.{list_insert_head_lem}
use fos_kernel.Queue.Remove.{list_remove_lem}
use fos_kernel.Sched.Queues
use fos_kernel.Sched.Queues.{list_last, enqueue, dequeue, remove_from_queue}

-- `enqueue`, `dequeue` and `remove_from_queue` with the macros themselves.
unfoldable pub enqueue_links : ℕ → Links → Head → Lists
enqueue_links env l h =
    if env == 0 then record { links = l; head = h } else list_insert_head env l h

unfoldable pub dequeue_links : Links → Head → ℕ × Lists
dequeue_links l h =
    let env_item = h.lh_last in
    (env_item, if env_item == 0 then record { links = l; head = h } else list_remove env_item l h)

unfoldable pub remove_links : ℕ → Links → Head → Lists
remove_links e l h = if e == 0 then record { links = l; head = h } else list_remove e l h

-- The element, and the elements before and behind its first place.
first_place :
    (e : ℕ) (xs : List ℕ)
    → has e xs ≡ true
    → (front : List ℕ) × (back : List ℕ) × (xs ≡ front ++ e ∷ back)
      × (Queues.list_remove e xs ≡ front ++ back)
unfolding Queues.list_remove
first_place e [] h = absurd (cc h)
first_place e (x ∷ xs) h = elim (ℕ_discrete e x) [
  | yes same ↦ (
    [],
    xs,
    ap (λ a. a ∷ xs) (sym same),
    ap (λ b. if b then xs else x ∷ Queues.list_remove e xs)
        (ap (λ a. e == a) (sym same) ∙ ==-refl e),
  )
  | no other ↦
      let (front, back, split, removed) =
        first_place e xs (ap (λ b. b || has e xs) (sym (==-ne e x other)) ∙ h) in
      (
        x ∷ front,
        back,
        ap (λ l. x ∷ l) split,
        ap (λ b. if b then xs else x ∷ Queues.list_remove e xs) (==-ne e x other)
            ∙ ap (λ l. x ∷ l) removed,
      )
]

remove-Holds :
    (l : Links) (h : Head) (e : ℕ) (xs : List ℕ)
    → IsList l h xs
    → has e xs ≡ true
    → Holds (list_remove e l h) (Queues.list_remove e xs)
remove-Holds l h e xs v i =
    let (front, back, split, removed) = first_place e xs i in
    subst (Holds (list_remove e l h)) (sym removed)
      (list_remove_lem l h e front back (subst (IsList l h) split v))

list_last-last_or : (x : ℕ) (xs : List ℕ) → list_last (x ∷ xs) ≡ last_or x xs
list_last-last_or x [] = refl
list_last-last_or x (y ∷ xs) = list_last-last_or y xs

-- `enqueue` of an environment that is not in the queue acts on the link fields as it does on the
-- sequence.
pub enqueue_links-Holds :
    (l : Links) (h : Head) (e : ℕ) (xs : List ℕ)
    → IsList l h xs
    → has e xs ≡ false
    → Holds (enqueue_links e l h) (enqueue xs e)
unfolding enqueue_links enqueue
enqueue_links-Holds l h e xs v out = elim (ℕ_discrete e 0) [
  | yes null ↦ rw (ap (λ a. a == 0) null) v
  | no ne ↦ rw (==-ne e 0 ne) (list_insert_head_lem l h e xs v ne out)
]

-- `dequeue` on the link fields of a list gives the environment, or NULL, that it gives on the
-- sequence, and leaves a list of the sequence that is left.
pub dequeue_links-Holds :
    (l : Links) (h : Head) (xs : List ℕ)
    → IsList l h xs
    → ((dequeue_links l h).0 ≡ (dequeue xs).0) × Holds (dequeue_links l h).1 (dequeue xs).1
unfolding dequeue_links dequeue
dequeue_links-Holds l h [] v = (
  v.last,
  subst
      (λ (b : Bool).
        Holds (if b then record { links = l; head = h } else list_remove h.lh_last l h) [])
      (sym (ap (λ a. a == 0) v.last)) v,
)
dequeue_links-Holds l h (x ∷ xs) v =
    let w = last_or x xs in
    let named : list_last (x ∷ xs) ≡ w = list_last-last_or x xs in
    let in_queue = has-last_or x xs in
    let w_ne =
      ne_of_mem w 0 (x ∷ xs) in_queue (not-has-zero l.le_next l.le_prev 0 (x ∷ xs) 0 v.chain) in
    let taken : dequeue (x ∷ xs) ≡ (w, Queues.list_remove w (x ∷ xs)) =
      ap (λ a. if a == 0 then (0, x ∷ xs) else (a, Queues.list_remove a (x ∷ xs))) named
      ∙ ap (λ b. if b then (0, x ∷ xs) else (w, Queues.list_remove w (x ∷ xs))) (==-ne w 0 w_ne) in
    let removed : Holds
        (if h.lh_last == 0 then record { links = l; head = h } else list_remove h.lh_last l h)
        (Queues.list_remove w (x ∷ xs)) =
      subst
        (λ a.
          Holds (if a == 0 then record { links = l; head = h } else list_remove a l h)
            (Queues.list_remove w (x ∷ xs)))
        (sym v.last)
        (subst
          (λ b.
            Holds (if b then record { links = l; head = h } else list_remove w l h)
              (Queues.list_remove w (x ∷ xs)))
          (sym (==-ne w 0 w_ne)) (remove-Holds l h w (x ∷ xs) v in_queue)) in
    (
      v.last ∙ ap (λ p. p.0) (sym taken),
      subst (λ p. Holds (dequeue_links l h).1 p.1) (sym taken) removed,
    )

-- `remove_from_queue` of a member of the queue acts on the link fields as it does on the sequence.
pub remove_links-Holds :
    (l : Links) (h : Head) (e : ℕ) (xs : List ℕ)
    → IsList l h xs
    → has e xs ≡ true
    → Holds (remove_links e l h) (remove_from_queue xs e)
unfolding remove_links remove_from_queue
remove_links-Holds l h e xs v i = elim (ℕ_discrete e 0) [
  | yes null ↦ rw (ap (λ a. a == 0) null) v
  | no ne ↦ rw (==-ne e 0 ne) (remove-Holds l h e xs v i)
]
