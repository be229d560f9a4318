-- ===== src/Sched/Fifo.antt =====
-- The order in the queues of kern/sched.c: `enqueue` at the head, `dequeue` at the tail.
use mathlib.Core.List.{reverse, reverse-cons, reverse-append}
use fos_kernel.Prelude.{
  ℕ, ◌≡◌, refl, sym, ◌∙◌, ◌≢◌, false, List, [], ◌∷◌, ◌++◌, arith, ==-ne, ==-refl,
}
use fos_kernel.Queue.Chain.{has, has-append}
use fos_kernel.Sched.Queues.{list_remove, list_last, enqueue, dequeue}

pub has-reverse : (a : ℕ) (xs : List ℕ) → has a (reverse xs) ≡ has a xs
has-reverse a [] = refl
has-reverse a (x ∷ xs) =
    rw (reverse-cons x xs) (ground (arith, has-append a (reverse xs) (x ∷ []), has-reverse a xs))

list_last-append : (xs : List ℕ) (w : ℕ) → list_last (xs ++ w ∷ []) ≡ w
list_last-append [] w = refl
list_last-append (x ∷ []) w = refl
list_last-append (x ∷ y ∷ xs) w = list_last-append (y ∷ xs) w

list_remove-append : (xs : List ℕ) (w : ℕ) → has w xs ≡ false → list_remove w (xs ++ w ∷ []) ≡ xs
unfolding list_remove
list_remove-append [] w out = rw (==-refl w)
list_remove-append (x ∷ xs) w out = ground (arith, list_remove-append xs w)

-- What leaves a queue is the environment that has waited longest; the others keep their order.
pub dequeue_oldest :
    (w : ℕ) (ws : List ℕ) → w ≢ 0 → has w ws ≡ false → dequeue (reverse (w ∷ ws)) ≡ (w, reverse ws)
unfolding dequeue
dequeue_oldest w ws ne out = rw (
  reverse-cons w ws,
  list_last-append,
  ==-ne w 0 ne,
  list_remove-append (reverse ws) w (has-reverse w ws ∙ out),
)

-- A new environment goes behind those that wait.
pub enqueue_newest : (ws : List ℕ) (e : ℕ) → e ≢ 0 → enqueue (reverse ws) e ≡ reverse (ws ++ e ∷ [])
unfolding enqueue
enqueue_newest ws e ne = rw (==-ne e 0 ne) (sym (reverse-append ws (e ∷ [])))
