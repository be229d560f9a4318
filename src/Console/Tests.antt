-- ===== src/Console/Tests.antt =====
-- Runs of the console's buffer and of `readline`.
use fos_kernel.Prelude.{
  ℕ, zero, suc, ◌+◌, ◌==◌, if◌then◌else◌, ◌<◌, ◌≡◌, refl, sym, List, [], ◌∷◌, ◌++◌, arith,
  replicate, length-replicate, subst,
}
use fos_kernel.Console.{Cons, consbufsize, advance, cons_intr, cons_getc, Key, char, readline}
use fos_kernel.Console.Ring.{Between, Waiting, Taken, given, cons_getc-Taken, cons_intr-overrun}
use fos_kernel.Console.Line.{edit, Follows, readline-Follows}

-- Two characters wait, at the end of the buffer and at its start.
abbrev two_waiting : Cons
two_waiting = record { buf = λ i. if i == 511 then 104 else 105; rpos = 511; wpos = 1 }

two_waiting-Waiting : Waiting (104 ∷ 105 ∷ []) two_waiting
two_waiting-Waiting = record {
  rpos_in = omega arith;
  wpos_in = omega arith;
  between = (refl, (refl, refl));
  room = omega arith;
}

cons_getc_example :
    Taken
      (((104 ∷ 105 ∷ []) ++ given (33 ∷ [])) ++ given (0 ∷ 10 ∷ []))
      (cons_getc (33 ∷ []) (0 ∷ 10 ∷ []) two_waiting)
cons_getc_example =
    cons_getc-Taken (33 ∷ []) (0 ∷ 10 ∷ []) (104 ∷ 105 ∷ []) two_waiting (omega arith) (omega arith)
      (omega arith) two_waiting-Waiting

getc_first : (cons_getc (33 ∷ []) [] two_waiting).0 ≡ 104
unfolding cons_getc cons_intr
getc_first = refl

constant-Between : (n r : ℕ) → r + n < consbufsize → Between (λ i. 65) r (r + n) (replicate n 65)
constant-Between zero r lt = omega arith
constant-Between (suc n) r lt = (
  refl,
  subst (λ w. Between (λ i. 65) (advance r) w (replicate n 65)) (omega (arith, step))
      (subst (λ p. Between (λ i. 65) p (p + n) (replicate n 65)) (sym step)
        (constant-Between n (r + 1) (omega arith))),
)
  where
    step : advance r ≡ r + 1
    step = ground arith

abbrev full : Cons
full = record { buf = λ i. 65; rpos = 0; wpos = 511 }

full-Waiting : Waiting (replicate 511 65) full
full-Waiting = record {
  rpos_in = omega arith;
  wpos_in = omega arith;
  between = constant-Between 511 0 (omega arith);
  room = omega (arith, length-replicate {0} {A = ℕ} 511 65);
}

overrun_example : Waiting [] (cons_intr (66 ∷ []) full)
overrun_example =
    cons_intr-overrun 66 (replicate 511 65) full (λ e. omega arith)
      (length-replicate {A = ℕ} 511 65) full-Waiting

abbrev keys : List Key
keys = char 104 ∷ char 111 ∷ char 8 ∷ char 105 ∷ char 13 ∷ []

readline_example : Follows (λ j. 7) (edit keys []) (readline keys 0 (λ j. 7))
readline_example = readline-Follows keys (λ j. 7)
