-- ===== src/Console/Ring.antt =====
-- kern/console.c: the circular buffer as a queue of characters.
use fos_kernel.Prelude.{
  ℕ, suc, ◌+◌, ◌%◌, ◌<◌, ◌≡◌, refl, sym, ap, ◌≢◌, inl, inr, true, false, List, [], ◌∷◌, ◌++◌,
  length, length-append, ◌==◌, if◌then◌else◌, arith, Bool-cases, subst, ==-ne,
}
use mathlib.Core.List.{append_assoc}
use fos_kernel.Console.{Cons, consbufsize, put, advance, stash, cons_intr, next_char, cons_getc}

-- From `r` to `w`, the buffer holds these characters.
abbrev pub Between : (ℕ → ℕ) → ℕ → ℕ → List ℕ → Type 0
Between buf r w [] = r ≡ w
Between buf r w (x ∷ xs) = (buf r ≡ x) × Between buf (advance r) w xs

-- The characters that wait, the oldest first; the buffer has room for one less than its size.
pub record Waiting (xs : List ℕ) (s : Cons) : Type 0 where
  pub rpos_in : s.rpos < consbufsize
  pub wpos_in : s.wpos < consbufsize
  pub between : Between s.buf s.rpos s.wpos xs
  pub room : length xs < consbufsize

advance-in : (p : ℕ) → p < consbufsize → advance p < consbufsize
advance-in p h = ground arith

-- Where the characters end.
end_at :
    (buf : ℕ → ℕ) (r w : ℕ) (xs : List ℕ)
    → r < consbufsize
    → Between buf r w xs
    → w ≡ (r + length xs) % consbufsize
end_at buf r w [] lt b = omega arith
end_at buf r w (x ∷ xs) lt b =
    let ih = end_at buf (advance r) w xs (advance-in r lt) b.1 in
    let step : advance r ≡ (r + 1) % consbufsize = ground arith in omega (arith, ih, step)

Between-put :
    (buf : ℕ → ℕ) (r w c : ℕ) (xs : List ℕ)
    → r < consbufsize
    → w < consbufsize
    → length xs + 1 < consbufsize
    → Between buf r w xs
    → Between (put buf w c) r (advance w) (xs ++ c ∷ [])
Between-put buf r w c [] lr lw room b = (ground (arith, b), ground (arith, b))
Between-put buf r w c (x ∷ xs) lr lw room b =
    let last = end_at buf r w (x ∷ xs) lr b in
    let apart : r ≢ w = λ e. omega (arith, last, room, e) in
    (
      ground (arith, apart, b.0),
      Between-put buf (advance r) w c xs (advance-in r lr) lw (omega arith) b.1,
    )

pub stash-Waiting :
    (c : ℕ) (xs : List ℕ) (s : Cons)
    → c < 256
    → length xs + 1 < consbufsize
    → Waiting xs s
    → Waiting (xs ++ c ∷ []) (stash c s)
stash-Waiting c xs s byte room w =
    let same : c % 256 ≡ c = omega arith in
    record {
      rpos_in = w.rpos_in;
      wpos_in = advance-in s.wpos w.wpos_in;
      between =
          subst (λ v. Between (put s.buf s.wpos v) s.rpos (advance s.wpos) (xs ++ c ∷ []))
            (sym same) (Between-put s.buf s.rpos s.wpos c xs w.rpos_in w.wpos_in room w.between);
      room = omega (arith, length-append xs (c ∷ []));
    }

-- The characters that a device gives; a 0 is none.
abbrev pub given : List ℕ → List ℕ
given [] = []
given (c ∷ cs) = if c == 0 then given cs else c ∷ given cs

abbrev pub AreBytes : List ℕ → Type 0
AreBytes [] = Unit {0}
AreBytes (c ∷ cs) = (c < 256) × AreBytes cs

pub cons_intr-Waiting :
    (cs xs : List ℕ) (s : Cons)
    → AreBytes cs
    → length xs + length (given cs) < consbufsize
    → Waiting xs s
    → Waiting (xs ++ given cs) (cons_intr cs s)
unfolding cons_intr
cons_intr-Waiting [] xs s bytes room w = subst (λ l. Waiting l s) (sym (append_nil xs)) w
  where
    append_nil : (l : List ℕ) → l ++ [] ≡ l
    append_nil [] = refl
    append_nil (x ∷ l) = ap (λ t. x ∷ t) (append_nil l)
cons_intr-Waiting (c ∷ cs) xs s bytes room w = elim (Bool-cases (c == 0)) [
  | inl none ↦ rw none (cons_intr-Waiting cs xs s bytes.1 (room_none none) w)
  | inr one ↦
      let fits : length xs + suc (length (given cs)) < consbufsize = room_one one in
      rw one (
        subst (λ l. Waiting l (cons_intr cs (stash c s))) (append_assoc xs (c ∷ []) (given cs))
          (cons_intr-Waiting cs (xs ++ c ∷ []) (stash c s) bytes.1
            (omega (arith, length-append xs (c ∷ []), fits))
            (stash-Waiting c xs s bytes.0 (omega (arith, fits)) w)))
]
  where
    room_none : (c == 0) ≡ true → length xs + length (given cs) < consbufsize
    room_none e =
        subst (λ b. length xs + length (if b then given cs else c ∷ given cs) < consbufsize) e room

    room_one : (c == 0) ≡ false → length xs + suc (length (given cs)) < consbufsize
    room_one e =
        subst (λ b. length xs + length (if b then given cs else c ∷ given cs) < consbufsize) e room

-- The queue gives its first character, or 0.
abbrev pub Taken : List ℕ → ℕ × Cons → Type 0
Taken [] r = (r.0 ≡ 0) × Waiting [] r.1
Taken (x ∷ xs) r = (r.0 ≡ x) × Waiting xs r.1

next_char-Taken : (xs : List ℕ) (s : Cons) → Waiting xs s → Taken xs (next_char s)
next_char-Taken [] s w =
    let empty : (s.rpos == s.wpos) ≡ true = ground (arith, w.between) in rw empty (refl, w)
next_char-Taken (x ∷ xs) s w =
    let last = end_at s.buf s.rpos s.wpos (x ∷ xs) w.rpos_in w.between in
    let some_left : (s.rpos == s.wpos) ≡ false =
      ==-ne s.rpos s.wpos (λ e. omega (arith, last, w.room, e)) in
    rw some_left (
      w.between.0,
      record {
        rpos_in = advance-in s.rpos w.rpos_in;
        wpos_in = w.wpos_in;
        between = w.between.1;
        room = omega (arith, w.room);
      },
    )

-- The console's buffer is a queue while fewer than 512 characters wait: `cons_getc` appends what the serial
-- port and then the keyboard give, and takes the oldest character out, or gives 0 where none waits.
pub cons_getc-Taken :
    (serial kbd xs : List ℕ) (s : Cons)
    → AreBytes serial
    → AreBytes kbd
    → length xs + length (given serial) + length (given kbd) < consbufsize
    → Waiting xs s
    → Taken ((xs ++ given serial) ++ given kbd) (cons_getc serial kbd s)
unfolding cons_getc
cons_getc-Taken serial kbd xs s b1 b2 room w =
    next_char-Taken ((xs ++ given serial) ++ given kbd) (cons_intr kbd (cons_intr serial s)) (
      cons_intr-Waiting kbd (xs ++ given serial) (cons_intr serial s) b2
        (omega (arith, room, length-append xs (given serial)))
        (cons_intr-Waiting serial xs s b1 (omega (arith, room)) w))

-- The buffer does not notice that it is full: with 511 characters waiting, one more leaves it an empty
-- queue, so all of them are lost, the last one included.
pub cons_intr-overrun :
    (c : ℕ) (xs : List ℕ) (s : Cons)
    → c ≢ 0
    → length xs ≡ 511
    → Waiting xs s
    → Waiting [] (cons_intr (c ∷ []) s)
unfolding cons_intr
cons_intr-overrun c xs s ne full w =
    let last = end_at s.buf s.rpos s.wpos xs w.rpos_in w.between in
    let step : advance s.wpos ≡ (s.wpos + 1) % consbufsize = ground (arith, w.wpos_in) in
    let meets : s.rpos ≡ advance s.wpos = omega (arith, last, full, step, w.rpos_in) in
    rw (==-ne c 0 ne) (record {
      rpos_in = w.rpos_in;
      wpos_in = omega (arith, meets, w.rpos_in);
      between = meets;
      room = omega arith;
    })
