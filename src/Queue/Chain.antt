-- ===== src/Queue/Chain.antt =====
-- When the links and the head of inc/queue.h stand for a sequence of elements.
use fos_kernel.Prelude.{
  ℕ, ◌%◌, ◌^◌, ◌≡◌, refl, sym, ap, ◌∙◌, ◌≢◌, Bool, true, false, ◌||◌, List, [], ◌∷◌, ◌++◌, arith,
  ◌==◌, length,
}
use fos_kernel.Queue.{Links, Head, Lists, write, list_init}

abbrev pub has : ℕ → List ℕ → Bool
has a [] = false
has a (x ∷ xs) = (a == x) || has a xs

abbrev pub head_or : ℕ → List ℕ → ℕ
head_or q [] = q
head_or q (x ∷ xs) = x

abbrev pub last_or : ℕ → List ℕ → ℕ
last_or p [] = p
last_or p (x ∷ xs) = last_or x xs

-- From the element before, `p`, through `xs` to the element after, `q`, in both directions.
abbrev pub Seg : (ℕ → ℕ) → (ℕ → ℕ) → ℕ → List ℕ → ℕ → Type 0
Seg nx pv p [] q = Unit {0}
Seg nx pv p (x ∷ xs) q = (x ≢ 0) × (pv x ≡ p) × (nx x ≡ head_or q xs) × Seg nx pv x xs q

abbrev pub Distinct : List ℕ → Type 0
Distinct [] = Unit {0}
Distinct (x ∷ xs) = (has x xs ≡ false) × Distinct xs

-- The elements `xs`, in order, are the list with this head.
pub record IsList (l : Links) (h : Head) (xs : List ℕ) : Type 0 where
  pub chain : Seg l.le_next l.le_prev 0 xs 0
  pub first : h.lh_first ≡ head_or 0 xs
  pub last : h.lh_last ≡ last_or 0 xs
  pub counted : h.size ≡ length xs % 2 ^ 32
  pub distinct : Distinct xs

abbrev pub Holds : Lists → List ℕ → Type 0
Holds s xs = IsList s.links s.head xs

pub has-append : (a : ℕ) (xs ys : List ℕ) → has a (xs ++ ys) ≡ (has a xs || has a ys)
has-append a [] ys = refl
has-append a (x ∷ xs) ys = ground (arith, has-append a xs ys)

pub last_or-append : (p x : ℕ) (xs ys : List ℕ) → last_or p (xs ++ x ∷ ys) ≡ last_or x ys
last_or-append p x [] ys = refl
last_or-append p x (y ∷ xs) ys = last_or-append y x xs ys

pub head_or-append : (q : ℕ) (xs ys : List ℕ) → head_or q (xs ++ ys) ≡ head_or (head_or q ys) xs
head_or-append q [] ys = refl
head_or-append q (x ∷ xs) ys = refl

-- A segment survives any change that spares its own elements.
pub Seg-frame :
    {nx pv : ℕ → ℕ} (nx' pv' : ℕ → ℕ) (p : ℕ) (xs : List ℕ) (q : ℕ)
    → Seg nx pv p xs q
    → ((a : ℕ) → has a xs ≡ true → (nx' a ≡ nx a) × (pv' a ≡ pv a))
    → Seg nx' pv' p xs q
Seg-frame nx' pv' p [] q s same = tt
Seg-frame nx' pv' p (x ∷ xs) q s same =
    let here = same x (ground arith) in
    (s.0, ground arith, ground arith, Seg-frame nx' pv' x xs q s.3 (λ a i. same a (ground arith)))

pub has-last_or : (x : ℕ) (xs : List ℕ) → has (last_or x xs) (x ∷ xs) ≡ true
has-last_or x [] = ground arith
has-last_or x (y ∷ xs) = ground (arith, has-last_or y xs)

pub ne_of_has : (a b : ℕ) (xs : List ℕ) → has a xs ≡ false → has b xs ≡ true → a ≢ b
ne_of_has a b xs out i e = cc (ap (λ c. has c xs) e)

pub ne_of_mem : (a b : ℕ) (xs : List ℕ) → has a xs ≡ true → has b xs ≡ false → a ≢ b
ne_of_mem a b xs i out e = ne_of_has b a xs out i (sym e)

pub write_self : (f : ℕ → ℕ) (p v : ℕ) → write f p v p ≡ v
write_self f p v = ground arith

pub write_ne : (f : ℕ → ℕ) (p v q : ℕ) → q ≢ p → write f p v q ≡ f q
write_ne f p v q h = ground arith

module _ (nx pv : ℕ → ℕ) where
  pub Seg-append :
      (p : ℕ) (xs ys : List ℕ) (q : ℕ)
      → Seg nx pv p xs (head_or q ys)
      → Seg nx pv (last_or p xs) ys q
      → Seg nx pv p (xs ++ ys) q
  Seg-append p [] ys q s t = t
  Seg-append p (x ∷ xs) ys q s t =
      (s.0, s.1, s.2 ∙ sym (head_or-append q xs ys), Seg-append x xs ys q s.3 t)

  pub Seg-split :
      (p : ℕ) (xs ys : List ℕ) (q : ℕ)
      → Seg nx pv p (xs ++ ys) q
      → Seg nx pv p xs (head_or q ys) × Seg nx pv (last_or p xs) ys q
  Seg-split p [] ys q s = (tt, s)
  Seg-split p (x ∷ xs) ys q s =
      let r = Seg-split x xs ys q s.3 in ((s.0, s.1, s.2 ∙ head_or-append q xs ys, r.0), r.1)

  pub not-has-zero : (p : ℕ) (xs : List ℕ) (q : ℕ) → Seg nx pv p xs q → has 0 xs ≡ false
  not-has-zero p [] q s = refl
  not-has-zero p (x ∷ xs) q s = ground (arith, not-has-zero x xs q s.3)

  -- Redirecting the last element moves the end of a segment.
  pub Seg-set_next :
      (p x : ℕ) (xs : List ℕ) (q q' : ℕ)
      → Distinct (x ∷ xs)
      → Seg nx pv p (x ∷ xs) q
      → Seg (write nx (last_or x xs) q') pv p (x ∷ xs) q'
  Seg-set_next p x [] q q' d s = (s.0, s.1, write_self nx x q', tt)
  Seg-set_next p x (y ∷ xs) q q' d s = (
    s.0,
    s.1,
    write_ne nx (last_or y xs) q' x (ne_of_has x (last_or y xs) (y ∷ xs) d.0 (has-last_or y xs))
        ∙ s.2,
    Seg-set_next x y xs q q' d.1 s.3,
  )

  -- Redirecting the first element moves the start.
  pub Seg-set_prev :
      (p p' x : ℕ) (xs : List ℕ) (q : ℕ)
      → Distinct (x ∷ xs)
      → Seg nx pv p (x ∷ xs) q
      → Seg nx (write pv x p') p' (x ∷ xs) q
  Seg-set_prev p p' x xs q d s = (
    s.0,
    write_self pv x p',
    s.2,
    Seg-frame nx (write pv x p') x xs q s.3
        (λ a i. (refl, write_ne pv x p' a (ne_of_mem a x xs i d.0))),
  )

pub Distinct-append :
    (xs ys : List ℕ)
    → Distinct (xs ++ ys)
    → Distinct xs × Distinct ys × ((a : ℕ) → has a xs ≡ true → has a ys ≡ false)
Distinct-append [] ys d = (tt, d, λ a i. cc)
Distinct-append (x ∷ xs) ys d =
    let r = Distinct-append xs ys d.1 in
    (ground (arith, has-append x xs ys), r.1, λ a i. ground (arith, has-append x xs ys, r.2 a))

pub append-Distinct :
    (xs ys : List ℕ)
    → Distinct xs
    → Distinct ys
    → ((a : ℕ) → has a xs ≡ true → has a ys ≡ false)
    → Distinct (xs ++ ys)
append-Distinct [] ys d e apart = e
append-Distinct (x ∷ xs) ys d e apart = (
  ground (arith, has-append x xs ys, apart x),
  append-Distinct xs ys d.1 e (λ a i. apart a (ground arith)),
)

-- The list that `LIST_INIT` makes is empty, whatever the links are.
pub list_init-IsList : (l : Links) → IsList l list_init []
unfolding list_init
list_init-IsList l = record {
  chain = tt;
  first = refl;
  last = refl;
  counted = omega arith;
  distinct = tt;
}
