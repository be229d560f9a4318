-- ===== src/PageFile/Inv.antt =====
-- kern/file_manager.c: which page or table holds a disk frame, and when the page file is sound.
use fos_kernel.Prelude.{
  ℕ, ◌<◌, ◌≡◌, sym, ap, ◌∙◌, ◌≢◌, ◌⊎◌, inl, inr, Bool, true, false, ◌&&◌, List, ◌∷◌, ◌==◌,
  if◌then◌else◌, arith, Bool-cases, subst,
}
use native.Mathlib.Decide.{ℕ_discrete}
use fos_kernel.Queue.Chain.{has, Distinct}
use fos_kernel.PageFile.{PageFile, pages_per_file}
use fos_kernel.PageFile.Free.{entry, entry_of}

-- Where a disk frame can be held: the page `i` of the table `d` of an environment, or its table `d`.
pub data Slot : Type 0 where
  page : ℕ → ℕ → ℕ → Slot
  table : ℕ → ℕ → Slot

abbrev pub same : Slot → Slot → Bool
same (page e d i) (page e1 d1 i1) = (e == e1) && ((d == d1) && (i == i1))
same (table e d) (table e1 d1) = (e == e1) && (d == d1)
same (page e d i) (table e1 d1) = false
same (table e d) (page e1 d1 i1) = false

-- The disk frame of a place, or 0.
abbrev pub dfn : PageFile → Slot → ℕ
dfn s (page e d i) = entry e d i s
dfn s (table e d) = entry_of (s.disk_env_tabledir e) d

pub same_refl : (a : Slot) → same a a ≡ true
same_refl (page e d i) = ground arith
same_refl (table e d) = ground arith

pub eq_of_same : (a b : Slot) → same a b ≡ true → a ≡ b
eq_of_same (page e d i) (page e1 d1 i1) h = ground arith
eq_of_same (table e d) (table e1 d1) h = ground arith
eq_of_same (page e d i) (table e1 d1) h = cc
eq_of_same (table e d) (page e1 d1 i1) h = cc

-- Directories and tables have 1024 entries.
abbrev pub InRange : Slot → Type 0
InRange (page e d i) = (d < 1024) × (i < 1024)
InRange (table e d) = d < 1024

-- Every disk frame but the first is either free or held at one place, and not both.
pub record Inv (s : PageFile) : Type 0 where
  pub distinct : (a b : Slot) → dfn s a ≢ 0 → dfn s a ≡ dfn s b → same a b ≡ true
  pub free_unheld : (a : Slot) → dfn s a ≢ 0 → has (dfn s a) s.disk_free_frame_list ≡ false
  pub different : Distinct s.disk_free_frame_list
  pub free_frames : (f : ℕ) → has f s.disk_free_frame_list ≡ true → (0 < f) × (f < pages_per_file)
  pub held_frames : (a : Slot) → dfn s a < pages_per_file
  pub in_range : (a : Slot) → dfn s a ≢ 0 → InRange a
  pub covered :
      (f : ℕ)
      → 0 < f
      → f < pages_per_file
      → (has f s.disk_free_frame_list ≡ true) ⊎ ((a : Slot) × (dfn s a ≡ f))

-- What does not touch the frames keeps the page file sound.
pub Inv-same :
    (s j : PageFile)
    → j.disk_free_frame_list ≡ s.disk_free_frame_list
    → ((a : Slot) → dfn j a ≡ dfn s a)
    → Inv s
    → Inv j
Inv-same s j free same_frames inv = record {
  distinct = λ a b ne e.
      inv.distinct a b (λ z. ne (same_frames a ∙ z)) (sym (same_frames a) ∙ e ∙ same_frames b);
  free_unheld = λ a ne.
      ap (has (dfn j a)) free
      ∙ ap (λ f. has f s.disk_free_frame_list) (same_frames a)
      ∙ inv.free_unheld a (λ z. ne (same_frames a ∙ z));
  different = subst Distinct (sym free) inv.different;
  free_frames = λ f h. inv.free_frames f (sym (ap (has f) free) ∙ h);
  held_frames = λ a. subst (λ f. f < pages_per_file) (sym (same_frames a)) (inv.held_frames a);
  in_range = λ a ne. inv.in_range a (λ z. ne (same_frames a ∙ z));
  covered = λ f lo hi. elim (inv.covered f lo hi) [
    | inl h ↦ inl (ap (has f) free ∙ h)
    | inr (a, h) ↦ inr (a, same_frames a ∙ h)
  ];
}

-- A free frame `f` is given to the place `at`, which had none.
module _ (s j : PageFile) (at : Slot) (f : ℕ) (rest : List ℕ)
    (first : s.disk_free_frame_list ≡ f ∷ rest) (left : j.disk_free_frame_list ≡ rest)
    (unused : dfn s at ≡ 0) (at_in_range : InRange at)
    (now : (a : Slot) → dfn j a ≡ (if same a at then f else dfn s a)) (inv : Inv s) where
  abbrev free : List ℕ
  free = s.disk_free_frame_list

  given_at : (a : Slot) → same a at ≡ true → dfn j a ≡ f
  given_at a h = now a ∙ ap (λ b. if b then f else dfn s a) h

  kept : (a : Slot) → same a at ≡ false → dfn j a ≡ dfn s a
  kept a h = now a ∙ ap (λ b. if b then f else dfn s a) h

  was_free : has f free ≡ true
  was_free = ap (has f) first ∙ ground arith

  not_held : (a : Slot) → dfn s a ≢ f
  not_held a e = elim (ℕ_discrete f 0) [
    | yes z ↦ absurd (omega (arith, z, (inv.free_frames f was_free).0))
    | no ne ↦
        let unheld = inv.free_unheld a (λ z. ne (sym e ∙ z)) in
        cc (ap (λ x. has x free) e, unheld, was_free)
  ]

  now_different : (has f rest ≡ false) × Distinct rest
  now_different = subst Distinct first inv.different

  has-rest : (x : ℕ) → has x free ≡ false → has x rest ≡ false
  has-rest x h = let g : has x (f ∷ rest) ≡ false = sym (ap (has x) first) ∙ h in ground (arith, g)

  rest-has : (x : ℕ) → has x rest ≡ true → has x free ≡ true
  rest-has x h = ap (has x) first ∙ ground (arith, h)

  give-distinct : (a b : Slot) → dfn j a ≢ 0 → dfn j a ≡ dfn j b → same a b ≡ true
  give-distinct a b ne e = elim (Bool-cases (same a at)) [
    | inl ha ↦ elim (Bool-cases (same b at)) [
      | inl hb ↦
          let ea = eq_of_same a at ha in
          let eb = eq_of_same b at hb in
          ap (λ x. same x b) ea ∙ ap (λ x. same at x) eb ∙ same_refl at
      | inr hb ↦ absurd (not_held b (sym (kept b hb) ∙ sym e ∙ given_at a ha))
    ]
    | inr ha ↦ elim (Bool-cases (same b at)) [
      | inl hb ↦ absurd (not_held a (sym (kept a ha) ∙ e ∙ given_at b hb))
      | inr hb ↦ inv.distinct a b (λ z. ne (kept a ha ∙ z)) (sym (kept a ha) ∙ e ∙ kept b hb)
    ]
  ]

  give-unheld : (a : Slot) → dfn j a ≢ 0 → has (dfn j a) j.disk_free_frame_list ≡ false
  give-unheld a ne = ap (has (dfn j a)) left ∙ elim (Bool-cases (same a at)) [
    | inl h ↦ ap (λ x. has x rest) (given_at a h) ∙ now_different.0
    | inr h ↦
        ap (λ x. has x rest) (kept a h)
        ∙ has-rest (dfn s a) (inv.free_unheld a (λ z. ne (kept a h ∙ z)))
  ]

  give-held : (a : Slot) → dfn j a < pages_per_file
  give-held a = elim (Bool-cases (same a at)) [
    | inl h ↦ subst (λ x. x < pages_per_file) (sym (given_at a h)) (inv.free_frames f was_free).1
    | inr h ↦ subst (λ x. x < pages_per_file) (sym (kept a h)) (inv.held_frames a)
  ]

  give-covered :
      (g : ℕ)
      → 0 < g
      → g < pages_per_file
      → (has g j.disk_free_frame_list ≡ true) ⊎ ((a : Slot) × (dfn j a ≡ g))
  give-covered g lo hi = elim (ℕ_discrete g f) [
    | yes e ↦ inr (at, given_at at (same_refl at) ∙ sym e)
    | no ne ↦ elim (inv.covered g lo hi) [
      | inl h ↦
          let h1 : has g (f ∷ rest) ≡ true = sym (ap (has g) first) ∙ h in
          inl (ap (has g) left ∙ ground (arith, h1))
      | inr (a, h) ↦ elim (Bool-cases (same a at)) [
        | inl hit ↦
            let z : dfn s a ≡ 0 = ap (dfn s) (eq_of_same a at hit) ∙ unused in
            absurd (omega (arith, h, z, lo))
        | inr miss ↦ inr (a, kept a miss ∙ h)
      ]
    ]
  ]

  pub Inv-give : Inv j
  Inv-give = record {
    distinct = give-distinct;
    free_unheld = give-unheld;
    different = subst Distinct (sym left) now_different.1;
    free_frames = λ g h. inv.free_frames g (rest-has g (sym (ap (has g) left) ∙ h));
    held_frames = give-held;
    in_range = λ a ne. elim (Bool-cases (same a at)) [
      | inl h ↦ subst InRange (sym (eq_of_same a at h)) at_in_range
      | inr h ↦ inv.in_range a (λ z. ne (kept a h ∙ z))
    ];
    covered = give-covered;
  }

-- The frame of the place `at` becomes free.
module _ (s j : PageFile) (at : Slot) (held : dfn s at ≢ 0)
    (left : j.disk_free_frame_list ≡ dfn s at ∷ s.disk_free_frame_list)
    (now : (a : Slot) → dfn j a ≡ (if same a at then 0 else dfn s a)) (inv : Inv s) where
  zero_at : (a : Slot) → same a at ≡ true → dfn j a ≡ 0
  zero_at a h = now a ∙ ap (λ b. if b then 0 else dfn s a) h

  stays : (a : Slot) → same a at ≡ false → dfn j a ≡ dfn s a
  stays a h = now a ∙ ap (λ b. if b then 0 else dfn s a) h

  back-other : (a : Slot) → dfn j a ≢ 0 → (same a at ≡ false) × (dfn j a ≡ dfn s a)
  back-other a ne = elim (Bool-cases (same a at)) [
    | inl h ↦ absurd (ne (zero_at a h))
    | inr h ↦ (h, stays a h)
  ]

  back-unheld : (a : Slot) → dfn j a ≢ 0 → has (dfn j a) j.disk_free_frame_list ≡ false
  back-unheld a ne =
      let (miss, e) = back-other a ne in
      let old = inv.free_unheld a (λ z. ne (e ∙ z)) in
      let apart : dfn s a ≢ dfn s at =
        λ same_frame. cc (inv.distinct a at (λ z. ne (e ∙ z)) same_frame, miss) in
      ap (has (dfn j a)) left
      ∙ ap (λ x. has x (dfn s at ∷ s.disk_free_frame_list)) e
      ∙ ground (arith, old, apart)

  back-covered :
      (g : ℕ)
      → 0 < g
      → g < pages_per_file
      → (has g j.disk_free_frame_list ≡ true) ⊎ ((a : Slot) × (dfn j a ≡ g))
  back-covered g lo hi = elim (inv.covered g lo hi) [
    | inl h ↦ inl (ap (has g) left ∙ ground (arith, h))
    | inr (a, h) ↦ elim (Bool-cases (same a at)) [
      | inl hit ↦
          let e : dfn s at ≡ g = ap (dfn s) (sym (eq_of_same a at hit)) ∙ h in
          inl (ap (has g) left ∙ ground (arith, e))
      | inr miss ↦ inr (a, stays a miss ∙ h)
    ]
  ]

  pub Inv-take_back : Inv j
  Inv-take_back = record {
    distinct = λ a b ne e.
        let (ma, ea) = back-other a ne in
        let (mb, eb) = back-other b (λ z. ne (e ∙ z)) in
        inv.distinct a b (λ z. ne (ea ∙ z)) (sym ea ∙ e ∙ eb);
    free_unheld = back-unheld;
    different = subst Distinct (sym left) (inv.free_unheld at held, inv.different);
    free_frames = λ g h. elim (ℕ_discrete g (dfn s at)) [
      | yes e ↦
          subst (λ x. (0 < x) × (x < pages_per_file)) (sym e) (omega arith, inv.held_frames at)
      | no ne ↦
          let h1 : has g (dfn s at ∷ s.disk_free_frame_list) ≡ true = sym (ap (has g) left) ∙ h in
          inv.free_frames g (ground (arith, h1, ne))
    ];
    held_frames = λ a. elim (Bool-cases (same a at)) [
      | inl h ↦ subst (λ x. x < pages_per_file) (sym (zero_at a h)) (omega arith)
      | inr h ↦ subst (λ x. x < pages_per_file) (sym (stays a h)) (inv.held_frames a)
    ];
    in_range = λ a ne. inv.in_range a (λ z. ne ((back-other a ne).1 ∙ z));
    covered = back-covered;
  }
