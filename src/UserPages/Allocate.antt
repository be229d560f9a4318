-- ===== src/UserPages/Allocate.antt =====
-- kern/memory_manager.c: what `allocateMem` leaves in the page file.
use fos_kernel.Prelude.{
  ℕ, zero, suc, ◌+◌, ◌*◌, ◌^◌, ◌<◌, ◌≤◌, ◌≡◌, refl, sym, ap, ◌∙◌, ◌≢◌, ◌⊎◌, inl, inr, Bool, true,
  false, ◌||◌, [], arith, subst,
}
use fos_kernel.PageFile.{
  PageFile, Code, success, no_page_file_space, page_not_exist_in_pf, table_not_exist_in_pf,
  disk_error, Run, returns, panics, faults, ◌>>=◌, kernel_base, start_sector, is_bad,
  pf_add_env_page, pf_add_empty_env_page,
}
use fos_kernel.PageFile.Inv.{Slot, same, dfn, Inv}
use fos_kernel.PageFile.Entries.{content}
use fos_kernel.PageFile.Grant.{page_of, null_among, stop_among, unfound}
use fos_kernel.PageFile.Add.{Holds, OthersKept, Stored, pf_add_env_page_lem}
use fos_kernel.UserPages.{allocate_pages}

-- The place is that of one of the `n` pages from `va` on.
abbrev pub in_pages : ℕ → ℕ → ℕ → Slot → Bool
in_pages e va zero a = false
in_pages e va (suc n) a = same a (page_of e va) || in_pages e (va + 4096) n a

later_page :
    (n k e va : ℕ)
    → va + (k + 1 + n) * 4096 ≤ 2 ^ 32
    → in_pages e (va + (k + 1) * 4096) n (page_of e va) ≡ false
later_page zero k e va fits = refl
later_page (suc n) k e va fits =
    let rest : in_pages e (va + (k + 1) * 4096 + 4096) n (page_of e va) ≡ false =
      ap (λ b. in_pages e b n (page_of e va)) (omega arith)
      ∙ later_page n (k + 1) e va (omega arith) in
    let apart : same (page_of e va) (page_of e (va + (k + 1) * 4096)) ≡ false =
      ground (arith, fits) in
    rw apart rest

-- The page file in front of the `q`-th page.
abbrev pub Before : ℕ → ℕ → ℕ → PageFile → PageFile → Type 0
Before q e va s m = allocate_pages q e va s ≡ returns m

-- The page has a disk frame of zeros, or it came when no frame was free.
abbrev pub PageFilled : ℕ → ℕ → ℕ → PageFile → PageFile → Type 0
PageFilled e va q s j =
    Holds j (page_of e (va + q * 4096)) (λ i. 0)
    ⊎ ((m : PageFile) × Before q e va s m
        × (m.disk_free_frame_list ≡ [])
        × (dfn j (page_of e (va + q * 4096)) ≡ 0))

-- What has become of the pages, and of all others.
pub record Filled (e va n : ℕ) (s j : PageFile) : Type 0 where
  pub sound : Inv j
  pub pages : (q : ℕ) → q < n → PageFilled e va q s j
  pub others :
      (a : Slot)
      → in_pages e va n a ≡ false
      → (dfn j a ≡ dfn s a)
        × (dfn s a ≢ 0
            → (i : ℕ) → i < 4096
            → content j.disk (dfn j a) i ≡ content s.disk (dfn s a) i)

-- The ways in which `allocateMem` can end.
abbrev pub Allocated : ℕ → ℕ → ℕ → PageFile → Run PageFile → Type 0
Allocated e va n s (returns j) = Filled e va n s j
Allocated e va n s faults =
    (q : ℕ) × (m : PageFile) × (q < n)
    × Before q e va s m
    × ((null_among 2 m.kmallocs ≡ true)
        ⊎ (unfound (va + q * 4096) (page_of e (va + q * 4096)) m ≡ true))
Allocated e va n s panics =
    (q : ℕ) × (m : PageFile) × (q < n)
    × Before q e va s m
    × ((kernel_base ≤ va + q * 4096)
        ⊎ (((f : ℕ) × (is_bad 8 (start_sector f) m ≡ true)) ⊎ (stop_among 2 m.kmallocs ≡ true)))

-- What comes behind the first page.
module _ (e va n : ℕ) (fits : va + (n + 1) * 4096 ≤ 2 ^ 32) (s j1 : PageFile)
    (steps : (k : ℕ) → allocate_pages (suc k) e va s ≡ allocate_pages k e (va + 4096) j1)
    (first : Holds j1 (page_of e va) (λ i. 0)
      ⊎ ((s.disk_free_frame_list ≡ []) × (dfn j1 (page_of e va) ≡ 0)))
    (kept : OthersKept s j1 (page_of e va)) where
  first_later :
      (j : PageFile)
      → Filled e (va + 4096) n j1 j
      → Holds j (page_of e va) (λ i. 0)
        ⊎ ((m : PageFile) × Before 0 e va s m
            × (m.disk_free_frame_list ≡ [])
            × (dfn j (page_of e va) ≡ 0))
  unfolding allocate_pages
  first_later j f =
      let here = f.others (page_of e va) (
        ap (λ b. in_pages e b n (page_of e va)) (omega arith)
        ∙ later_page n 0 e va (omega arith)) in
      elim first [
        | inl (held, bytes) ↦
            inl ((λ z. held (sym here.0 ∙ z)), λ i lt. here.1 held i lt ∙ bytes i lt)
        | inr (none_free, unheld) ↦ inr (s, refl, none_free, here.0 ∙ unheld)
      ]

  page_filled :
      (j : PageFile) → Filled e (va + 4096) n j1 j → (q : ℕ) → q < suc n → PageFilled e va q s j
  page_filled j f zero lt =
      subst
        (λ b.
          Holds j (page_of e b) (λ i. 0)
          ⊎ ((m : PageFile) × Before 0 e va s m
              × (m.disk_free_frame_list ≡ [])
              × (dfn j (page_of e b) ≡ 0)))
        (omega arith) (first_later j f)
  page_filled j f (suc q) lt =
      subst
        (λ b.
          Holds j (page_of e b) (λ i. 0)
          ⊎ ((m : PageFile) × Before (suc q) e va s m
              × (m.disk_free_frame_list ≡ [])
              × (dfn j (page_of e b) ≡ 0)))
        (omega arith)
        (elim (f.pages q (omega arith)) [
          | inl held ↦ inl held
          | inr (m, before, none_free, unheld) ↦ inr (m, steps q ∙ before, none_free, unheld)
        ])

  filled : (j : PageFile) → Filled e (va + 4096) n j1 j → Filled e va (suc n) s j
  filled j f = record {
    sound = f.sound;
    pages = page_filled j f;
    others = λ a miss.
        let apart : same a (page_of e va) ≡ false = ground arith in
        let rest : in_pages e (va + 4096) n a ≡ false = ground arith in
        let k = kept a apart in
        let l = f.others a rest in
        (l.0 ∙ k.0, λ held i lt. l.1 (λ z. held (sym k.0 ∙ z)) i lt ∙ k.1 held i lt);
  }

  next_address : (q : ℕ) → va + 4096 + q * 4096 ≡ va + suc q * 4096
  next_address q = omega arith

  followed : (r : Run PageFile) → Allocated e (va + 4096) n j1 r → Allocated e va (suc n) s r
  followed faults (q, m, lt, before, why) = (
    suc q,
    m,
    omega arith,
    steps q ∙ before,
    elim why [
      | inl no_page ↦ inl no_page
      | inr lost ↦ inr (subst (λ b. unfound b (page_of e b) m ≡ true) (next_address q) lost)
    ],
  )
  followed panics (q, m, lt, before, why) = (
    suc q,
    m,
    omega arith,
    steps q ∙ before,
    elim why [ inl high ↦ inl (omega arith) | inr other ↦ inr other ],
  )
  followed (returns j) f = filled j f

no_pages : (e va : ℕ) (s : PageFile) → Inv s → Filled e va 0 s s
no_pages e va s inv = record {
  sound = inv;
  pages = λ q lt. absurd (omega arith);
  others = λ a miss. (refl, λ held i lt. refl);
}

-- One round, by what `pf_add_env_page` does with its page.
module _ (n e va : ℕ) (s : PageFile) (fits : va + (n + 1) * 4096 ≤ 2 ^ 32)
    (rest : (j1 : PageFile)
      → Inv j1
      → Allocated e (va + 4096) n j1 (allocate_pages n e (va + 4096) j1)) where
  first_address : va ≡ va + 0 * 4096
  first_address = omega arith

  abbrev after : Run (Code × PageFile) → ℕ → Run PageFile
  after r k = r >>= λ x. allocate_pages k e (va + 4096) x.1

  go_on :
      (c : Code) (j1 : PageFile)
      → pf_add_env_page e va (λ i. 0) s ≡ returns (c, j1)
      → Inv j1
      → Holds j1 (page_of e va) (λ i. 0)
        ⊎ ((s.disk_free_frame_list ≡ []) × (dfn j1 (page_of e va) ≡ 0))
      → OthersKept s j1 (page_of e va)
      → Allocated e va (suc n) s (allocate_pages n e (va + 4096) j1)
  unfolding allocate_pages pf_add_empty_env_page
  go_on c j1 is inv1 first kept =
      followed e va n (omega arith) s j1 (λ k. ap (λ r. after r k) is) first kept
        (allocate_pages n e (va + 4096) j1) (rest j1 inv1)

  pub first_page :
      (r : Run (Code × PageFile))
      → pf_add_env_page e va (λ i. 0) s ≡ r
      → Stored s va (page_of e va) (λ i. 0) r
      → Allocated e va (suc n) s (after r n)
  unfolding allocate_pages pf_add_empty_env_page
  first_page faults is why = (
    0,
    s,
    omega arith,
    refl,
    elim why [
      | inl no_page ↦ inl no_page
      | inr lost ↦ inr (subst (λ b. unfound b (page_of e b) s ≡ true) first_address lost)
    ],
  )
  first_page panics is why =
      (0, s, omega arith, refl, elim why [ inl high ↦ inl (omega arith) | inr other ↦ inr other ])
  first_page (returns (success, j1)) is (held, kept, inv1, good, found) =
      go_on success j1 is inv1 (inl held) kept
  first_page (returns (no_page_file_space, j1)) is (none_free, unheld, same_frames, disk, inv1) =
      go_on no_page_file_space j1 is inv1 (inr (none_free, same_frames (page_of e va) ∙ unheld))
        (λ a miss. (
          same_frames a,
          λ held i lt.
              ap (λ d. content d (dfn j1 a) i) disk ∙ ap (λ f. content s.disk f i) (same_frames a),
        ))
  first_page (returns (page_not_exist_in_pf, j1)) is none_such = absurd none_such
  first_page (returns (table_not_exist_in_pf, j1)) is none_such = absurd none_such
  first_page (returns (disk_error, j1)) is none_such = absurd none_such

pub allocate_pages-Allocated :
    (n e va : ℕ) (s : PageFile)
    → Inv s
    → va + n * 4096 ≤ 2 ^ 32
    → Allocated e va n s (allocate_pages n e va s)
unfolding allocate_pages pf_add_empty_env_page
allocate_pages-Allocated zero e va s inv fits = no_pages e va s inv
allocate_pages-Allocated (suc n) e va s inv fits =
    first_page n e va s (omega arith)
      (λ j1 inv1. allocate_pages-Allocated n e (va + 4096) j1 inv1 (omega arith))
      (pf_add_env_page e va (λ i. 0) s) refl (pf_add_env_page_lem s e va (λ i. 0) inv)
