-- ===== src/PageFile/FreeEnv.antt =====
-- kern/file_manager.c: `pf_remove_env_page`, and `pf_free_env` as a whole.
use fos_kernel.Prelude.{
  Option, ℕ, zero, suc, ◌+◌, ◌<◌, ◌≡◌, refl, sym, ap, ◌∙◌, ◌≢◌, inl, inr, Bool, true, false, ◌||◌,
  none, some, ◌==◌, if◌then◌else◌, arith, Bool-cases, Option-cases, subst,
}
use native.Mathlib.Decide.{ℕ_discrete}
use fos_kernel.Frames.{pdx, ptx}
use fos_kernel.PageFile.{
  PageFile, Table, Directory, write_in, write_table, put, set_tabledir, write_at, free_disk_frame,
  user_tables, find_table, is_lost, remove_from, remove_in, pf_remove_env_page,
}
use fos_kernel.PageFile.Free.{entry_of, table_of, remove_tables, free_directory}
use fos_kernel.PageFile.Inv.{Slot, page, table, same, eq_of_same, dfn, Inv}
use fos_kernel.PageFile.Alike.{frames-same}
use fos_kernel.PageFile.Clear.{
  Cleared, Cleared-as, Cleared-none, Cleared-page, pgdir-free_disk_frame,
}
use fos_kernel.PageFile.Remove.{lost-free_disk_frame, in_tables, tables_from}

-- The place had no frame, so nothing is cleared.
clears_nothing : (s : PageFile) (at : Slot) → dfn s at ≡ 0 → Inv s → Cleared (λ a. same a at) s s
clears_nothing s at empty inv =
    Cleared-as (λ a. false) (λ a. same a at) s s
      (λ a ne. elim (Bool-cases (same a at)) [
        | inl hit ↦ absurd (ne (ap (dfn s) (eq_of_same a at hit) ∙ empty))
        | inr miss ↦ sym miss
      ])
      (Cleared-none s s (λ a. refl) refl refl refl inv)

-- `pf_remove_env_page` in a sound page file, of a page whose table `kheap_virtual_address` finds, if there
-- is one: the page has no disk frame any more, its frame is free, all
-- other pages and tables keep theirs, the disk is not touched, and the page file is sound.
pub pf_remove_env_page_lem :
    (s : PageFile) (e va : ℕ)
    → Inv s
    → is_lost e va s ≡ false
    → Cleared (λ a. same a (page e (pdx va) (ptx va))) s (pf_remove_env_page e va s)
unfolding pf_remove_env_page
pf_remove_env_page_lem s e va inv found =
    let at = page e (pdx va) (ptx va) in
    let gone = λ (a : Slot). same a at in
    elim (Option-cases (s.disk_env_pgdir e)) [
      | inl missing ↦
          subst (Cleared gone s) (sym (ap (λ o. remove_in o e va s) missing))
            (clears_nothing s at (ap (λ o. entry_of (table_of o (pdx va)) (ptx va)) missing) inv)
      | inr (dir, here) ↦
          let enter = ap (λ o. remove_in o e va s) here in
          elim (Option-cases (dir (pdx va))) [
            | inl missing ↦
                subst (Cleared gone s)
                  (sym (enter ∙ ap (λ o. remove_from (find_table o e va s) e va s) missing))
                  (clears_nothing s at
                    (ap (λ o. entry_of (table_of o (pdx va)) (ptx va)) here
                      ∙ ap (λ o. entry_of o (ptx va)) missing)
                    inv)
            | inr (t, there) ↦
                let entry_is : dfn s at ≡ t (ptx va) =
                  ap (λ o. entry_of (table_of o (pdx va)) (ptx va)) here
                  ∙ ap (λ o. entry_of o (ptx va)) there in
                subst (Cleared gone s)
                  (sym (
                    enter
                    ∙ ap (λ o. remove_from (find_table o e va s) e va s) there
                    ∙ ap (λ b. remove_from (if b then none else some t) e va s) found
                    ∙ ap (λ f. free_disk_frame f (write_at e (pdx va) (ptx va) 0 s))
                        (sym entry_is)))
                  (Cleared-page e (pdx va) (ptx va) s dir t here there inv)
          ]
    ]

lost-write_at : (e d i v : ℕ) (s : PageFile) → (write_at e d i v s).lost ≡ s.lost
unfolding write_at
lost-write_at e d i v s = elim (Option-cases (s.disk_env_pgdir e)) [
  | inl missing ↦ ap (λ o. (write_in o e d i v s).lost) missing
  | inr (dir, here) ↦ ap (λ o. (write_in o e d i v s).lost) here ∙ elim (Option-cases (dir d)) [
    | inl missing ↦ ap (λ o. (write_table o e d i v dir s).lost) missing
    | inr (t, there) ↦ ap (λ o. (write_table o e d i v dir s).lost) there
  ]
]

-- `pf_remove_env_page` changes nothing about which tables are found.
pub lost-pf_remove_env_page : (e va : ℕ) (s : PageFile) → (pf_remove_env_page e va s).lost ≡ s.lost
unfolding pf_remove_env_page
lost-pf_remove_env_page e va s = by_directory (s.disk_env_pgdir e)
  where
    by_table : (o : Option Table) → (remove_from o e va s).lost ≡ s.lost
    by_table none = refl
    by_table (some t) =
        lost-free_disk_frame (t (ptx va)) (write_at e (pdx va) (ptx va) 0 s)
        ∙ lost-write_at e (pdx va) (ptx va) 0 s

    by_directory : (o : Option Directory) → (remove_in o e va s).lost ≡ s.lost
    by_directory none = refl
    by_directory (some d) = by_table (find_table (d (pdx va)) e va s)

abbrev pub env_of : Slot → ℕ
env_of (page e d i) = e
env_of (table e d) = e

abbrev pub directory_index : Slot → ℕ
directory_index (page e d i) = d
directory_index (table e d) = d

-- The environment has pages and tables below USER_TOP only.
abbrev pub BelowUserTop : ℕ → PageFile → Type 0
BelowUserTop e s = (a : Slot) → env_of a ≡ e → dfn s a ≢ 0 → directory_index a < user_tables

-- What an environment's pages and tables come to when both loops are done.
module _ (e : ℕ) (s : PageFile) (below : BelowUserTop e s) where
  pub no_page_left :
      (m : PageFile) → Cleared (in_tables e 0 user_tables) s m → (d i : ℕ) → dfn m (page e d i) ≡ 0
  no_page_left m c d i = elim (ℕ_discrete (dfn s (page e d i)) 0) [
    | yes z ↦
        c.frames (page e d i)
        ∙ either (in_tables e 0 user_tables (page e d i)) (dfn s (page e d i)) z
    | no ne ↦
        let low = below (page e d i) refl ne in
        let hit : in_tables e 0 user_tables (page e d i) ≡ true = ground (arith, low) in
        c.frames (page e d i) ∙ ap (λ b. if b then 0 else dfn s (page e d i)) hit
  ]
    where
      either : (b : Bool) (x : ℕ) → x ≡ 0 → (if b then 0 else x) ≡ 0
      either true x z = refl
      either false x z = z

  pub own_frame :
      (j : PageFile)
      → Cleared (in_tables e 0 user_tables) s j
      → (d : ℕ) → dfn j (table e d) ≡ dfn s (table e d)
  own_frame j c d = c.frames (table e d)

  pub no_own_left :
      (j k : PageFile)
      → Cleared (in_tables e 0 user_tables) s j
      → Cleared (tables_from e 0 user_tables) j k
      → (d : ℕ) → dfn k (table e d) ≡ 0
  no_own_left j k c c1 d = elim (ℕ_discrete (dfn s (table e d)) 0) [
    | yes z ↦
        c1.frames (table e d)
        ∙ either (tables_from e 0 user_tables (table e d)) (dfn j (table e d)) (own_frame j c d ∙ z)
    | no ne ↦
        let low = below (table e d) refl ne in
        let hit : tables_from e 0 user_tables (table e d) ≡ true = ground (arith, low) in
        c1.frames (table e d) ∙ ap (λ b. if b then 0 else dfn j (table e d)) hit
  ]
    where
      either : (b : Bool) (x : ℕ) → x ≡ 0 → (if b then 0 else x) ≡ 0
      either true x z = refl
      either false x z = z

  pub agree :
      (a : Slot)
      → dfn s a ≢ 0
      → (in_tables e 0 user_tables a || tables_from e 0 user_tables a) ≡ (env_of a == e)
  agree (page e1 d i) ne = elim (Bool-cases (e1 == e)) [
    | inl hit ↦ let low = below (page e1 d i) (ground arith) ne in ground (arith, low)
    | inr miss ↦ ground arith
  ]
  agree (table e1 d) ne = elim (Bool-cases (e1 == e)) [
    | inl hit ↦ let low = below (table e1 d) (ground arith) ne in ground (arith, low)
    | inr miss ↦ ground arith
  ]

pub pgdir-remove_tables :
    (n d e : ℕ) (s : PageFile) → (remove_tables n d e s).disk_env_pgdir ≡ s.disk_env_pgdir
unfolding remove_tables
pgdir-remove_tables zero d e s = refl
pgdir-remove_tables (suc n) d e s =
    let m = set_tabledir e (some (put (entry_of (s.disk_env_tabledir e)) d 0)) s in
    pgdir-remove_tables n (d + 1) e (free_disk_frame (dfn s (table e d)) m)
    ∙ pgdir-free_disk_frame (dfn s (table e d)) m

pub without_table :
    (k : PageFile) (e : ℕ)
    → ((d : ℕ) → dfn k (table e d) ≡ 0)
    → (a : Slot) → dfn (set_tabledir e none k) a ≡ dfn k a
without_table k e empty (page e1 d i) = refl
without_table k e empty (table e1 d) = elim (Bool-cases (e1 == e)) [
  | inl hit ↦
      let ee : e1 ≡ e = ground arith in
      ap (λ b. entry_of (if b then none else k.disk_env_tabledir e1) d) hit
      ∙ sym (ap (λ n. dfn k (table n d)) ee ∙ empty d)
  | inr miss ↦ ap (λ b. entry_of (if b then none else k.disk_env_tabledir e1) d) miss
]

pub without_directory :
    (m : PageFile) (e : ℕ)
    → ((d i : ℕ) → dfn m (page e d i) ≡ 0)
    → (a : Slot) → dfn (free_directory e m) a ≡ dfn m a
without_directory m e empty (page e1 d i) =
    frames-same m e none (λ d1 i1. sym (empty d1 i1)) (page e1 d i)
without_directory m e empty (table e1 d) = refl
