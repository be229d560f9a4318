-- ===== src/PageFile/Freed.antt =====
-- kern/file_manager.c: `pf_free_env` as a whole.
use fos_kernel.Prelude.{
  ℕ, ◌≡◌, refl, sym, ap, ◌∙◌, ◌≢◌, inl, inr, Bool, true, false, ◌||◌, Option, none, some, ◌==◌,
  if◌then◌else◌, arith, Bool-cases, Option-cases,
}
use fos_kernel.PageFile.{PageFile, Run, returns, ◌>>=◌, Table, Directory, set_tabledir, user_tables}
use fos_kernel.PageFile.Free.{
  entry_of, free_tables, remove_tables, remove_all_of, pf_remove_env_all_tables, free_tabledir,
  free_directory, free_in, pf_free_env,
}
use fos_kernel.PageFile.Inv.{Slot, page, table, dfn, Inv}
use fos_kernel.PageFile.Alike.{dirs_self}
use fos_kernel.PageFile.Clear.{Cleared, Cleared-then, Cleared-as, Cleared-none}
use fos_kernel.PageFile.Remove.{in_tables, tables_from}
use fos_kernel.PageFile.Loops.{tables, own_tables}
use fos_kernel.PageFile.FreeEnv.{
  env_of, BelowUserTop, no_page_left, own_frame, no_own_left, agree, pgdir-remove_tables,
  without_table, without_directory,
}

or_false : (b : Bool) → (b || false) ≡ b
or_false true = refl
or_false false = refl

-- `pf_free_env` has returned: the environment has no disk frame and no directory any more, its
-- frames are free, those of other environments and the disk are as before.
abbrev pub Freed : ℕ → PageFile → Run PageFile → Type 0
Freed e s r =
    (j : PageFile) × (r ≡ returns j)
    × Cleared (λ a. env_of a == e) s j
    × (j.disk_env_pgdir e ≡ none)
    × (j.disk_env_tabledir e ≡ none)

module _ (s : PageFile) (e : ℕ) (dir : Directory) (here : s.disk_env_pgdir e ≡ some dir)
    (below : BelowUserTop e s) (inv : Inv s) (emptied : PageFile)
    (is : free_tables user_tables 0 e s ≡ returns emptied)
    (pages_gone : Cleared (in_tables e 0 user_tables) s emptied) where
  abbrev bare : PageFile
  bare = free_directory e emptied

  bare-Cleared : Cleared (in_tables e 0 user_tables) s bare
  bare-Cleared =
      Cleared-as (λ a. in_tables e 0 user_tables a || false) (in_tables e 0 user_tables) s bare
        (λ a ne. or_false (in_tables e 0 user_tables a))
        (Cleared-then (in_tables e 0 user_tables) (λ a. false) s emptied bare pages_gone
          (Cleared-none emptied bare
            (without_directory emptied e (no_page_left e s below emptied pages_gone)) refl refl refl
            pages_gone.sound))

  enter : pf_free_env e s ≡ returns (free_tabledir (bare.disk_env_tabledir e) e bare)
  unfolding pf_free_env
  enter =
      ap (λ o. free_in o e s) here
      ∙ ap
          (λ r. r >>= λ m.
            let j = free_directory e m in returns (free_tabledir (j.disk_env_tabledir e) e j))
          is

  bare-none : bare.disk_env_pgdir e ≡ none
  bare-none = dirs_self emptied.disk_env_pgdir e none

  only_pages :
      bare.disk_env_tabledir e ≡ none
      → (a : Slot) → dfn s a ≢ 0
      → in_tables e 0 user_tables a ≡ (env_of a == e)
  only_pages missing (page e1 d i) ne =
      let h = agree e s below (page e1 d i) ne in ground (arith, h)
  only_pages missing (table e1 d) ne = elim (Bool-cases (e1 == e)) [
    | inl hit ↦
        let ee : e1 ≡ e = ground arith in
        absurd (
          ne (
            ap (λ n. dfn s (table n d)) ee
            ∙ sym (own_frame e s below bare bare-Cleared d)
            ∙ ap (λ o. entry_of o d) missing))
    | inr miss ↦ sym miss
  ]

  -- There is no table directory, so no table is on disk.
  freed_pages : bare.disk_env_tabledir e ≡ none → Freed e s (pf_free_env e s)
  freed_pages missing = (
    bare,
    enter ∙ ap (λ o. returns (free_tabledir o e bare)) missing,
    Cleared-as (in_tables e 0 user_tables) (λ a. env_of a == e) s bare (only_pages missing)
        bare-Cleared,
    bare-none,
    missing,
  )

  abbrev tableless : PageFile
  tableless = remove_tables user_tables 0 e bare

  tables_gone : Cleared (tables_from e 0 user_tables) bare tableless
  tables_gone = own_tables user_tables 0 e bare bare-Cleared.sound

  abbrev nothing_left : PageFile
  nothing_left = set_tabledir e none tableless

  nothing_left-Cleared : Cleared (λ a. env_of a == e) s nothing_left
  nothing_left-Cleared =
      let both =
        Cleared-then (in_tables e 0 user_tables) (tables_from e 0 user_tables) s bare tableless
          bare-Cleared tables_gone in
      let all =
        Cleared-then (λ a. in_tables e 0 user_tables a || tables_from e 0 user_tables a)
          (λ a. false) s tableless nothing_left both
          (Cleared-none tableless nothing_left
            (without_table tableless e
              (no_own_left e s below bare tableless bare-Cleared tables_gone))
            refl refl refl tables_gone.sound) in
      Cleared-as (λ a. (in_tables e 0 user_tables a || tables_from e 0 user_tables a) || false)
        (λ a. env_of a == e) s nothing_left
        (λ a ne.
          or_false (in_tables e 0 user_tables a || tables_from e 0 user_tables a)
          ∙ agree e s below a ne)
        all

  freed_tables : (t : Table) → bare.disk_env_tabledir e ≡ some t → Freed e s (pf_free_env e s)
  unfolding pf_remove_env_all_tables
  freed_tables t there = (
    nothing_left,
    enter
        ∙ ap (λ o. returns (free_tabledir o e bare)) there
        ∙ ap (λ o. returns (set_tabledir e none (remove_all_of o e bare))) there,
    nothing_left-Cleared,
    ap (λ ds. ds e) (pgdir-remove_tables user_tables 0 e bare) ∙ bare-none,
    own_none tableless.disk_env_tabledir,
  )
    where
      own_none : (ts : ℕ → Option Table) → (if e == e then none else ts e) ≡ none
      own_none ts = ground arith

  freed : Freed e s (pf_free_env e s)
  freed = elim (Option-cases (bare.disk_env_tabledir e)) [
    | inl missing ↦ freed_pages missing
    | inr (t, there) ↦ freed_tables t there
  ]

-- In a sound page file, `pf_free_env` of an environment that has a disk page directory, whose pages and
-- tables are below USER_TOP, and whose page tables on disk `kheap_virtual_address` finds, returns: no
-- disk frame leaks. Every frame of the environment is free, every other page and table keeps its
-- frame, the disk is not touched, the environment has neither directory, and the page file is sound.
pub pf_free_env_lem :
    (s : PageFile) (e : ℕ) (dir : Directory)
    → s.disk_env_pgdir e ≡ some dir
    → BelowUserTop e s
    → Inv s
    → ((d : ℕ) → s.lost e d ≡ false)
    → Freed e s (pf_free_env e s)
pf_free_env_lem s e dir here below inv found =
    let (m, is, (gone, has_dir, same_lost)) = tables user_tables 0 e s (dir, here) inv found in
    freed s e dir here below inv m is gone
