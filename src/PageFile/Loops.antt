-- ===== src/PageFile/Loops.antt =====
-- kern/file_manager.c: the loops of `pf_free_env` over the tables.
use fos_kernel.Prelude.{
  ℕ, zero, suc, ◌+◌, ◌≡◌, refl, ap, ◌∙◌, inl, inr, Bool, false, ◌||◌, none, some, if◌then◌else◌,
  Option-cases,
}
use fos_kernel.PageFile.{
  PageFile, returns, faults, ◌>>=◌, put, put_table, set_pgdir, set_tabledir, free_disk_frame,
}
use fos_kernel.PageFile.Free.{
  entry_of, table_of, free_entries, drop_in, drop_disk_table, free_table, free_tables,
  remove_tables,
}
use fos_kernel.PageFile.Inv.{Slot, table, same, dfn, Inv}
use fos_kernel.PageFile.Alike.{dirs_self}
use fos_kernel.PageFile.Clear.{Cleared, Cleared-then, Cleared-as, Cleared-none, Cleared-table}
use fos_kernel.PageFile.Remove.{
  HasDirectory, in_tables, next_table, no_table, entries, no_frames, Cleared-dropped, lost-entries,
  tables_from, next_own, no_own,
}

-- What the loop over the tables comes to, from `s` on with the state `j`.
abbrev Tabled : (Slot → Bool) → ℕ → PageFile → PageFile → Type 0
Tabled gone e s j = Cleared gone s j × HasDirectory e j × (j.lost ≡ s.lost)

-- One table: its entries, then the table itself.
one_table :
    (e d : ℕ) (s : PageFile)
    → HasDirectory e s
    → Inv s
    → s.lost e d ≡ false
    → (j : PageFile) × (free_table (table_of (s.disk_env_pgdir e) d) e d s ≡ returns j)
      × Tabled (in_tables e d 1) e s j
unfolding free_table drop_disk_table
one_table e d s (dir, here) inv found = elim (Option-cases (dir d)) [
  | inl missing ↦ (
    s,
    ap (λ o. free_table (table_of o d) e d s) here ∙ ap (λ o. free_table o e d s) missing,
    (
      Cleared-as (λ a. false) (in_tables e d 1) s s
          (no_frames e d s
            (λ i. ap (λ o. entry_of (table_of o d) i) here ∙ ap (λ o. entry_of o i) missing))
          (Cleared-none s s (λ a. refl) refl refl refl inv),
      (dir, here),
      refl,
    ),
  )
  | inr (t, there) ↦
      let j = free_entries 1024 0 e d s in
      let (cleared, present) = entries 1024 0 e d s (dir, t, here, there) inv in
      let (dir1, t1, here1, there1) = present in
      (
        set_pgdir e (some (put_table dir1 d none)) j,
        ap (λ o. free_table (table_of o d) e d s) here
            ∙ ap (λ o. free_table o e d s) there
            ∙ ap (λ b. if b then faults else returns (drop_disk_table e d s)) found
            ∙ ap (λ o. returns (drop_in o e d j)) here1,
        (
          Cleared-dropped e d s j dir1 cleared here1 inv,
          (put_table dir1 d none, dirs_self j.disk_env_pgdir e (some (put_table dir1 d none))),
          lost-entries 1024 0 e d s (dir, t, here, there),
        ),
      )
]

-- The outer loop.
pub tables :
    (n d e : ℕ) (s : PageFile)
    → HasDirectory e s
    → Inv s
    → ((d1 : ℕ) → s.lost e d1 ≡ false)
    → (j : PageFile) × (free_tables n d e s ≡ returns j) × Tabled (in_tables e d n) e s j
unfolding free_tables
tables zero d e s has_dir inv found = (
  s,
  refl,
  (
    Cleared-as (λ a. false) (in_tables e d 0) s s (λ a ne. no_table e d a)
        (Cleared-none s s (λ a. refl) refl refl refl inv),
    has_dir,
    refl,
  ),
)
tables (suc n) d e s has_dir inv found =
    let (m, is, (one, still, same_lost)) = one_table e d s has_dir inv (found d) in
    let (j, then_is, (rest, at_end, lost_later)) =
      tables n (d + 1) e m still one.sound (λ d1. ap (λ l. l e d1) same_lost ∙ found d1) in
    (
      j,
      ap (λ r. r >>= λ k. free_tables n (d + 1) e k) is ∙ then_is,
      (
        Cleared-as (λ a. in_tables e d 1 a || in_tables e (d + 1) n a) (in_tables e d (suc n)) s j
            (λ a ne. next_table e d n a)
            (Cleared-then (in_tables e d 1) (in_tables e (d + 1) n) s m j one rest),
        at_end,
        lost_later ∙ same_lost,
      ),
    )

-- The loop of `__pf_remove_env_all_tables`.
pub own_tables :
    (n d e : ℕ) (s : PageFile) → Inv s → Cleared (tables_from e d n) s (remove_tables n d e s)
unfolding remove_tables
own_tables zero d e s inv =
    Cleared-as (λ a. false) (tables_from e d 0) s s (λ a ne. no_own e d a)
      (Cleared-none s s (λ a. refl) refl refl refl inv)
own_tables (suc n) d e s inv =
    let m =
      free_disk_frame (dfn s (table e d))
        (set_tabledir e (some (put (entry_of (s.disk_env_tabledir e)) d 0)) s) in
    let one = Cleared-table e d s inv in
    Cleared-as (λ a. same a (table e d) || tables_from e (d + 1) n a) (tables_from e d (suc n)) s
      (remove_tables n (d + 1) e m) (λ a ne. next_own e d n a)
      (Cleared-then (λ a. same a (table e d)) (tables_from e (d + 1) n) s m
        (remove_tables n (d + 1) e m) one (own_tables n (d + 1) e m one.sound))
