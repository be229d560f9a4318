-- ===== src/PageFile/Remove.antt =====
-- kern/file_manager.c: the loops of `pf_free_env`: one table and its entries.
use fos_kernel.Prelude.{
  ℕ, zero, suc, ◌+◌, ◌≡◌, refl, sym, ap, ◌∙◌, ◌≢◌, inl, inr, Bool, true, false, ◌&&◌, ◌||◌, none,
  some, ◌==◌, ltb, leb, if◌then◌else◌, arith, Bool-cases,
}
use native.Mathlib.Decide.{ℕ_discrete}
use fos_kernel.PageFile.{
  PageFile, Table, Directory, put, put_table, set_pgdir, write_at, free_disk_frame,
}
use fos_kernel.PageFile.Free.{entry_of, table_of, free_entries}
use fos_kernel.PageFile.Inv.{Slot, page, table, same, dfn, Inv, InRange}
use fos_kernel.PageFile.Entries.{write_at-is, Kept-write_at}
use fos_kernel.PageFile.Alike.{frames-same, dirs_self}
use fos_kernel.PageFile.Clear.{
  Cleared, Cleared-then, Cleared-as, Cleared-none, Cleared-page, pgdir-free_disk_frame,
}

-- The environment has a directory, and in it a table `d`.
abbrev pub HasDirectory : ℕ → PageFile → Type 0
HasDirectory e s = (dir : Directory) × (s.disk_env_pgdir e ≡ some dir)

abbrev pub Present : ℕ → ℕ → PageFile → Type 0
Present e d s = (dir : Directory) × (t : Table) × (s.disk_env_pgdir e ≡ some dir) × (dir d ≡ some t)

-- The pages `i` to `i + n - 1` of a table.
abbrev in_pages : ℕ → ℕ → ℕ → ℕ → Slot → Bool
in_pages e d i n (page e1 d1 i1) = (e1 == e) && ((d1 == d) && (leb i i1 && ltb i1 (i + n)))
in_pages e d i n (table e1 d1) = false

-- The pages of the tables `d` to `d + n - 1`.
abbrev pub in_tables : ℕ → ℕ → ℕ → Slot → Bool
in_tables e d n (page e1 d1 i1) = (e1 == e) && (leb d d1 && ltb d1 (d + n))
in_tables e d n (table e1 d1) = false

-- The tables `d` to `d + n - 1` themselves.
abbrev pub tables_from : ℕ → ℕ → ℕ → Slot → Bool
tables_from e d n (page e1 d1 i1) = false
tables_from e d n (table e1 d1) = (e1 == e) && (leb d d1 && ltb d1 (d + n))

next_page :
    (e d i n : ℕ) (a : Slot)
    → (same a (page e d i) || in_pages e d (i + 1) n a) ≡ in_pages e d i (suc n) a
next_page e d i n (page e1 d1 i1) = ground arith
next_page e d i n (table e1 d1) = refl

no_page : (e d i : ℕ) (a : Slot) → false ≡ in_pages e d i 0 a
no_page e d i (page e1 d1 i1) = ground arith
no_page e d i (table e1 d1) = refl

pub next_table :
    (e d n : ℕ) (a : Slot)
    → (in_tables e d 1 a || in_tables e (d + 1) n a) ≡ in_tables e d (suc n) a
next_table e d n (page e1 d1 i1) = ground arith
next_table e d n (table e1 d1) = refl

pub no_table : (e d : ℕ) (a : Slot) → false ≡ in_tables e d 0 a
no_table e d (page e1 d1 i1) = ground arith
no_table e d (table e1 d1) = refl

pub next_own :
    (e d n : ℕ) (a : Slot)
    → (same a (table e d) || tables_from e (d + 1) n a) ≡ tables_from e d (suc n) a
next_own e d n (page e1 d1 i1) = refl
next_own e d n (table e1 d1) = ground arith

pub no_own : (e d : ℕ) (a : Slot) → false ≡ tables_from e d 0 a
no_own e d (page e1 d1 i1) = refl
no_own e d (table e1 d1) = ground arith

stays-Present :
    (e d i v f : ℕ) (s : PageFile)
    → Present e d s
    → Present e d (free_disk_frame f (write_at e d i v s))
stays-Present e d i v f s (dir, t, here, there) = (
  put_table dir d (some (put t i v)),
  put t i v,
  ap (λ ds. ds e) (pgdir-free_disk_frame f (write_at e d i v s))
      ∙ ap (λ m. m.disk_env_pgdir e) (write_at-is e d i v s dir t here there)
      ∙ dirs_self s.disk_env_pgdir e (some (put_table dir d (some (put t i v)))),
  ground arith,
)

-- The inner loop.
pub entries :
    (n i e d : ℕ) (s : PageFile)
    → Present e d s
    → Inv s
    → Cleared (in_pages e d i n) s (free_entries n i e d s) × Present e d (free_entries n i e d s)
unfolding free_entries
entries zero i e d s present inv = (
  Cleared-as (λ a. false) (in_pages e d i 0) s s (λ a ne. no_page e d i a)
      (Cleared-none s s (λ a. refl) refl refl refl inv),
  present,
)
entries (suc n) i e d s present inv =
    let (dir, t, here, there) = present in
    let f = dfn s (page e d i) in
    let m = free_disk_frame f (write_at e d i 0 s) in
    let one = Cleared-page e d i s dir t here there inv in
    let (rest, still) = entries n (i + 1) e d m (stays-Present e d i 0 f s present) one.sound in
    (
      Cleared-as (λ a. same a (page e d i) || in_pages e d (i + 1) n a) (in_pages e d i (suc n)) s
          (free_entries n (i + 1) e d m) (λ a ne. next_page e d i n a)
          (Cleared-then (λ a. same a (page e d i)) (in_pages e d (i + 1) n) s m
            (free_entries n (i + 1) e d m) one rest),
      still,
    )

pub no_frames :
    (e d : ℕ) (s : PageFile)
    → ((i : ℕ) → dfn s (page e d i) ≡ 0)
    → (a : Slot) → dfn s a ≢ 0
    → false ≡ in_tables e d 1 a
no_frames e d s empty (table e1 d1) held = refl
no_frames e d s empty (page e1 d1 i) held = elim (Bool-cases (in_tables e d 1 (page e1 d1 i))) [
  | inl hit ↦
      let parts : (e1 ≡ e) × (d1 ≡ d) = ground arith in
      absurd (
        held
          (ap (λ n. dfn s (page n d1 i)) parts.0 ∙ ap (λ n. dfn s (page e n i)) parts.1 ∙ empty i))
  | inr miss ↦ sym miss
]

whole_table :
    (e d : ℕ) (a : Slot) → InRange a → (in_pages e d 0 1024 a || false) ≡ in_tables e d 1 a
whole_table e d (page e1 d1 i) range = ground arith
whole_table e d (table e1 d1) range = refl

module _ (e d : ℕ) (s j : PageFile) (dir : Directory) (cleared : Cleared (in_pages e d 0 1024) s j)
    (here : j.disk_env_pgdir e ≡ some dir) where
  empty_table : (i : ℕ) → dfn j (page e d i) ≡ 0
  empty_table i = elim (ℕ_discrete (dfn j (page e d i)) 0) [
    | yes z ↦ z
    | no ne ↦
        let range = cleared.sound.in_range (page e d i) ne in
        let hit : in_pages e d 0 1024 (page e d i) ≡ true = ground (arith, range.1) in
        cleared.frames (page e d i) ∙ ap (λ b. if b then 0 else dfn s (page e d i)) hit
  ]

  without :
      (d1 i : ℕ)
      → entry_of (put_table dir d none d1) i ≡ entry_of (table_of (j.disk_env_pgdir e) d1) i
  without d1 i = elim (Bool-cases (d1 == d)) [
    | inl hit ↦
        let dd : d1 ≡ d = ground arith in
        ap (λ b. entry_of (if b then none else dir d1) i) hit
        ∙ sym (ap (λ n. dfn j (page e n i)) dd ∙ empty_table i)
    | inr miss ↦
        ap (λ b. entry_of (if b then none else dir d1) i) miss
        ∙ ap (λ o. entry_of (table_of o d1) i) (sym here)
  ]

  abbrev dropped : PageFile
  dropped = set_pgdir e (some (put_table dir d none)) j

  same_frames : (a : Slot) → dfn dropped a ≡ dfn j a
  same_frames (page e1 d1 i) = frames-same j e (some (put_table dir d none)) without (page e1 d1 i)
  same_frames (table e1 d1) = refl

  pub Cleared-dropped : Inv s → Cleared (in_tables e d 1) s dropped
  Cleared-dropped inv =
      Cleared-as (λ a. in_pages e d 0 1024 a || false) (in_tables e d 1) s dropped
        (λ a ne. whole_table e d a (inv.in_range a ne))
        (Cleared-then (in_pages e d 0 1024) (λ a. false) s j dropped cleared
          (Cleared-none j dropped same_frames refl refl refl cleared.sound))

pub lost-free_disk_frame : (f : ℕ) (s : PageFile) → (free_disk_frame f s).lost ≡ s.lost
unfolding free_disk_frame
lost-free_disk_frame f s = ground arith

-- The inner loop leaves the table where it was.
pub lost-entries :
    (n i e d : ℕ) (s : PageFile) → Present e d s → (free_entries n i e d s).lost ≡ s.lost
unfolding free_entries
lost-entries zero i e d s present = refl
lost-entries (suc n) i e d s present =
    let (dir, t, here, there) = present in
    let f = dfn s (page e d i) in
    let m = free_disk_frame f (write_at e d i 0 s) in
    lost-entries n (i + 1) e d m (stays-Present e d i 0 f s present)
    ∙ lost-free_disk_frame f (write_at e d i 0 s)
    ∙ (Kept-write_at e d i 0 s dir t here there).lost
