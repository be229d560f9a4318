-- ===== src/PageFile/Boot.antt =====
-- kern/file_manager.c: the page file as `initialize_disk_page_file` leaves it.
use fos_kernel.Prelude.{
  ℕ, zero, suc, ◌+◌, ◌-◌, ◌<◌, ◌≡◌, inl, true, false, ◌&&◌, ◌||◌, List, [], ◌∷◌, ltb, leb, arith,
  length,
}
use fos_kernel.Queue.Chain.{has, Distinct}
use fos_kernel.PageFile.{PageFile, insert_frames, initialize_disk_page_file, pages_per_file}
use fos_kernel.PageFile.Free.{pf_calculate_free_frames}
use fos_kernel.PageFile.Inv.{Slot, page, table, dfn, Inv}

has-insert_frames :
    (n i : ℕ) (l : List ℕ) (f : ℕ)
    → has f (insert_frames n i l) ≡ ((leb i f && ltb f (i + n)) || has f l)
unfolding insert_frames
has-insert_frames zero i l f = ground arith
has-insert_frames (suc n) i l f = ground (arith, has-insert_frames n (i + 1) (i ∷ l) f)

insert_frames-Distinct :
    (n i : ℕ) (l : List ℕ)
    → Distinct l
    → ((f : ℕ) → has f l ≡ true → f < i)
    → Distinct (insert_frames n i l)
unfolding insert_frames
insert_frames-Distinct zero i l d below = d
insert_frames-Distinct (suc n) i l d below =
    insert_frames-Distinct n (i + 1) (i ∷ l) (not_in, d) (λ f h. ground (arith, h, below f))
  where
    not_in : has i l ≡ false
    not_in = ground (arith, below i)

length-insert_frames : (n i : ℕ) (l : List ℕ) → length (insert_frames n i l) ≡ n + length l
unfolding insert_frames
length-insert_frames zero i l = omega arith
length-insert_frames (suc n) i l = omega (arith, length-insert_frames n (i + 1) (i ∷ l))

-- When no environment has a page or a table on disk, `initialize_disk_page_file` gives a sound page file
-- in which every disk frame but the first is free, and `pf_calculate_free_frames` counts them.
pub initialize_disk_page_file-Inv :
    (s : PageFile)
    → ((a : Slot) → dfn s a ≡ 0)
    → Inv (initialize_disk_page_file s)
      × (pf_calculate_free_frames (initialize_disk_page_file s) ≡ pages_per_file - 1)
unfolding initialize_disk_page_file pf_calculate_free_frames
initialize_disk_page_file-Inv s empty = (
  record {
    distinct = λ a b ne e. absurd (ne (none_held a));
    free_unheld = λ a ne. absurd (ne (none_held a));
    different = insert_frames-Distinct (pages_per_file - 1) 1 [] tt (λ f h. cc);
    free_frames = λ f h. ground (arith, h, has-insert_frames (pages_per_file - 1) 1 [] f);
    held_frames = λ a. omega (arith, none_held a);
    in_range = λ a ne. absurd (ne (none_held a));
    covered = λ f lo hi. inl (ground (arith, has-insert_frames (pages_per_file - 1) 1 [] f));
  },
  omega (arith, length-insert_frames (pages_per_file - 1) 1 []),
)
  where
    none_held : (a : Slot) → dfn (initialize_disk_page_file s) a ≡ 0
    none_held (page e d i) = empty (page e d i)
    none_held (table e d) = empty (table e d)
