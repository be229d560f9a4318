-- ===== src/PageFile/Add.antt =====
-- kern/file_manager.c: what `pf_add_env_page` stores, and what `pf_read_env_page` reads.
use fos_kernel.Prelude.{
  ltb, ◌&&◌, ℕ, zero, suc, ◌+◌, ◌-◌, ◌/◌, ◌%◌, ◌<◌, ◌≤◌, ◌≡◌, refl, sym, ap, ◌∙◌, ◌≢◌, ◌⊎◌, inl,
  inr, true, false, Option, none, some, [], ==-ne, if◌then◌else◌, leb, arith, Bool-cases,
  Option-cases, subst,
}
use fos_kernel.Frames.{user_top, pdx, ptx}
use fos_kernel.PageFile.{
  PageFile, Code, success, no_page_file_space, page_not_exist_in_pf, table_not_exist_in_pf,
  disk_error, Run, returns, panics, faults, ◌>>=◌, Page, Directory, kernel_base, pages_per_file,
  start_sector, is_bad, is_lost, find_table, write_sectors, write_disk_page, read_disk_page,
  frame_for, store, pf_add_env_page, read_frame, read_from, read_in, pf_read_env_page,
}
use fos_kernel.PageFile.Free.{entry_of, table_of}
use fos_kernel.PageFile.Inv.{Slot, page, table, same, dfn, Inv, Inv-same}
use fos_kernel.PageFile.Entries.{content, content-write_self, content-write_other}
use fos_kernel.PageFile.FrameFor.{frame_for-Granted}
use fos_kernel.PageFile.Grant.{page_of, null_among, stop_among, unfound, Granted}

-- The place has a disk frame with these bytes.
abbrev pub Holds : PageFile → Slot → Page → Type 0
Holds s a p = (dfn s a ≢ 0) × ((i : ℕ) → i < 4096 → content s.disk (dfn s a) i ≡ p i)

-- Every other place with a frame keeps the frame and its bytes, and no other gets one.
abbrev pub OthersKept : PageFile → PageFile → Slot → Type 0
OthersKept s j at =
    (a : Slot)
    → same a at ≡ false
    → (dfn j a ≡ dfn s a)
      × (dfn s a ≢ 0 → (i : ℕ) → i < 4096 → content j.disk (dfn j a) i ≡ content s.disk (dfn s a) i)

-- The outcome of a write of the page `at`, by the ways in which it can end.
abbrev pub Stored : PageFile → ℕ → Slot → Page → Run (Code × PageFile) → Type 0
Stored s va at p faults = (null_among 2 s.kmallocs ≡ true) ⊎ (unfound va at s ≡ true)
Stored s va at p panics =
    (kernel_base ≤ va)
    ⊎ (((f : ℕ) × (is_bad 8 (start_sector f) s ≡ true)) ⊎ (stop_among 2 s.kmallocs ≡ true))
Stored s va at p (returns (success, j)) =
    Holds j at p
    × OthersKept s j at
    × Inv j
    × (is_bad 8 (start_sector (dfn j at)) j ≡ false)
    × (unfound va at j ≡ false)
Stored s va at p (returns (no_page_file_space, j)) =
    (s.disk_free_frame_list ≡ [])
    × (dfn s at ≡ 0)
    × ((a : Slot) → dfn j a ≡ dfn s a)
    × (j.disk ≡ s.disk)
    × Inv j
Stored s va at p (returns (page_not_exist_in_pf, j)) = ⊥
Stored s va at p (returns (table_not_exist_in_pf, j)) = ⊥
Stored s va at p (returns (disk_error, j)) = ⊥

is_bad-same : (n k : ℕ) (s j : PageFile) → j.bad_sector ≡ s.bad_sector → is_bad n k j ≡ is_bad n k s
is_bad-same zero k s j e = refl
is_bad-same (suc n) k s j e =
    ap (λ b. if b k then true else is_bad n (k + 1) j) e
    ∙ ap (λ x. if s.bad_sector k then true else x) (is_bad-same n (k + 1) s j e)

same_bad :
    (n k : ℕ) (j : PageFile) (d : ℕ → ℕ → ℕ) → is_bad n k (record j { disk = d }) ≡ is_bad n k j
same_bad n k j d = is_bad-same n k j (record j { disk = d }) refl

-- A write to the disk leaves the frames where they are.
abbrev with_disk : (ℕ → ℕ → ℕ) → PageFile → PageFile
with_disk d s = record s { disk = d }

dfn-with_disk : (d : ℕ → ℕ → ℕ) (s : PageFile) (a : Slot) → dfn (with_disk d s) a ≡ dfn s a
dfn-with_disk d s (page e x i) = refl
dfn-with_disk d s (table e x) = refl

unfound-with_disk :
    (d : ℕ → ℕ → ℕ) (va : ℕ) (a : Slot) (s : PageFile)
    → unfound va a (with_disk d s) ≡ unfound va a s
unfound-with_disk d va (page e x i) s = refl
unfound-with_disk d va (table e x) s = refl

stored :
    (s : PageFile) (va : ℕ) (at : Slot) (p : Page) (r : Run (Option ℕ × PageFile))
    → Granted s va at r
    → Stored s va at p (r >>= λ x. store p x)
unfolding write_disk_page
stored s va at p panics g = inr (inr g)
stored s va at p faults g = g
stored s va at p (returns (none, j)) g = g
stored s va at p (returns (some f, j)) (ne, at_f, others, disk, bad, found, inv) =
    elim (Bool-cases (is_bad 8 (start_sector f) j)) [
      | inl broken ↦
          subst (Stored s va at p)
            (sym (ap (λ b. if b then panics else returns (success, with_disk written j)) broken))
            (inr (inl (f, sym (is_bad-same 8 (start_sector f) s j bad) ∙ broken)))
      | inr good ↦
          let k = with_disk written j in
          let at_k : dfn k at ≡ f = dfn-with_disk written j at ∙ at_f in
          let real : f < pages_per_file =
            subst (λ x. x < pages_per_file) at_f (inv.held_frames at) in
          subst (Stored s va at p) (sym (ap (λ b. if b then panics else returns (success, k)) good))
            (
              (
                λ z. ne (sym at_k ∙ z),
                λ i lt.
                    ap (λ x. content written x i) at_k ∙ content-write_self f p j.disk i real lt,
              ),
              (λ a miss. (
                dfn-with_disk written j a ∙ others a miss,
                λ held i lt.
                    let e = dfn-with_disk written j a in
                    let apart : dfn j a ≢ f = λ x. cc (
                      inv.distinct a at (λ z. held (sym (others a miss) ∙ z)) (x ∙ sym at_f),
                      miss,
                    ) in
                    ap (λ x. content written x i) e
                    ∙ content-write_other f (dfn j a) p j.disk i real (inv.held_frames a) apart lt
                    ∙ ap (λ x. content x (dfn j a) i) disk
                    ∙ ap (λ x. content s.disk x i) (others a miss),
              )),
              Inv-same j k refl (dfn-with_disk written j) inv,
              ap (λ x. is_bad 8 (start_sector x) k) at_k
                  ∙ same_bad 8 (start_sector f) j written
                  ∙ good,
              unfound-with_disk written va at j ∙ found,
            )
    ]
  where
    written : ℕ → ℕ → ℕ
    written = write_sectors (start_sector f) p j.disk

-- `pf_add_env_page` into a sound page file ends in one of these ways. It faults only where `kmalloc` gives
-- NULL for the directory or the table, or where `kheap_virtual_address` does not find the page's
-- table; it stops the kernel only at an address of the kernel, at a bad sector, or where `kmalloc`
-- does not return; without a free disk frame it returns E_NO_PAGE_FILE_SPACE and no frame changes
-- hands. Else it returns 0: the page's disk frame has the bytes of the source, every other page and
-- table keeps its frame and its bytes, the page's table is found, and the page file is sound again.
pub pf_add_env_page_lem :
    (s : PageFile) (e va : ℕ) (p : Page)
    → Inv s
    → Stored s va (page_of e va) p (pf_add_env_page e va p s)
unfolding pf_add_env_page
pf_add_env_page_lem s e va p inv = elim (Bool-cases (leb kernel_base va)) [
  | inl kernel ↦
      subst (Stored s va (page_of e va) p)
        (sym (ap (λ b. if b then panics else frame_for e va s >>= λ r. store p r) kernel))
        (inl (ground arith))
  | inr user ↦
      subst (Stored s va (page_of e va) p)
        (sym (ap (λ b. if b then panics else frame_for e va s >>= λ r. store p r) user))
        (stored s va (page_of e va) p (frame_for e va s) (frame_for-Granted s e va inv))
]

-- `pf_read_env_page` by the frame of the page.
read_by :
    (s : PageFile) (e va : ℕ)
    → is_lost e va s ≡ false
    → read_in (s.disk_env_pgdir e) e va s ≡ read_frame (dfn s (page_of e va)) s
read_by s e va found = elim (Option-cases (s.disk_env_pgdir e)) [
  | inl missing ↦
      ap (λ o. read_in o e va s) missing
      ∙ sym (ap (λ o. read_frame (entry_of (table_of o (pdx va)) (ptx va)) s) missing)
  | inr (dir, here) ↦
      ap (λ o. read_in o e va s) here
      ∙ by_table dir
      ∙ sym (ap (λ o. read_frame (entry_of (table_of o (pdx va)) (ptx va)) s) here)
]
  where
    by_table :
        (dir : Directory)
        → read_in (some dir) e va s ≡ read_frame (entry_of (dir (pdx va)) (ptx va)) s
    by_table dir = elim (Option-cases (dir (pdx va))) [
      | inl missing ↦
          ap (λ o. read_from (find_table o e va s) va s) missing
          ∙ sym (ap (λ o. read_frame (entry_of o (ptx va)) s) missing)
      | inr (t, there) ↦
          ap (λ o. read_from (find_table o e va s) va s) there
          ∙ ap (λ b. read_from (if b then none else some t) va s) found
          ∙ sym (ap (λ o. read_frame (entry_of o (ptx va)) s) there)
    ]

pub pf_read_env_page_by :
    (s : PageFile) (e va : ℕ)
    → is_lost e va s ≡ false
    → pf_read_env_page e va s ≡ read_frame (dfn s (page_of e va)) s
unfolding pf_read_env_page
pf_read_env_page_by s e va found =
    read_by s e (va - va % 4096) (
      ap (λ d. ltb (va - va % 4096) user_top && s.lost e d) same_dir
      ∙ ap (λ b. b && s.lost e (pdx va)) same_side
      ∙ found)
    ∙ ap (λ d. read_frame (dfn s (page e d (ptx (va - va % 4096)))) s) same_dir
    ∙ ap (λ i. read_frame (dfn s (page e (pdx va) i)) s) same_index
  where
    same_dir : pdx (va - va % 4096) ≡ pdx va
    same_dir = omega arith

    same_index : ptx (va - va % 4096) ≡ ptx va
    same_index = omega arith

    same_side : ltb (va - va % 4096) user_top ≡ ltb va user_top
    same_side = ground arith

-- What `pf_read_env_page` gives: the code, and the bytes that it reads.
abbrev pub Reads : Code × Page → Page → Type 0
Reads r p = (r.0 ≡ success) × ((i : ℕ) → i < 4096 → r.1 i ≡ p i)

reads :
    (j : PageFile) (f : ℕ) (p : Page)
    → f ≢ 0
    → is_bad 8 (start_sector f) j ≡ false
    → ((i : ℕ) → i < 4096 → content j.disk f i ≡ p i)
    → Reads (read_frame f j) p
unfolding read_disk_page
reads j f p held good same_bytes =
    subst (λ r. Reads r p)
      (sym (
        ap (λ b. if b then (page_not_exist_in_pf, λ i. 0) else read_disk_page f j)
          (==-ne f 0 held)))
      (ap (λ b. if b then disk_error else success) good, same_bytes)

-- When `pf_add_env_page` has returned 0, `pf_read_env_page` at any address of the same page succeeds and
-- gives the bytes that were added.
pub pf_read_env_page-added :
    (s j : PageFile) (e va va1 : ℕ) (p : Page)
    → Inv s
    → va1 / 4096 ≡ va / 4096
    → pf_add_env_page e va p s ≡ returns (success, j)
    → Reads (pf_read_env_page e va1 j) p
pf_read_env_page-added s j e va va1 p inv same_page added =
    let post : Stored s va (page_of e va) p (returns (success, j)) =
      subst (Stored s va (page_of e va) p) added (pf_add_env_page_lem s e va p inv) in
    let there : page_of e va1 ≡ page_of e va =
      ap (λ d. page e d (ptx va1)) same_dir ∙ ap (λ i. page e (pdx va) i) same_index in
    subst (λ r. Reads r p)
      (sym (pf_read_env_page_by j e va1 (found_by post) ∙ ap (λ a. read_frame (dfn j a) j) there))
      (reads j (dfn j (page_of e va)) p post.0.0 post.3 post.0.1)
  where
    same_dir : pdx va1 ≡ pdx va
    same_dir = omega arith

    same_index : ptx va1 ≡ ptx va
    same_index = omega arith

    same_side : ltb va1 user_top ≡ ltb va user_top
    same_side = ground (arith, same_page)

    found_by : Stored s va (page_of e va) p (returns (success, j)) → is_lost e va1 j ≡ false
    found_by post =
        ap (λ d. ltb va1 user_top && j.lost e d) same_dir
        ∙ ap (λ b. b && j.lost e (pdx va)) same_side
        ∙ post.4
