-- ===== src/PageFile/Tests.antt =====
-- Runs of kern/file_manager.c on small inputs.
use fos_kernel.Prelude.{
  ℕ, zero, suc, ◌+◌, ◌<◌, ◌≡◌, refl, sym, ap, ◌∙◌, inl, inr, false, none, some, List, [], ◌∷◌, ◌-◌,
  ◌*◌, ◌==◌, ltb, leb, ◌&&◌, arith, Bool-cases, subst, if◌then◌else◌,
}
use fos_kernel.Frames.{pdx, ptx}
use fos_kernel.PageFile.{
  PageFile, gives, success, page_not_exist_in_pf, returns, Page, insert_frames,
  initialize_disk_page_file, write_disk_page, allocate_disk_frame, get_disk_page_directory,
  get_disk_page_table, write_at, frame_for, pf_add_env_page, pf_read_env_page, pf_remove_env_page,
  user_tables,
}
use fos_kernel.PageFile.Free.{pf_calculate_free_frames, pf_free_env}
use fos_kernel.PageFile.Inv.{Slot, page, table, same, eq_of_same, dfn, Inv}
use fos_kernel.PageFile.Boot.{initialize_disk_page_file-Inv}
use fos_kernel.PageFile.Grant.{page_of}
use fos_kernel.PageFile.Add.{Stored, Reads, pf_add_env_page_lem, pf_read_env_page-added}
use fos_kernel.PageFile.Clear.{Cleared}
use fos_kernel.PageFile.FreeEnv.{pf_remove_env_page_lem, BelowUserTop, directory_index}
use fos_kernel.PageFile.Freed.{Freed, pf_free_env_lem}

abbrev no_pages : PageFile
no_pages = record {
  disk_free_frame_list = [];
  disk_env_pgdir = λ e. none;
  disk_env_tabledir = λ e. none;
  disk = λ n i. 0;
  bad_sector = λ n. false;
  kmallocs = gives (λ e d. false) ∷ gives (λ e d. false) ∷ [];
  lost = λ e d. false;
}

nothing_held : (a : Slot) → dfn no_pages a ≡ 0
nothing_held (page e d i) = refl
nothing_held (table e d) = refl

initialize_example :
    Inv (initialize_disk_page_file no_pages)
    × (pf_calculate_free_frames (initialize_disk_page_file no_pages) ≡ 133119)
initialize_example = initialize_disk_page_file-Inv no_pages nothing_held

insert_frames-last :
    (n i : ℕ) (l : List ℕ) → insert_frames (suc n) i l ≡ (i + n) ∷ insert_frames n i l
unfolding insert_frames
insert_frames-last zero i l = ap (λ f. f ∷ l) (omega arith)
insert_frames-last (suc n) i l =
    insert_frames-last n (i + 1) (i ∷ l)
    ∙ ap (λ f. f ∷ insert_frames n (i + 1) (i ∷ l)) (omega arith)

-- The page file after the boot, with the first free frame in front.
abbrev booted : PageFile
booted = record no_pages { disk_free_frame_list = 133119 ∷ insert_frames 133118 1 [] }

booted-Inv : Inv booted
unfolding initialize_disk_page_file
booted-Inv =
    subst (λ l. Inv (record no_pages { disk_free_frame_list = l })) (insert_frames-last 133118 1 [])
      (initialize_disk_page_file-Inv no_pages nothing_held).0

booted_empty : (a : Slot) → dfn booted a ≡ 0
booted_empty (page e d i) = refl
booted_empty (table e d) = refl

abbrev source : Page
source i = i + 7

add_example : Stored booted 8192 (page_of 3 8192) source (pf_add_env_page 3 8192 source booted)
add_example = pf_add_env_page_lem booted 3 8192 source booted-Inv

-- A page is added for environment 3 at 8192.
abbrev with_page : PageFile
with_page = record no_pages {
  disk_free_frame_list = insert_frames 133118 1 [];
  disk_env_pgdir = λ e.
      if e == 3
      then some (λ d.
        if d == 0
        then some (λ i. if i == 2 then 133119 else 0)
        else if d == 0
        then some (λ i. 0)
        else none)
      else if e == 3
      then some (λ d. if d == 0 then some (λ i. 0) else none)
      else if e == 3
      then some (λ d. none)
      else none;
  disk = λ n i. if leb 1105912 n && ltb n 1105920 then (n - 1105912) * 512 + i + 7 else 0;
  kmallocs = [];
  lost = λ e d. if (e == 3) && (d == 0) then false else false;
}

added : pf_add_env_page 3 8192 source booted ≡ returns (success, with_page)
unfolding pf_add_env_page frame_for get_disk_page_directory get_disk_page_table allocate_disk_frame
    write_at write_disk_page
added = refl

with_page-Stored : Stored booted 8192 (page_of 3 8192) source (returns (success, with_page))
with_page-Stored =
    subst (Stored booted 8192 (page_of 3 8192) source) added
      (pf_add_env_page_lem booted 3 8192 source booted-Inv)

with_page-Inv : Inv with_page
with_page-Inv = with_page-Stored.2

read_example : Reads (pf_read_env_page 3 9000 with_page) source
read_example =
    pf_read_env_page-added booted with_page 3 8192 9000 source booted-Inv (omega arith) added

remove_example :
    Cleared
      (λ a. same a (page 3 (pdx 8192) (ptx 8192)))
      with_page
      (pf_remove_env_page 3 8192 with_page)
remove_example = pf_remove_env_page_lem with_page 3 8192 with_page-Inv refl

with_page-BelowUserTop : BelowUserTop 3 with_page
with_page-BelowUserTop a own held = elim (Bool-cases (same a (page_of 3 8192))) [
  | inl hit ↦
      subst (λ b. directory_index b < user_tables) (sym (eq_of_same a (page_of 3 8192) hit))
        (omega arith)
  | inr miss ↦ absurd (held ((with_page-Stored.1 a miss).0 ∙ booted_empty a))
]

pf_free_env_example : Freed 3 with_page (pf_free_env 3 with_page)
pf_free_env_example =
    pf_free_env_lem with_page 3
      (λ d.
        if d == 0
        then some (λ i. if i == 2 then 133119 else 0)
        else if d == 0
        then some (λ i. 0)
        else none)
      refl with_page-BelowUserTop with_page-Inv (λ d. ground arith)

-- A page that was never added is not in the page file.
read_missing : (pf_read_env_page 3 20000 with_page).0 ≡ page_not_exist_in_pf
unfolding pf_read_env_page
read_missing = refl
