-- ===== src/UserPages/Tests.antt =====
-- Runs of kern/memory_manager.c on the pages of an environment.
use fos_kernel.Prelude.{
  ◌≡◌, refl, ◌&&◌, none, some, [], ◌∷◌, ◌==◌, true, false, if◌then◌else◌, arith,
}
use fos_kernel.Frames.{Vm, blank}
use fos_kernel.WorkingSet.{Element}
use fos_kernel.PageFile.{PageFile, gives, initialize_disk_page_file}
use fos_kernel.PageFile.Inv.{Slot, page, table, dfn, Inv}
use fos_kernel.PageFile.Boot.{initialize_disk_page_file-Inv}
use fos_kernel.UserPages.{UserPages, free_mem}
use fos_kernel.UserPages.Residents.{Single}
use fos_kernel.UserPages.Gone.{Valid}
use fos_kernel.UserPages.Release.{Sound, Released, free_mem-Released}

abbrev unused : PageFile
unused = record {
  disk_free_frame_list = [];
  disk_env_pgdir = λ e. none;
  disk_env_tabledir = λ e. none;
  disk = λ n i. 0;
  bad_sector = λ n. false;
  kmallocs = gives (λ e d. false) ∷ gives (λ e d. false) ∷ [];
  lost = λ e d. false;
}

unheld : (a : Slot) → dfn unused a ≡ 0
unheld (page e d i) = refl
unheld (table e d) = refl

abbrev booted : PageFile
booted = initialize_disk_page_file unused

booted-Inv : Inv booted
booted-Inv = (initialize_disk_page_file-Inv unused unheld).0

-- Environment 5 has one page, which is in frame 3 and in the working set.
abbrev vm : Vm
vm = record {
  frames_info = λ f. if f == 3 then record blank { references = 1 } else blank;
  free_frame_list = 4 ∷ [];
  number_of_frames = 10;
  lost = λ e d. false;
  directories =
      λ e d. if (e == 5) && (d == 512) then some (λ i. if i == 0 then 12295 else 0) else none;
}

abbrev resident : Element
resident = record { virtual_address = 0x80000000; time_stamp = 0; empty = false }

abbrev no_page : Element
no_page = record { virtual_address = 0; time_stamp = 0; empty = true }

abbrev one_page : UserPages
one_page = record {
  vm = vm;
  page_file = booted;
  ws = record {
    elements = λ i. if i == 0 then resident else no_page;
    max_size = 2;
    last_index = 1;
  };
  table_frame = λ e d. 6;
}

one_page-Single : Single one_page.ws
one_page-Single i k lt lt1 same ne = ground arith

vm-Valid : Valid vm
vm-Valid s ne = ground arith

one_page-Sound : Sound 5 one_page
unfolding initialize_disk_page_file
one_page-Sound = record {
  page_file = booted-Inv;
  single = one_page-Single;
  valid = vm-Valid;
  table_frames = λ d. omega arith;
  found = λ d. refl;
  found_on_disk = λ d. refl;
}

free_mem_example :
    (j : UserPages) × (free_mem 5 0x80000000 5000 one_page ≡ some j)
    × Released 5 0x80000000 2 one_page j
free_mem_example =
    free_mem-Released 2 5 0x80000000 5000 one_page one_page-Sound (omega arith) refl (omega arith)
      refl
