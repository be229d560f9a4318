-- ===== src/Segments/Tests.antt =====
-- A program of three headers, two of which are loaded.
use fos_kernel.Prelude.{◌+◌, ◌*◌, ℕ, ◌≡◌, refl, some, ◌==◌, if◌then◌else◌, arith}
use fos_kernel.Segments.{Elf, elf_magic, Proghdr, program_segment_foreach}
use fos_kernel.Segments.All.{loadable, program_segment_foreach-loadable}

abbrev headers : ℕ → Proghdr
headers i = record {
  p_type = if i == 1 then 6 else 1;
  p_offset = i * 4096;
  p_va = 0x800000 + i * 8192;
  p_filesz = 100;
  p_memsz = 200;
}

abbrev program : Elf
program = record { e_magic = elf_magic; e_entry = 0x800020; e_phnum = 3; headers = headers }

foreach_example :
    program_segment_foreach 4 0xF0200000 program ≡ some (loadable 3 0 0xF0200000 program)
foreach_example = program_segment_foreach-loadable 4 0xF0200000 program refl (omega arith)
