-- ===== src/Segments.antt =====
-- kern/user_environment.c: the segments of a program, which PROGRAM_SEGMENT_FOREACH goes through.
pub mod All
mod Tests
use fos_kernel.Prelude.{
  ℕ, zero, suc, ◌+◌, ◌%◌, ◌^◌, Bool, true, false, not, ◌&&◌, Option, none, some, List, [], ◌∷◌, ltb,
  ◌==◌, if◌then◌else◌,
}

-- `struct Proghdr`, without the fields that the loader does not read.
pub record Proghdr : Type 0 where
  pub p_type : ℕ
  pub p_offset : ℕ
  pub p_va : ℕ
  pub p_filesz : ℕ
  pub p_memsz : ℕ

-- `struct Elf`, with what stands at `e_phoff` behind the program's start, at any index.
pub record Elf : Type 0 where
  pub e_magic : ℕ
  pub e_entry : ℕ
  pub e_phnum : ℕ
  pub headers : ℕ → Proghdr

abbrev pub elf_magic : ℕ
elf_magic = 0x464C457F

abbrev pub elf_prog_load : ℕ
elf_prog_load = 1

pub record ProgramSegment : Type 0 where
  pub ptr_start : ℕ
  pub size_in_file : ℕ
  pub size_in_memory : ℕ
  pub virtual_address : ℕ
  pub segment_id : ℕ

-- The loop that both functions begin with. It reads the header behind the last one before it stops.
unfoldable pub seek : ℕ → Elf → ℕ → Option ℕ
seek zero h id = none
seek (suc fuel) h id =
    let rest = seek fuel h (id + 1) in
    if not ((h.headers id).p_type == elf_prog_load) && ltb id h.e_phnum then rest else some id

abbrev pub segment_at : ℕ → Elf → ℕ → ProgramSegment
segment_at start h id = record {
  ptr_start = (start + (h.headers id).p_offset) % 2 ^ 32;
  size_in_file = (h.headers id).p_filesz;
  size_in_memory = (h.headers id).p_memsz;
  virtual_address = (h.headers id).p_va;
  segment_id = id;
}

-- A segment, or NULL (a `segment_id` of -1 where it is the first); or a panic, which stands
-- for the end of the fuel too.
pub data Next : Type 0 where
  segment : ProgramSegment → Next
  end : Next
  panics : Next

abbrev pub found : ℕ → Elf → Option ℕ → Next
found start h none = panics
found start h (some id) = if ltb id h.e_phnum then segment (segment_at start h id) else end

unfoldable pub program_segment_first : ℕ → ℕ → Elf → Next
program_segment_first fuel start h =
    if h.e_magic == elf_magic then found start h (seek fuel h 0) else panics

unfoldable pub program_segment_next : ℕ → ProgramSegment → ℕ → Elf → Next
program_segment_next fuel seg start h =
    if h.e_magic == elf_magic then found start h (seek fuel h (seg.segment_id + 1)) else panics

abbrev pub before : ProgramSegment → Option (List ProgramSegment) → Option (List ProgramSegment)
before seg none = none
before seg (some segs) = some (seg ∷ segs)

-- The segments that the body of PROGRAM_SEGMENT_FOREACH sees, from the next one on; none is a panic.
unfoldable pub each : ℕ → ℕ → ℕ → Elf → Next → Option (List ProgramSegment)
each rounds fuel start h end = some []
each rounds fuel start h panics = none
each zero fuel start h (segment seg) = none
each (suc rounds) fuel start h (segment seg) =
    before seg (each rounds fuel start h (program_segment_next fuel seg start h))

unfoldable pub program_segment_foreach : ℕ → ℕ → Elf → Option (List ProgramSegment)
program_segment_foreach fuel start h = each fuel fuel start h (program_segment_first fuel start h)

-- `set_environment_entry_point`: the value of `tf_eip`.
unfoldable pub set_environment_entry_point : Elf → Option ℕ
set_environment_entry_point h = if h.e_magic == elf_magic then some h.e_entry else none
