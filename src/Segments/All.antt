-- ===== src/Segments/All.antt =====
-- kern/user_environment.c: which segments PROGRAM_SEGMENT_FOREACH goes through.
use fos_kernel.Prelude.{
  ℕ, zero, suc, ◌+◌, ◌<◌, ◌≡◌, refl, sym, ap, ◌∙◌, ◌⊎◌, inl, inr, true, false, not, ◌&&◌, Option,
  some, List, [], ◌∷◌, ltb, ◌==◌, ==-refl, if◌then◌else◌, arith, Bool-cases,
}
use fos_kernel.Segments.{
  Elf, elf_magic, elf_prog_load, ProgramSegment, seek, segment_at, segment, end, panics, found,
  program_segment_first, program_segment_next, before, each, program_segment_foreach,
}

-- The segments to load among the `n` headers from `id` on.
unfoldable pub loadable : ℕ → ℕ → ℕ → Elf → List ProgramSegment
loadable zero id start h = []
loadable (suc n) id start h =
    let rest = loadable n (id + 1) start h in
    if (h.headers id).p_type == elf_prog_load then segment_at start h id ∷ rest else rest

-- Where the search for a segment ends.
abbrev Sought : ℕ → ℕ → Elf → ℕ → Option ℕ → Type 0
Sought n id h start r =
    ((r ≡ some h.e_phnum) × (loadable n id start h ≡ []))
    ⊎ ((k : ℕ) × (left : ℕ) × (k + 1 + left ≡ h.e_phnum)
        × (left < n)
        × (r ≡ some k)
        × (loadable n id start h ≡ segment_at start h k ∷ loadable left (k + 1) start h))

seek-Sought :
    (n id fuel start : ℕ) (h : Elf)
    → id + n ≡ h.e_phnum
    → n < fuel
    → Sought n id h start (seek fuel h id)
unfolding seek loadable
seek-Sought n id zero start h ends enough = absurd (omega arith)
seek-Sought zero id (suc fuel) start h ends enough =
    let rest = seek fuel h (id + 1) in
    let past : (not ((h.headers id).p_type == elf_prog_load) && ltb id h.e_phnum) ≡ false =
      ground (arith, ends) in
    inl (ap (λ b. if b then rest else some id) past ∙ ap some (omega arith), refl)
seek-Sought (suc n) id (suc fuel) start h ends enough =
    let rest = seek fuel h (id + 1) in
    let others = loadable n (id + 1) start h in
    let here = segment_at start h id in
    elim (Bool-cases ((h.headers id).p_type == elf_prog_load)) [
      | inl load ↦ inr (
        id,
        n,
        omega arith,
        omega arith,
        ap (λ b. if not b && ltb id h.e_phnum then rest else some id) load,
        ap (λ b. if b then here ∷ others else others) load,
      )
      | inr other ↦
          let on : (not ((h.headers id).p_type == elf_prog_load) && ltb id h.e_phnum) ≡ true =
            ground (arith, ends, other) in
          let skip = ap (λ b. if b then rest else some id) on in
          let same = ap (λ b. if b then here ∷ others else others) other in
          elim (seek-Sought n (id + 1) fuel start h (omega arith) (omega arith)) [
            | inl (r, none_left) ↦ inl (skip ∙ r, same ∙ none_left)
            | inr (k, left, at, fewer, r, first) ↦
                inr (k, left, at, omega arith, skip ∙ r, same ∙ first)
          ]
    ]

each-loadable :
    (rounds n id fuel start : ℕ) (h : Elf)
    → h.e_magic ≡ elf_magic
    → id + n ≡ h.e_phnum
    → n < rounds
    → h.e_phnum < fuel
    → each rounds fuel start h (found start h (seek fuel h id)) ≡ some (loadable n id start h)
unfolding each program_segment_next
each-loadable zero n id fuel start h magic ends few enough = absurd (omega arith)
each-loadable (suc rounds) n id fuel start h magic ends few enough =
    elim (seek-Sought n id fuel start h ends (omega arith)) [
      | inl (r, none_left) ↦
          let out : ltb h.e_phnum h.e_phnum ≡ false = ground arith in
          ap (λ o. each (suc rounds) fuel start h (found start h o)) r
          ∙ ap
              (λ b.
                each (suc rounds) fuel start h
                  (if b then segment (segment_at start h h.e_phnum) else end))
              out
          ∙ ap some (sym none_left)
      | inr (k, left, at, fewer, r, first) ↦
          let inside : ltb k h.e_phnum ≡ true = ground (arith, at) in
          let same : (h.e_magic == elf_magic) ≡ true =
            ap (λ x. x == elf_magic) magic ∙ ==-refl elf_magic in
          let seg = segment_at start h k in
          let next = found start h (seek fuel h (k + 1)) in
          ap (λ o. each (suc rounds) fuel start h (found start h o)) r
          ∙ ap (λ b. each (suc rounds) fuel start h (if b then segment seg else end)) inside
          ∙ ap (λ b. before seg (each rounds fuel start h (if b then next else panics))) same
          ∙ ap (before seg)
              (each-loadable rounds left (k + 1) fuel start h magic at (omega arith) enough)
          ∙ ap some (sym first)
    ]

-- In a program with the magic number of ELF, PROGRAM_SEGMENT_FOREACH ends, and goes through the program's
-- headers of type ELF_PROG_LOAD, each one once and in their order.
pub program_segment_foreach-loadable :
    (fuel start : ℕ) (h : Elf)
    → h.e_magic ≡ elf_magic
    → h.e_phnum < fuel
    → program_segment_foreach fuel start h ≡ some (loadable h.e_phnum 0 start h)
unfolding program_segment_foreach program_segment_first
program_segment_foreach-loadable fuel start h magic enough =
    let same : (h.e_magic == elf_magic) ≡ true =
      ap (λ x. x == elf_magic) magic ∙ ==-refl elf_magic in
    ap (λ b. each fuel fuel start h (if b then found start h (seek fuel h 0) else panics)) same
    ∙ each-loadable fuel h.e_phnum 0 fuel start h magic (omega arith) enough enough
