-- ===== src/PageFile/Clear.antt =====
-- kern/file_manager.c: places that lose their disk frame, one by one.
use fos_kernel.Prelude.{
  ℕ, ◌≡◌, refl, sym, ap, ◌∙◌, ◌≢◌, inl, inr, Bool, true, false, ◌||◌, some, ◌∷◌, ◌==◌, ==-ne,
  if◌then◌else◌, arith, Bool-cases,
}
use native.Mathlib.Decide.{ℕ_discrete}
use fos_kernel.PageFile.{PageFile, Table, Directory, free_disk_frame, write_at, set_tabledir, put}
use fos_kernel.PageFile.Free.{entry_of}
use fos_kernel.PageFile.Inv.{Slot, page, table, same, eq_of_same, dfn, Inv, Inv-same, Inv-take_back}
use fos_kernel.PageFile.Entries.{dfn-write_at, Kept-write_at}

-- The places of `gone` have no frame any more, the others keep theirs, the disk is as before, and
-- the page file is sound.
pub record Cleared (gone : Slot → Bool) (s j : PageFile) : Type 0 where
  pub frames : (a : Slot) → dfn j a ≡ (if gone a then 0 else dfn s a)
  pub disk : j.disk ≡ s.disk
  pub bad : j.bad_sector ≡ s.bad_sector
  pub sound : Inv j

pub Cleared-then :
    (g h : Slot → Bool) (s j k : PageFile)
    → Cleared g s j
    → Cleared h j k
    → Cleared (λ a. g a || h a) s k
Cleared-then g h s j k c d = record {
  frames = λ a. d.frames a ∙ join (g a) (h a) (dfn j a) (dfn s a) (c.frames a);
  disk = d.disk ∙ c.disk;
  bad = d.bad ∙ c.bad;
  sound = d.sound;
}
  where
    join :
        (g h : Bool) (x y : ℕ)
        → x ≡ (if g then 0 else y)
        → (if h then 0 else x) ≡ (if g || h then 0 else y)
    join true true x y e = refl
    join true false x y e = e
    join false true x y e = refl
    join false false x y e = e

-- The same outcome by other words for the places that are cleared.
pub Cleared-as :
    (g h : Slot → Bool) (s j : PageFile)
    → ((a : Slot) → dfn s a ≢ 0 → g a ≡ h a)
    → Cleared g s j
    → Cleared h s j
Cleared-as g h s j agree c = record {
  frames = λ a. c.frames a ∙ elim (ℕ_discrete (dfn s a) 0) [
    | yes z ↦ both_zero (g a) (h a) (dfn s a) z
    | no ne ↦ ap (λ b. if b then 0 else dfn s a) (agree a ne)
  ];
  disk = c.disk;
  bad = c.bad;
  sound = c.sound;
}
  where
    both_zero : (g h : Bool) (x : ℕ) → x ≡ 0 → (if g then 0 else x) ≡ (if h then 0 else x)
    both_zero true true x z = refl
    both_zero true false x z = sym z
    both_zero false true x z = z
    both_zero false false x z = refl

-- No place is cleared where the frames stay.
pub Cleared-none :
    (s j : PageFile)
    → ((a : Slot) → dfn j a ≡ dfn s a)
    → j.disk_free_frame_list ≡ s.disk_free_frame_list
    → j.disk ≡ s.disk
    → j.bad_sector ≡ s.bad_sector
    → Inv s
    → Cleared (λ a. false) s j
Cleared-none s j frames free disk bad inv = record {
  frames = frames;
  disk = disk;
  bad = bad;
  sound = Inv-same s j free frames inv;
}

-- `free_disk_frame` only changes the free list.
pub dfn-free_disk_frame : (f : ℕ) (s : PageFile) (a : Slot) → dfn (free_disk_frame f s) a ≡ dfn s a
unfolding free_disk_frame
dfn-free_disk_frame f s (page e d i) = ground arith
dfn-free_disk_frame f s (table e d) = ground arith

pub pgdir-free_disk_frame :
    (f : ℕ) (s : PageFile) → (free_disk_frame f s).disk_env_pgdir ≡ s.disk_env_pgdir
unfolding free_disk_frame
pgdir-free_disk_frame f s = ground arith

pub tabledir-free_disk_frame :
    (f : ℕ) (s : PageFile) → (free_disk_frame f s).disk_env_tabledir ≡ s.disk_env_tabledir
unfolding free_disk_frame
tabledir-free_disk_frame f s = ground arith

disk-free_disk_frame : (f : ℕ) (s : PageFile) → (free_disk_frame f s).disk ≡ s.disk
unfolding free_disk_frame
disk-free_disk_frame f s = ground arith

bad-free_disk_frame : (f : ℕ) (s : PageFile) → (free_disk_frame f s).bad_sector ≡ s.bad_sector
unfolding free_disk_frame
bad-free_disk_frame f s = ground arith

list-free_disk_frame :
    (f : ℕ) (s : PageFile)
    → (free_disk_frame f s).disk_free_frame_list
      ≡ (if f == 0 then s.disk_free_frame_list else f ∷ s.disk_free_frame_list)
unfolding free_disk_frame
list-free_disk_frame f s = ground arith

-- The entry of the place `at` is set to 0, and its frame is freed.
pub Cleared-one :
    (s m : PageFile) (at : Slot)
    → ((a : Slot) → dfn m a ≡ (if same a at then 0 else dfn s a))
    → m.disk_free_frame_list ≡ s.disk_free_frame_list
    → m.disk ≡ s.disk
    → m.bad_sector ≡ s.bad_sector
    → Inv s
    → Cleared (λ a. same a at) s (free_disk_frame (dfn s at) m)
Cleared-one s m at now free disk bad inv =
    let j = free_disk_frame (dfn s at) m in
    let frames : (a : Slot) → dfn j a ≡ (if same a at then 0 else dfn s a) =
      λ a. dfn-free_disk_frame (dfn s at) m a ∙ now a in
    let list = list-free_disk_frame (dfn s at) m in
    record {
      frames = frames;
      disk = disk-free_disk_frame (dfn s at) m ∙ disk;
      bad = bad-free_disk_frame (dfn s at) m ∙ bad;
      sound = elim (ℕ_discrete (dfn s at) 0) [
        | yes z ↦
            Inv-same s j
              (list
                ∙ ap
                    (λ n.
                      if n == 0 then m.disk_free_frame_list else dfn s at ∷ m.disk_free_frame_list)
                    z
                ∙ free)
              (λ a. frames a ∙ no_frame a z) inv
        | no ne ↦
            Inv-take_back s j at ne
              (list
                ∙ ap (λ b. if b then m.disk_free_frame_list else dfn s at ∷ m.disk_free_frame_list)
                    (==-ne (dfn s at) 0 ne)
                ∙ ap (λ l. dfn s at ∷ l) free)
              frames inv
      ];
    }
  where
    no_frame : (a : Slot) → dfn s at ≡ 0 → (if same a at then 0 else dfn s a) ≡ dfn s a
    no_frame a z = elim (Bool-cases (same a at)) [
      | inl h ↦ ap (λ b. if b then 0 else dfn s a) h ∙ sym (ap (dfn s) (eq_of_same a at h) ∙ z)
      | inr h ↦ ap (λ b. if b then 0 else dfn s a) h
    ]

-- A page's entry is cleared, and its frame is freed.
pub Cleared-page :
    (e d i : ℕ) (s : PageFile) (dir : Directory) (t : Table)
    → s.disk_env_pgdir e ≡ some dir
    → dir d ≡ some t
    → Inv s
    → Cleared
        (λ a. same a (page e d i))
        s
        (free_disk_frame (dfn s (page e d i)) (write_at e d i 0 s))
Cleared-page e d i s dir t here there inv =
    let k = Kept-write_at e d i 0 s dir t here there in
    Cleared-one s (write_at e d i 0 s) (page e d i) (dfn-write_at e d i 0 s dir t here there) k.free
      k.disk k.bad inv

-- A table's entry is cleared, and its frame is freed.
pub Cleared-table :
    (e d : ℕ) (s : PageFile)
    → Inv s
    → Cleared
        (λ a. same a (table e d))
        s
        (free_disk_frame
          (dfn s (table e d))
          (set_tabledir e (some (put (entry_of (s.disk_env_tabledir e)) d 0)) s))
Cleared-table e d s inv =
    Cleared-one s (set_tabledir e (some (put (entry_of (s.disk_env_tabledir e)) d 0)) s) (table e d)
      now refl refl refl inv
  where
    now :
        (a : Slot)
        → dfn (set_tabledir e (some (put (entry_of (s.disk_env_tabledir e)) d 0)) s) a
          ≡ (if same a (table e d) then 0 else dfn s a)
    now (page e1 d1 i1) = refl
    now (table e1 d1) = elim (Bool-cases (e1 == e)) [
      | inl hit ↦
          let ee : e1 ≡ e = ground arith in
          ap
            (λ b.
              entry_of
                (if b
                  then some (put (entry_of (s.disk_env_tabledir e)) d 0)
                  else s.disk_env_tabledir e1)
                d1)
            hit
          ∙ ground (arith, ap (λ n. entry_of (s.disk_env_tabledir n) d1) ee, hit)
      | inr miss ↦
          ap
            (λ b.
              entry_of
                (if b
                  then some (put (entry_of (s.disk_env_tabledir e)) d 0)
                  else s.disk_env_tabledir e1)
                d1)
            miss
          ∙ ground (arith, miss)
    ]
