-- ===== src/Frames/Entries.antt =====
-- kern/memory_manager.c: the page table entries one by one, and how many of them hold a frame.
use fos_kernel.Prelude.{
  ℕ, ◌+◌, ◌/◌, ◌≤◌, leb, ◌≡◌, refl, ap, ◌∙◌, ◌≢◌, Bool, true, false, not, ◌&&◌, Option, none, some,
  List, [], ◌∷◌, ◌++◌, ◌==◌, ==-ne, ==-refl, if◌then◌else◌, arith, Bool-cases, inl, inr,
}
use fos_kernel.Frames.{Vm, pdx, ptx, write_table, user_top, reached, get_page_table}

-- The place of an entry: the environment, the index in its directory and the index in the table.
pub record Slot : Type 0 where
  pub env : ℕ
  pub dir : ℕ
  pub index : ℕ

abbrev pub slot_of : ℕ → ℕ → Slot
slot_of e va = record { env = e; dir = pdx va; index = ptx va }

abbrev pub same_slot : Slot → Slot → Bool
same_slot a b = (a.env == b.env) && ((a.dir == b.dir) && (a.index == b.index))

abbrev pub Directories : Type 0
Directories = ℕ → ℕ → Option (ℕ → ℕ)

abbrev pub index_in : Option (ℕ → ℕ) → ℕ → ℕ
index_in none i = 0
index_in (some t) i = t i

-- The entry, or 0 where there is no page table.
abbrev pub entry_at : Directories → Slot → ℕ
entry_at ds s = index_in (ds s.env s.dir) s.index

abbrev pub put_table : ℕ → ℕ → (ℕ → ℕ) → Directories → Directories
put_table e d t ds e1 d1 = if (e1 == e) && (d1 == d) then some t else ds e1 d1

pub entry_at-put :
    (ds : Directories) (e d x v : ℕ) (t : ℕ → ℕ) (s : Slot)
    → ds e d ≡ some t
    → entry_at (put_table e d (write_table t x v) ds) s
      ≡ (if same_slot s (record { env = e; dir = d; index = x }) then v else entry_at ds s)
entry_at-put ds e d x v t s here = elim (Bool-cases ((s.env == e) && (s.dir == d))) [
  | inl hit ↦
      let parts : (s.env ≡ e) × (s.dir ≡ d) = ground arith in
      let there : entry_at ds s ≡ t s.index =
        ap (λ n. index_in (ds n s.dir) s.index) parts.0
        ∙ ap (λ n. index_in (ds e n) s.index) parts.1
        ∙ ap (λ o. index_in o s.index) here in
      ap (λ b. index_in (if b then some (write_table t x v) else ds s.env s.dir) s.index) hit
      ∙ ground (arith, there, hit)
  | inr miss ↦
      ap (λ b. index_in (if b then some (write_table t x v) else ds s.env s.dir) s.index) miss
      ∙ ground (arith, miss)
]

pub get_page_table-reached :
    (e va : ℕ) (m : Vm) → reached e va m ≡ true → get_page_table e va m ≡ m.directories e (pdx va)
unfolding get_page_table
get_page_table-reached e va m found = rw found refl

-- The tables of kernel addresses are not looked up.
pub reached-kernel : (e va : ℕ) (m : Vm) → user_top ≤ va → reached e va m ≡ true
reached-kernel e va m le = let high : leb user_top va ≡ true = ground arith in rw high refl

-- 1 for an entry that holds the frame.
abbrev pub holds : ℕ → ℕ → ℕ
holds f entry = if not (entry == 0) && (entry / 4096 == f) then 1 else 0

unfoldable pub count : ℕ → Directories → List Slot → ℕ
count f ds [] = 0
count f ds (s ∷ ss) = holds f (entry_at ds s) + count f ds ss

-- The slot is not in the list.
abbrev pub Absent : Slot → List Slot → Type 0
Absent s [] = Unit {0}
Absent s (r ∷ rs) = (same_slot r s ≡ false) × Absent s rs

pub same_slot_refl : (s : Slot) → same_slot s s ≡ true
same_slot_refl s = ground arith

module _ (f : ℕ) (ds ds1 : Directories) (s : Slot) (v : ℕ)
    (now : (r : Slot) → entry_at ds1 r ≡ (if same_slot r s then v else entry_at ds r)) where
  pub count-Absent : (rs : List Slot) → Absent s rs → count f ds1 rs ≡ count f ds rs
  unfolding count
  count-Absent [] a = refl
  count-Absent (r ∷ rs) a =
      let kept : entry_at ds1 r ≡ entry_at ds r =
        now r ∙ ap (λ b. if b then v else entry_at ds r) a.0 in
      omega (arith, count-Absent rs a.1, ap (holds f) kept)

  -- Writing one entry of the list changes the count by the difference of the two entries.
  pub count-write :
      (xs ys : List Slot)
      → Absent s xs
      → Absent s ys
      → count f ds1 (xs ++ s ∷ ys) + holds f (entry_at ds s) ≡ count f ds (xs ++ s ∷ ys) + holds f v
  unfolding count
  count-write [] ys ax ay =
      let written : entry_at ds1 s ≡ v =
        now s ∙ ap (λ b. if b then v else entry_at ds s) (same_slot_refl s) in
      omega (arith, count-Absent ys ay, ap (holds f) written)
  count-write (x ∷ xs) ys ax ay =
      let kept : entry_at ds1 x ≡ entry_at ds x =
        now x ∙ ap (λ b. if b then v else entry_at ds x) ax.0 in
      omega (arith, count-write xs ys ax.1 ay, ap (holds f) kept)

pub holds_self : (entry : ℕ) → entry ≢ 0 → holds (entry / 4096) entry ≡ 1
holds_self entry ne =
    ap (λ b. if not b && (entry / 4096 == entry / 4096) then 1 else 0) (==-ne entry 0 ne)
    ∙ ap (λ b. if b then 1 else 0) (==-refl (entry / 4096))

pub holds_other : (f entry : ℕ) → f ≢ entry / 4096 → holds f entry ≡ 0
holds_other f entry ne = ground arith
