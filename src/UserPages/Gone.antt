-- ===== src/UserPages/Gone.antt =====
-- kern/memory_manager.c: the entries of page tables that `freeMem` clears.
use fos_kernel.Prelude.{
  ◌/◌, ◌%◌, ◌<◌, ◌≡◌, sym, ap, ◌∙◌, ◌≢◌, ◌⊎◌, inl, inr, Bool, true, ◌||◌, if◌then◌else◌, arith,
  Bool-cases,
}
use fos_kernel.Frames.{Vm}
use fos_kernel.Frames.Entries.{Slot, same_slot, entry_at}

-- Every entry holds a frame of the machine.
abbrev pub Valid : Vm → Type 0
Valid m =
    (s : Slot) → entry_at m.directories s ≢ 0 → entry_at m.directories s / 4096 < m.number_of_frames

-- The entries of `gone` are 0. Another entry of a table changes only to 0, and only if it is not present.
pub record Gone (gone : Slot → Bool) (m j : Vm) : Type 0 where
  pub machine : j.number_of_frames ≡ m.number_of_frames
  pub lost_as : j.lost ≡ m.lost
  pub cleared : (r : Slot) → gone r ≡ true → entry_at j.directories r ≡ 0
  pub kept :
      (r : Slot)
      → r.index < 1024
      → (entry_at j.directories r ≡ entry_at m.directories r)
        ⊎ ((entry_at j.directories r ≡ 0) × ((gone r ≡ true) ⊎ (entry_at m.directories r % 2 ≡ 0)))
  pub zero_or_kept :
      (r : Slot)
      → (entry_at j.directories r ≡ entry_at m.directories r) ⊎ (entry_at j.directories r ≡ 0)

pub Gone-Valid : (gone : Slot → Bool) (m j : Vm) → Gone gone m j → Valid m → Valid j
Gone-Valid gone m j g valid s ne = elim (g.zero_or_kept s) [
  | inl same ↦ omega (arith, valid s (λ z. ne (same ∙ z)), ap (λ n. n / 4096) same, g.machine)
  | inr empty ↦ absurd (ne empty)
]

pub Gone-then :
    (g h : Slot → Bool) (m j k : Vm) → Gone g m j → Gone h j k → Gone (λ r. g r || h r) m k
Gone-then g h m j k a b = record {
  machine = b.machine ∙ a.machine;
  lost_as = b.lost_as ∙ a.lost_as;
  cleared = λ r gone. elim (Bool-cases (h r)) [
    | inl hit ↦ b.cleared r hit
    | inr miss ↦
        let first : g r ≡ true = ground (arith, gone, miss) in
        elim (b.zero_or_kept r) [ inl same ↦ same ∙ a.cleared r first | inr empty ↦ empty ]
  ];
  kept = λ r lt. elim (b.kept r lt) [
    | inl same ↦ elim (a.kept r lt) [
      | inl same1 ↦ inl (same ∙ same1)
      | inr (empty, inl hit) ↦ inr (same ∙ empty, inl (ground (arith, hit)))
      | inr (empty, inr absent) ↦ inr (same ∙ empty, inr absent)
    ]
    | inr (empty, inl hit) ↦ inr (empty, inl (ground (arith, hit)))
    | inr (empty, inr absent) ↦ elim (a.kept r lt) [
      | inl same1 ↦ inr (empty, inr (ap (λ n. n % 2) (sym same1) ∙ absent))
      | inr (empty1, inl hit) ↦ inr (empty, inl (ground (arith, hit)))
      | inr (empty1, inr absent1) ↦ inr (empty, inr absent1)
    ]
  ];
  zero_or_kept = λ r. elim (b.zero_or_kept r) [
    | inl same ↦ elim (a.zero_or_kept r) [
      | inl same1 ↦ inl (same ∙ same1)
      | inr empty ↦ inr (same ∙ empty)
    ]
    | inr empty ↦ inr empty
  ];
}

-- What sets one entry to 0 and no other.
pub cleared-Gone :
    (m j : Vm) (s : Slot)
    → j.number_of_frames ≡ m.number_of_frames
    → j.lost ≡ m.lost
    → ((r : Slot)
        → entry_at j.directories r ≡ (if same_slot r s then 0 else entry_at m.directories r))
    → Gone (λ r. same_slot r s) m j
cleared-Gone m j s machine same_lost now = record {
  machine = machine;
  lost_as = same_lost;
  cleared = λ r hit. now r ∙ ap (λ b. if b then 0 else entry_at m.directories r) hit;
  kept = λ r lt. elim (Bool-cases (same_slot r s)) [
    | inl hit ↦ inr (now r ∙ ap (λ b. if b then 0 else entry_at m.directories r) hit, inl hit)
    | inr miss ↦ inl (now r ∙ ap (λ b. if b then 0 else entry_at m.directories r) miss)
  ];
  zero_or_kept = λ r. elim (Bool-cases (same_slot r s)) [
    | inl hit ↦ inr (now r ∙ ap (λ b. if b then 0 else entry_at m.directories r) hit)
    | inr miss ↦ inl (now r ∙ ap (λ b. if b then 0 else entry_at m.directories r) miss)
  ];
}
