-- ===== src/PageFile/Grant.antt =====
-- kern/file_manager.c: the disk frame that `pf_add_env_page` finds or allocates.
use fos_kernel.Prelude.{
  zero, suc, Bool, ◌&&◌, ltb, ℕ, ◌≡◌, refl, sym, ap, ◌∙◌, ◌≢◌, ◌⊎◌, inl, inr, true, false, Option,
  none, some, List, [], ◌∷◌, ◌==◌, ==-ne, if◌then◌else◌, arith, subst,
}
use native.Mathlib.Decide.{ℕ_discrete}
use fos_kernel.Queue.Chain.{has}
use fos_kernel.Frames.{user_top, pdx, ptx}
use fos_kernel.PageFile.{
  PageFile, Kmalloc, gives, null, stops, Run, returns, panics, faults, Table, Directory, is_lost,
  take_first, allocate_disk_frame, new_frame, frame_in, write_at,
}
use fos_kernel.PageFile.Free.{entry_of, table_of}
use fos_kernel.PageFile.Inv.{Slot, page, table, same, same_refl, dfn, Inv, Inv-same, Inv-give}
use fos_kernel.PageFile.Entries.{dfn-write_at, Kept-write_at}

abbrev pub page_of : ℕ → ℕ → Slot
page_of e va = page e (pdx va) (ptx va)

-- Among the next `n` outcomes of `kmalloc`, up to the first that is not a page, is NULL, or one that
-- does not return.
abbrev pub null_among : ℕ → List Kmalloc → Bool
null_among zero l = false
null_among (suc n) [] = false
null_among (suc n) (null ∷ rest) = true
null_among (suc n) (stops ∷ rest) = false
null_among (suc n) (gives l ∷ rest) = null_among n rest

abbrev pub stop_among : ℕ → List Kmalloc → Bool
stop_among zero l = false
stop_among (suc n) [] = true
stop_among (suc n) (null ∷ rest) = false
stop_among (suc n) (stops ∷ rest) = true
stop_among (suc n) (gives l ∷ rest) = stop_among n rest

-- `kheap_virtual_address` does not find the table of the place.
abbrev pub unfound : ℕ → Slot → PageFile → Bool
unfound va (page e d i) s = ltb va user_top && s.lost e d
unfound va (table e d) s = false

-- What `frame_for` gives for the place `at`: it faults only where `kmalloc` gives NULL for the directory
-- or the table, or the table is not found, and stops only in `kmalloc`; it gives no frame only
-- where none is free, and else the place has the frame and its table is found, other places
-- keep theirs, and the page file is sound.
abbrev pub Granted : PageFile → ℕ → Slot → Run (Option ℕ × PageFile) → Type 0
Granted s va at panics = stop_among 2 s.kmallocs ≡ true
Granted s va at faults = (null_among 2 s.kmallocs ≡ true) ⊎ (unfound va at s ≡ true)
Granted s va at (returns (none, j)) =
    (s.disk_free_frame_list ≡ [])
    × (dfn s at ≡ 0)
    × ((a : Slot) → dfn j a ≡ dfn s a)
    × (j.disk ≡ s.disk)
    × Inv j
Granted s va at (returns (some f, j)) =
    (f ≢ 0)
    × (dfn j at ≡ f)
    × ((a : Slot) → same a at ≡ false → dfn j a ≡ dfn s a)
    × (j.disk ≡ s.disk)
    × (j.bad_sector ≡ s.bad_sector)
    × (unfound va at j ≡ false)
    × Inv j

module _ (s m : PageFile) (e va : ℕ) (t : Table) (dir : Directory)
    (here : m.disk_env_pgdir e ≡ some dir) (there : dir (pdx va) ≡ some t)
    (same_frames : (a : Slot) → dfn m a ≡ dfn s a)
    (same_free : m.disk_free_frame_list ≡ s.disk_free_frame_list) (same_disk : m.disk ≡ s.disk)
    (same_bad : m.bad_sector ≡ s.bad_sector) (found : is_lost e va m ≡ false) (inv : Inv s) where
  abbrev at : Slot
  at = page e (pdx va) (ptx va)

  entry_at : dfn m at ≡ t (ptx va)
  entry_at =
      ap (λ o. entry_of (table_of o (pdx va)) (ptx va)) here ∙ ap (λ o. entry_of o (ptx va)) there

  sound : Inv m
  sound = Inv-same s m same_free same_frames inv

  -- A frame is taken from the free list and entered.
  taken :
      (f : ℕ) (rest : List ℕ)
      → m.disk_free_frame_list ≡ f ∷ rest
      → t (ptx va) ≡ 0
      → Granted s va at (new_frame e va (take_first (f ∷ rest) m) m)
  taken f rest first unused =
      let k = record m { disk_free_frame_list = rest } in
      let j = write_at e (pdx va) (ptx va) f k in
      let now = dfn-write_at e (pdx va) (ptx va) f k dir t here there in
      let stays = Kept-write_at e (pdx va) (ptx va) f k dir t here there in
      let free : has f m.disk_free_frame_list ≡ true = ap (has f) first ∙ ground arith in
      let real = (sound.free_frames f free).0 in
      (
        (λ z. absurd (omega (arith, z, real))),
        now at ∙ ap (λ b. if b then f else dfn k at) (same_refl at),
        (λ a miss. now a ∙ ap (λ b. if b then f else dfn k a) miss ∙ frames_k a),
        stays.disk ∙ same_disk,
        stays.bad ∙ same_bad,
        ap (λ (l : ℕ → ℕ → Bool). ltb va user_top && l e (pdx va)) stays.lost ∙ found,
        Inv-give m j at f rest first stays.free (entry_at ∙ unused) (omega arith, omega arith)
            (frames_now f rest now) sound,
      )
    where
      frames_k : (a : Slot) → dfn (record m { disk_free_frame_list = rest }) a ≡ dfn s a
      frames_k (page e1 d i) = same_frames (page e1 d i)
      frames_k (table e1 d) = same_frames (table e1 d)

      frames_now :
          (f : ℕ) (rest : List ℕ)
          → ((a : Slot)
              → dfn (write_at e (pdx va) (ptx va) f (record m { disk_free_frame_list = rest })) a
                ≡ (if same a at then f else dfn (record m { disk_free_frame_list = rest }) a))
          → (a : Slot)
          → dfn (write_at e (pdx va) (ptx va) f (record m { disk_free_frame_list = rest })) a
            ≡ (if same a at then f else dfn m a)
      frames_now f rest now (page e1 d i) = now (page e1 d i)
      frames_now f rest now (table e1 d) = now (table e1 d)

  pub granted : Granted s va at (frame_in e va (some t, m))
  unfolding allocate_disk_frame
  granted = elim (ℕ_discrete (t (ptx va)) 0) [
    | yes unused ↦
        let go : (t (ptx va) == 0) ≡ true = ap (λ n. n == 0) unused in
        subst (Granted s va at)
          (sym (
            ap
              (λ b.
                if b
                then new_frame e va (take_first m.disk_free_frame_list m) m
                else returns (some (t (ptx va)), m))
              go))
          (by_free unused (free_cases m.disk_free_frame_list))
    | no held ↦
        subst (Granted s va at)
          (sym (
            ap
              (λ b.
                if b
                then new_frame e va (take_first m.disk_free_frame_list m) m
                else returns (some (t (ptx va)), m))
              (==-ne (t (ptx va)) 0 held)))
          (held, entry_at, (λ a miss. same_frames a), same_disk, same_bad, found, sound)
  ]
    where
      free_cases : (l : List ℕ) → (l ≡ []) ⊎ ((f : ℕ) × (rest : List ℕ) × (l ≡ f ∷ rest))
      free_cases [] = inl refl
      free_cases (f ∷ rest) = inr (f, rest, refl)

      by_free :
          t (ptx va) ≡ 0
          → ((m.disk_free_frame_list ≡ [])
              ⊎ ((f : ℕ) × (rest : List ℕ) × (m.disk_free_frame_list ≡ f ∷ rest)))
          → Granted s va at (new_frame e va (take_first m.disk_free_frame_list m) m)
      by_free unused (inl empty) =
          subst (λ l. Granted s va at (new_frame e va (take_first l m) m)) (sym empty)
            (
              sym same_free ∙ empty,
              sym (same_frames at) ∙ entry_at ∙ unused,
              same_frames,
              same_disk,
              sound,
            )
      by_free unused (inr (f, rest, first)) =
          subst (λ l. Granted s va at (new_frame e va (take_first l m) m)) (sym first)
            (taken f rest first unused)
