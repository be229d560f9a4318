-- ===== src/PageFile/FrameFor.antt =====
-- kern/file_manager.c: the table and the directory behind the disk frame of a page.
use fos_kernel.Prelude.{
  Option-cases, Bool-cases, ℕ, ◌≡◌, refl, sym, ap, ◌∙◌, inl, inr, true, Option, none, some, List,
  [], ◌∷◌, if◌then◌else◌, arith, subst,
}
use fos_kernel.Frames.{pdx}
use fos_kernel.PageFile.{
  PageFile, Kmalloc, gives, null, stops, Run, returns, ◌>>=◌, Table, Directory, outcome, is_lost,
  put_table, new_directory, directory_from, new_table, get_disk_page_directory, table_from,
  table_in, get_disk_page_table, frame_in, frame_for,
}
use fos_kernel.PageFile.Inv.{Inv}
use fos_kernel.PageFile.Alike.{
  Alike, Alike-refl, dirs_self, with_directory, with_directory-Alike, with_table, with_table-Alike,
}
use fos_kernel.PageFile.Grant.{page_of, null_among, stop_among, Granted, granted}

-- The table is found, or made, in a directory that is there.
module _ (s m : PageFile) (e va : ℕ) (dir : Directory) (here : m.disk_env_pgdir e ≡ some dir)
    (alike : Alike s m)
    (null_later : null_among 1 m.kmallocs ≡ true → null_among 2 s.kmallocs ≡ true)
    (stop_later : stop_among 1 m.kmallocs ≡ true → stop_among 2 s.kmallocs ≡ true)
    (lost_before : (t : Table)
      → dir (pdx va) ≡ some t
      → is_lost e va m ≡ true
      → is_lost e va s ≡ true)
    (inv : Inv s) where
  made :
      (l : List Kmalloc)
      → m.kmallocs ≡ l
      → dir (pdx va) ≡ none
      → Granted s va
          (page_of e va)
          (outcome l m >>= (λ r. returns (new_table e dir (pdx va) r)) >>= λ r. frame_in e va r)
  made [] is missing = stop_later (ap (stop_among 1) is)
  made (stops ∷ rest) is missing = stop_later (ap (stop_among 1) is)
  made (null ∷ rest) is missing = inl (null_later (ap (null_among 1) is))
  made (gives l ∷ rest) is missing =
      let new = put_table dir (pdx va) (some (λ k. 0)) in
      let j = with_table e (pdx va) dir rest l m in
      let a = with_table-Alike e (pdx va) dir rest l m here missing in
      granted s j e va (λ k. 0) new (dirs_self m.disk_env_pgdir e (some new)) (ground arith)
        (λ p. a.frames p ∙ alike.frames p) alike.free alike.disk alike.bad (ground arith) inv

  tabled :
      Granted s va
        (page_of e va)
        (table_from (dir (pdx va)) true e dir va m >>= λ r. frame_in e va r)
  tabled = elim (Option-cases (dir (pdx va))) [
    | inl missing ↦
        subst
          (λ o. Granted s va (page_of e va) (table_from o true e dir va m >>= λ r. frame_in e va r))
          (sym missing) (made m.kmallocs refl missing)
    | inr (t, there) ↦
        subst
          (λ o. Granted s va (page_of e va) (table_from o true e dir va m >>= λ r. frame_in e va r))
          (sym there)
          (elim (Bool-cases (is_lost e va m)) [
            | inl lost ↦
                subst
                  (λ b. Granted s va (page_of e va) (frame_in e va (if b then none else some t, m)))
                  (sym lost) (inr (lost_before t there lost))
            | inr found ↦
                subst
                  (λ b. Granted s va (page_of e va) (frame_in e va (if b then none else some t, m)))
                  (sym found)
                  (granted s m e va t dir here there alike.frames alike.free alike.disk alike.bad
                    found inv)
          ])
  ]

-- The second outcome is not NULL and does not stop where it is not reached.
null_first : (l : List Kmalloc) → null_among 1 l ≡ true → null_among 2 l ≡ true
null_first [] h = h
null_first (null ∷ rest) h = h
null_first (stops ∷ rest) h = h
null_first (gives l ∷ rest) h = cc

stop_first : (l : List Kmalloc) → stop_among 1 l ≡ true → stop_among 2 l ≡ true
stop_first [] h = h
stop_first (null ∷ rest) h = h
stop_first (stops ∷ rest) h = h
stop_first (gives l ∷ rest) h = cc

-- The directory is made.
started :
    (s : PageFile) (e va : ℕ) (l : List Kmalloc)
    → s.kmallocs ≡ l
    → s.disk_env_pgdir e ≡ none
    → Inv s
    → Granted s va (page_of e va) (
        outcome l s >>= (λ r. returns (new_directory e r)) >>= λ m.
        table_in (m.disk_env_pgdir e) true e va m >>= λ r. frame_in e va r)
started s e va [] is missing inv = ap (stop_among 2) is
started s e va (stops ∷ rest) is missing inv = ap (stop_among 2) is
started s e va (null ∷ rest) is missing inv =
    subst
      (λ o.
        Granted s va (page_of e va)
          (table_in o true e va (record s { kmallocs = rest }) >>= λ r. frame_in e va r))
      (sym missing) (inl (ap (null_among 2) is))
started s e va (gives l ∷ rest) is missing inv =
    let m = with_directory e rest l s in
    let self = dirs_self s.disk_env_pgdir e (some (λ i. none)) in
    subst (λ o. Granted s va (page_of e va) (table_in o true e va m >>= λ r. frame_in e va r))
      (sym self)
      (tabled s m e va (λ i. none) self (with_directory-Alike e rest l s missing)
        (λ h. ap (null_among 2) is ∙ h) (λ h. ap (stop_among 2) is ∙ h) (λ t there lost. cc) inv)

-- The disk frame for a page, in a sound page file.
pub frame_for-Granted :
    (s : PageFile) (e va : ℕ) → Inv s → Granted s va (page_of e va) (frame_for e va s)
unfolding frame_for get_disk_page_table get_disk_page_directory
frame_for-Granted s e va inv =
    let after : Option Directory → Run (Option ℕ × PageFile) = λ o. directory_from o e s >>= λ m.
    table_in (m.disk_env_pgdir e) true e va m >>= λ r. frame_in e va r in
    elim (Option-cases (s.disk_env_pgdir e)) [
      | inl missing ↦
          subst (λ o. Granted s va (page_of e va) (after o)) (sym missing)
            (started s e va s.kmallocs refl missing inv)
      | inr (dir, here) ↦
          subst (λ o. Granted s va (page_of e va) (after o)) (sym here)
            (subst
              (λ o. Granted s va (page_of e va) (table_in o true e va s >>= λ r. frame_in e va r))
              (sym here)
              (tabled s s e va dir here (Alike-refl s) (null_first s.kmallocs)
                (stop_first s.kmallocs) (λ t there lost. lost) inv))
    ]
