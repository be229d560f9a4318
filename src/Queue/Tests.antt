-- ===== src/Queue/Tests.antt =====
-- Runs of inc/queue.h on small lists, and the theorems at concrete lists.
use fos_kernel.Prelude.{
  ℕ, ◌≡◌, refl, true, false, [], ◌∷◌, arith, ◌==◌, if◌then◌else◌, length, ◌%◌, ◌^◌,
}
use fos_kernel.Queue.{Links, Head, list_insert_before, list_remove, list_concat}
use fos_kernel.Queue.Chain.{has, IsList, Holds}
use fos_kernel.Queue.Between.{list_insert_before_lem}
use fos_kernel.Queue.Remove.{list_remove_lem}
use fos_kernel.Queue.Concat.{Joined, list_concat_lem}

-- Two lists in one store: 7, 5 and 9, 3.
abbrev links : Links
links = record {
  le_next = λ a. if a == 7 then 5 else if a == 9 then 3 else 0;
  le_prev = λ a. if a == 5 then 7 else if a == 3 then 9 else 0;
}

abbrev head_75 : Head
head_75 = record { lh_first = 7; lh_last = 5; size = 2 }

abbrev head_93 : Head
head_93 = record { lh_first = 9; lh_last = 3; size = 2 }

is_75 : IsList links head_75 (7 ∷ 5 ∷ [])
is_75 = record {
  chain = omega arith;
  first = refl;
  last = refl;
  counted = refl;
  distinct = (refl, (refl, tt));
}

is_93 : IsList links head_93 (9 ∷ 3 ∷ [])
is_93 = record {
  chain = omega arith;
  first = refl;
  last = refl;
  counted = refl;
  distinct = (refl, (refl, tt));
}

removed_first : (list_remove 7 links head_75).head ≡ record { lh_first = 5; lh_last = 5; size = 1 }
unfolding list_remove
removed_first = refl

removed_last : (list_remove 5 links head_75).head ≡ record { lh_first = 7; lh_last = 7; size = 1 }
unfolding list_remove
removed_last = refl

joined_size : (list_concat links head_75 head_93).list1.size ≡ 2
unfolding list_concat
joined_size = refl

list_insert_before_example : Holds (list_insert_before 5 4 links head_75) (7 ∷ 4 ∷ 5 ∷ [])
list_insert_before_example =
    list_insert_before_lem links head_75 4 5 (7 ∷ []) [] (omega arith) is_75 refl

list_remove_example : Holds (list_remove 5 links head_75) (7 ∷ [])
list_remove_example = list_remove_lem links head_75 5 (7 ∷ []) [] is_75

apart_lists : (a : ℕ) → has a (7 ∷ 5 ∷ []) ≡ true → has a (9 ∷ 3 ∷ []) ≡ false
apart_lists a h = ground arith

list_concat_example :
    Joined
      (list_concat links head_75 head_93)
      (7 ∷ 5 ∷ 9 ∷ 3 ∷ [])
      (length {A = ℕ} (7 ∷ 5 ∷ []) % 2 ^ 32)
list_concat_example =
    list_concat_lem links head_75 head_93 7 (5 ∷ []) 9 (3 ∷ []) is_75 is_93 apart_lists
