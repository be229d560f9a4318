-- ===== src/Queue.antt =====
-- inc/queue.h: the doubly linked lists with a head structure that the frame lists and the
-- scheduler's queues are made of. An element is the address of the structure that holds the link,
-- and 0 is NULL. The link fields of all elements are the store; a head is a value of its own.
pub mod Chain
pub mod Insert
pub mod Relink
pub mod Between
pub mod Remove
pub mod Concat
mod Tests
use fos_kernel.Prelude.{ℕ, ◌+◌, ◌-◌, ◌%◌, ◌^◌, ◌==◌, if◌then◌else◌}

-- `LIST_ENTRY`: the two fields `prev_next_info` of every element.
pub record Links : Type 0 where
  pub le_next : ℕ → ℕ
  pub le_prev : ℕ → ℕ

-- `LIST_HEAD`. The scratch field `___ptr_next` lives during a `LIST_FOREACH` only.
pub record Head : Type 0 where
  pub lh_first : ℕ
  pub lh_last : ℕ
  pub size : ℕ

pub record Lists : Type 0 where
  pub links : Links
  pub head : Head

abbrev pub write : (ℕ → ℕ) → ℕ → ℕ → ℕ → ℕ
write f p v q = if q == p then v else f q

-- `((list)->size)++` and `--` on a `uint32`.
abbrev pub size_inc : ℕ → ℕ
size_inc n = (n + 1) % 2 ^ 32

abbrev pub size_dec : ℕ → ℕ
size_dec n = (n + 2 ^ 32 - 1) % 2 ^ 32

abbrev set_next : ℕ → ℕ → Links → Links
set_next p v l = record l { le_next = write l.le_next p v }

abbrev set_prev : ℕ → ℕ → Links → Links
set_prev p v l = record l { le_prev = write l.le_prev p v }

pub list_init : Head
list_init = record { lh_first = 0; lh_last = 0; size = 0 }

pub list_insert_after : ℕ → ℕ → Links → Head → Lists
list_insert_after listelm elm l h =
    let next = l.le_next listelm in
    let l1 = set_next elm next l in
    let l2 = if next == 0 then l1 else set_prev (l1.le_next listelm) elm l1 in
    let l3 = set_prev elm listelm (set_next listelm elm l2) in
    record {
      links = l3;
      head = record h {
        lh_last = if l3.le_next elm == 0 then elm else h.lh_last;
        size = size_inc h.size;
      };
    }

pub list_insert_before : ℕ → ℕ → Links → Head → Lists
list_insert_before listelm elm l h =
    let l1 = set_next elm listelm (set_prev elm (l.le_prev listelm) l) in
    let prev = l1.le_prev listelm in
    record {
      links = set_prev listelm elm (if prev == 0 then l1 else set_next prev elm l1);
      head = record h { lh_first = if prev == 0 then elm else h.lh_first; size = size_inc h.size };
    }

pub list_insert_head : ℕ → Links → Head → Lists
list_insert_head elm l h =
    let l1 = set_next elm h.lh_first l in
    record {
      links = set_prev elm 0 (if h.lh_first == 0 then l1 else set_prev h.lh_first elm l1);
      head = record {
        lh_first = elm;
        lh_last = if h.lh_first == 0 then elm else h.lh_last;
        size = size_inc h.size;
      };
    }

pub list_insert_tail : ℕ → Links → Head → Lists
list_insert_tail elm l h =
    let l1 = set_prev elm h.lh_last l in
    record {
      links = set_next elm 0 (if h.lh_last == 0 then l1 else set_next h.lh_last elm l1);
      head = record {
        lh_first = if h.lh_last == 0 then elm else h.lh_first;
        lh_last = elm;
        size = size_inc h.size;
      };
    }

pub list_remove : ℕ → Links → Head → Lists
list_remove elm l h =
    let next = l.le_next elm in
    let l1 = if next == 0 then l else set_prev next (l.le_prev elm) l in
    let prev = l1.le_prev elm in
    let l2 = if prev == 0 then l1 else set_next prev (l1.le_next elm) l1 in
    record {
      links = set_prev elm 0 (set_next elm 0 l2);
      head = record {
        lh_first = if prev == 0 then l1.le_next elm else h.lh_first;
        lh_last = if next == 0 then l.le_prev elm else h.lh_last;
        size = size_dec h.size;
      };
    }

pub record Concatenated : Type 0 where
  pub links : Links
  pub list1 : Head
  pub list2 : Head

-- The branches of `LIST_CONCAT`; the sizes are added behind them, by `list_concat`.
concat_links : Links → Head → Head → Concatenated
concat_links l h1 h2 =
    if h1.lh_first == 0
    then record {
      links = l;
      list1 = record h1 { lh_first = h2.lh_first; lh_last = h2.lh_last };
      list2 = h2;
    }
    else if h2.lh_first == 0
    then record { links = l; list1 = h1; list2 = h2 }
    else record {
      links = set_prev h2.lh_first h1.lh_last (set_next h1.lh_last h2.lh_first l);
      list1 = record h1 { lh_last = h2.lh_last };
      list2 = list_init;
    }

pub list_concat : Links → Head → Head → Concatenated
unfolding concat_links list_init
list_concat l h1 h2 =
    let c = concat_links l h1 h2 in
    record c { list1 = record c.list1 { size = (c.list1.size + c.list2.size) % 2 ^ 32 } }
