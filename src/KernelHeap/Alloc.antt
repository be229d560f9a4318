-- ===== src/KernelHeap/Alloc.antt =====
-- kern/kheap.c: what `kmalloc` gives, by the way in which its search ends.
use fos_kernel.Prelude.{
  ℕ, zero, suc, ◌+◌, ◌-◌, ◌*◌, ◌%◌, ◌^◌, ◌<◌, ◌≤◌, ◌≡◌, refl, sym, ap, ◌∙◌, ◌⊎◌, inl, inr, true,
  false, Option, none, some, leb, ◌==◌, ==-refl, if◌then◌else◌, arith, subst,
}
use native.Mathlib.Decide.{dec_lt}
use fos_kernel.Frames.{Vm, Mapped, no_frame, frame, get_frame_info}
use fos_kernel.KernelHeap.{
  kernel, Block, KernelHeap, roundup, Cursor, Result, ends, null, search, map_pages, block_at,
  finish, with_search, after_search, begin, next_fit_algo, kmalloc,
}
use fos_kernel.KernelHeap.Rounds.{pages, address, round, FreeRound, Ends, At}
use fos_kernel.KernelHeap.Search.{search-at}

abbrev pub page_in : Vm → ℕ → Mapped
page_in m va = get_frame_info kernel va m

-- The search begins at a page of the heap, and no page holds a number that is no frame's.
pub record Inv (h : KernelHeap) : Type 0 where
  pub start : ℕ
  pub start_in : start < pages
  pub start_at : h.start_add ≡ address start
  pub known :
      (p : ℕ)
      → p < pages
      → (page_in h.vm (address p) ≡ no_frame) ⊎ ((f : ℕ) × (page_in h.vm (address p) ≡ frame f))

-- NULL, and nothing is mapped.
abbrev pub Null : KernelHeap → Option (ℕ × KernelHeap) → Type 0
Null h r = (j : KernelHeap) × (r ≡ some (0, j)) × (j.vm ≡ h.vm)

-- The address of `n` pages that are free and follow one another, which are mapped one by one.
abbrev pub Contiguous : ℕ → (Vm → Option Vm) → KernelHeap → ℕ → Option (ℕ × KernelHeap) → Type 0
Contiguous fuel new_page h n r =
    (f : ℕ) × (f + n ≤ pages)
    × ((q : ℕ) → f ≤ q → q < f + n → page_in h.vm (address q) ≡ no_frame)
    × (((map_pages fuel new_page (address f) (address (f + n - 1)) h.vm ≡ none) × (r ≡ none))
        ⊎ ((m : Vm) × (j : KernelHeap) × (map_pages fuel new_page (address f) (address (f + n - 1))
                h.vm
              ≡ some m)
            × (r ≡ some (address f, j))
            × (j.vm ≡ m)
            × (j.start_add ≡ address (f + n))))

-- The pages of the run lie at both ends of the heap, and not one of them is mapped.
abbrev pub Wrapped : KernelHeap → ℕ → Option (ℕ × KernelHeap) → Type 0
Wrapped h n r =
    (f : ℕ) × (j : KernelHeap) × (f < pages)
    × (pages < f + n)
    × (r ≡ some (address f, j))
    × (j.vm ≡ h.vm)
    × (page_in j.vm (address f) ≡ no_frame)

module _ (new_page : Vm → Option Vm) (h : KernelHeap) (inv : Inv h) (n fuel : ℕ)
    (some_pages : 0 < n) (sized : n < 2 ^ 20) (enough : pages + 1 < fuel) where
  abbrev sized_block : Block
  sized_block = record {
    first = (h.kheap_arr h.idx).first;
    last = (h.kheap_arr h.idx).last;
    size = n * 4096;
  }

  abbrev with_size : KernelHeap
  with_size = record h { kheap_arr = block_at h.kheap_arr h.idx sized_block }

  abbrev page : ℕ → Mapped
  page = page_in h.vm

  begin-At : At page inv.start n inv.start 0 (pages + 1) (begin with_size)
  begin-At = record {
    at = inv.start_at;
    in_heap = omega (arith, inv.start_in);
    counted = omega arith;
    short = some_pages;
    few = omega arith;
    from = inv.start;
    from_in = inv.start_in;
    behind = omega arith;
    first = λ lt. absurd (omega arith);
    last = λ lt. absurd (omega arith);
    free = λ j lt. absurd (omega arith);
    phase = inl (refl, refl, refl);
  }

  searched : Option Result
  searched = search fuel page (address inv.start) (n * 4096) (begin with_size)

  searched-Ends : Ends page n searched
  unfolding searched
  searched-Ends =
      search-at page inv.start n inv.start_in some_pages sized inv.known fuel inv.start 0
        (pages + 1) (begin with_size) begin-At enough

  size_now : (with_size.kheap_arr h.idx).size ≡ n * 4096
  size_now = ap (λ b. (if b then sized_block else h.kheap_arr h.idx).size) (==-refl h.idx)

  goes_on : next_fit_algo fuel new_page with_size ≡ after_search fuel new_page with_size searched
  unfolding next_fit_algo searched
  goes_on =
      ap
        (λ a.
          after_search fuel new_page with_size
            (search fuel page a (with_size.kheap_arr h.idx).size (begin with_size)))
        inv.start_at
      ∙ ap
          (λ k.
            after_search fuel new_page with_size
              (search fuel page (address inv.start) k (begin with_size)))
          size_now

  abbrev Outcome : Option (ℕ × KernelHeap) → Type 0
  Outcome r = Null h r ⊎ (Contiguous fuel new_page h n r ⊎ Wrapped h n r)

  first_now : (c : Cursor) → ((with_search with_size c).kheap_arr h.idx).first ≡ c.first
  first_now c = ground arith

  mapped :
      (c : Cursor) (f : ℕ) (o : Option Vm)
      → c.first ≡ address f
      → c.last ≡ address (f + n - 1)
      → f + n ≤ pages
      → ((o ≡ none) × (finish c.last (with_search with_size c) o ≡ none))
        ⊎ ((m : Vm) × (j : KernelHeap) × (o ≡ some m)
            × (finish c.last (with_search with_size c) o ≡ some (address f, j))
            × (j.vm ≡ m)
            × (j.start_add ≡ address (f + n)))
  mapped c f none first last fits = inl (refl, refl)
  mapped c f (some m) first last fits = inr (
    m,
    record (with_search with_size c) {
      vm = m;
      start_add = (c.last + 4096) % 2 ^ 32;
      idx = h.idx + 1;
    },
    refl,
    ap
        (λ a. some (
          a,
          record (with_search with_size c) {
            vm = m;
            start_add = (c.last + 4096) % 2 ^ 32;
            idx = h.idx + 1;
          },
        ))
        (first_now c ∙ first),
    refl,
    omega (arith, last),
  )

  -- The run was found: its pages are mapped.
  module _ (c : Cursor) (f : ℕ) (counted : c.x ≡ n * 4096) (first : c.first ≡ address f) (l : ℕ)
      (last : c.last ≡ address l) where
    finishes :
        after_search fuel new_page with_size (some (ends c))
        ≡ finish c.last
            (with_search with_size c)
            (map_pages fuel new_page (address f) (address l) h.vm)
    finishes =
        let all : (c.x == (with_size.kheap_arr h.idx).size) ≡ true =
          ap (λ k. c.x == k) size_now ∙ ap (λ k. k == n * 4096) counted ∙ ==-refl (n * 4096) in
        ap
          (λ b.
            finish c.last (with_search with_size c)
              (if b then map_pages fuel new_page c.first c.last h.vm else some h.vm))
          all
        ∙ ap (λ a. finish c.last (with_search with_size c) (map_pages fuel new_page a c.last h.vm))
            first
        ∙ ap
            (λ b.
              finish c.last (with_search with_size c) (map_pages fuel new_page (address f) b h.vm))
            last

  no_pages : (k : ℕ) (a b : ℕ) (m : Vm) → b < a → 0 < k → map_pages k new_page a b m ≡ some m
  unfolding map_pages
  no_pages zero a b m lt pos = absurd (omega arith)
  no_pages (suc k) a b m lt pos = let past : leb a b ≡ false = ground arith in rw past refl

  contiguous :
      (c : Cursor) (f : ℕ)
      → f + n ≤ pages
      → c.x ≡ n * 4096
      → c.first ≡ address f
      → c.last ≡ address (round f (n - 1))
      → FreeRound page f n
      → Contiguous fuel new_page h n (after_search fuel new_page with_size (some (ends c)))
  contiguous c f fits counted first last free =
      let l = f + n - 1 in
      let at_last : c.last ≡ address l = last ∙ ap address (omega arith) in
      let is = finishes c f counted first l at_last in
      (
        f,
        fits,
        (λ q lo hi. ap (λ k. page (address k)) (omega arith) ∙ free (q - f) (omega arith)),
        elim (mapped c f (map_pages fuel new_page (address f) (address l) h.vm) first at_last
            fits) [
              | inl (stops, r) ↦ inl (stops, is ∙ r)
              | inr (m, j, o, r, vm, start) ↦ inr (m, j, o, is ∙ r, vm, start)
            ],
      )

  wrapped :
      (c : Cursor) (f : ℕ)
      → f < pages
      → n ≤ pages
      → pages < f + n
      → c.x ≡ n * 4096
      → c.first ≡ address f
      → c.last ≡ address (round f (n - 1))
      → FreeRound page f n
      → Wrapped h n (after_search fuel new_page with_size (some (ends c)))
  wrapped c f f_in few wraps counted first last free =
      let l = round f (n - 1) in
      let past : l < f = omega arith in
      let none_mapped =
        no_pages fuel (address f) (address l) h.vm (omega (arith, past)) (omega arith) in
      let is =
        finishes c f counted first l last
        ∙ ap (finish c.last (with_search with_size c)) none_mapped in
      (
        f,
        record (with_search with_size c) { start_add = (c.last + 4096) % 2 ^ 32; idx = h.idx + 1 },
        f_in,
        wraps,
        is
            ∙ ap
                (λ a. some (
                  a,
                  record (with_search with_size c) {
                    start_add = (c.last + 4096) % 2 ^ 32;
                    idx = h.idx + 1;
                  },
                ))
                (first_now c ∙ first),
        refl,
        ap (λ k. page (address k)) (omega arith) ∙ free 0 some_pages,
      )

  by_end : (r : Option Result) → Ends page n r → Outcome (after_search fuel new_page with_size r)
  by_end none e = absurd e
  by_end (some (null c)) e = inl (with_search with_size c, refl, refl)
  by_end (some (ends c)) (f, f_in, few, counted, first, last, free) =
      inr (elim (dec_lt pages (f + n)) [
        | no fits ↦ inl (contiguous c f (omega arith) counted first last free)
        | yes wraps ↦ inr (wrapped c f f_in few wraps counted first last free)
      ])

  outcome : Outcome (next_fit_algo fuel new_page with_size)
  outcome = subst Outcome (sym goes_on) (by_end searched searched-Ends)

-- `kmalloc` of a size that takes `n` pages, with a search that begins inside of the heap. The search ends. Its
-- result is NULL, with no page mapped; or `n` free pages that follow one another, which are mapped
-- one by one while there are frames; or, where the free pages that it counted lie at both ends of the
-- heap, the address of the first of them, with not one page mapped.
pub kmalloc-Outcome :
    (new_page : Vm → Option Vm) (h : KernelHeap) (n fuel size : ℕ)
    → Inv h
    → 0 < n
    → n < 2 ^ 20
    → pages + 1 < fuel
    → roundup size ≡ n * 4096
    → Null h (kmalloc fuel new_page size h)
      ⊎ (Contiguous fuel new_page h n (kmalloc fuel new_page size h)
          ⊎ Wrapped h n (kmalloc fuel new_page size h))
unfolding kmalloc
kmalloc-Outcome new_page h n fuel size inv some_pages sized enough rounded =
    subst
      (λ k.
        let r = next_fit_algo fuel new_page (record h {
          kheap_arr = block_at h.kheap_arr h.idx (record {
            first = (h.kheap_arr h.idx).first;
            last = (h.kheap_arr h.idx).last;
            size = k;
          });
        }) in
        Null h r ⊎ (Contiguous fuel new_page h n r ⊎ Wrapped h n r))
      (sym rounded) (outcome new_page h inv n fuel some_pages sized enough)
