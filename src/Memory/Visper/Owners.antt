-- ===== src/Memory/Visper/Owners.antt =====
-- Where the blocks of a page go when they are freed.
use addictol.Base.{
  ℕ, ◌+◌, sub64, u64_mod, ◌-◌, ◌%◌, ◌≤◌, ◌<◌, ◌≡◌, ◌≢◌, refl, ap, ◌∙◌, false, not, length, none,
  some, ◌==◌, leb, ◌||◌, get_elem?, set, update_at-same, if_cases, arith, if◌then◌else◌,
}
use addictol.Memory.Visper.{
  BlockHeader, Space, Page, Heap, MemoryManager, block_hash, header_size, int32_leb, rel_block,
  normal_ptr,
}
use addictol.Memory.Visper.Pages.{
  block_of, give, push, free_block, free_at, page_free, page_alloc, allocated,
}
use addictol.Memory.Visper.Heaps.{heap_free, free_from, free_page}
use addictol.Memory.Visper.Managers.{manager_free, free_header, free_with, with_heap}

rel_block-normal_ptr :
    (m : Space) (block : ℕ)
    → 0 < block
    → block + header_size < u64_mod
    → (m.headers block).hash ≡ block_hash
    → rel_block (normal_ptr block) m ≡ some block
unfolding rel_block
rel_block-normal_ptr m block some_block inside h =
    let back : sub64 (block + header_size) header_size ≡ block = omega (arith, inside) in
    rw back (ground (arith, some_block, h))

freed-count :
    (p : Page) (size block : ℕ)
    → p.heap_id < 16
    → p.page_id < 16
    → 0 < p.free
    → p.free ≤ p.size
    → (free_at (block_of p size false) block (record p { free = p.free - 1 })).free
      ≡ (if p.heap_id == p.page_id then p.free else p.free - 1)
freed-count p size block small_heap small_page some_free full =
    let same_heap : p.heap_id % 16 ≡ p.heap_id = omega arith in
    let same_page : p.page_id % 16 ≡ p.page_id = omega arith in ground arith

-- An allocation of 1 byte up to the size of a block takes the top block of a page that has one;
-- freeing it gives the page its count of free blocks back exactly if the page's index is that of
-- its heap, if both are below 16, the block has the header that CreateBlock writes where the flag
-- noaction is clear, and the block's address is above 0 and below 2 ^ 64 - 16.
pub page_free-page_alloc :
    (spare size : ℕ) (p : Page) (m : Space)
    → 0 < size
    → size ≤ p.block_size
    → 0 < p.free
    → p.free ≤ p.size
    → p.heap_id < 16
    → p.page_id < 16
    → 0 < p.stack (p.free - 1)
    → p.stack (p.free - 1) + header_size < u64_mod
    → m.headers (p.stack (p.free - 1)) ≡ block_of p p.block_size false
    → (ptr : ℕ) × (p' : Page) × (m' : Space) × (page_alloc spare size p m
        ≡ allocated (some ptr) p' m')
      × (p'.free ≡ p.free - 1)
      × ((page_free ptr m' p').free ≡ (if p.heap_id == p.page_id then p.free else p.free - 1))
unfolding page_alloc page_free
page_free-page_alloc spare size p m positive fits some_free full small_heap small_page some_block
      reachable header =
    let block = p.stack (p.free - 1) in
    let given = give p block size m in
    let taken : Page = record p { free = p.free - 1 } in
    let headed : given.headers block ≡ block_of p size false =
      update_at-same m.headers block (record (m.headers block) { size = size })
      ∙ ap (λ (h : BlockHeader). record h { size = size }) header in
    let found =
      rel_block-normal_ptr given block some_block reachable
        (ap (λ (h : BlockHeader). h.hash) headed) in
    (
      normal_ptr block,
      taken,
      given,
      if_cases (λ x. x ≡ allocated (some (normal_ptr block)) taken given)
          (size == 0 || not (int32_leb size p.block_size)) _ _ (λ e. ground arith)
          (λ e.
            if_cases (λ x. x ≡ allocated (some (normal_ptr block)) taken given) (p.free == 0) _ _
              (λ e'. ground arith) (λ e'. refl)),
      refl,
      ap (λ o. (free_block o given taken).free) found
          ∙ ap (λ h. (free_at h block taken).free) headed
          ∙ freed-count p size block small_heap small_page some_free full,
    )

-- The header of a block, where its indices fit into four bits.
abbrev short_header : Page → ℕ → BlockHeader
short_header p size = record {
  hash = block_hash;
  stdalloc = false;
  noaction = false;
  heap = p.page_id;
  page = p.heap_id;
  size = size;
}

page_free-pushes :
    (q : Page) (m : Space) (block size heap page : ℕ)
    → 0 < block
    → block + header_size < u64_mod
    → m.headers block ≡ record {
      hash = block_hash;
      stdalloc = false;
      noaction = false;
      heap = heap;
      page = page;
      size = size;
    }
    → q.heap_id ≡ heap
    → q.page_id ≡ page
    → q.free ≢ q.size
    → page_free (normal_ptr block) m q ≡ push block q
unfolding page_free
page_free-pushes q m block size heap page some_block fits header owner own room =
    ap (λ o. free_block o m q)
      (rel_block-normal_ptr m block some_block fits (ap (λ (x : BlockHeader). x.hash) header))
    ∙ ap (λ b. free_at b block q) header
    ∙ if_cases (λ x. x ≡ push block q)
        (not (not (heap == q.heap_id) || not (page == q.page_id) || q.free == q.size)) _ _
        (λ e. refl) (λ e. ground arith)

heap_free-pushes :
    (h : Heap) (q : Page) (m : Space) (block size heap page : ℕ)
    → 0 < block
    → block + header_size < u64_mod
    → m.headers block ≡ record {
      hash = block_hash;
      stdalloc = false;
      noaction = false;
      heap = heap;
      page = page;
      size = size;
    }
    → h.id ≡ heap
    → page < length h.pages
    → get_elem? h.pages page ≡ some q
    → page_free (normal_ptr block) m q ≡ push block q
    → heap_free (normal_ptr block) m h ≡ (record h { pages = set h.pages page (push block q) })
unfolding heap_free
heap_free-pushes h q m block size heap page some_block fits header own inside at pushed =
    ap (λ o. free_from o (normal_ptr block) m h)
      (rel_block-normal_ptr m block some_block fits (ap (λ (x : BlockHeader). x.hash) header))
    ∙ ap (λ b. free_page b (normal_ptr block) m h) header
    ∙ if_cases (λ x. x ≡ record h { pages = set h.pages page (push block q) })
        (not (heap == h.id) || leb (length h.pages) page) _ _ (λ e. ground arith)
        (λ e.
          ap
            (λ o. elim o as (λ _. Heap) [
              | none ↦ h
              | some x ↦ record h { pages = set h.pages page (page_free (normal_ptr block) m x) }
            ])
            at
          ∙ ap (λ x. record h { pages = set h.pages page x }) pushed)

-- Freeing a block of page p of heap h, where the manager has a page h in heap p that is not full,
-- pushes the block on that page's stack and changes nothing else, if p is below 3, h below 16,
-- heaps and pages stand under their indices, the block has the header that CreateBlock writes where
-- the flag noaction is clear, and the block's address is above 0 and below 2 ^ 64 - 16.
pub manager_free-crosses :
    (p q : Page) (h : Heap) (g : MemoryManager) (m : Space) (block size : ℕ)
    → 0 < block
    → block + header_size < u64_mod
    → m.headers block ≡ block_of p size false
    → p.page_id < 3
    → p.heap_id < 16
    → g.heaps p.page_id ≡ some h
    → h.id ≡ p.page_id
    → p.heap_id < length h.pages
    → get_elem? h.pages p.heap_id ≡ some q
    → q.heap_id ≡ p.page_id
    → q.page_id ≡ p.heap_id
    → q.free ≢ q.size
    → manager_free (normal_ptr block) g m
      ≡ with_heap p.page_id (record h { pages = set h.pages p.heap_id (push block q) }) g
unfolding manager_free
manager_free-crosses p q h g m block size some_block fits header few small heap own inside at owner
      page room =
    let same_heap : p.heap_id % 16 ≡ p.heap_id = omega arith in
    let same_page : p.page_id % 16 ≡ p.page_id = omega arith in
    let short : m.headers block ≡ short_header p size =
      header
      ∙ ap (λ (x : ℕ). record (short_header p size) { heap = x; page = p.heap_id % 16 }) same_page
      ∙ ap (λ (x : ℕ). record (short_header p size) { page = x }) same_heap in
    let freed =
      heap_free-pushes h q m block size p.page_id p.heap_id some_block fits short own inside at (
        page_free-pushes q m block size p.page_id p.heap_id some_block fits short owner page
          room) in
    ap (λ o. free_header o (normal_ptr block) g m)
      (rel_block-normal_ptr m block some_block fits (ap (λ (x : BlockHeader). x.hash) short))
    ∙ ap (λ b. free_with b (normal_ptr block) g m) short
    ∙ if_cases
        (λ x. x ≡ with_heap p.page_id (record h { pages = set h.pages p.heap_id (push block q) }) g)
        (leb 3 p.page_id) _ _ (λ e. ground arith)
        (λ e.
          ap
            (λ o. elim o as (λ _. MemoryManager) [
              | none ↦ g
              | some x ↦ with_heap p.page_id (heap_free (normal_ptr block) m x) g
            ])
            heap
          ∙ ap (λ x. with_heap p.page_id x g) freed)
