-- ===== src/Memory/Visper/Pages.antt =====
-- TMemoryManager::Heap::Page of Addictol/Source/Memory/AdVisperMemoryAllocator.cpp.
use addictol.Base.{
  ℕ, zero, suc, ◌+◌, ◌-◌, ◌*◌, ◌/◌, ◌%◌, Bool, true, false, not, Option, none, some, ◌==◌, ◌||◌,
  update_at, if◌then◌else◌,
}
use addictol.Memory.Visper.{
  BlockHeader, Space, Page, block_hash, header_size, int32_leb, to_int32, zero_fill, rel_block,
  normal_ptr,
}

-- `GetId` gives the heap's index and `GetHeapId` the page's.
abbrev pub get_id : Page → ℕ
get_id p = p.heap_id

abbrev pub get_heap_id : Page → ℕ
get_heap_id p = p.page_id

-- The header that `CreateBlock` writes where the flag `noaction` is clear.
abbrev pub block_of : Page → ℕ → Bool → BlockHeader
block_of p size stdalloc = record {
  hash = block_hash;
  stdalloc = stdalloc;
  noaction = false;
  heap = get_heap_id p % 16;
  page = get_id p % 16;
  size = size;
}

-- `CreateBlock` over the header that is there. It does not write the flag `noaction`.
abbrev pub created : Page → ℕ → Bool → BlockHeader → BlockHeader
created p size stdalloc h = record h {
  hash = block_hash;
  stdalloc = stdalloc;
  heap = get_heap_id p % 16;
  page = get_id p % 16;
  size = size;
}

-- `CreateBlock` at an address that is not null.
unfoldable pub create_block : Page → ℕ → ℕ → Bool → Space → Space
create_block p block size stdalloc m = record m {
  headers = update_at m.headers block (created p size stdalloc (m.headers block));
}

-- The size of a block with its header, up to a multiple of 16.
unfoldable pub real_block_size : ℕ → ℕ
real_block_size block_size = (block_size + header_size + 15) / 16 * 16

-- The loop that creates the blocks from `i` on, of `n`.
unfoldable pub create_blocks : Page → ℕ → ℕ → ℕ → Space → Space
unfolding create_block
create_blocks p real i zero m = m
create_blocks p real i (suc n) m =
    create_blocks p real (i + 1) n (create_block p (p.mem + i * real) p.block_size false m)

-- `Initialize` of a page without memory, where VirtualAlloc gives `mem`, or 0, and the block size is
-- not negative.
unfoldable pub page_initialize : ℕ → ℕ → ℕ → ℕ → ℕ → Space → Option (Page × Space)
unfolding real_block_size create_blocks
page_initialize mem id heap_id block_size total m =
    let real = real_block_size block_size in
    let p : Page = record {
      mem = mem;
      size = total;
      block_size = to_int32 (real - header_size);
      free = total;
      heap_id = heap_id;
      page_id = id;
      stack = λ i. mem + i * real;
    } in
    if block_size == 0 || total == 0
    then none
    else if mem == 0
    then none
    else some (p, create_blocks p real 0 total m)

-- The block that is given out: its header's size, and its bytes cleared.
abbrev pub give : Page → ℕ → ℕ → Space → Space
give p block size m = record {
  headers = update_at m.headers block (record (m.headers block) { size = size });
  bytes = zero_fill (normal_ptr block) p.block_size m.bytes;
}

-- What `Page::Alloc` returns, the page and the space; `fault` where it clears memory at null.
pub data Allocation : Type 0 where
  fault : Allocation
  allocated : Option ℕ → Page → Space → Allocation

-- `Alloc`, where _aligned_malloc gives `spare`, or 0.
unfoldable pub page_alloc : ℕ → ℕ → Page → Space → Allocation
unfolding create_block
page_alloc spare size p m =
    let block = p.stack (p.free - 1) in
    let made = create_block p spare size true m in
    if size == 0 || not (int32_leb size p.block_size)
    then allocated none p m
    else if p.free == 0
    then (if spare == 0
        then fault
        else allocated (some (normal_ptr spare)) p
            (record made { bytes = zero_fill (normal_ptr spare) p.block_size made.bytes }))
    else allocated (some (normal_ptr block)) (record p { free = p.free - 1 }) (give p block size m)

-- Whether a block goes back on the stack of a page.
abbrev pub takes_back : Page → BlockHeader → Bool
takes_back p h = not (not (h.heap == p.heap_id) || not (h.page == p.page_id) || p.free == p.size)

abbrev pub push : ℕ → Page → Page
push block p = record p { stack = update_at p.stack p.free block; free = p.free + 1 }

-- `Free` of a block with a header. One of the standard allocator goes back to it, with no effect on
-- the page.
abbrev pub free_at : BlockHeader → ℕ → Page → Page
free_at h block p = if h.stdalloc then p else if takes_back p h then push block p else p

abbrev pub free_block : Option ℕ → Space → Page → Page
free_block none m p = p
free_block (some block) m p = free_at (m.headers block) block p

unfoldable pub page_free : ℕ → Space → Page → Page
page_free ptr m p = free_block (rel_block ptr m) m p

-- `GetSize`
unfoldable pub block_get_size : ℕ → Space → ℕ
block_get_size ptr m = elim (rel_block ptr m) [ none ↦ 0 | some block ↦ (m.headers block).size ]
