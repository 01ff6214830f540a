-- ===== src/Memory/Visper/Heaps.antt =====
-- TMemoryManager::Heap of Addictol/Source/Memory/AdVisperMemoryAllocator.cpp. Its lock makes each operation one step.
use addictol.Base.{
  ℕ, ◌+◌, not, List, [], ◌∷◌, ◌++◌, Option, none, some, ◌==◌, leb, ◌||◌, length, get_elem?, set,
  if◌then◌else◌,
}
use addictol.Memory.Visper.{BlockHeader, Space, Page, Heap, rel_block}
use addictol.Memory.Visper.Pages.{
  Allocation, fault, allocated, page_initialize, page_alloc, page_free,
}

abbrev pub max_pages : ℕ
max_pages = 127

-- What an operation on a heap returns, the heap and the space.
pub data HeapResult : Type 0 where
  heap_fault : HeapResult
  heap_done : Option ℕ → Heap → Space → HeapResult

-- The heap of its first page.
abbrev pub heap_with : ℕ → ℕ → ℕ → Option (Page × Space) → Option (Heap × Space)
heap_with id block_size total none = none
heap_with id block_size total (some (p, m)) =
    some (record { size = total; block_size = block_size; id = id; pages = p ∷ [] }, m)

-- `Initialize` of a new heap, where VirtualAlloc gives `mem`, or 0.
unfoldable pub heap_initialize : ℕ → ℕ → ℕ → ℕ → Space → Option (Heap × Space)
unfolding page_initialize
heap_initialize mem id block_size total m =
    if block_size == 0 || total == 0
    then none
    else heap_with id block_size total (page_initialize mem 0 id block_size total m)

-- The first page from `index` on that has a free block.
unfoldable pub first_page : ℕ → List Page → Option ℕ
first_page index [] = none
first_page index (p ∷ ps) =
    let later = first_page (index + 1) ps in if p.free == 0 then later else some index

-- What becomes of the heap when one of its pages, at an index, has allocated.
abbrev pub settle_page : Heap → ℕ → Allocation → HeapResult
settle_page h i fault = heap_fault
settle_page h i (allocated ptr p m) = heap_done ptr (record h { pages = set h.pages i p }) m

-- `Page::Alloc` of the page at an index.
unfoldable pub alloc_in : ℕ → ℕ → ℕ → Heap → Space → HeapResult
unfolding page_alloc
alloc_in spare size i h m = elim (get_elem? h.pages i) [
  | none ↦ heap_fault
  | some p ↦ settle_page h i (page_alloc spare size p m)
]

-- A new page, and the allocation from it.
abbrev pub with_page : ℕ → ℕ → Heap → Option (Page × Space) → Space → HeapResult
with_page spare size h none m = heap_done none h m
with_page spare size h (some (p, m')) m =
    alloc_in spare size (length h.pages) (record h { pages = h.pages ++ p ∷ [] }) m'

abbrev pub alloc_page : ℕ → ℕ → ℕ → Heap → Option ℕ → Space → HeapResult
alloc_page mem spare size h (some i) m = alloc_in spare size i h m
alloc_page mem spare size h none m =
    if leb max_pages (length h.pages)
    then heap_done none h m
    else with_page spare size h (page_initialize mem (length h.pages) h.id h.block_size h.size m) m

-- `Alloc`, where VirtualAlloc gives `mem` and _aligned_malloc `spare`.
unfoldable pub heap_alloc : ℕ → ℕ → ℕ → Heap → Space → HeapResult
unfolding first_page alloc_in page_initialize
heap_alloc mem spare size h m = alloc_page mem spare size h (first_page 0 h.pages) m

-- `Page::Free` of the page at an index, if it is there.
abbrev pub free_in : ℕ → ℕ → Space → Heap → Heap
free_in i ptr m h = elim (get_elem? h.pages i) [
  | none ↦ h
  | some p ↦ record h { pages = set h.pages i (page_free ptr m p) }
]

-- `Free` of an address with a header.
abbrev pub free_page : BlockHeader → ℕ → Space → Heap → Heap
free_page b ptr m h =
    if not (b.heap == h.id) || leb (length h.pages) b.page then h else free_in b.page ptr m h

abbrev pub free_from : Option ℕ → ℕ → Space → Heap → Heap
free_from none ptr m h = h
free_from (some block) ptr m h = free_page (m.headers block) ptr m h

unfoldable pub heap_free : ℕ → Space → Heap → Heap
unfolding page_free
heap_free ptr m h = free_from (rel_block ptr m) ptr m h

-- A call of a heap: Alloc, with what VirtualAlloc and _aligned_malloc give, or Free.
pub data HeapCall : Type 0 where
  alloc_call : ℕ → ℕ → ℕ → HeapCall
  free_call : ℕ → HeapCall

unfoldable pub heap_step : HeapCall → Heap → Space → HeapResult
unfolding heap_alloc heap_free
heap_step (alloc_call mem spare size) h m = heap_alloc mem spare size h m
heap_step (free_call ptr) h m = heap_done none (heap_free ptr m h) m

-- The calls after a result; a fault ends them.
unfoldable pub heap_run : HeapResult → List HeapCall → HeapResult
unfolding heap_step
heap_run heap_fault calls = heap_fault
heap_run (heap_done ptr h m) [] = heap_done ptr h m
heap_run (heap_done ptr h m) (c ∷ calls) = heap_run (heap_step c h m) calls
