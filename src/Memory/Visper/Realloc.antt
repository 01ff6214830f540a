-- ===== src/Memory/Visper/Realloc.antt =====
-- The three Realloc of Addictol/Source/Memory/AdVisperMemoryAllocator.cpp. The branch of the manager's for
-- HEAP_STDALLOC is left out: its index, 0x7F, does not fit into the four bits of a header's.
use addictol.Base.{
  ℕ, ◌+◌, ◌-◌, ◌%◌, ◌^◌, Bool, false, not, Option, none, some, ◌==◌, leb, ltb, ◌&&◌, u32_mod,
  u64_mod, update_at, get_elem?, set, if◌then◌else◌,
}
use addictol.Memory.Visper.{
  BlockHeader, Space, Page, Heap, MemoryManager, rel_block, zero_fill, copy_bytes,
}
use addictol.Memory.Visper.Pages.{takes_back, push}
use addictol.Memory.Visper.Heaps.{HeapResult, heap_fault, heap_done, heap_free}
use addictol.Memory.Visper.Managers.{
  MemoryOutcome, manager_fault, manager_done, manager_alloc, heap_id_by_block_size, with_heap,
}
use addictol.Memory.Visper.{to_int32}

-- The bytes between the old and the new size are cleared, and the new size is noted.
unfoldable pub resize : ℕ → ℕ → ℕ → Space → Space
resize block ptr size m =
    let old = (m.headers block).size in
    record {
      headers = update_at m.headers block (record (m.headers block) { size = size });
      bytes =
          if ltb size old
          then zero_fill (ptr + size) (old - size) m.bytes
          else zero_fill (ptr + old) (size - old) m.bytes;
    }

-- An int32_t below another, as words.
abbrev pub int32_ltb : ℕ → ℕ → Bool
int32_ltb a b = ltb ((a + 2 ^ 31) % u32_mod) ((b + 2 ^ 31) % u32_mod)

-- `Page::Realloc` of the block at an address; what it returns, the page and the space.
unfoldable pub page_realloc_block : ℕ → ℕ → ℕ → Page → Space → Option ℕ × Page × Space
unfolding resize
page_realloc_block block ptr size p m =
    let h = m.headers block in
    if size == 0
    then (none, if h.stdalloc then p else if takes_back p h then push block p else p, m)
    else if size == h.size
    then (some ptr, p, m)
    else if int32_ltb size p.block_size
    then (some ptr, p, resize block ptr size m)
    else (none, p, m)

unfoldable pub page_realloc : ℕ → ℕ → Page → Space → Option ℕ × Page × Space
unfolding page_realloc_block
page_realloc ptr size p m = elim (rel_block ptr m) [
  | none ↦ (none, p, m)
  | some block ↦ page_realloc_block block ptr size p m
]

-- `Page::Realloc` of the page at an index, which `Heap::Realloc` does not test.
abbrev pub realloc_in : ℕ → ℕ → ℕ → Heap → Space → HeapResult
realloc_in i ptr size h m = elim (get_elem? h.pages i) [
  | none ↦ heap_fault
  | some p ↦
      let (answer, p', m') = page_realloc ptr size p m in
      heap_done answer (record h { pages = set h.pages i p' }) m'
]

unfoldable pub heap_realloc : ℕ → ℕ → Heap → Space → HeapResult
unfolding page_realloc
heap_realloc ptr size h m = elim (rel_block ptr m) [
  | none ↦ heap_done none h m
  | some block ↦
      if not ((m.headers block).heap == h.id)
      then heap_done none h m
      else realloc_in (m.headers block).page ptr size h m
]

-- The bytes are copied, and the old block is freed by its heap as it is now.
abbrev pub free_old : ℕ → ℕ → MemoryManager → Space → MemoryManager
free_old id ptr g m = elim (g.heaps id) [ none ↦ g | some h ↦ with_heap id (heap_free ptr m h) g ]

abbrev pub move_block : ℕ → ℕ → ℕ → MemoryOutcome → MemoryOutcome
move_block id ptr size manager_fault = manager_fault
move_block id ptr size (manager_done none g m) = manager_done none g m
move_block id ptr size (manager_done (some to) g m) =
    let copied : Space = record m { bytes = copy_bytes to ptr size m.bytes } in
    manager_done (some to) (free_old id ptr g copied) copied

abbrev pub is_heap : Option ℕ → ℕ → Bool
is_heap none id = false
is_heap (some i) id = i == id

-- An int32_t as a size_t.
abbrev pub sign_extend : ℕ → ℕ
sign_extend w = if ltb w (2 ^ 31) then w else w + (u64_mod - u32_mod)

-- `Realloc` of the block at an address, which lies in a heap.
unfoldable pub realloc_block : ℕ → ℕ → ℕ → ℕ → ℕ → ℕ → Heap → MemoryManager → Space → MemoryOutcome
unfolding resize manager_alloc heap_free
realloc_block null_block mem spare block ptr size h g m =
    let b = m.headers block in
    let moved = move_block b.heap ptr size (manager_alloc null_block mem spare size g m) in
    if size == 0
    then manager_done none (with_heap b.heap (heap_free ptr m h) g) m
    else if size == sign_extend b.size
    then manager_done (some ptr) g m
    else if ltb size (sign_extend h.block_size)
        && is_heap (heap_id_by_block_size (to_int32 size)) b.heap
    then manager_done (some ptr) g (resize block ptr size m)
    else moved

-- The heap of a header; none is read past the array or through a null pointer.
abbrev pub heap_of : BlockHeader → MemoryManager → Option Heap
heap_of b g = if leb 8 b.heap then none else g.heaps b.heap

abbrev pub realloc_found : ℕ → ℕ → ℕ → ℕ → ℕ → ℕ → MemoryManager → Space → MemoryOutcome
realloc_found null_block mem spare block ptr size g m = elim (heap_of (m.headers block) g) [
  | none ↦
      if ltb (m.headers block).heap 8
        && not (size == 0)
        && size == sign_extend (m.headers block).size
      then manager_done (some ptr) g m
      else manager_fault
  | some h ↦ realloc_block null_block mem spare block ptr size h g m
]

-- `TMemoryManager::Realloc`
unfoldable pub manager_realloc : ℕ → ℕ → ℕ → ℕ → ℕ → MemoryManager → Space → MemoryOutcome
unfolding realloc_block manager_alloc
manager_realloc null_block mem spare ptr size g m =
    if ptr == 0 then manager_alloc null_block mem spare size g m else elim (rel_block ptr m) [
      | none ↦ manager_done none g m
      | some block ↦ realloc_found null_block mem spare block ptr size g m
    ]
