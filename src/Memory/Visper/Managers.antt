-- ===== src/Memory/Visper/Managers.antt =====
-- TMemoryManager of Addictol/Source/Memory/AdVisperMemoryAllocator.cpp, with AD_VISPER_REMOVE_BIG_STUFF.
use addictol.Base.{
  ℕ, ◌+◌, ◌*◌, ◌^◌, Bool, true, false, List, [], ◌∷◌, Option, none, some, ◌==◌, leb, update_at,
  get_or, drop, if◌then◌else◌,
}
use addictol.Memory.Visper.{BlockHeader, Space, Heap, MemoryManager, rel_block, int32_leb, to_int32}
use addictol.Memory.Visper.Heaps.{
  HeapResult, heap_fault, heap_done, heap_initialize, heap_alloc, heap_free,
}

abbrev pub visper_block_sizes : List ℕ
visper_block_sizes = 32 ∷ 64 ∷ 128 ∷ 256 ∷ 512 ∷ 1024 ∷ 2048 ∷ 4096 ∷ []

-- The loop over the sizes from index `id` on.
unfoldable pub heap_id_loop : ℕ → ℕ → List ℕ → Option ℕ
heap_id_loop size id [] = none
heap_id_loop size id (b ∷ bs) =
    let later = heap_id_loop size (id + 1) bs in if int32_leb size b then some id else later

-- `GetHeapIdByBlockSize` of an int32_t; none stands for -1.
unfoldable pub heap_id_by_block_size : ℕ → Option ℕ
unfolding heap_id_loop
heap_id_by_block_size size = heap_id_loop size 0 visper_block_sizes

unfoldable pub has_heap_by_block_size : ℕ → MemoryManager → Bool
unfolding heap_id_by_block_size
has_heap_by_block_size size g = elim (heap_id_by_block_size size) [
  | none ↦ false
  | some id ↦ elim (g.heaps id) [ none ↦ false | some h ↦ true ]
]

abbrev pub with_heap : ℕ → Heap → MemoryManager → MemoryManager
with_heap id h g = record g { heaps = update_at g.heaps id (some h) }

abbrev pub add_heap :
    ℕ → MemoryManager → Space → Option (Heap × Space) → Option ℕ × MemoryManager × Space
add_heap id g m none = (none, g, m)
add_heap id g m (some (h, m')) = (some id, with_heap id h g, m')

abbrev pub create_heap_at :
    ℕ → ℕ → ℕ → Option ℕ → MemoryManager → Space → Option ℕ × MemoryManager × Space
create_heap_at mem block_size total none g m = (none, g, m)
create_heap_at mem block_size total (some id) g m = elim (g.heaps id) [
  | none ↦ add_heap id g m (heap_initialize mem id block_size total m)
  | some h ↦ (none, g, m)
]

-- `CreateNewHeap`, where VirtualAlloc gives `mem`.
unfoldable pub create_new_heap :
    ℕ → ℕ → ℕ → MemoryManager → Space → Option ℕ × MemoryManager × Space
unfolding heap_id_by_block_size heap_initialize
create_new_heap mem block_size total g m =
    create_heap_at mem block_size total (heap_id_by_block_size block_size) g m

-- `InitializeDefaultSettings` with the sizes of its loop; VirtualAlloc gives the addresses in turn.
unfoldable pub create_heaps : List ℕ → List ℕ → MemoryManager → Space → Bool × MemoryManager × Space
unfolding create_new_heap
create_heaps mems [] g m = (true, g, m)
create_heaps mems (b ∷ bs) g m =
    let (made, g', m') = create_new_heap (get_or mems 0 0) b (256 * 2 ^ 10) g m in
    let rest = create_heaps (drop 1 mems) bs g' m' in
    elim made [ none ↦ (false, g', m') | some id ↦ rest ]

unfoldable pub initialize_default_settings :
    List ℕ → MemoryManager → Space → Bool × MemoryManager × Space
unfolding create_heaps
initialize_default_settings mems g m = create_heaps mems (32 ∷ 64 ∷ 128 ∷ []) g m

-- What an operation of the manager returns, the manager and the space.
pub data MemoryOutcome : Type 0 where
  manager_fault : MemoryOutcome
  manager_done : Option ℕ → MemoryManager → Space → MemoryOutcome

abbrev pub settle_heap : ℕ → MemoryManager → HeapResult → MemoryOutcome
settle_heap id g heap_fault = manager_fault
settle_heap id g (heap_done ptr h m) = manager_done ptr (with_heap id h g) m

abbrev pub alloc_from : ℕ → ℕ → ℕ → Option ℕ → MemoryManager → Space → MemoryOutcome
alloc_from mem spare size none g m = manager_done none g m
alloc_from mem spare size (some id) g m = elim (g.heaps id) [
  | none ↦ manager_done none g m
  | some h ↦ settle_heap id g (heap_alloc mem spare (to_int32 size) h m)
]

-- `Alloc`, where the block for no bytes is at `null_block`.
unfoldable pub manager_alloc : ℕ → ℕ → ℕ → ℕ → MemoryManager → Space → MemoryOutcome
unfolding heap_id_by_block_size heap_alloc
manager_alloc null_block mem spare size g m =
    if size == 0
    then manager_done (some null_block) g m
    else alloc_from mem spare size (heap_id_by_block_size (to_int32 size)) g m

abbrev pub free_heap : ℕ → ℕ → MemoryManager → Space → MemoryManager
free_heap id ptr g m = elim (g.heaps id) [ none ↦ g | some h ↦ with_heap id (heap_free ptr m h) g ]

abbrev pub free_with : BlockHeader → ℕ → MemoryManager → Space → MemoryManager
free_with b ptr g m = if b.noaction then g else if leb 3 b.heap then g else free_heap b.heap ptr g m

abbrev pub free_header : Option ℕ → ℕ → MemoryManager → Space → MemoryManager
free_header none ptr g m = g
free_header (some block) ptr g m = free_with (m.headers block) ptr g m

-- `Free`
unfoldable pub manager_free : ℕ → MemoryManager → Space → MemoryManager
unfolding heap_free
manager_free ptr g m = free_header (rel_block ptr m) ptr g m

-- `GetSize`
unfoldable pub manager_get_size : ℕ → Space → ℕ
manager_get_size ptr m = elim (rel_block ptr m) [ none ↦ 0 | some block ↦ (m.headers block).size ]
