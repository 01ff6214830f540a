-- ===== src/Memory/Visper/Tests.antt =====
-- Runs of pages, heaps and the manager.
use addictol.Base.{
  ℕ, ◌+◌, ◌-◌, ◌*◌, ◌^◌, ◌≤◌, ◌<◌, ◌≡◌, refl, false, List, [], ◌∷◌, none, some, ◌==◌, get_or, set,
  arith, if◌then◌else◌,
}
use addictol.Memory.Visper.{Space, Page, Heap, MemoryManager, normal_ptr}
use addictol.Memory.Visper.Pages.{
  allocated, block_of, push, real_block_size, create_block, create_blocks, page_initialize,
  page_alloc, page_free,
}
use addictol.Memory.Visper.Heaps.{
  heap_done, heap_initialize, HeapCall, alloc_call, free_call, heap_run,
}
use addictol.Memory.Visper.Managers.{
  visper_block_sizes, heap_id_by_block_size, manager_free, with_heap,
}
use addictol.Memory.Visper.Layout.{IsLaidOut, page_initialize-IsLaidOut, heap_id_by_block_size_lem}
use addictol.Memory.Visper.Owners.{page_free-page_alloc, manager_free-crosses}
use addictol.Memory.Visper.HeapRuns.{KeptHeap, heap_initialize-run}

abbrev blank : Space
blank = record {
  headers =
      λ a. record { hash = 0; stdalloc = false; noaction = false; heap = 0; page = 0; size = 0 };
  bytes = λ a. 0;
}

-- A page of two blocks of 64 bytes.
abbrev page_at : ℕ → ℕ → ℕ → Page
page_at mem heap_id page_id = record {
  mem = mem;
  size = 2;
  block_size = 64;
  free = 2;
  heap_id = heap_id;
  page_id = page_id;
  stack = λ i. mem + i * 80;
}

abbrev laid_space : Space
laid_space = create_blocks (page_at 4096 1 0) 80 0 2 blank

laid : page_initialize 4096 0 1 64 2 blank ≡ some (page_at 4096 1 0, laid_space)
unfolding page_initialize real_block_size
laid = refl

page_initialize-IsLaidOut_example : IsLaidOut blank 64 2 (page_at 4096 1 0) laid_space
page_initialize-IsLaidOut_example =
    page_initialize-IsLaidOut 4096 0 1 64 2 blank (page_at 4096 1 0) laid_space (omega arith) laid

abbrev heap_64 : Heap
heap_64 = record { size = 2; block_size = 64; id = 1; pages = page_at 4096 1 0 ∷ [] }

laid_heap : heap_initialize 4096 1 64 2 blank ≡ some (heap_64, laid_space)
unfolding heap_initialize page_initialize real_block_size
laid_heap = refl

-- The third allocation takes a new page.
abbrev calls : List HeapCall
calls = alloc_call 0 0 40 ∷ free_call 4192 ∷ alloc_call 0 0 64 ∷ alloc_call 8192 0 1 ∷ []

heap_initialize-run_example : KeptHeap (heap_run (heap_done none heap_64 laid_space) calls)
heap_initialize-run_example =
    heap_initialize-run 4096 1 64 2 blank heap_64 laid_space calls laid_heap

heap_id_by_block_size_example :
    (0 < 100
      → 100 ≤ 4096
      → (id : ℕ) × (heap_id_by_block_size 100 ≡ some id)
        × (100 ≤ get_or visper_block_sizes id 0)
        × (0 < id → get_or visper_block_sizes (id - 1) 0 < 100))
    × (4096 < 100 → 100 < 2 ^ 31 → heap_id_by_block_size 100 ≡ none)
    × (2 ^ 31 ≤ 100 → heap_id_by_block_size 100 ≡ some 0)
heap_id_by_block_size_example = heap_id_by_block_size_lem 100

-- The first page of the second heap does not take its block back.
top_header : laid_space.headers ((page_at 4096 1 0).stack 1) ≡ block_of (page_at 4096 1 0) 64 false
unfolding create_blocks create_block
top_header = refl

page_free-page_alloc_example :
    (ptr : ℕ) × (p' : Page) × (m' : Space) × (page_alloc 0 40 (page_at 4096 1 0) laid_space
      ≡ allocated (some ptr) p' m')
    × (p'.free ≡ 2 - 1)
    × ((page_free ptr m' p').free ≡ (if 1 == 0 then 2 else 2 - 1))
page_free-page_alloc_example =
    page_free-page_alloc 0 40 (page_at 4096 1 0) laid_space (omega arith) (omega arith)
      (omega arith) (omega arith) (omega arith) (omega arith) (omega arith) (omega arith) top_header

-- A block of the second page of the first heap.
abbrev crossed : Space
crossed = record blank {
  headers = λ a. record {
    hash = 0xD2E1;
    stdalloc = false;
    noaction = false;
    heap = 1;
    page = 0;
    size = 20;
  };
}

abbrev one_out : Page
one_out = record (page_at 4096 1 0) { free = 1 }

abbrev second_heap : Heap
second_heap = record heap_64 { pages = one_out ∷ [] }

abbrev manager : MemoryManager
manager = record { heaps = λ i. if i == 1 then some second_heap else none }

manager_free-crosses_example :
    manager_free (normal_ptr 512) manager crossed
    ≡ with_heap 1
        (record second_heap { pages = set second_heap.pages 0 (push 512 one_out) })
        manager
manager_free-crosses_example =
    manager_free-crosses (page_at 256 0 1) one_out second_heap manager crossed 512 20 (omega arith)
      (omega arith) refl (omega arith) (omega arith) refl refl (omega arith) refl refl refl
      (omega arith)
