-- ===== src/Memory/Visper/HeapRuns.antt =====
-- Sequences of calls of a heap.
use addictol.Base.{
  inl, inr, ℕ, suc, ◌+◌, ◌<◌, ◌≡◌, refl, sym, subst, not, List, [], ◌∷◌, ◌++◌, length, length-set,
  length-append, Option, none, some, Option-cases, ◌==◌, leb, ◌||◌, get_elem?, set, if_cases,
  if_both, arith,
}
use mathlib.Core.Option.{some-injective}
use addictol.Memory.Visper.{Space, Page, Heap, rel_block}
use addictol.Memory.Visper.Pages.{
  Allocation, fault, allocated, page_initialize, page_alloc, page_free,
}
use addictol.Memory.Visper.Heaps.{
  HeapResult, heap_fault, heap_done, first_page, settle_page, alloc_in, with_page, alloc_page,
  heap_alloc, free_from, free_in, heap_free, max_pages, HeapCall, alloc_call, free_call, heap_step,
  heap_run, heap_initialize, heap_with,
}
use addictol.Memory.Visper.Keeping.{
  IsPage, IsHeap, Kept, ArePages-get, ArePages-set, ArePages-append, page_alloc-Kept,
  page_free-IsPage,
}

-- The heap after a call, which is no fault.
abbrev pub KeptHeap : HeapResult → Type 0
KeptHeap heap_fault = ⊥
KeptHeap (heap_done ptr h m) = IsHeap h

settle-Kept :
    (h : Heap) (i : ℕ) (r : Allocation) → IsHeap h → Kept h.id i r → KeptHeap (settle_page h i r)
settle-Kept h i fault heap kept = kept
settle-Kept h i (allocated ptr p m) heap kept = record {
  pages =
      ArePages-set h.id 0 h.pages i p heap.pages (subst (λ x. IsPage h.id x p) (omega arith) kept);
  few = omega (arith, heap.few, length-set h.pages i p);
}

alloc_in-KeptHeap :
    (spare size i : ℕ) (h : Heap) (m : Space) (p : Page)
    → get_elem? h.pages i ≡ some p
    → 0 < p.free
    → IsHeap h
    → KeptHeap (alloc_in spare size i h m)
unfolding alloc_in
alloc_in-KeptHeap spare size i h m p at some_free heap =
    let page : IsPage h.id i p =
      subst (λ x. IsPage h.id x p) (omega arith) (ArePages-get h.id 0 h.pages i p heap.pages at) in
    subst
      (λ o. KeptHeap (elim o as (λ _. HeapResult) [
        | none ↦ heap_fault
        | some q ↦ settle_page h i (page_alloc spare size q m)
      ]))
      (sym at)
      (settle-Kept h i (page_alloc spare size p m) heap
        (page_alloc-Kept h.id i spare size p m some_free page))

first_page-free :
    (index : ℕ) (ps : List Page) (i : ℕ)
    → first_page index ps ≡ some i
    → (k : ℕ) × (p : Page) × (i ≡ index + k) × (get_elem? ps k ≡ some p) × (0 < p.free)
unfolding first_page
first_page-free index [] i e = cc
first_page-free index (p ∷ ps) i e =
    if_cases
      (λ o.
        o ≡ some i
        → (k : ℕ) × (q : Page) × (i ≡ index + k) × (get_elem? (p ∷ ps) k ≡ some q) × (0 < q.free))
      (p.free == 0) _ _
      (λ z later.
        let (k, q, place, at, some_free) = first_page-free (index + 1) ps i later in
        (suc k, q, omega (arith, place), at, some_free))
      (λ z here. (0, p, omega (arith, some-injective index i here), refl, ground (arith, z))) e

page_initialize-IsPage :
    (mem id heap_id block_size total : ℕ) (m : Space) (p : Page) (m' : Space)
    → page_initialize mem id heap_id block_size total m ≡ some (p, m')
    → IsPage heap_id id p × (0 < p.free)
unfolding page_initialize
page_initialize-IsPage mem id heap_id block_size total m p m' h =
    let P : Option (Page × Space) → Type 0 =
      λ o. o ≡ some (p, m') → IsPage heap_id id p × (0 < p.free) in
    if_cases P (block_size == 0 || total == 0) _ _ (λ z e. cc)
      (λ z.
        if_both P (mem == 0) _ _ (λ e. cc)
          (λ e.
            let same = some-injective _ (p, m') e in
            subst (λ (x : Page × Space). IsPage heap_id id x.0 × (0 < x.0.free)) same
              (
                record {
                  heap_id = refl;
                  page_id = refl;
                  some_blocks = ground (arith, z);
                  bounded = omega arith;
                },
                ground (arith, z),
              )))
      h

get_elem?-append : (ps : List Page) (p : Page) → get_elem? (ps ++ p ∷ []) (length ps) ≡ some p
get_elem?-append [] p = refl
get_elem?-append (q ∷ ps) p = get_elem?-append ps p

with_page-KeptHeap :
    (spare size : ℕ) (h : Heap) (o : Option (Page × Space)) (m : Space)
    → length h.pages < max_pages
    → ((p : Page) (m' : Space) → o ≡ some (p, m') → IsPage h.id (length h.pages) p × (0 < p.free))
    → IsHeap h
    → KeptHeap (with_page spare size h o m)
with_page-KeptHeap spare size h none m few page heap = heap
with_page-KeptHeap spare size h (some (p, m')) m few page heap =
    let (made, some_free) = page p m' refl in
    alloc_in-KeptHeap spare size (length h.pages) (record h { pages = h.pages ++ p ∷ [] }) m' p
      (get_elem?-append h.pages p) some_free
      (record {
        pages =
            ArePages-append h.id 0 h.pages p heap.pages
              (subst (λ x. IsPage h.id x p) (omega arith) made);
        few = omega (arith, few, length-append h.pages (p ∷ []));
      })

alloc_page-KeptHeap :
    (mem spare size : ℕ) (h : Heap) (o : Option ℕ) (m : Space)
    → first_page 0 h.pages ≡ o
    → IsHeap h
    → KeptHeap (alloc_page mem spare size h o m)
alloc_page-KeptHeap mem spare size h (some i) m e heap =
    let (k, p, place, at, some_free) = first_page-free 0 h.pages i e in
    alloc_in-KeptHeap spare size i h m p
      (subst (λ x. get_elem? h.pages x ≡ some p) (omega (arith, place)) at) some_free heap
alloc_page-KeptHeap mem spare size h none m e heap =
    if_cases KeptHeap (leb max_pages (length h.pages)) _ _ (λ z. heap)
      (λ z.
        with_page-KeptHeap spare size h
          (page_initialize mem (length h.pages) h.id h.block_size h.size m) m (ground (arith, z))
          (λ p m' made.
            page_initialize-IsPage mem (length h.pages) h.id h.block_size h.size m p m' made)
          heap)

free_in-IsHeap : (i ptr : ℕ) (m : Space) (h : Heap) → IsHeap h → IsHeap (free_in i ptr m h)
free_in-IsHeap i ptr m h heap = elim (Option-cases (get_elem? h.pages i)) [
  | inl e ↦
      subst
        (λ o. IsHeap (elim o as (λ _. Heap) [
          | none ↦ h
          | some p ↦ record h { pages = set h.pages i (page_free ptr m p) }
        ]))
        (sym e) heap
  | inr (p, e) ↦
      subst
        (λ o. IsHeap (elim o as (λ _. Heap) [
          | none ↦ h
          | some p ↦ record h { pages = set h.pages i (page_free ptr m p) }
        ]))
        (sym e)
        (record {
          pages = ArePages-set h.id 0 h.pages i (page_free ptr m p) heap.pages (
              page_free-IsPage h.id (0 + i) ptr p m (ArePages-get h.id 0 h.pages i p heap.pages e));
          few = omega (arith, heap.few, length-set h.pages i (page_free ptr m p));
        })
]

heap_free-IsHeap : (ptr : ℕ) (m : Space) (h : Heap) → IsHeap h → IsHeap (heap_free ptr m h)
unfolding heap_free
heap_free-IsHeap ptr m h heap = go (rel_block ptr m)
  where
    go : (o : Option ℕ) → IsHeap (free_from o ptr m h)
    go none = heap
    go (some block) =
        if_both IsHeap
          (not ((m.headers block).heap == h.id) || leb (length h.pages) (m.headers block).page) _ _
          heap (free_in-IsHeap (m.headers block).page ptr m h heap)

heap_step-KeptHeap : (c : HeapCall) (h : Heap) (m : Space) → IsHeap h → KeptHeap (heap_step c h m)
unfolding heap_step heap_alloc
heap_step-KeptHeap (alloc_call mem spare size) h m heap =
    alloc_page-KeptHeap mem spare size h (first_page 0 h.pages) m refl heap
heap_step-KeptHeap (free_call ptr) h m heap = heap_free-IsHeap ptr m h heap

heap_run-KeptHeap :
    (r : HeapResult) (calls : List HeapCall) → KeptHeap r → KeptHeap (heap_run r calls)
unfolding heap_run
heap_run-KeptHeap heap_fault calls kept = kept
heap_run-KeptHeap (heap_done ptr h m) [] kept = kept
heap_run-KeptHeap (heap_done ptr h m) (c ∷ calls) kept =
    heap_run-KeptHeap (heap_step c h m) calls (heap_step-KeptHeap c h m kept)

heap_with-IsHeap :
    (id block_size total : ℕ) (o : Option (Page × Space)) (h : Heap) (m' : Space)
    → ((p : Page) (m : Space) → o ≡ some (p, m) → IsPage id 0 p × (0 < p.free))
    → heap_with id block_size total o ≡ some (h, m')
    → IsHeap h
heap_with-IsHeap id block_size total none h m' page e = cc
heap_with-IsHeap id block_size total (some (p, m)) h m' page e =
    subst (λ (x : Heap × Space). IsHeap x.0) (some-injective _ (h, m') e)
      (record { pages = ((page p m refl).0, tt); few = omega arith })

heap_initialize-IsHeap :
    (mem id block_size total : ℕ) (m : Space) (h : Heap) (m' : Space)
    → heap_initialize mem id block_size total m ≡ some (h, m')
    → IsHeap h
unfolding heap_initialize
heap_initialize-IsHeap mem id block_size total m h m' =
    if_both (λ o. o ≡ some (h, m') → IsHeap h) (block_size == 0 || total == 0) _ _ (λ e. cc)
      (heap_with-IsHeap id block_size total (page_initialize mem 0 id block_size total m) h m'
        (page_initialize-IsPage mem 0 id block_size total m))

-- After Initialize has succeeded, no sequence of Alloc and Free, whatever the system's allocators
-- give, makes a heap touch memory at null: it keeps at most 127 pages, each under its index and
-- with no more free blocks than blocks.
pub heap_initialize-run :
    (mem id block_size total : ℕ) (m : Space) (h : Heap) (m' : Space) (calls : List HeapCall)
    → heap_initialize mem id block_size total m ≡ some (h, m')
    → KeptHeap (heap_run (heap_done none h m') calls)
heap_initialize-run mem id block_size total m h m' calls e =
    heap_run-KeptHeap (heap_done none h m') calls
      (heap_initialize-IsHeap mem id block_size total m h m' e)
