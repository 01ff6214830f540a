-- ===== src/Memory/Visper/Keeping.antt =====
-- What the operations of a page keep.
use addictol.Base.{
  ℕ, zero, suc, ◌+◌, ◌≤◌, ◌<◌, ◌≡◌, subst, not, List, [], ◌∷◌, ◌++◌, length, Option, none, some,
  ◌==◌, ◌||◌, get_elem?, set, if_cases, if_both, arith,
}
use mathlib.Core.Option.{some-injective}
use addictol.Memory.Visper.{Space, Page, Heap, rel_block, int32_leb}
use addictol.Memory.Visper.Pages.{
  Allocation, fault, allocated, page_alloc, page_free, free_block, takes_back,
}
use addictol.Memory.Visper.Heaps.{max_pages}

-- A page of heap `id` under its index, with no more free blocks than blocks.
pub record IsPage (id index : ℕ) (p : Page) : Type 0 where
  pub heap_id : p.heap_id ≡ id
  pub page_id : p.page_id ≡ index
  pub some_blocks : 0 < p.size
  pub bounded : p.free ≤ p.size

-- The pages from `index` on.
abbrev pub ArePages : ℕ → ℕ → List Page → Type 0
ArePages id index [] = Unit
ArePages id index (p ∷ ps) = IsPage id index p × ArePages id (index + 1) ps

pub record IsHeap (h : Heap) : Type 0 where
  pub pages : ArePages h.id 0 h.pages
  pub few : length h.pages ≤ max_pages

pub ArePages-get :
    (id index : ℕ) (ps : List Page) (i : ℕ) (p : Page)
    → ArePages id index ps
    → get_elem? ps i ≡ some p
    → IsPage id (index + i) p
ArePages-get id index [] i p h e = cc
ArePages-get id index (q ∷ ps) zero p h e =
    subst (λ x. IsPage id x p) (omega arith) (subst (IsPage id index) (some-injective q p e) h.0)
ArePages-get id index (q ∷ ps) (suc i) p h e =
    subst (λ x. IsPage id x p) (omega arith) (ArePages-get id (index + 1) ps i p h.1 e)

pub ArePages-set :
    (id index : ℕ) (ps : List Page) (i : ℕ) (p : Page)
    → ArePages id index ps
    → IsPage id (index + i) p
    → ArePages id index (set ps i p)
ArePages-set id index [] i p h k = h
ArePages-set id index (q ∷ ps) zero p h k = (subst (λ x. IsPage id x p) (omega arith) k, h.1)
ArePages-set id index (q ∷ ps) (suc i) p h k =
    (h.0, ArePages-set id (index + 1) ps i p h.1 (subst (λ x. IsPage id x p) (omega arith) k))

pub ArePages-append :
    (id index : ℕ) (ps : List Page) (p : Page)
    → ArePages id index ps
    → IsPage id (index + length ps) p
    → ArePages id index (ps ++ p ∷ [])
ArePages-append id index [] p h k = (subst (λ x. IsPage id x p) (omega arith) k, tt)
ArePages-append id index (q ∷ ps) p h k =
    (h.0, ArePages-append id (index + 1) ps p h.1 (subst (λ x. IsPage id x p) (omega arith) k))

-- What an allocation leaves of a page.
abbrev pub Kept : ℕ → ℕ → Allocation → Type 0
Kept id index fault = ⊥
Kept id index (allocated ptr p m) = IsPage id index p

pub page_alloc-Kept :
    (id index spare size : ℕ) (p : Page) (m : Space)
    → 0 < p.free
    → IsPage id index p
    → Kept id index (page_alloc spare size p m)
unfolding page_alloc
page_alloc-Kept id index spare size p m some_free h =
    if_both (Kept id index) (size == 0 || not (int32_leb size p.block_size)) _ _ h (
      if_cases (Kept id index) (p.free == 0) _ _ (λ e. ground (arith, e, some_free))
        (λ e. record {
          heap_id = h.heap_id;
          page_id = h.page_id;
          some_blocks = h.some_blocks;
          bounded = omega (arith, h.bounded);
        }))

pub page_free-IsPage :
    (id index ptr : ℕ) (p : Page) (m : Space)
    → IsPage id index p
    → IsPage id index (page_free ptr m p)
unfolding page_free
page_free-IsPage id index ptr p m h = go (rel_block ptr m)
  where
    go : (o : Option ℕ) → IsPage id index (free_block o m p)
    go none = h
    go (some block) = if_both (IsPage id index) (m.headers block).stdalloc _ _ h (
        if_cases (IsPage id index) (takes_back p (m.headers block)) _ _
          (λ e. record {
            heap_id = h.heap_id;
            page_id = h.page_id;
            some_blocks = h.some_blocks;
            bounded = ground (arith, e, h.bounded);
          })
          (λ e. h))
