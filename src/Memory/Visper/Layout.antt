-- ===== src/Memory/Visper/Layout.antt =====
-- The blocks that a page lays out, and the choice of a heap.
use addictol.Base.{
  ℕ, zero, suc, ◌+◌, ◌-◌, ◌*◌, ◌%◌, ◌^◌, ◌≤◌, ◌<◌, ◌≡◌, inl, inr, refl, sym, ap, ◌∙◌, subst, false,
  Option, none, some, ◌==◌, ◌||◌, ==_iff, Bool-cases, update_at-same, update_at-other, if_cases,
  if_both, get_or, arith,
}
use mathlib.Core.Option.{some-injective}
use addictol.Memory.Visper.{Space, Page, header_size, int32_leb, to_int32}
use addictol.Memory.Visper.Pages.{
  created, create_block, create_blocks, page_initialize, real_block_size,
}
use addictol.Memory.Visper.Managers.{visper_block_sizes, heap_id_loop, heap_id_by_block_size}

create_blocks-before :
    (p : Page) (real i n : ℕ) (m : Space) (a : ℕ)
    → a < p.mem + i * real
    → (create_blocks p real i n m).headers a ≡ m.headers a
unfolding create_blocks create_block
create_blocks-before p real i zero m a h = refl
create_blocks-before p real i (suc n) m a h =
    create_blocks-before p real (i + 1) n (create_block p (p.mem + i * real) p.block_size false m) a
      (grind arith)
    ∙ update_at-other m.headers (p.mem + i * real)
        (created p p.block_size false (m.headers (p.mem + i * real))) a (λ e. omega (arith, e, h))

next_apart : (mem real i j : ℕ) → 0 < real → i + 1 ≤ j → mem + i * real < mem + j * real
next_apart mem real i j positive above = grind arith

create_blocks-headers :
    (p : Page) (real i n : ℕ) (m : Space) (j : ℕ)
    → 0 < real
    → i ≤ j
    → j < i + n
    → (create_blocks p real i n m).headers (p.mem + j * real)
      ≡ created p p.block_size false (m.headers (p.mem + j * real))
unfolding create_blocks create_block
create_blocks-headers p real i zero m j positive lo hi = ground (arith, lo, hi)
create_blocks-headers p real i (suc n) m j positive lo hi =
    let next = create_block p (p.mem + i * real) p.block_size false m in
    let here = created p p.block_size false (m.headers (p.mem + i * real)) in
    elim (Bool-cases (i == j)) [
      | inl e ↦
          subst
            (λ x.
              (create_blocks p real (i + 1) n next).headers (p.mem + x * real)
              ≡ created p p.block_size false (m.headers (p.mem + x * real)))
            ((==_iff i j).0 e)
            (create_blocks-before p real (i + 1) n next (p.mem + i * real) (grind arith)
              ∙ update_at-same m.headers (p.mem + i * real) here)
      | inr e ↦
          let above : i + 1 ≤ j = ground arith in
          let apart : p.mem + i * real < p.mem + j * real =
            next_apart p.mem real i j positive above in
          create_blocks-headers p real (i + 1) n next j positive above (omega (arith, hi))
          ∙ ap (created p p.block_size false) (
              update_at-other m.headers (p.mem + i * real) here (p.mem + j * real)
                (λ q. omega (arith, q, apart)))
    ]

-- A page whose blocks lie one after the other, each with a header of the page written over what was
-- there `before`.
pub record IsLaidOut (before : Space) (block_size total : ℕ) (p : Page) (m : Space) : Type 0 where
  pub full : (p.free ≡ total) × (p.size ≡ total)
  pub large : block_size ≤ p.block_size
  pub aligned : (p.block_size + header_size) % 16 ≡ 0
  pub apart : (i j : ℕ) → i < j → p.stack i + header_size + p.block_size ≤ p.stack j
  pub headers :
      (i : ℕ)
      → i < total
      → m.headers (p.stack i) ≡ created p p.block_size false (before.headers (p.stack i))

real-large : (block_size : ℕ) → block_size + 16 ≤ real_block_size block_size
unfolding real_block_size
real-large block_size = omega arith

real-aligned : (block_size : ℕ) → (real_block_size block_size - 16 + 16) % 16 ≡ 0
unfolding real_block_size
real-aligned block_size = omega arith

real-narrowed :
    (block_size : ℕ)
    → block_size + 16 ≤ 2 ^ 31
    → to_int32 (real_block_size block_size - 16) ≡ real_block_size block_size - 16
unfolding real_block_size
real-narrowed block_size bound = omega (arith, bound)

real-apart :
    (mem real i j : ℕ) → i < j → 16 ≤ real → mem + i * real + 16 + (real - 16) ≤ mem + j * real
real-apart mem real i j lt room = grind arith

-- Where Initialize of a page succeeds for a block size up to 2 ^ 31 - 16, all its blocks are free,
-- none is smaller than asked for, each with its header is a multiple of 16 bytes long and ends
-- before the next begins, and has the header that CreateBlock writes over what was there.
pub page_initialize-IsLaidOut :
    (mem id heap_id block_size total : ℕ) (m : Space) (p : Page) (m' : Space)
    → block_size + 16 ≤ 2 ^ 31
    → page_initialize mem id heap_id block_size total m ≡ some (p, m')
    → IsLaidOut m block_size total p m'
unfolding page_initialize
page_initialize-IsLaidOut mem id heap_id block_size total m p m' bound h =
    let real = real_block_size block_size in
    let made : Page = record {
      mem = mem;
      size = total;
      block_size = to_int32 (real - header_size);
      free = total;
      heap_id = heap_id;
      page_id = id;
      stack = λ i. mem + i * real;
    } in
    let room : block_size + 16 ≤ real = real-large block_size in
    let narrowed : to_int32 (real - header_size) ≡ real - header_size =
      real-narrowed block_size bound in
    let laid : IsLaidOut m block_size total made (create_blocks made real 0 total m) = record {
      full = (refl, refl);
      large = omega (arith, room, narrowed);
      aligned = ap (λ x. (x + 16) % 16) narrowed ∙ real-aligned block_size;
      apart = λ i j lt.
          subst (λ x. mem + i * real + header_size + x ≤ mem + j * real) (sym narrowed)
            (real-apart mem real i j lt (omega (arith, room)));
      headers = λ i lt.
          create_blocks-headers made real 0 total m i (omega (arith, room)) (omega arith)
            (omega (arith, lt));
    } in
    let P : Option (Page × Space) → Type 0 =
      λ o. o ≡ some (p, m') → IsLaidOut m block_size total p m' in
    if_both P (block_size == 0 || total == 0) _ _ (λ e. cc)
      (if_both P (mem == 0) _ _ (λ e. cc)
        (λ e.
          subst (λ (x : Page × Space). IsLaidOut m block_size total x.0 x.1)
            (some-injective (made, create_blocks made real 0 total m) (p, m') e) laid))
      h

-- GetHeapIdByBlockSize gives the first heap whose blocks hold a size from 1 to 4096 and no heap for
-- a larger size, and the first heap for every int32_t that is negative.
pub heap_id_by_block_size_lem :
    (size : ℕ)
    → (0 < size
        → size ≤ 4096
        → (id : ℕ) × (heap_id_by_block_size size ≡ some id)
          × (size ≤ get_or visper_block_sizes id 0)
          × (0 < id → get_or visper_block_sizes (id - 1) 0 < size))
      × (4096 < size → size < 2 ^ 31 → heap_id_by_block_size size ≡ none)
      × (2 ^ 31 ≤ size → heap_id_by_block_size size ≡ some 0)
unfolding heap_id_by_block_size heap_id_loop
heap_id_by_block_size_lem size =
    let P : Option ℕ → Type 0 = λ o.
      (id : ℕ) × (o ≡ some id)
      × (size ≤ get_or visper_block_sizes id 0)
      × (0 < id → get_or visper_block_sizes (id - 1) 0 < size) in
    (
      λ positive small.
          if_cases P (int32_leb size 32) _ _ (λ e0. (0, refl, ground arith, λ above. ground arith))
            (λ e0.
              if_cases P (int32_leb size 64) _ _
                (λ e1. (1, refl, ground arith, λ above. ground arith))
                (λ e1.
                  if_cases P (int32_leb size 128) _ _
                    (λ e2. (2, refl, ground arith, λ above. ground arith))
                    (λ e2.
                      if_cases P (int32_leb size 256) _ _
                        (λ e3. (3, refl, ground arith, λ above. ground arith))
                        (λ e3.
                          if_cases P (int32_leb size 512) _ _
                            (λ e4. (4, refl, ground arith, λ above. ground arith))
                            (λ e4.
                              if_cases P (int32_leb size 1024) _ _
                                (λ e5. (5, refl, ground arith, λ above. ground arith))
                                (λ e5.
                                  if_cases P (int32_leb size 2048) _ _
                                    (λ e6. (6, refl, ground arith, λ above. ground arith))
                                    (λ e6.
                                      if_cases P (int32_leb size 4096) _ _
                                        (λ e7. (7, refl, ground arith, λ above. ground arith))
                                        (λ e7. ground arith)))))))),
      λ large small. ground arith,
      λ negative. ground arith,
    )
