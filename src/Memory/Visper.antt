-- ===== src/Memory/Visper.antt =====
-- Addictol/Include/Memory/AdVisperMemoryAllocator.h: blocks, pages and heaps, as compiled with
-- AD_VISPER_REMOVE_BIG_STUFF. Addresses and sizes are words; headers are kept beside the bytes.
pub mod Pages
pub mod Heaps
pub mod Managers
pub mod Realloc
pub mod Layout
pub mod Owners
pub mod Keeping
pub mod HeapRuns
pub mod Tests
use addictol.Base.{
  ℕ, ◌+◌, ◌-◌, ◌%◌, ◌^◌, Bool, true, false, List, [], ◌∷◌, Option, none, some, ◌==◌, leb, ltb, ◌&&◌,
  ◌||◌, u32_mod, sub64, update_at, if◌then◌else◌,
}

-- The fields `heap` and `page` have four bits.
pub record BlockHeader : Type 0 where
  pub hash : ℕ
  pub stdalloc : Bool
  pub noaction : Bool
  pub heap : ℕ
  pub page : ℕ
  pub size : ℕ

abbrev pub block_hash : ℕ
block_hash = 0xD2E1

-- `sizeof(BlockHeader)`
abbrev pub header_size : ℕ
header_size = 16

pub record Space : Type 0 where
  pub headers : ℕ → BlockHeader
  pub bytes : ℕ → ℕ

-- `top` of the source is `free` less 1; `stack` is read below `free`. No memory is a `mem` of 0.
pub record Page : Type 0 where
  pub mem : ℕ
  pub size : ℕ
  pub block_size : ℕ
  pub free : ℕ
  pub heap_id : ℕ
  pub page_id : ℕ
  pub stack : ℕ → ℕ

pub record Heap : Type 0 where
  pub size : ℕ
  pub block_size : ℕ
  pub id : ℕ
  pub pages : List Page

-- `heaps` below 8.
pub record MemoryManager : Type 0 where
  pub heaps : ℕ → Option Heap

-- An int32_t as its word: whether it is at most `k`, where `k` is not negative.
abbrev pub int32_leb : ℕ → ℕ → Bool
int32_leb word k = leb (2 ^ 31) word || leb word k

abbrev pub to_int32 : ℕ → ℕ
to_int32 n = n % u32_mod

-- `memset` with 0.
abbrev pub zero_fill : ℕ → ℕ → (ℕ → ℕ) → ℕ → ℕ
zero_fill at n bytes a = if leb at a && ltb a (at + n) then 0 else bytes a

-- `memcpy`
abbrev pub copy_bytes : ℕ → ℕ → ℕ → (ℕ → ℕ) → ℕ → ℕ
copy_bytes to from n bytes a =
    if leb to a && ltb a (to + n) then bytes (from + (a - to)) else bytes a

-- `Page::GetRelBlock`: the address of the header, if it has the hash.
unfoldable pub rel_block : ℕ → Space → Option ℕ
rel_block ptr m =
    let block = sub64 ptr header_size in
    if ptr == 0 || block == 0
    then none
    else if (m.headers block).hash == block_hash
    then some block
    else none

-- `Page::GetNormalPtr`
abbrev pub normal_ptr : ℕ → ℕ
normal_ptr block = block + header_size
