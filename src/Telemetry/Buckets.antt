-- ===== src/Telemetry/Buckets.antt =====
-- The buckets of Addictol/Include/Telemetry/AdTelemetry.h that zlib calls are counted in.
use addictol.Base.{
  ℕ, ◌+◌, ◌-◌, ◌≤◌, ◌<◌, not, List, [], ◌∷◌, ◌==◌, leb, ◌&&◌, length, get_or, arith, u64_mod,
  if◌then◌else◌,
}
use addictol.Base.Int.{ℤ, pos, negsuc}

-- The upper bounds of kZlibSizeBuckets, the last of which is that of the sizes that are not known.
abbrev pub zlib_size_bounds : List ℕ
zlib_size_bounds =
    0 ∷ 255 ∷ 1023 ∷ 4095 ∷ 16383 ∷ 65535 ∷ 262143 ∷ (u64_mod - 1) ∷ (u64_mod - 1) ∷ []

abbrev pub zlib_unknown_size_bucket : ℕ
zlib_unknown_size_bucket = length zlib_size_bounds - 1

-- The loop from `index` on, over the bounds before the last.
unfoldable pub size_bucket_loop : ℕ → ℕ → List ℕ → ℕ
size_bucket_loop bytes index [] = index
size_bucket_loop bytes index (bound ∷ []) = index
size_bucket_loop bytes index (bound ∷ next ∷ bounds) =
    let later = size_bucket_loop bytes (index + 1) (next ∷ bounds) in
    if leb bytes bound then index else later

unfoldable pub zlib_size_bucket_index : ℕ → ℕ
unfolding size_bucket_loop
zlib_size_bucket_index bytes = size_bucket_loop bytes 0 zlib_size_bounds

unfoldable pub zlib_thread_bucket_index : ℕ → ℕ → ℕ
zlib_thread_bucket_index current render = if not (render == 0) && current == render then 0 else 1

unfoldable pub zlib_flush_bucket_index : ℤ → ℕ
zlib_flush_bucket_index (negsuc n) = 5
zlib_flush_bucket_index (pos n) =
    if n == 0
    then 0
    else if n == 2
    then 1
    else if n == 4
    then 2
    else if n == 5
    then 3
    else if n == 6
    then 4
    else 5

-- A size below 2 ^ 64 falls into a known bucket, the first whose upper bound is not below it.
pub zlib_size_bucket_index_lem :
    (bytes : ℕ)
    → bytes < u64_mod
    → (zlib_size_bucket_index bytes < zlib_unknown_size_bucket)
      × (bytes ≤ get_or zlib_size_bounds (zlib_size_bucket_index bytes) 0)
      × (0 < zlib_size_bucket_index bytes
          → get_or zlib_size_bounds (zlib_size_bucket_index bytes - 1) 0 < bytes)
unfolding zlib_size_bucket_index
zlib_size_bucket_index_lem bytes small = (ground arith, ground arith, ground arith)
