-- ===== src/Zlib.antt =====
-- Addictol/Include/Zlib/AdZlibInflate.h and Addictol/Include/Zlib/Decoders/AdInflateDecoder.h: the stream
-- that the game shares with a decoder, the result codes, and the test of a zlib header.
pub mod Contract
pub mod Backend
pub mod Tests
pub mod Mirror
pub mod Owned
use Prim.Native.Nat.{bit_and}
use addictol.Base.{
  ℕ, zero, suc, ◌+◌, ◌*◌, ◌/◌, ◌%◌, Bool, true, false, Option, List, [], ◌∷◌, ◌==◌, leb, ◌&&◌, ◌||◌,
}
use addictol.Base.Text.{Text}
use addictol.Base.Int.{ℤ, pos, negsuc}

-- `int32_t` results and flush modes.
abbrev pub eq_ℤ : ℤ → ℤ → Bool
eq_ℤ (pos a) (pos b) = a == b
eq_ℤ (negsuc a) (negsuc b) = a == b
eq_ℤ (pos a) (negsuc b) = false
eq_ℤ (negsuc a) (pos b) = false

abbrev pub inflate_ok : ℤ
inflate_ok = pos 0

abbrev pub inflate_end : ℤ
inflate_end = pos 1

abbrev pub inflate_need_dict : ℤ
inflate_need_dict = pos 2

abbrev pub inflate_stream_error : ℤ
inflate_stream_error = negsuc 1

abbrev pub inflate_data_error : ℤ
inflate_data_error = negsuc 2

abbrev pub inflate_mem_error : ℤ
inflate_mem_error = negsuc 3

abbrev pub inflate_buf_error : ℤ
inflate_buf_error = negsuc 4

abbrev pub inflate_version_error : ℤ
inflate_version_error = negsuc 5

-- Pointers are addresses, 0 the null pointer; `state` is what the decoder keeps.
pub record Stream : Type 0 where
  pub next_in : ℕ
  pub avail_in : ℕ
  pub total_in : ℕ
  pub next_out : ℕ
  pub avail_out : ℕ
  pub total_out : ℕ
  pub msg : Option Text
  pub state : ℕ
  pub data_type : ℕ
  pub adler : ℕ

abbrev pub Memory : Type 0
Memory = ℕ → ℕ

-- The bytes of a `std::span`.
unfoldable pub span : Memory → ℕ → ℕ → List ℕ
span mem address zero = []
span mem address (suc n) = mem address ∷ span mem (address + 1) n

unfoldable pub is_zlib_header : ℕ → ℕ → Bool → Bool
is_zlib_header cmf flg allow_dictionary =
    bit_and cmf 0x0F == 8
    && (leb (bit_and (cmf / 16) 0x0F) 7
        && ((allow_dictionary || bit_and flg 0x20 == 0) && (cmf * 256 + flg) % 31 == 0))

-- `cmf << 8 | flg` is the sum for a byte `flg`.
unfoldable pub has_zlib_header : List ℕ → Bool
unfolding is_zlib_header
has_zlib_header [] = false
has_zlib_header (cmf ∷ []) = false
has_zlib_header (cmf ∷ flg ∷ rest) = is_zlib_header cmf flg false
