-- ===== src/Zlib/Owned.antt =====
-- Addictol/Include/Zlib/AdOwnedInflate.h, with `NoZlibStreamProfile`: the state that stands behind a
-- stream of the game, the choice between decoding a whole stream at once and streaming, and the
-- fifteen entry points. The decoders are parameters.
pub mod Entries
pub mod Controls
pub mod Policy
pub mod Isolation
pub mod Life
pub mod Tests
use addictol.Base.{
  ℕ, ◌+◌, ◌-◌, ◌*◌, ◌/◌, ◌^◌, Bool, true, false, not, Option, none, some, List, [], ◌∷◌, ◌==◌, ltb,
  ◌&&◌, ◌||◌, add32, u32_mod, get_or, if◌then◌else◌,
}
use addictol.Base.Int.{ℤ, pos, negsuc, ltb_ℤ, pos_part}
use addictol.Zlib.{Stream, Memory, span, has_zlib_header}
use addictol.Zlib.Mirror.{Mirror, reset}

pub data OwnedPolicy : Type 0 where
  undecided streaming whole done : OwnedPolicy

pub data FallbackReason : Type 0 where
  no_reason no_whole format request allocation decode capacity : FallbackReason

pub data DecodeStatus : Type 0 where
  success bad_data insufficient_space : DecodeStatus

pub record DecodeResult : Type 0 where
  pub status : DecodeStatus
  pub consumed : ℕ
  pub produced : ℕ
  pub codec_result : ℕ

pub record Capabilities : Type 0 where
  pub copy : Bool
  pub set_dictionary : Bool
  pub sync : Bool
  pub prime : Bool
  pub mark : Bool
  pub get_header : Bool
  pub undermine : Bool
  pub reset_keep : Bool
  pub sync_point : Bool

-- `StreamingInflateDecoder`, over the decoder's state `D`. `init` starts from a fresh state.
pub record Decoder (D : Type 0) : Type 0 where
  pub capabilities : Capabilities
  pub init : ℤ → ℤ × D
  pub inflate : ℤ → Stream → Memory → D → ℤ × Stream × Memory × D
  pub reset : D → ℤ × D
  pub reset2 : ℤ → D → ℤ × D
  pub end : D → ℤ
  pub has_pending_output : D → Bool
  pub copy : D → ℤ × D
  pub set_dictionary : List ℕ → D → ℤ × D
  pub sync : Stream → Memory → D → ℤ × Stream × Memory × D
  pub prime : ℤ → ℤ → D → ℤ × D
  pub mark : D → ℤ
  pub get_header : ℕ → D → ℤ × D
  pub undermine : ℤ → D → ℤ × D
  pub reset_keep : D → ℤ × D
  pub sync_point : D → ℤ

-- `WholeInflateDecoder::Decode`, from input to output as address and size; `none` is
-- `NoWholeInflateDecoder`.
abbrev pub WholeDecoder : Type 0
WholeDecoder = Option (ℕ → ℕ → ℕ → ℕ → Memory → DecodeResult × Memory)

-- `State` over `ZlibOwnedState`. `magic` is not a field: a cell of the heap below is tagged or not.
pub record OwnedState (D : Type 0) : Type 0 where
  pub owner : ℕ
  pub implementation : ℕ
  pub window_bits : ℤ
  pub policy : OwnedPolicy
  pub outcome_policy : OwnedPolicy
  pub fallback_reason : FallbackReason
  pub mirror : Mirror
  pub decoder : D
  pub decoder_live : Bool

abbrev pub is_undecided : OwnedPolicy → Bool
is_undecided undecided = true
is_undecided _ = false

abbrev pub is_streaming : OwnedPolicy → Bool
is_streaming streaming = true
is_streaming _ = false

abbrev pub is_done : OwnedPolicy → Bool
is_done done = true
is_done _ = false

abbrev pub has_whole : WholeDecoder → Bool
has_whole none = false
has_whole (some f) = true

-- `windowBits` outside 0 to 15, no zlib header, or a window larger than `windowBits`.
unfoldable pub wrong_format : ℤ → List ℕ → Bool
wrong_format window_bits input =
    ltb_ℤ window_bits (pos 0)
    || (ltb_ℤ (pos 15) window_bits
        || (not (has_zlib_header input)
            || not (pos_part window_bits == 0)
              && ltb (pos_part window_bits) (get_or input 0 0 / 16 + 8)))

-- The four bytes at the end of what was consumed, most significant first.
abbrev pub trailer : Memory → ℕ → ℕ
trailer mem at = mem at * 2 ^ 24 + mem (at + 1) * 2 ^ 16 + mem (at + 2) * 2 ^ 8 + mem (at + 3)

abbrev pub implausible : DecodeResult → Stream → Bool
implausible r s = ltb r.consumed 6 || (ltb s.avail_in r.consumed || ltb s.avail_out r.produced)

unfoldable pub take_whole : DecodeResult → Stream → Memory → Stream
take_whole r s mem = record s {
  adler = trailer mem (s.next_in + r.consumed - 4);
  next_in = s.next_in + r.consumed;
  avail_in = s.avail_in - r.consumed;
  total_in = add32 s.total_in r.consumed;
  next_out = s.next_out + r.produced;
  avail_out = s.avail_out - r.produced;
  total_out = add32 s.total_out r.produced;
  msg = none;
  data_type = 64;
}

abbrev pub failure_reason : DecodeResult → FallbackReason
failure_reason r =
    if r.codec_result == u32_mod - 1
    then allocation
    else elim r.status [ insufficient_space ↦ capacity | _ ↦ decode ]

abbrev pub is_success : DecodeStatus → Bool
is_success success = true
is_success _ = false

module _ {D : Type 0} where
  abbrev pub fall_back : FallbackReason → OwnedState D → OwnedState D
  fall_back reason st = record st { policy = streaming; fallback_reason = reason }

  unfoldable pub reset_view : WholeDecoder → OwnedState D → Stream → OwnedState D × Stream
  reset_view decoder st s =
      let mirror = reset st.window_bits st.mirror in
      (
        record st {
          policy = undecided;
          outcome_policy = streaming;
          fallback_reason = if has_whole decoder then request else no_whole;
          mirror = mirror;
        },
        record s {
          total_in = 0;
          total_out = 0;
          msg = none;
          data_type = 2;
          adler = mirror.checksum;
        },
      )

  unfoldable pub after_whole :
      DecodeResult → Memory → OwnedState D → Stream → OwnedState D × Stream × Memory
  unfolding take_whole
  after_whole r mem st s =
      if is_success r.status
      then (if implausible r s then (fall_back decode st, s, mem) else (
        record st { policy = done; outcome_policy = whole; fallback_reason = no_reason },
        take_whole r s mem,
        mem,
      ))
      else (fall_back (failure_reason r) st, s, mem)

  unfoldable pub choose_policy :
      WholeDecoder → OwnedState D → Stream → Memory → ℤ → OwnedState D × Stream × Memory
  unfolding after_whole
  choose_policy none st s mem flush = (fall_back no_whole st, s, mem)
  choose_policy (some run) st s mem flush =
      let (r, mem') = run s.next_in s.avail_in s.next_out s.avail_out mem in
      if wrong_format st.window_bits (span mem s.next_in s.avail_in)
      then (fall_back format st, s, mem)
      else if ltb_ℤ (pos 4) flush || s.avail_out == 0
      then (fall_back request st, s, mem)
      else if ltb s.avail_out s.avail_in
      then (fall_back capacity st, s, mem)
      else after_whole r mem' st s

  -- The state after NativeOperation, and whether it is left to stream.
  unfoldable pub native_operation : OwnedState D → OwnedState D × Bool
  native_operation st =
      if is_undecided st.policy
      then (
        record st { policy = streaming; outcome_policy = streaming; fallback_reason = request },
        true,
      )
      else (st, is_streaming st.policy)
