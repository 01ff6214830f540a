-- ===== src/Zlib/Mirror.antt =====
-- Addictol/Include/Zlib/Decoders/AdInflateStreamMirror.h and its source: the view of the stream that a
-- native decoder works on, the byte of input that is held back while output is pending, the header
-- that tells zlib from gzip, and the running checksum.
pub mod Header
pub mod Checksum
pub mod Transparent
pub mod Tests
use addictol.Base.{
  ℕ, suc, ◌+◌, ◌-◌, ◌%◌, Bool, true, false, not, List, [], ◌∷◌, ◌==◌, ltb, ◌&&◌, ◌||◌, add32, sub32,
  if◌then◌else◌,
}
use addictol.Base.Text.{is_empty}
use addictol.Base.Int.{ℤ, pos, negsuc, ltb_ℤ, leb_ℤ}
use addictol.Zlib.{
  Stream, Memory, span, eq_ℤ, inflate_ok, inflate_need_dict, inflate_buf_error,
  inflate_stream_error,
}

-- libdeflate's running checksums.
pub record Checksums : Type 0 where
  pub crc32 : ℕ → List ℕ → ℕ
  pub adler32 : ℕ → List ℕ → ℕ

pub record Mirror : Type 0 where
  pub held : ℕ
  pub checksum : ℕ
  pub header0 : ℕ
  pub header1 : ℕ
  pub header_size : ℕ
  pub auto : Bool
  pub gzip : Bool
  pub raw : Bool

abbrev pub new_mirror : Mirror
new_mirror = record {
  held = 0;
  checksum = 0;
  header0 = 0;
  header1 = 0;
  header_size = 0;
  auto = false;
  gzip = false;
  raw = false;
}

unfoldable pub reset : ℤ → Mirror → Mirror
reset window_bits m =
    let gzip = leb_ℤ (pos 16) window_bits && ltb_ℤ window_bits (pos 32) in
    let raw = ltb_ℤ window_bits (pos 0) in
    record m {
      held = 0;
      header_size = 0;
      auto = leb_ℤ (pos 32) window_bits;
      gzip = gzip;
      raw = raw;
      checksum = if gzip || raw then 0 else 1;
    }

unfoldable pub after_sync : ℕ → Mirror → Mirror
after_sync checksum m = record m { raw = true; auto = false; checksum = checksum }

-- `m_header[m_headerSize++] = byte`.
unfoldable pub store_header : Mirror → ℕ → Mirror
store_header m byte =
    if m.header_size == 0
    then record m { header0 = byte; header_size = 1 }
    else record m { header1 = byte; header_size = m.header_size + 1 }

unfoldable pub resolve_header : Mirror → Mirror
resolve_header m =
    let gzip = m.header0 == 0x1F && m.header1 == 0x8B in
    record m { gzip = gzip; checksum = if gzip then 0 else 1; auto = false }

unfoldable pub observe_loop : Mirror → List ℕ → Mirror
unfolding store_header resolve_header
observe_loop m [] = m
observe_loop m (byte ∷ bytes) =
    let stored = store_header m byte in
    if stored.header_size == 2 then resolve_header stored else observe_loop stored bytes

unfoldable pub observe_header : Mirror → List ℕ → Mirror
unfolding observe_loop
observe_header m input = if m.auto then observe_loop m input else m

-- A native call has the view, the memory and the decoder's state, and gives its result and these.
abbrev pub NativeCall : Type 0 → Type 0
NativeCall D = Stream → Memory → D → ℤ × Stream × Memory × D

-- What a call does to the mirror, by its result and the view that it leaves.
abbrev pub Adjust : Type 0
Adjust = ℤ → Stream → Mirror → Mirror

abbrev pub no_adjust : Adjust
no_adjust result view m = m

abbrev pub refuses : Mirror → Stream → Bool → Bool
refuses m s requires_output =
    (requires_output && s.next_out == 0)
    || (not (s.avail_in == 0) && s.next_in == 0 || ltb s.avail_in m.held)

-- Past the byte that is held.
unfoldable pub view_of : Mirror → Stream → Stream
view_of m s = if m.held == 0 then s else record s {
  next_in = s.next_in + m.held;
  avail_in = sub32 s.avail_in m.held;
  total_in = add32 s.total_in m.held;
}

abbrev pub holds : ℤ → Mirror → Stream → Stream → Bool → Bool
holds result m before after pending =
    (eq_ℤ result inflate_ok || eq_ℤ result inflate_buf_error)
    && (after.avail_out == 0
        && (after.avail_in == 0 && ((not (before.avail_in == 0) || not (m.held == 0)) && pending)))

-- The view goes back to the stream, less one byte of input where one is held.
unfoldable pub return_view : Bool → Stream → Stream → Stream
return_view hold s view = record view {
  next_in = if hold then view.next_in - 1 else view.next_in;
  avail_in = if hold then add32 view.avail_in 1 else view.avail_in;
  total_in = if hold then sub32 view.total_in 1 else view.total_in;
  state = s.state;
}

module _ (sums : Checksums) where
  unfoldable pub update_checksum : Mirror → List ℕ → Mirror
  update_checksum m output =
      if not m.raw && not (is_empty output)
      then record m {
        checksum = if m.gzip then sums.crc32 m.checksum output else sums.adler32 m.checksum output;
      }
      else m

  -- What the call consumed and produced, by the counters before and after.
  unfoldable pub observe_call : Mirror → Stream → Stream → Memory → Mirror
  observe_call m before after mem =
      let seen =
        if ltb after.avail_in before.avail_in
        then observe_header m (span mem before.next_in (before.avail_in - after.avail_in))
        else m in
      update_checksum seen (span mem before.next_out (sub32 before.avail_out after.avail_out))

  -- The body of Invoke below its guard. `adjust` is what the call does to the mirror itself.
  unfoldable pub perform :
      {D : Type 0}
      → Mirror
      → Stream
      → Memory
      → D
      → NativeCall D
      → Adjust
      → (D → Bool)
      → ℤ × Mirror × Stream × Memory × D
  perform m s mem d call adjust pending =
      let before = view_of m s in
      let (result, after, mem', d') = call before mem d in
      let seen = observe_call (adjust result after m) before after mem' in
      let marked = record after {
        adler = if eq_ℤ result inflate_need_dict then after.adler else seen.checksum;
      } in
      let hold = holds result m before after (pending d') in
      (result, record seen { held = if hold then 1 else 0 }, return_view hold s marked, mem', d')

  unfoldable pub invoke :
      {D : Type 0}
      → Mirror
      → Stream
      → Memory
      → D
      → NativeCall D
      → Adjust
      → (D → Bool)
      → Bool
      → ℤ × Mirror × Stream × Memory × D
  invoke m s mem d call adjust pending requires_output =
      if refuses m s requires_output
      then (inflate_stream_error, m, s, mem, d)
      else perform m s mem d call adjust pending
