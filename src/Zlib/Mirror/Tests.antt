-- ===== src/Zlib/Mirror/Tests.antt =====
-- Mirrors on small streams, and the theorems at them.
use addictol.Base.{ℕ, ◌+◌, ◌≡◌, ◌≤◌, refl, true, false, none, List, [], ◌∷◌, ◌++◌, arith}
use addictol.Base.Int.{pos}
use addictol.Zlib.{Stream, Memory, has_zlib_header, inflate_ok}
use addictol.Zlib.Mirror.{
  Checksums, Mirror, new_mirror, reset, NativeCall, no_adjust, invoke, perform, view_of,
  return_view,
}
use addictol.Zlib.Mirror.Transparent.{
  SameCursors, IsWordStream, after_call, invoke_transparent, invoke_keeps_end,
}
use addictol.Zlib.Mirror.Checksum.{IsRunning, Pieces, observe_pieces, reset_checksum, auto_checksum}

abbrev plus : ℕ → List ℕ → ℕ
plus c [] = c
plus c (x ∷ xs) = plus (c + x) xs

plus-append : (c : ℕ) (xs ys : List ℕ) → plus (plus c xs) ys ≡ plus c (xs ++ ys)
plus-append c [] ys = refl
plus-append c (x ∷ xs) ys = plus-append (c + x) xs ys

plus-IsRunning : IsRunning plus
plus-IsRunning = record { empty = λ c. refl; append = plus-append }

abbrev pub sums : Checksums
sums = record { crc32 = plus; adler32 = plus }

abbrev pub stream : Stream
stream = record {
  next_in = 100;
  avail_in = 2;
  total_in = 0;
  next_out = 500;
  avail_out = 3;
  total_out = 0;
  msg = none;
  state = 7;
  data_type = 0;
  adler = 0;
}

abbrev pub memory : Memory
memory p = p

-- It takes all input and fills the output.
abbrev drain_two : NativeCall ℕ
drain_two s mem d = (
  inflate_ok,
  record s {
    next_in = s.next_in + s.avail_in;
    avail_in = 0;
    total_in = s.total_in + s.avail_in;
    next_out = s.next_out + s.avail_out;
    avail_out = 0;
    total_out = s.total_out + s.avail_out;
  },
  mem,
  d,
)

abbrev mirror : Mirror
mirror = new_mirror

drained : IsWordStream (after_call sums mirror stream memory 0 drain_two)
unfolding view_of
drained = record { avail_in = ground arith; total_in = ground arith; next_in = ground arith }

-- The second byte of input is held back while output is pending.
invoke_holds :
    (invoke sums mirror stream memory 0 drain_two no_adjust (λ d. true) true).2.avail_in ≡ 1
unfolding invoke perform view_of return_view
invoke_holds = refl

invoke_transparent_example :
    SameCursors
      (view_of
        (invoke sums mirror stream memory 0 drain_two no_adjust (λ d. true) true).1
        (invoke sums mirror stream memory 0 drain_two no_adjust (λ d. true) true).2)
      (after_call sums mirror stream memory 0 drain_two)
invoke_transparent_example =
    invoke_transparent sums mirror stream memory 0 drain_two no_adjust (λ d. true) true refl drained

drain_step :
    (after_call sums mirror stream memory 0 drain_two).next_in
      + (after_call sums mirror stream memory 0 drain_two).avail_in
    ≡ (view_of mirror stream).next_in + (view_of mirror stream).avail_in
unfolding view_of
drain_step = refl

invoke_keeps_end_example :
    ((invoke sums mirror stream memory 0 drain_two no_adjust (λ d. true) true).2.next_in
        + (invoke sums mirror stream memory 0 drain_two no_adjust (λ d. true) true).2.avail_in
      ≡ 102)
    × ((invoke sums mirror stream memory 0 drain_two no_adjust (λ d. true) true).1.held ≤ 1)
    × ((invoke sums mirror stream memory 0 drain_two no_adjust (λ d. true) true).1.held
        ≤ (invoke sums mirror stream memory 0 drain_two no_adjust (λ d. true) true).2.avail_in)
invoke_keeps_end_example =
    invoke_keeps_end sums mirror stream memory 0 drain_two no_adjust (λ d. true) true refl
      (ground arith) drained drain_step

abbrev pieces : Pieces
pieces = (0x1F ∷ [], 1 ∷ []) ∷ (0x8B ∷ 5 ∷ [], 2 ∷ 3 ∷ []) ∷ []

reset_checksum_example : (observe_pieces sums (reset (pos 15) mirror) pieces).checksum ≡ 7
reset_checksum_example =
    reset_checksum sums plus-IsRunning plus-IsRunning mirror 15 pieces (ground arith)

auto_checksum_example :
    (observe_pieces sums (reset (pos 47) mirror) ((0x1F ∷ 0x8B ∷ [], 4 ∷ []) ∷ pieces)).checksum
    ≡ 10
auto_checksum_example =
    auto_checksum sums plus-IsRunning plus-IsRunning mirror 47 0x1F 0x8B [] (4 ∷ []) pieces
      (ground arith)

header_default : has_zlib_header (0x78 ∷ 0x9C ∷ []) ≡ true
unfolding has_zlib_header
header_default = refl

header_gzip : has_zlib_header (0x1F ∷ 0x8B ∷ []) ≡ false
unfolding has_zlib_header
header_gzip = refl
