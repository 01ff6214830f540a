-- ===== src/Zlib/Mirror/Checksum.antt =====
-- The running checksum is that of all output so far.
use addictol.Base.{
  ℕ, ◌≡◌, refl, sym, ap, ◌∙◌, Bool, true, false, inl, inr, List, [], ◌∷◌, ◌++◌, arith, ◌<◌, ◌≤◌,
  leb, ◌==◌, Bool-cases, if◌then◌else◌, ◌&&◌,
}
use addictol.Base.Int.{pos}
use addictol.Zlib.Mirror.{Checksums, Mirror, reset, observe_header, update_checksum}

-- libdeflate's functions go on from an earlier checksum, and leave it for no bytes.
pub record IsRunning (f : ℕ → List ℕ → ℕ) : Type 0 where
  pub empty : (c : ℕ) → f c [] ≡ c
  pub append : (c : ℕ) (xs ys : List ℕ) → f (f c xs) ys ≡ f c (xs ++ ys)

abbrev pub Pieces : Type 0
Pieces = List (List ℕ × List ℕ)

abbrev pub all_output : Pieces → List ℕ
all_output [] = []
all_output ((input, output) ∷ rest) = output ++ all_output rest

module _ (sums : Checksums) where
  -- Calls that consume and produce the given bytes.
  unfoldable pub observe_pieces : Mirror → Pieces → Mirror
  observe_pieces m [] = m
  observe_pieces m ((input, output) ∷ rest) =
      observe_pieces (update_checksum sums (observe_header m input) output) rest

  -- What a stream of the given kind sums to.
  abbrev pub checksum_of : Bool → Bool → ℕ → List ℕ → ℕ
  checksum_of raw gzip start output =
      if raw then start else if gzip then sums.crc32 start output else sums.adler32 start output

  module _ (crc : IsRunning sums.crc32) (adler : IsRunning sums.adler32) where
    checksum_of-append :
        (raw gzip : Bool) (c : ℕ) (xs ys : List ℕ)
        → checksum_of raw gzip (checksum_of raw gzip c xs) ys ≡ checksum_of raw gzip c (xs ++ ys)
    checksum_of-append true gzip c xs ys = refl
    checksum_of-append false true c xs ys = crc.append c xs ys
    checksum_of-append false false c xs ys = adler.append c xs ys

    checksum_of-empty : (raw gzip : Bool) (c : ℕ) → checksum_of raw gzip c [] ≡ c
    checksum_of-empty true gzip c = refl
    checksum_of-empty false true c = crc.empty c
    checksum_of-empty false false c = adler.empty c

    update_checksum_lem :
        (m : Mirror) (output : List ℕ)
        → update_checksum sums m output
          ≡ record m { checksum = checksum_of m.raw m.gzip m.checksum output }
    unfolding update_checksum
    update_checksum_lem m [] = ground (arith, checksum_of-empty m.raw m.gzip m.checksum)
    update_checksum_lem m (x ∷ xs) = ground arith

    observe_header-known :
        (m : Mirror) (input : List ℕ) → m.auto ≡ false → observe_header m input ≡ m
    unfolding observe_header
    observe_header-known m input known = simp known

    observe_pieces_lem :
        (m : Mirror) (pieces : Pieces)
        → m.auto ≡ false
        → (observe_pieces m pieces).checksum
          ≡ checksum_of m.raw m.gzip m.checksum (all_output pieces)
    unfolding observe_pieces
    observe_pieces_lem m [] known = sym (checksum_of-empty m.raw m.gzip m.checksum)
    observe_pieces_lem m ((input, output) ∷ rest) known =
        ap (λ (x : Mirror). (observe_pieces x rest).checksum)
          (ap (λ (x : Mirror). update_checksum sums x output) (observe_header-known m input known)
            ∙ update_checksum_lem m output)
        ∙ observe_pieces_lem (record m { checksum = checksum_of m.raw m.gzip m.checksum output })
            rest known
        ∙ checksum_of-append m.raw m.gzip m.checksum output (all_output rest)

    -- With window bits from 0 to 31, the checksum after calls that consume and produce in pieces is
    -- the CRC-32 of all output from 16 bits on and the Adler-32 below, if both go on from an
    -- earlier checksum.
    pub reset_checksum :
        (m : Mirror) (bits : ℕ) (pieces : Pieces)
        → bits < 32
        → (observe_pieces (reset (pos bits) m) pieces).checksum ≡ (
            if leb 16 bits
            then sums.crc32 0 (all_output pieces)
            else sums.adler32 1 (all_output pieces))
    reset_checksum m bits pieces small = elim (Bool-cases (leb 16 bits)) [
      | inl e ↦
          observe_pieces_lem (reset (pos bits) m) pieces (known small)
          ∙ unfold reset in ground (arith, e)
      | inr e ↦
          observe_pieces_lem (reset (pos bits) m) pieces (known small)
          ∙ unfold reset in ground (arith, e)
    ]
      where
        known : bits < 32 → (reset (pos bits) m).auto ≡ false
        known h = unfold reset in ground (arith, h)

    -- The mirror after the two header bytes.
    abbrev resolved : Mirror → ℕ → ℕ → Mirror
    resolved m b0 b1 = record m {
      held = 0;
      header0 = b0;
      header1 = b1;
      header_size = 2;
      auto = false;
      gzip = b0 == 0x1F && b1 == 0x8B;
      raw = false;
      checksum = if b0 == 0x1F && b1 == 0x8B then 0 else 1;
    }

    observe_header-reset :
        (m : Mirror) (bits b0 b1 : ℕ) (input : List ℕ)
        → 32 ≤ bits
        → observe_header (reset (pos bits) m) (b0 ∷ b1 ∷ input) ≡ resolved m b0 b1
    unfolding observe_header reset
    observe_header-reset m bits b0 b1 input large = ground arith

    -- With window bits from 32, the checksum after calls that consume and produce in pieces, the
    -- first of which consumes at least two bytes, is the CRC-32 of all output after a gzip header
    -- and the Adler-32 otherwise, if both go on from an earlier checksum.
    pub auto_checksum :
        (m : Mirror) (bits b0 b1 : ℕ) (input output : List ℕ) (rest : Pieces)
        → 32 ≤ bits
        → (observe_pieces (reset (pos bits) m) ((b0 ∷ b1 ∷ input, output) ∷ rest)).checksum ≡ (
            if b0 == 0x1F && b1 == 0x8B
            then sums.crc32 0 (output ++ all_output rest)
            else sums.adler32 1 (output ++ all_output rest))
    unfolding observe_pieces
    auto_checksum m bits b0 b1 input output rest large =
        let r = resolved m b0 b1 in
        ap (λ (x : Mirror). (observe_pieces (update_checksum sums x output) rest).checksum)
          (observe_header-reset m bits b0 b1 input large)
        ∙ ap (λ (x : Mirror). (observe_pieces x rest).checksum) (update_checksum_lem r output)
        ∙ observe_pieces_lem (record r { checksum = checksum_of false r.gzip r.checksum output })
            rest refl
        ∙ checksum_of-append false r.gzip r.checksum output (all_output rest)
        ∙ ground arith
