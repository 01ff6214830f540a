-- ===== src/Zlib/Owned/Policy.antt =====
-- The choice between decoding at once and streaming.
use addictol.Base.{
  ℕ, ◌+◌, ◌-◌, ◌≤◌, ◌≡◌, refl, ap, ◌∙◌, ◌⊎◌, inl, inr, false, none, some, arith, Bool-cases, ◌==◌,
  ==_refl, ◌||◌, ltb,
}
use addictol.Base.Int.{ℤ, pos, ltb_ℤ}
use addictol.Zlib.{Stream, Memory, span, inflate_end}
use addictol.Zlib.Owned.{
  streaming, done, WholeDecoder, DecodeResult, OwnedState, wrong_format, implausible, take_whole,
  is_success, after_whole, choose_policy, trailer, is_done, is_undecided,
}
use addictol.Zlib.Owned.Entries.{
  World, Instance, tagged, find_state, bad_request, inflate, inflate_state, decide, put_both,
  with_state-some,
}

-- The stream was decoded at once: both cursors moved within their buffers, past a header and a
-- trailer at least, the output could hold the input, and the checksum is the trailer's.
pub record IsWhole (s s' : Stream) (mem : Memory) : Type 0 where
  pub input_end : s'.next_in + s'.avail_in ≡ s.next_in + s.avail_in
  pub output_end : s'.next_out + s'.avail_out ≡ s.next_out + s.avail_out
  pub consumed : s.next_in + 6 ≤ s'.next_in
  pub produced : s.next_out ≤ s'.next_out
  pub room : s.avail_in ≤ s.avail_out
  pub adler : s'.adler ≡ trailer mem (s'.next_in - 4)

-- The stream is left to the streaming decoder as it was.
pub record IsFallback {D : Type 0} (st st' : OwnedState D) (s s' : Stream) : Type 0 where
  pub policy : st'.policy ≡ streaming
  pub stream : s' ≡ s
  pub mirror : st'.mirror ≡ st.mirror
  pub decoder : st'.decoder ≡ st.decoder

module _ {D : Type 0} where
  after_whole_cases :
      (r : DecodeResult) (mem : Memory) (st : OwnedState D) (s : Stream)
      → s.avail_in ≤ s.avail_out
      → (((after_whole r mem st s).0.policy ≡ done)
          × IsWhole s (after_whole r mem st s).1 (after_whole r mem st s).2)
        ⊎ IsFallback st (after_whole r mem st s).0 s (after_whole r mem st s).1
  unfolding after_whole
  after_whole_cases r mem st s room = elim (Bool-cases (is_success r.status)) [
    | inr e ↦
        rw (e, after_whole)
          (inr (record { policy = refl; stream = refl; mirror = refl; decoder = refl }))
    | inl e ↦ elim (Bool-cases (implausible r s)) [
      | inl f ↦
          rw (e, after_whole)
            (rw f (inr (record { policy = refl; stream = refl; mirror = refl; decoder = refl })))
      | inr f ↦ rw (e, after_whole) (rw f (inl (refl, moved f)))
    ]
  ]
    where
      moved : implausible r s ≡ false → IsWhole s (take_whole r s mem) mem
      moved f = record {
        input_end = ground arith;
        output_end = ground arith;
        consumed = ground arith;
        produced = ground arith;
        room = room;
        adler = refl;
      }

  -- ChoosePolicy either decodes the whole stream, with both cursors moved within their buffers, at
  -- least six bytes consumed, room in the output for as many bytes as the input has, and the
  -- trailer as the checksum, or it leaves the stream, the mirror and the decoder as they are and
  -- goes on by streaming.
  pub choose_policy_cases :
      (decoder : WholeDecoder) (st : OwnedState D) (s : Stream) (mem : Memory) (flush : ℤ)
      → (((choose_policy decoder st s mem flush).0.policy ≡ done)
          × IsWhole s
              (choose_policy decoder st s mem flush).1
              (choose_policy decoder st s mem flush).2)
        ⊎ IsFallback st
            (choose_policy decoder st s mem flush).0
            s
            (choose_policy decoder st s mem flush).1
  unfolding choose_policy
  choose_policy_cases none st s mem flush =
      inr (record { policy = refl; stream = refl; mirror = refl; decoder = refl })
  choose_policy_cases (some run) st s mem flush =
      let (r, mem') = run s.next_in s.avail_in s.next_out s.avail_out mem in
      elim (Bool-cases (wrong_format st.window_bits (span mem s.next_in s.avail_in))) [
        | inl e ↦
            rw e (inr (record { policy = refl; stream = refl; mirror = refl; decoder = refl }))
        | inr e ↦ elim (Bool-cases (ltb_ℤ (pos 4) flush || s.avail_out == 0)) [
          | inl f ↦
              rw e (
                rw f (inr (record { policy = refl; stream = refl; mirror = refl; decoder = refl })))
          | inr f ↦ elim (Bool-cases (ltb s.avail_out s.avail_in)) [
            | inl g ↦ rw e (
                rw f (
                  rw g
                    (inr (record { policy = refl; stream = refl; mirror = refl; decoder = refl }))))
            | inr g ↦ rw e (rw f (rw g (after_whole_cases r mem' st s (ground (arith, g)))))
          ]
        ]
      ]

  decided :
      (o : Instance D) (w : World D) (a : ℕ) (flush : ℤ) (st : OwnedState D)
      → st.policy ≡ done
      → bad_request o (w.streams a) flush ≡ false
      → inflate_state o w a st flush ≡ (inflate_end, put_both w a st (w.streams a) w.memory)
  unfolding inflate_state decide
  decided o w a flush st finished sound =
      simp (ap is_undecided finished, sound, ap is_done finished)

  -- Inflate on a stream that was decoded at once answers INFLATE_END and changes neither the stream
  -- nor the memory nor the state, if its arguments are sound.
  pub inflate_done :
      (o : Instance D) (w : World D) (a : ℕ) (flush : ℤ) (st : OwnedState D)
      → find_state w o.identity a ≡ some st
      → st.policy ≡ done
      → bad_request o (w.streams a) flush ≡ false
      → ((inflate o w a flush).0 ≡ inflate_end)
        × ((inflate o w a flush).1.streams a ≡ w.streams a)
        × ((inflate o w a flush).1.memory ≡ w.memory)
        × ((inflate o w a flush).1.heap (w.streams a).state ≡ tagged st)
  unfolding inflate put_both
  inflate_done o w a flush st found finished sound =
      let e : inflate o w a flush ≡ (inflate_end, put_both w a st (w.streams a) w.memory) =
        with_state-some o w a (λ x. inflate_state o w a x flush) found
        ∙ decided o w a flush st finished sound in
      rw e (refl, simp ==_refl, refl, simp ==_refl)
