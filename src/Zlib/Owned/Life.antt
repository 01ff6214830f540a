-- ===== src/Zlib/Owned/Life.antt =====
-- From Init2 to End.
use addictol.Base.{ℕ, ◌≡◌, refl, true, false, Option, none, some, ◌==◌, ==_refl, arith}
use addictol.Base.Text.{Text}
use addictol.Base.Int.{ℤ}
use addictol.Zlib.{eq_ℤ, inflate_ok}
use addictol.Zlib.Owned.{OwnedState, undecided, reset_view}
use addictol.Zlib.Owned.Entries.{
  World, Instance, new_state, untagged, find_state, version_matches, init2, init_view, end,
  end_state, with_state-some,
}

module _ {D : Type 0} (o : Instance D) where
  -- End on an owned stream gives the decoder's answer; afterwards the stream is not owned and its
  -- block has no tag.
  pub end_releases :
      (w : World D) (a : ℕ) (st : OwnedState D)
      → find_state w o.identity a ≡ some st
      → ((end o w a).0 ≡ o.decoder.end st.decoder)
        × (find_state (end o w a).1 o.identity a ≡ none)
        × ((end o w a).1.heap (w.streams a).state ≡ untagged)
  unfolding end find_state
  end_releases w a st found =
      rw (with_state-some o w a (end_state o w a) found)
        (unfold end_state in (refl, simp ==_refl (ground arith), simp ==_refl))

  -- Where Init2 is given a stream, a version that begins with 1, the size of a stream and a block
  -- from `new`, and the decoder starts, it answers INFLATE_OK, and the stream is then owned,
  -- undecided, with the decoder and the window bits that it was started with.
  pub init2_owns :
      (w : World D) (a at : ℕ) (bits : ℤ) (version : Option Text)
      → (a == 0) ≡ false
      → (at == 0) ≡ false
      → version_matches o version ≡ true
      → eq_ℤ (o.decoder.init bits).0 inflate_ok ≡ true
      → ((init2 o w a bits version 0x58 (some at)).0 ≡ inflate_ok)
        × ((st : OwnedState D) × (find_state
                (init2 o w a bits version 0x58 (some at)).1
                o.identity
                a
              ≡ some st)
            × (st.policy ≡ undecided)
            × (st.decoder ≡ (o.decoder.init bits).1)
            × (st.window_bits ≡ bits))
  unfolding init2 find_state init_view reset_view
  init2_owns w a at bits version stream block valid started =
      simp (valid, stream, block, started, ==_refl)
        (
          refl,
          (
            (reset_view o.whole (new_state o (o.decoder.init bits).1 a bits) (w.streams a)).0,
            refl,
            refl,
            refl,
            refl,
          ),
        )
