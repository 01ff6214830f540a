-- ===== src/Zlib/Owned/Entries.antt =====
-- The entry points of OwnedInflate. Streams and states stand at addresses; a freed or foreign block of
-- memory does not begin with MAGIC, which End clears. `fresh` is the address that `new` gives, `none`
-- where it fails.
use addictol.Base.{
  update_at, ℕ, ◌≡◌, Bool, true, false, not, Option, none, some, [], ◌∷◌, ◌==◌, ◌&&◌, ◌||◌,
  if◌then◌else◌,
}
use addictol.Base.Text.{Text}
use addictol.Base.Int.{ℤ, pos, ltb_ℤ}
use addictol.Zlib.{
  Stream, Memory, eq_ℤ, inflate_ok, inflate_end, inflate_stream_error, inflate_mem_error,
  inflate_version_error,
}
use addictol.Zlib.Mirror.{Checksums, new_mirror, no_adjust, invoke}
use addictol.Zlib.Owned.{
  undecided, streaming, request, no_reason, Decoder, WholeDecoder, OwnedState, is_undecided,
  is_done, reset_view, choose_policy, native_operation,
}

-- A block of memory that a stream's `state` may point at.
pub data Cell (D : Type 0) : Type 0 where
  untagged : Cell D
  tagged : OwnedState D → Cell D

pub record World (D : Type 0) : Type 0 where
  pub streams : ℕ → Stream
  pub heap : ℕ → Cell D
  pub memory : Memory

module _ {D : Type 0} where
  abbrev pub owned_at : Cell D → ℕ → ℕ → Option (OwnedState D)
  owned_at untagged a identity = none
  owned_at (tagged st) a identity =
      if st.owner == a && st.implementation == identity then some st else none

  -- `OwnedInflate::Find`, with the tests of `IsTagged` and `ZlibOwnedState::Find`.
  unfoldable pub find_state : World D → ℕ → ℕ → Option (OwnedState D)
  find_state w identity a =
      if a == 0 || (w.streams a).state == 0
      then none
      else owned_at (w.heap (w.streams a).state) a identity

  unfoldable pub put_state : World D → ℕ → OwnedState D → World D
  put_state w a st = record w { heap = update_at w.heap (w.streams a).state (tagged st) }

  unfoldable pub put_both : World D → ℕ → OwnedState D → Stream → Memory → World D
  put_both w a st s mem = record w {
    heap = update_at w.heap (w.streams a).state (tagged st);
    streams = update_at w.streams a (record s { state = (w.streams a).state });
    memory = mem;
  }

-- What the entry points are compiled for: one instance of the template.
pub record Instance (D : Type 0) : Type 0 where
  pub identity : ℕ
  pub sums : Checksums
  pub decoder : Decoder D
  pub whole : WholeDecoder

module _ {D : Type 0} (o : Instance D) where
  unfoldable pub is_owned : World D → ℕ → Bool
  is_owned w a = elim (find_state w o.identity a) [ none ↦ false | some st ↦ true ]

  abbrev pub new_state : D → ℕ → ℤ → OwnedState D
  new_state d a window_bits = record {
    owner = a;
    implementation = o.identity;
    window_bits = window_bits;
    policy = undecided;
    outcome_policy = streaming;
    fallback_reason = no_reason;
    mirror = new_mirror;
    decoder = d;
    decoder_live = true;
  }

  abbrev pub version_matches : Option Text → Bool
  version_matches none = false
  version_matches (some []) = false
  version_matches (some (c ∷ rest)) = c == b'1'

  unfoldable pub init_view : World D → ℕ → ℕ → OwnedState D → World D
  init_view w a at st =
      let (st', s') = reset_view o.whole st (w.streams a) in
      record w {
        heap = update_at w.heap at (tagged st');
        streams = update_at w.streams a (record s' { state = at });
      }

  unfoldable pub init2 : World D → ℕ → ℤ → Option Text → ℕ → Option ℕ → ℤ × World D
  init2 w a window_bits version size fresh =
      if not (version_matches version) || not (size == 0x58)
      then (inflate_version_error, w)
      else if a == 0
      then (inflate_stream_error, w)
      else elim fresh [
        | none ↦ (inflate_mem_error, w)
        | some at ↦
            let (result, d) = o.decoder.init window_bits in
            if eq_ℤ result inflate_ok
            then (inflate_ok, init_view w a at (new_state d a window_bits))
            else (result, w)
      ]

  unfoldable pub init : World D → ℕ → Option Text → ℕ → Option ℕ → ℤ × World D
  unfolding init2
  init w a version size fresh = init2 w a (pos 15) version size fresh

  abbrev pub bad_request : Stream → ℤ → Bool
  bad_request s flush =
      ltb_ℤ flush (pos 0)
      || (ltb_ℤ (pos 6) flush || (s.next_out == 0 || not (s.avail_in == 0) && s.next_in == 0))

  unfoldable pub decide : OwnedState D → Stream → Memory → ℤ → OwnedState D × Stream × Memory
  decide st s mem flush =
      if is_undecided st.policy then choose_policy o.whole st s mem flush else (st, s, mem)

  unfoldable pub stream_on : World D → ℕ → OwnedState D → Stream → Memory → ℤ → ℤ × World D
  stream_on w a st s mem flush =
      let (result, mirror, s', mem', d') =
        invoke o.sums st.mirror s mem st.decoder (o.decoder.inflate flush) no_adjust
          o.decoder.has_pending_output true in
      (result, put_both w a (record st { mirror = mirror; decoder = d' }) s' mem')

  unfoldable pub inflate_state : World D → ℕ → OwnedState D → ℤ → ℤ × World D
  inflate_state w a st flush =
      let (st', s', mem') = decide st (w.streams a) w.memory flush in
      if bad_request (w.streams a) flush
      then (inflate_stream_error, w)
      else if is_done st'.policy
      then (inflate_end, put_both w a st' s' mem')
      else stream_on w a st' s' mem' flush

  -- The entry points that begin with Find and give INFLATE_STREAM_ERROR without a state.
  abbrev pub with_state : World D → ℕ → (OwnedState D → ℤ × World D) → ℤ × World D
  with_state w a f = elim (find_state w o.identity a) [
    | none ↦ (inflate_stream_error, w)
    | some st ↦ f st
  ]

  unfoldable pub inflate : World D → ℕ → ℤ → ℤ × World D
  inflate w a flush = with_state w a (λ st. inflate_state w a st flush)

  abbrev pub after_reset : World D → ℕ → OwnedState D → ℤ → ℤ × World D
  after_reset w a st result =
      if eq_ℤ result inflate_ok
      then (let (st', s') = reset_view o.whole st (w.streams a) in
          (result, put_both w a st' s' w.memory))
      else (result, put_state w a st)

  unfoldable pub reset_state : World D → ℕ → OwnedState D → ℤ × World D
  reset_state w a st =
      let (result, d) = o.decoder.reset st.decoder in
      after_reset w a (record st { decoder = d }) result

  unfoldable pub reset : World D → ℕ → ℤ × World D
  reset w a = with_state w a (reset_state w a)

  unfoldable pub reset2_state : World D → ℕ → ℤ → OwnedState D → ℤ × World D
  reset2_state w a window_bits st =
      let (result, d) = o.decoder.reset2 window_bits st.decoder in
      after_reset w a
        (record st {
          decoder = d;
          window_bits = if eq_ℤ result inflate_ok then window_bits else st.window_bits;
        })
        result

  unfoldable pub reset2 : World D → ℕ → ℤ → ℤ × World D
  reset2 w a window_bits = with_state w a (reset2_state w a window_bits)

  -- A reset that keeps the window goes on by streaming.
  unfoldable pub reset_keep_state : World D → ℕ → OwnedState D → ℤ × World D
  reset_keep_state w a st =
      let (native, ours) = native_operation st in
      let (result, d) = o.decoder.reset_keep native.decoder in
      let (view, s') = reset_view o.whole (record native { decoder = d }) (w.streams a) in
      if not ours
      then (inflate_stream_error, w)
      else if eq_ℤ result inflate_ok
      then (
        result,
        put_both w a (record view { policy = streaming; fallback_reason = request }) s' w.memory,
      )
      else (result, put_state w a (record native { decoder = d }))

  unfoldable pub reset_keep : World D → ℕ → ℤ × World D
  reset_keep w a =
      if o.decoder.capabilities.reset_keep
      then with_state w a (reset_keep_state w a)
      else (inflate_stream_error, w)

  unfoldable pub end_state : World D → ℕ → OwnedState D → ℤ × World D
  end_state w a st = (
    o.decoder.end st.decoder,
    record w {
      heap = update_at w.heap (w.streams a).state untagged;
      streams = update_at w.streams a (record (w.streams a) { state = 0 });
    },
  )

  unfoldable pub end : World D → ℕ → ℤ × World D
  end w a = with_state w a (end_state w a)

  unfoldable pub copy_state : World D → ℕ → ℕ → Option ℕ → OwnedState D → ℤ × World D
  copy_state w destination source none st = (inflate_mem_error, w)
  copy_state w destination source (some at) st =
      let (result, d) = o.decoder.copy st.decoder in
      if eq_ℤ result inflate_ok
      then (
        inflate_ok,
        record w {
          heap =
              update_at w.heap at
                (tagged (record st { owner = destination; decoder = d; decoder_live = true }));
          streams = update_at w.streams destination (record (w.streams source) { state = at });
        },
      )
      else (result, w)

  unfoldable pub copy : World D → ℕ → ℕ → Option ℕ → ℤ × World D
  copy w destination source fresh =
      if o.decoder.capabilities.copy && not (destination == 0)
      then with_state w source (copy_state w destination source fresh)
      else (inflate_stream_error, w)

  pub with_state-none :
      (w : World D) (a : ℕ) (f : OwnedState D → ℤ × World D)
      → find_state w o.identity a ≡ none
      → with_state w a f ≡ (inflate_stream_error, w)
  with_state-none w a f missing = rw (missing, with_state)

  pub with_state-some :
      (w : World D) (a : ℕ) (f : OwnedState D → ℤ × World D) {st : OwnedState D}
      → find_state w o.identity a ≡ some st
      → with_state w a f ≡ f st
  with_state-some w a f found = rw (found, with_state)
