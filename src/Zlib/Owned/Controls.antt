-- ===== src/Zlib/Owned/Controls.antt =====
-- The entry points of OwnedInflate that pass a call on to the native decoder, and all fifteen entry
-- points as requests.
use addictol.Base.{ℕ, Bool, false, true, Option, none, List, ◌==◌, if◌then◌else◌}
use addictol.Base.Text.{Text}
use addictol.Base.Int.{ℤ}
use addictol.Zlib.{eq_ℤ, inflate_ok, inflate_stream_error}
use addictol.Zlib.Mirror.{after_sync, invoke}
use addictol.Zlib.Owned.{OwnedState, native_operation}
use addictol.Zlib.Owned.Entries.{
  World, Instance, with_state, put_state, put_both, inflate, reset, reset2, reset_keep, end, init,
  init2, copy,
}

pub data Request : Type 0 where
  inflate_request reset2_request undermine_request : ℤ → Request
  reset_request reset_keep_request end_request mark_request sync_request sync_point_request :
      Request
  set_dictionary_request : List ℕ → Request
  get_header_request : ℕ → Request
  prime_request : ℤ → ℤ → Request
  -- The version, the size of the stream and the block that `new` gives.
  init_request : Option Text → ℕ → Option ℕ → Request
  init2_request : ℤ → Option Text → ℕ → Option ℕ → Request
  -- The source, and the block that `new` gives. The call is on the destination.
  copy_request : ℕ → Option ℕ → Request

abbrev pub is_init : Request → Bool
is_init (init_request version size fresh) = true
is_init (init2_request window_bits version size fresh) = true
is_init _ = false

-- The block that `new` gives to the entry points that call it.
abbrev pub allocation : Request → Option ℕ
allocation (init_request version size fresh) = fresh
allocation (init2_request window_bits version size fresh) = fresh
allocation (copy_request source fresh) = fresh
allocation _ = none

-- The stream whose state the call on the stream at `a` looks for.
abbrev pub subject : ℕ → Request → ℕ
subject a (copy_request source fresh) = source
subject a _ = a

module _ {D : Type 0} (o : Instance D) where
  -- Control: a call of the native decoder, if it has it and the stream is left to it.
  unfoldable pub control_state :
      World D → ℕ → (OwnedState D → ℤ × World D) → OwnedState D → ℤ × World D
  control_state w a f st =
      let (native, ours) = native_operation st in
      if ours then f native else (inflate_stream_error, w)

  unfoldable pub control : Bool → World D → ℕ → (OwnedState D → ℤ × World D) → ℤ × World D
  control supported w a f =
      if supported then with_state o w a (control_state w a f) else (inflate_stream_error, w)

  abbrev pub on_decoder : World D → ℕ → (D → ℤ × D) → OwnedState D → ℤ × World D
  on_decoder w a f st =
      let (result, d) = f st.decoder in (result, put_state w a (record st { decoder = d }))

  unfoldable pub set_dictionary : World D → ℕ → List ℕ → ℤ × World D
  set_dictionary w a bytes =
      control o.decoder.capabilities.set_dictionary w a
        (on_decoder w a (o.decoder.set_dictionary bytes))

  -- A header at address 0 is the null pointer.
  unfoldable pub get_header : World D → ℕ → ℕ → ℤ × World D
  get_header w a header =
      if header == 0
      then (inflate_stream_error, w)
      else control o.decoder.capabilities.get_header w a
          (on_decoder w a (o.decoder.get_header header))

  unfoldable pub prime : World D → ℕ → ℤ → ℤ → ℤ × World D
  prime w a bits value =
      control o.decoder.capabilities.prime w a (on_decoder w a (o.decoder.prime bits value))

  abbrev pub by_decoder : World D → ℕ → (D → ℤ) → OwnedState D → ℤ × World D
  by_decoder w a f st = (f st.decoder, put_state w a st)

  unfoldable pub mark : World D → ℕ → ℤ × World D
  mark w a = control o.decoder.capabilities.mark w a (by_decoder w a o.decoder.mark)

  unfoldable pub sync_state : World D → ℕ → OwnedState D → ℤ × World D
  sync_state w a st =
      let (result, mirror, s', mem', d') =
        invoke o.sums st.mirror (w.streams a) w.memory st.decoder o.decoder.sync
          (λ r view m. if eq_ℤ r inflate_ok then after_sync view.adler m else m) (λ d. false)
          false in
      (result, put_both w a (record st { mirror = mirror; decoder = d' }) s' mem')

  unfoldable pub sync : World D → ℕ → ℤ × World D
  sync w a = control o.decoder.capabilities.sync w a (sync_state w a)

  unfoldable pub sync_point : World D → ℕ → ℤ × World D
  sync_point w a =
      control o.decoder.capabilities.sync_point w a (by_decoder w a o.decoder.sync_point)

  unfoldable pub undermine : World D → ℕ → ℤ → ℤ × World D
  undermine w a allow =
      control o.decoder.capabilities.undermine w a (on_decoder w a (o.decoder.undermine allow))

  -- One entry point on the stream at `a`.
  unfoldable pub serve : World D → ℕ → Request → ℤ × World D
  serve w a (inflate_request flush) = inflate o w a flush
  serve w a reset_request = reset o w a
  serve w a (reset2_request window_bits) = reset2 o w a window_bits
  serve w a reset_keep_request = reset_keep o w a
  serve w a end_request = end o w a
  serve w a (set_dictionary_request bytes) = set_dictionary w a bytes
  serve w a (get_header_request header) = get_header w a header
  serve w a (prime_request bits value) = prime w a bits value
  serve w a mark_request = mark w a
  serve w a sync_request = sync w a
  serve w a sync_point_request = sync_point w a
  serve w a (undermine_request allow) = undermine w a allow
  serve w a (init_request version size fresh) = init o w a version size fresh
  serve w a (init2_request window_bits version size fresh) =
      init2 o w a window_bits version size fresh
  serve w a (copy_request source fresh) = copy o w a source fresh
