-- ===== src/Zlib/Owned/Isolation.antt =====
-- Streams that are not ours, and other streams.
use addictol.Base.{
  if_both, update_at, Bool-cases, Option, ◌&&◌, ℕ, ◌≡◌, ◌≢◌, refl, sym, ap, ◌∙◌, inl, inr, Bool,
  true, false, none, some, arith, Option-cases, ◌==◌, ◌||◌, not, subst, if◌then◌else◌,
}
use addictol.Base.Text.{Text}
use addictol.Base.Int.{ℤ, pos}
use addictol.Zlib.{Stream, Memory, eq_ℤ, inflate_ok, inflate_stream_error}
use addictol.Zlib.Owned.{OwnedState, native_operation, is_done}
use addictol.Zlib.Owned.Entries.{
  World, Instance, Cell, tagged, untagged, find_state, owned_at, with_state, with_state-none,
  with_state-some, put_state, put_both, inflate, inflate_state, bad_request, decide, stream_on,
  after_reset, reset, reset_state, reset2, reset2_state, reset_keep, reset_keep_state, end,
  end_state, version_matches, init, init2, init_view, copy, copy_state,
}
use addictol.Zlib.Owned.Controls.{
  Request, inflate_request, reset2_request, undermine_request, reset_request, reset_keep_request,
  end_request, mark_request, sync_request, sync_point_request, set_dictionary_request,
  get_header_request, prime_request, control, control_state, set_dictionary, get_header, prime,
  mark, sync, sync_state, sync_point, undermine, serve, init_request, init2_request, copy_request,
  is_init, allocation, subject,
}

module _ {D : Type 0} (o : Instance D) where
  refused_by :
      (w : World D) (a : ℕ) (f : OwnedState D → ℤ × World D)
      → find_state w o.identity a ≡ none
      → with_state o w a f ≡ (inflate_stream_error, w)
  refused_by w a f missing = with_state-none o w a f missing

  control_refused :
      (supported : Bool) (w : World D) (a : ℕ) (f : OwnedState D → ℤ × World D)
      → find_state w o.identity a ≡ none
      → control o supported w a f ≡ (inflate_stream_error, w)
  unfolding control
  control_refused true w a f missing = with_state-none o w a _ missing
  control_refused false w a f missing = refl

  -- Every entry point but Init and Init2, called on a stream without a state of this
  -- implementation, for Copy from a source without one, answers INFLATE_STREAM_ERROR and changes
  -- nothing.
  pub serve_unowned :
      (w : World D) (a : ℕ) (r : Request)
      → is_init r ≡ false
      → find_state w o.identity (subject a r) ≡ none
      → serve o w a r ≡ (inflate_stream_error, w)
  unfolding serve inflate reset reset2 reset_keep end set_dictionary get_header prime mark sync
      sync_point undermine copy
  serve_unowned w a (inflate_request flush) c h = refused_by w a _ h
  serve_unowned w a reset_request c h = refused_by w a _ h
  serve_unowned w a (reset2_request bits) c h = refused_by w a _ h
  serve_unowned w a reset_keep_request c h =
      if_both (λ (x : ℤ × World D). x ≡ (inflate_stream_error, w)) o.decoder.capabilities.reset_keep
        _ _ (refused_by w a _ h) refl
  serve_unowned w a end_request c h = refused_by w a _ h
  serve_unowned w a (set_dictionary_request bytes) c h = control_refused _ w a _ h
  serve_unowned w a (get_header_request header) c h =
      if_both (λ (x : ℤ × World D). x ≡ (inflate_stream_error, w)) (header == 0) _ _ refl
        (control_refused _ w a _ h)
  serve_unowned w a (prime_request bits value) c h = control_refused _ w a _ h
  serve_unowned w a mark_request c h = control_refused _ w a _ h
  serve_unowned w a sync_request c h = control_refused _ w a _ h
  serve_unowned w a sync_point_request c h = control_refused _ w a _ h
  serve_unowned w a (undermine_request allow) c h = control_refused _ w a _ h
  serve_unowned w a (init_request version size fresh) c h = cc
  serve_unowned w a (init2_request bits version size fresh) c h = cc
  serve_unowned w a (copy_request source fresh) c h =
      if_both (λ (x : ℤ × World D). x ≡ (inflate_stream_error, w))
        (o.decoder.capabilities.copy && not (a == 0)) _ _ (refused_by w source _ h) refl

-- Whether the entry point calls `new`.
abbrev allocates : Request → Bool
allocates (init_request version size fresh) = true
allocates (init2_request bits version size fresh) = true
allocates (copy_request source fresh) = true
allocates _ = false

-- A block that `new` gives holds no state.
abbrev pub IsFree : {D : Type 0} → World D → Option ℕ → Type 0
IsFree w none = Unit
IsFree w (some at) = w.heap at ≡ untagged

untagged-tagged : {D : Type 0} (st : OwnedState D) → untagged ≢ tagged st
untagged-tagged st e = cc

-- Only the stream at `a` and the block behind it may differ.
abbrev pub IsLocal : {D : Type 0} → World D → ℕ → World D → Type 0
IsLocal w a w' =
    ((b : ℕ) → b ≢ a → w'.streams b ≡ w.streams b)
    × ((p : ℕ) → p ≢ (w.streams a).state → w'.heap p ≡ w.heap p)

ne_test : (p q : ℕ) → p ≢ q → (p == q) ≡ false
ne_test p q h = ground arith

module _ {D : Type 0} where
  same-IsLocal : (w : World D) (a : ℕ) → IsLocal w a w
  same-IsLocal w a = (λ b h. refl, λ p h. refl)

  put_state-IsLocal : (w : World D) (a : ℕ) (st : OwnedState D) → IsLocal w a (put_state w a st)
  unfolding put_state
  put_state-IsLocal w a st = (λ b h. refl, λ p h. rw (ne_test p (w.streams a).state h))

  put_both-IsLocal :
      (w : World D) (a : ℕ) (st : OwnedState D) (s : Stream) (mem : Memory)
      → IsLocal w a (put_both w a st s mem)
  unfolding put_both
  put_both-IsLocal w a st s mem =
      (λ b h. rw (ne_test b a h), λ p h. rw (ne_test p (w.streams a).state h))

abbrev owner_of : {D : Type 0} → Cell D → ℕ
owner_of untagged = 0
owner_of (tagged st) = st.owner

module _ {D : Type 0} (o : Instance D) where
  abbrev Local : World D → ℕ → ℤ × World D → Type 0
  Local w a r = IsLocal w a r.1

  with_state-IsLocal :
      (w : World D) (a : ℕ) (f : OwnedState D → ℤ × World D)
      → ((st : OwnedState D) → Local w a (f st))
      → Local w a (with_state o w a f)
  with_state-IsLocal w a f h = elim (Option-cases (find_state w o.identity a)) [
    | inl e ↦ subst (Local w a) (sym (with_state-none o w a f e)) (same-IsLocal w a)
    | inr (st, e) ↦ subst (Local w a) (sym (with_state-some o w a f e)) (h st)
  ]

  control-IsLocal :
      (supported : Bool) (w : World D) (a : ℕ) (f : OwnedState D → ℤ × World D)
      → ((st : OwnedState D) → Local w a (f st))
      → Local w a (control o supported w a f)
  unfolding control control_state
  control-IsLocal true w a f h = with_state-IsLocal w a (control_state o w a f) λ st.
      if_both (Local w a) (native_operation st).1 _ _ (h (native_operation st).0) (same-IsLocal w a)
  control-IsLocal false w a f h = same-IsLocal w a

  after_reset-IsLocal :
      (w : World D) (a : ℕ) (st : OwnedState D) (result : ℤ)
      → Local w a (after_reset o w a st result)
  after_reset-IsLocal w a st result =
      if_both (Local w a) (eq_ℤ result inflate_ok) _ _ (put_both-IsLocal w a _ _ w.memory)
        (put_state-IsLocal w a st)

  inflate_state-IsLocal :
      (w : World D) (a : ℕ) (flush : ℤ) (st : OwnedState D)
      → Local w a (inflate_state o w a st flush)
  unfolding inflate_state stream_on
  inflate_state-IsLocal w a flush st =
      let (st', s', mem') = decide o st (w.streams a) w.memory flush in
      if_both (Local w a) (bad_request o (w.streams a) flush) _ _ (same-IsLocal w a) (
        if_both (Local w a) (is_done st'.policy) _ _ (put_both-IsLocal w a st' s' mem')
          (put_both-IsLocal w a _ _ _))

  reset_keep_state-IsLocal :
      (w : World D) (a : ℕ) (st : OwnedState D) → Local w a (reset_keep_state o w a st)
  unfolding reset_keep_state
  reset_keep_state-IsLocal w a st =
      let (native, ours) = native_operation st in
      let (result, d) = o.decoder.reset_keep native.decoder in
      if_both (Local w a) (not ours) _ _ (same-IsLocal w a) (
        if_both (Local w a) (eq_ℤ result inflate_ok) _ _ (put_both-IsLocal w a _ _ w.memory)
          (put_state-IsLocal w a _))

  end_state-IsLocal : (w : World D) (a : ℕ) (st : OwnedState D) → Local w a (end_state o w a st)
  unfolding end_state
  end_state-IsLocal w a st =
      (λ b h. rw (ne_test b a h), λ p h. rw (ne_test p (w.streams a).state h))

  serve-IsLocal :
      (w : World D) (a : ℕ) (r : Request) → allocates r ≡ false → Local w a (serve o w a r)
  unfolding serve inflate reset reset_state reset2 reset2_state reset_keep end set_dictionary
      get_header prime mark sync sync_state sync_point undermine
  serve-IsLocal w a (inflate_request flush) c =
      with_state-IsLocal w a _ (inflate_state-IsLocal w a flush)
  serve-IsLocal w a reset_request c =
      with_state-IsLocal w a _ (λ st. after_reset-IsLocal w a _ (o.decoder.reset st.decoder).0)
  serve-IsLocal w a (reset2_request bits) c =
      with_state-IsLocal w a _
        (λ st. after_reset-IsLocal w a _ (o.decoder.reset2 bits st.decoder).0)
  serve-IsLocal w a reset_keep_request c =
      if_both (Local w a) o.decoder.capabilities.reset_keep _ _
        (with_state-IsLocal w a _ (reset_keep_state-IsLocal w a)) (same-IsLocal w a)
  serve-IsLocal w a end_request c = with_state-IsLocal w a _ (end_state-IsLocal w a)
  serve-IsLocal w a (set_dictionary_request bytes) c =
      control-IsLocal _ w a _ (λ st. put_state-IsLocal w a _)
  serve-IsLocal w a (get_header_request header) c =
      if_both (Local w a) (header == 0) _ _ (same-IsLocal w a)
        (control-IsLocal _ w a _ (λ st. put_state-IsLocal w a _))
  serve-IsLocal w a (prime_request bits value) c =
      control-IsLocal _ w a _ (λ st. put_state-IsLocal w a _)
  serve-IsLocal w a mark_request c = control-IsLocal _ w a _ (λ st. put_state-IsLocal w a st)
  serve-IsLocal w a sync_request c = control-IsLocal _ w a _ (λ st. put_both-IsLocal w a _ _ _)
  serve-IsLocal w a sync_point_request c = control-IsLocal _ w a _ (λ st. put_state-IsLocal w a st)
  serve-IsLocal w a (undermine_request allow) c =
      control-IsLocal _ w a _ (λ st. put_state-IsLocal w a _)
  serve-IsLocal w a (init_request version size fresh) c = cc
  serve-IsLocal w a (init2_request bits version size fresh) c = cc
  serve-IsLocal w a (copy_request source fresh) c = cc

  -- What Find says when it finds a state.
  found-owner :
      (w : World D) (a : ℕ) (st : OwnedState D)
      → find_state w o.identity a ≡ some st
      → (w.heap (w.streams a).state ≡ tagged st) × (st.owner ≡ a)
  unfolding find_state
  found-owner w a st h = ground arith

  apart :
      (w : World D) (a b : ℕ) (sa sb : OwnedState D)
      → b ≢ a
      → find_state w o.identity a ≡ some sa
      → find_state w o.identity b ≡ some sb
      → (w.streams b).state ≢ (w.streams a).state
  apart w a b sa sb ne ha hb same =
      let (ca, oa) = found-owner w a sa ha in
      let (cb, ob) = found-owner w b sb hb in
      let cells : tagged sb ≡ tagged sa = sym cb ∙ ap w.heap same ∙ ca in
      ne (sym ob ∙ ap owner_of cells ∙ oa)

  find_state-same :
      (w w' : World D) (b : ℕ)
      → w'.streams b ≡ w.streams b
      → w'.heap (w.streams b).state ≡ w.heap (w.streams b).state
      → find_state w' o.identity b ≡ find_state w o.identity b
  unfolding find_state
  find_state-same w w' b hs hp =
      let at : w'.heap (w'.streams b).state ≡ w.heap (w.streams b).state =
        ap (λ (s : Stream). w'.heap s.state) hs ∙ hp in
      let cell =
        ap
          (λ (c : Cell D).
            if b == 0 || (w'.streams b).state == 0 then none else owned_at c b o.identity)
          at in
      cell
      ∙ ap
          (λ (s : Stream).
            if b == 0 || s.state == 0
            then none
            else owned_at (w.heap (w.streams b).state) b o.identity)
          hs

  serve_unlocated :
      (w : World D) (a : ℕ) (r : Request)
      → allocates r ≡ false
      → find_state w o.identity a ≡ none
      → serve o w a r ≡ (inflate_stream_error, w)
  serve_unlocated w a r c h =
      serve_unowned o w a r (unallocated r c).0
        (subst (λ x. find_state w o.identity x ≡ none) (sym (unallocated r c).1) h)
    where
      unallocated : (r : Request) → allocates r ≡ false → (is_init r ≡ false) × (subject a r ≡ a)
      unallocated (init_request version size fresh) e = cc
      unallocated (init2_request bits version size fresh) e = cc
      unallocated (copy_request source fresh) e = cc
      unallocated _ e = (refl, refl)

  -- The stream at `b` and what Find gives for it are as before.
  abbrev Keeps : World D → ℕ → ℤ × World D → Type 0
  Keeps w b r =
      (r.1.streams b ≡ w.streams b) × (find_state r.1 o.identity b ≡ find_state w o.identity b)

  local-Keeps :
      (w : World D) (a b : ℕ) (r : Request) (sb : OwnedState D)
      → b ≢ a
      → allocates r ≡ false
      → find_state w o.identity b ≡ some sb
      → Keeps w b (serve o w a r)
  local-Keeps w a b r sb ne c hb = elim (Option-cases (find_state w o.identity a)) [
    | inl e ↦ subst (Keeps w b) (sym (serve_unlocated w a r c e)) (refl, refl)
    | inr (sa, ha) ↦
        let (streams, heap) = serve-IsLocal w a r c in
        let kept = heap (w.streams b).state (apart w a b sa sb ne ha hb) in
        (streams b ne, find_state-same w (serve o w a r).1 b (streams b ne) kept)
  ]

  -- A new state stands in a block that was none.
  written-Keeps :
      (w : World D) (a b at : ℕ) (st sb : OwnedState D) (s : Stream) (result : ℤ)
      → b ≢ a
      → w.heap at ≡ untagged
      → find_state w o.identity b ≡ some sb
      → Keeps w b (
        result,
        record w { heap = update_at w.heap at (tagged st); streams = update_at w.streams a s },
      )
  written-Keeps w a b at st sb s result ne free hb =
      let cell = (found-owner w b sb hb).0 in
      let w' : World D = record w {
        heap = update_at w.heap at (tagged st);
        streams = update_at w.streams a s;
      } in
      let other : (w.streams b).state ≢ at =
        λ e. untagged-tagged sb (sym free ∙ ap w.heap (sym e) ∙ cell) in
      let streams : w'.streams b ≡ w.streams b = rw (ne_test b a ne) refl in
      let heap : w'.heap (w.streams b).state ≡ w.heap (w.streams b).state =
        rw (ne_test (w.streams b).state at other) refl in
      (streams, find_state-same w w' b streams heap)

  init2-Keeps :
      (w : World D) (a b : ℕ) (bits : ℤ) (version : Option Text) (size : ℕ) (fresh : Option ℕ)
      (sb : OwnedState D)
      → b ≢ a
      → IsFree w fresh
      → find_state w o.identity b ≡ some sb
      → Keeps w b (init2 o w a bits version size fresh)
  unfolding init2 init_view
  init2-Keeps w a b bits version size none sb ne free hb =
      if_both (Keeps w b) (not (version_matches o version) || not (size == 0x58)) _ _ (refl, refl)
        (if_both (Keeps w b) (a == 0) _ _ (refl, refl) (refl, refl))
  init2-Keeps w a b bits version size (some at) sb ne free hb =
      if_both (Keeps w b) (not (version_matches o version) || not (size == 0x58)) _ _ (refl, refl)
        (if_both (Keeps w b) (a == 0) _ _ (refl, refl)
          (if_both (Keeps w b) (eq_ℤ (o.decoder.init bits).0 inflate_ok) _ _
            (written-Keeps w a b at _ sb _ inflate_ok ne free hb) (refl, refl)))

  copy_state-Keeps :
      (w : World D) (a b source : ℕ) (fresh : Option ℕ) (st sb : OwnedState D)
      → b ≢ a
      → IsFree w fresh
      → find_state w o.identity b ≡ some sb
      → Keeps w b (copy_state o w a source fresh st)
  unfolding copy_state
  copy_state-Keeps w a b source none st sb ne free hb = (refl, refl)
  copy_state-Keeps w a b source (some at) st sb ne free hb =
      if_both (Keeps w b) (eq_ℤ (o.decoder.copy st.decoder).0 inflate_ok) _ _
        (written-Keeps w a b at _ sb _ inflate_ok ne free hb) (refl, refl)

  copy-Keeps :
      (w : World D) (a b source : ℕ) (fresh : Option ℕ) (sb : OwnedState D)
      → b ≢ a
      → IsFree w fresh
      → find_state w o.identity b ≡ some sb
      → Keeps w b (copy o w a source fresh)
  unfolding copy
  copy-Keeps w a b source fresh sb ne free hb =
      if_both (Keeps w b) (o.decoder.capabilities.copy && not (a == 0)) _ _
        (elim (Option-cases (find_state w o.identity source)) [
          | inl e ↦ subst (Keeps w b) (sym (with_state-none o w source _ e)) (refl, refl)
          | inr (st, e) ↦
              subst (Keeps w b) (sym (with_state-some o w source _ e))
                (copy_state-Keeps w a b source fresh st sb ne free hb)
        ])
        (refl, refl)

  new-Keeps :
      (w : World D) (a b : ℕ) (r : Request) (sb : OwnedState D)
      → b ≢ a
      → allocates r ≡ true
      → IsFree w (allocation r)
      → find_state w o.identity b ≡ some sb
      → Keeps w b (serve o w a r)
  unfolding serve init
  new-Keeps w a b (init_request version size fresh) sb ne e free hb =
      init2-Keeps w a b (pos 15) version size fresh sb ne free hb
  new-Keeps w a b (init2_request bits version size fresh) sb ne e free hb =
      init2-Keeps w a b bits version size fresh sb ne free hb
  new-Keeps w a b (copy_request source fresh) sb ne e free hb =
      copy-Keeps w a b source fresh sb ne free hb
  new-Keeps w a b _ sb ne e free hb = cc

  serve-Keeps :
      (w : World D) (a b : ℕ) (r : Request) (sb : OwnedState D)
      → b ≢ a
      → IsFree w (allocation r)
      → find_state w o.identity b ≡ some sb
      → Keeps w b (serve o w a r)
  serve-Keeps w a b r sb ne free hb = elim (Bool-cases (allocates r)) [
    | inl e ↦ new-Keeps w a b r sb ne e free hb
    | inr e ↦ local-Keeps w a b r sb ne e hb
  ]

  -- A call of any of the fifteen entry points leaves every owned stream other than the one that it
  -- is called on, for Copy the destination, and the state behind it as they are, if the block that
  -- `new` gives to Init, Init2 or Copy holds no state.
  pub serve_keeps_others :
      (w : World D) (a b : ℕ) (r : Request) (sb : OwnedState D)
      → b ≢ a
      → IsFree w (allocation r)
      → find_state w o.identity b ≡ some sb
      → ((serve o w a r).1.streams b ≡ w.streams b)
        × (find_state (serve o w a r).1 o.identity b ≡ some sb)
  serve_keeps_others w a b r sb ne free hb =
      let (streams, states) = serve-Keeps w a b r sb ne free hb in (streams, states ∙ hb)
