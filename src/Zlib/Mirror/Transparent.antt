-- ===== src/Zlib/Mirror/Transparent.antt =====
-- What a decoder and a caller see of the byte that is held back.
use addictol.Base.{
  ℕ, ◌+◌, ◌-◌, ◌≤◌, ◌<◌, ◌≡◌, refl, ◌∙◌, Bool, true, false, arith, if◌then◌else◌, u32_mod, add32,
}
use addictol.Base.Int.{ℤ}
use addictol.Zlib.{Stream, Memory, eq_ℤ, inflate_need_dict}
use addictol.Zlib.Mirror.{
  Checksums, Mirror, NativeCall, Adjust, refuses, view_of, holds, return_view, observe_call,
  perform, invoke,
}

-- The two cursors of a stream.
pub record SameCursors (s t : Stream) : Type 0 where
  pub next_in : s.next_in ≡ t.next_in
  pub avail_in : s.avail_in ≡ t.avail_in
  pub total_in : s.total_in ≡ t.total_in
  pub next_out : s.next_out ≡ t.next_out
  pub avail_out : s.avail_out ≡ t.avail_out
  pub total_out : s.total_out ≡ t.total_out

-- The counters are 32-bit words, and the input pointer is not null.
pub record IsWordStream (s : Stream) : Type 0 where
  pub avail_in : s.avail_in < u32_mod
  pub total_in : s.total_in < u32_mod
  pub next_in : 0 < s.next_in

held_when : Bool → ℕ
held_when b = if b then 1 else 0

-- Giving the view back and taking it again changes no cursor.
view_of-return_view :
    (m : Mirror) (s v : Stream) (hold : Bool)
    → IsWordStream v
    → (hold ≡ true → v.avail_in ≡ 0)
    → m.held ≡ (if hold then 1 else 0)
    → SameCursors (view_of m (return_view hold s v)) v
unfolding view_of return_view
view_of-return_view m s v true w drained h = ground (arith, drained refl)
view_of-return_view m s v false w drained h = ground arith

holds-drained :
    (result : ℤ) (m : Mirror) (before after : Stream) (pending : Bool)
    → holds result m before after pending ≡ true
    → after.avail_in ≡ 0
holds-drained result m before after pending h = ground arith

module _ {D : Type 0} (sums : Checksums) where
  -- The stream as the native call leaves it.
  abbrev pub after_call : Mirror → Stream → Memory → D → NativeCall D → Stream
  after_call m s mem d call = (call (view_of m s) mem d).1

  pub invoke-perform :
      (m : Mirror) (s : Stream) (mem : Memory) (d : D) (call : NativeCall D) (adjust : Adjust)
      (pending : D → Bool) (requires_output : Bool)
      → refuses m s requires_output ≡ false
      → invoke sums m s mem d call adjust pending requires_output
        ≡ perform sums m s mem d call adjust pending
  unfolding invoke
  invoke-perform m s mem d call adjust pending requires_output accepted = rw accepted

  perform_transparent :
      (m : Mirror) (s : Stream) (mem : Memory) (d : D) (call : NativeCall D) (adjust : Adjust)
      (pending : D → Bool)
      → IsWordStream (after_call m s mem d call)
      → SameCursors
          (view_of
            (perform sums m s mem d call adjust pending).1
            (perform sums m s mem d call adjust pending).2)
          (after_call m s mem d call)
  unfolding perform
  perform_transparent m s mem d call adjust pending w =
      let (result, after, mem', d') = call (view_of m s) mem d in
      let seen = observe_call sums (adjust result after m) (view_of m s) after mem' in
      let hold = holds result m (view_of m s) after (pending d') in
      let marked : Stream = record after {
        adler = if eq_ℤ result inflate_need_dict then after.adler else seen.checksum;
      } in
      let r : SameCursors
          (view_of (record seen { held = if hold then 1 else 0 }) (return_view hold s marked))
          marked =
        view_of-return_view (record seen { held = if hold then 1 else 0 }) s marked hold
          (record { avail_in = w.avail_in; total_in = w.total_in; next_in = w.next_in })
          (holds-drained result m (view_of m s) after (pending d')) refl in
      record {
        next_in = r.next_in;
        avail_in = r.avail_in;
        total_in = r.total_in;
        next_out = r.next_out;
        avail_out = r.avail_out;
        total_out = r.total_out;
      }

  -- Unless Invoke refuses the stream, the view that the next call of the native decoder starts from
  -- has the cursors and counters that the last call left, whether or not a byte is held back, if
  -- that call leaves counters below 2 ^ 32 and an input pointer that is not null.
  pub invoke_transparent :
      (m : Mirror) (s : Stream) (mem : Memory) (d : D) (call : NativeCall D) (adjust : Adjust)
      (pending : D → Bool) (requires_output : Bool)
      → refuses m s requires_output ≡ false
      → IsWordStream (after_call m s mem d call)
      → SameCursors
          (view_of
            (invoke sums m s mem d call adjust pending requires_output).1
            (invoke sums m s mem d call adjust pending requires_output).2)
          (after_call m s mem d call)
  invoke_transparent m s mem d call adjust pending requires_output accepted w =
      rw (invoke-perform m s mem d call adjust pending requires_output accepted)
        (perform_transparent m s mem d call adjust pending w)

  perform_keeps_end :
      (m : Mirror) (s : Stream) (mem : Memory) (d : D) (call : NativeCall D) (adjust : Adjust)
      (pending : D → Bool)
      → IsWordStream (after_call m s mem d call)
      → ((perform sums m s mem d call adjust pending).2.next_in
            + (perform sums m s mem d call adjust pending).2.avail_in
          ≡ (after_call m s mem d call).next_in + (after_call m s mem d call).avail_in)
        × ((perform sums m s mem d call adjust pending).1.held ≤ 1)
        × ((perform sums m s mem d call adjust pending).1.held
            ≤ (perform sums m s mem d call adjust pending).2.avail_in)
  unfolding perform return_view
  perform_keeps_end m s mem d call adjust pending w =
      let (result, after, mem', d') = call (view_of m s) mem d in
      let hold = holds result m (view_of m s) after (pending d') in
      returned hold (holds-drained result m (view_of m s) after (pending d'))
    where
      after : Stream
      after = after_call m s mem d call

      returned :
          (hold : Bool)
          → (hold ≡ true → after.avail_in ≡ 0)
          → ((if hold then after.next_in - 1 else after.next_in)
                + (if hold then add32 after.avail_in 1 else after.avail_in)
              ≡ after.next_in + after.avail_in)
            × ((if hold then 1 else 0) ≤ 1)
            × ((if hold then 1 else 0) ≤ (if hold then add32 after.avail_in 1 else after.avail_in))
      returned true drained = let z = drained refl in ground (arith, w.next_in)
      returned false drained = ground arith

  -- Unless Invoke refuses the stream, it keeps the end of the input where it is, holds at most one
  -- byte, and then offers that byte to the caller again, if the stream's count of input is below 2
  -- ^ 32, the native call keeps the end of the input it is given, and leaves counters below 2 ^ 32
  -- and an input pointer that is not null.
  pub invoke_keeps_end :
      (m : Mirror) (s : Stream) (mem : Memory) (d : D) (call : NativeCall D) (adjust : Adjust)
      (pending : D → Bool) (requires_output : Bool)
      → refuses m s requires_output ≡ false
      → s.avail_in < u32_mod
      → IsWordStream (after_call m s mem d call)
      → (after_call m s mem d call).next_in + (after_call m s mem d call).avail_in
        ≡ (view_of m s).next_in + (view_of m s).avail_in
      → ((invoke sums m s mem d call adjust pending requires_output).2.next_in
            + (invoke sums m s mem d call adjust pending requires_output).2.avail_in
          ≡ s.next_in + s.avail_in)
        × ((invoke sums m s mem d call adjust pending requires_output).1.held ≤ 1)
        × ((invoke sums m s mem d call adjust pending requires_output).1.held
            ≤ (invoke sums m s mem d call adjust pending requires_output).2.avail_in)
  invoke_keeps_end m s mem d call adjust pending requires_output accepted word w step =
      let k = perform_keeps_end m s mem d call adjust pending w in
      rw (invoke-perform m s mem d call adjust pending requires_output accepted)
        (k.0 ∙ step ∙ unfold view_of in ground (arith, accepted), k.1, k.2)
