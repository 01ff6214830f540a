-- ===== src/Zlib/Mirror/Header.antt =====
-- The header may come in any pieces.
use addictol.Base.{◌≡◌, refl, true, inl, inr, List, ℕ, [], ◌∷◌, ◌++◌, arith, Bool-cases, ◌==◌}
use addictol.Zlib.Mirror.{Mirror, observe_loop, observe_header, store_header}

observe_loop-append :
    (m : Mirror) (xs ys : List ℕ)
    → m.auto ≡ true
    → observe_header (observe_loop m xs) ys ≡ observe_loop m (xs ++ ys)
unfolding observe_header
observe_loop-append m [] ys h = rw h
observe_loop-append m (x ∷ xs) ys h = elim (Bool-cases ((store_header m x).header_size == 2)) [
  | inl e ↦ rw (e, observe_loop) refl
  | inr e ↦
      rw (e, observe_loop)
        (observe_loop-append (store_header m x) xs ys (unfold store_header in ground (arith, h)))
]

-- Consumed input that is observed in two pieces leaves the mirror as if it were observed at once.
pub observe_header-append :
    (m : Mirror) (xs ys : List ℕ)
    → observe_header (observe_header m xs) ys ≡ observe_header m (xs ++ ys)
unfolding observe_header
observe_header-append m xs ys = elim (Bool-cases m.auto) [
  | inl e ↦ simp e (observe_loop-append m xs ys e)
  | inr e ↦ simp e
]
