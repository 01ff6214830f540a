-- ===== src/Telemetry/Profile/Accounts.antt =====
-- The ledgers of all captures through the calls of producers.
use addictol.Base.{
  get_elem?, remove_at, remove_at-none, count_if-remove_at, ℕ, ◌+◌, ◌<◌, ◌≡◌, inl, inr, sym, subst,
  Bool, true, false, List, ◌∷◌, Option, none, some, Option-cases, ◌==◌, u64_mod, count_if, arith,
  if◌then◌else◌,
}
use addictol.Telemetry.Profile.{Quality, Source, CaptureState, Token}
use addictol.Telemetry.Profile.Producer.{publish}
use addictol.Telemetry.Profile.Ledger.{
  IsBalanced, is_ending, ended, ended-IsBalanced, admitted, admitted-IsBalanced, same-IsSameLedger,
  same-IsBalanced,
}
use addictol.Telemetry.Profile.Effects.{Effect, Ends, publish_token-Ends}
use addictol.Telemetry.Profile.Runs.{live_token}

-- The live operations of capture `c`.
abbrev pub live_of : ℕ → List Token → ℕ
live_of c ts = count_if (λ (t : Token). c == t.capture) ts

-- Every capture is balanced, with at most `most` sampled operations.
abbrev pub IsAccounted : ℕ → List Token → (ℕ → CaptureState) → Type 0
IsAccounted most live f = (c : ℕ) → IsBalanced most (live_of c live) (f c)

admitted-if :
    (most live : ℕ) (b : Bool) (x : CaptureState)
    → most + 1 < u64_mod
    → IsBalanced most live x
    → IsBalanced (most + 1) ((if b then 1 else 0) + live) (if b then admitted x else x)
admitted-if most live true x small h =
    subst (λ k. IsBalanced (most + 1) k (admitted x)) (omega arith)
      (admitted-IsBalanced most live x small h)
admitted-if most live false x small h =
    subst (λ k. IsBalanced (most + 1) k x) (omega arith)
      (same-IsBalanced most (most + 1) live x x (omega arith) (same-IsSameLedger x) h)

ended-if :
    (most live : ℕ) (b : Bool) (q : Quality) (x : CaptureState)
    → is_ending q ≡ true
    → most < u64_mod
    → IsBalanced most ((if b then 1 else 0) + live) x
    → IsBalanced most live (if b then ended q x else x)
ended-if most live true q x e small h =
    ended-IsBalanced q most live x e small (subst (λ k. IsBalanced most k x) (omega arith) h)
ended-if most live false q x e small h = subst (λ k. IsBalanced most k x) (omega arith) h

-- One more call.
pub weaken :
    (most : ℕ) (live : List Token) (f : ℕ → CaptureState)
    → IsAccounted most live f
    → IsAccounted (most + 1) live f
weaken most live f h c =
    same-IsBalanced most (most + 1) (live_of c live) (f c) (f c) (omega arith)
      (same-IsSameLedger (f c)) (h c)

pub Effect-IsAccounted :
    (most : ℕ) (live : List Token) (o : Option Token) (f g : ℕ → CaptureState)
    → most + 1 < u64_mod
    → Effect o f g
    → IsAccounted most live f
    → IsAccounted (most + 1) (live_token o live) g
Effect-IsAccounted most live none f g small e h c =
    same-IsBalanced most (most + 1) (live_of c live) (f c) (g c) (omega arith) (e c) (h c)
Effect-IsAccounted most live (some t) f g small e h c =
    subst (IsBalanced (most + 1) (live_of c (t ∷ live))) (sym (e c))
      (admitted-if most (live_of c live) (c == t.capture) (f c) small (h c))

Ends-IsAccounted :
    (most : ℕ) (live : List Token) (i : ℕ) (t : Token) (f g : ℕ → CaptureState)
    → most + 1 < u64_mod
    → get_elem? live i ≡ some t
    → Ends t.capture f g
    → IsAccounted most live f
    → IsAccounted (most + 1) (remove_at live i) g
Ends-IsAccounted most live i t f g small at (q, ending, e) h =
    weaken most (remove_at live i) g (λ c.
      subst (IsBalanced most (live_of c (remove_at live i))) (sym (e c)) (
        ended-if most (live_of c (remove_at live i)) (c == t.capture) q (f c) ending
          (omega (arith, small))
          (subst (λ k. IsBalanced most k (f c))
            (count_if-remove_at (λ (u : Token). c == u.capture) live i t at) (h c))))

pub publish-IsAccounted :
    (most : ℕ) (live : List Token) (i : ℕ) (contended : Bool) (now size result : ℕ)
    (elapsed : Option ℕ) (s : Source)
    → most + 1 < u64_mod
    → IsAccounted most live s.captures
    → IsAccounted
        (most + 1)
        (remove_at live i)
        (publish contended now (get_elem? live i) size result elapsed s).captures
unfolding publish
publish-IsAccounted most live i contended now size result elapsed s small h =
    elim (Option-cases (get_elem? live i)) [
      | inl e ↦
          subst
            (λ o.
              IsAccounted (most + 1) (remove_at live i)
                (publish contended now o size result elapsed s).captures)
            (sym e)
            (subst (λ l. IsAccounted (most + 1) l s.captures) (sym (remove_at-none live i e))
              (weaken most live s.captures h))
      | inr (t, e) ↦
          subst
            (λ o.
              IsAccounted (most + 1) (remove_at live i)
                (publish contended now o size result elapsed s).captures)
            (sym e)
            (Ends-IsAccounted most live i t s.captures
              (publish contended now (some t) size result elapsed s).captures small e
              (publish_token-Ends contended now t size result elapsed s) h)
    ]
