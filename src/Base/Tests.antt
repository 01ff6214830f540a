-- ===== src/Base/Tests.antt =====
-- Boolean tests on the native numbers, the conditional, and splits on computed values.
use Prim.Native.Nat.{ℕ, ◌≤◌, ◌<◌, compare, Ordering}
use mathlib.Core.Path.{◌≡◌, refl, sym, subst}
use mathlib.Core.Logic.{◌≢◌, ◌↔◌, ◌⊎◌, inl, inr}
use mathlib.Core.Bool.{Bool, true, false}
use mathlib.Core.Option.{Option, none, some}
use native.Mathlib.Omega.{arith}

abbrev pub ltb : ℕ → ℕ → Bool
ltb a b = elim (compare a b) [ Ordering.lt ↦ true | _ ↦ false ]

abbrev pub leb : ℕ → ℕ → Bool
leb a b = elim (compare a b) [ Ordering.gt ↦ false | _ ↦ true ]

infix 50 ◌==◌
abbrev pub ◌==◌ : ℕ → ℕ → Bool
a == b = elim (compare a b) [ Ordering.eq ↦ true | _ ↦ false ]

infix 1 if◌then◌else◌
abbrev pub if◌then◌else◌ {ℓ} : {A : Type ℓ} → Bool → A → A → A
if true then x else y = x
if false then x else y = y

pub ltb→lt : (a b : ℕ) → ltb a b ≡ true → a < b
ltb→lt a b h = ground arith

pub lt→ltb : (a b : ℕ) → a < b → ltb a b ≡ true
lt→ltb a b h = ground arith

pub leb→le : (a b : ℕ) → leb a b ≡ true → a ≤ b
leb→le a b h = ground arith

pub ==_iff : (a b : ℕ) → ((a == b) ≡ true) ↔ (a ≡ b)
==_iff a b = ground arith

pub ==_refl : (a : ℕ) → (a == a) ≡ true
==_refl a = ground arith

pub Bool-cases : (b : Bool) → (b ≡ true) ⊎ (b ≡ false)
Bool-cases true = inl refl
Bool-cases false = inr refl

pub Option-cases {ℓ} : {A : Type ℓ} (o : Option A) → (o ≡ none) ⊎ ((a : A) × (o ≡ some a))
Option-cases none = inl refl
Option-cases (some a) = inr (a, refl)

abbrev pub is_some {ℓ} : {A : Type ℓ} → Option A → Bool
is_some none = false
is_some (some a) = true

-- What holds of both branches holds of the conditional.
pub if_both {ℓ κ} :
    {A : Type ℓ} (P : A → Type κ) (b : Bool) (x y : A) → P x → P y → P (if b then x else y)
if_both P true x y p q = p
if_both P false x y p q = q

-- The function with its value at one point replaced.
abbrev pub update_at {ℓ} : {A : Type ℓ} → (ℕ → A) → ℕ → A → ℕ → A
update_at f p v q = if q == p then v else f q

pub update_at-same {ℓ} : {A : Type ℓ} (f : ℕ → A) (p : ℕ) (v : A) → update_at f p v p ≡ v
update_at-same f p v = ground arith

pub update_at-other {ℓ} :
    {A : Type ℓ} (f : ℕ → A) (p : ℕ) (v : A) (q : ℕ) → q ≢ p → update_at f p v q ≡ f q
update_at-other f p v q h = ground arith

-- What holds of the new value and of the old ones holds of every value.
pub update_at_both {ℓ κ} :
    {A : Type ℓ} (P : ℕ → A → Type κ) (f : ℕ → A) (p : ℕ) (v : A) (q : ℕ)
    → P p v
    → P q (f q)
    → P q (update_at f p v q)
update_at_both P f p v q new old = elim (Bool-cases (q == p)) [
  | inl e ↦
      subst (λ x. P x (update_at f p v x)) (sym ((==_iff q p).0 e))
        (subst (P p) (sym (update_at-same f p v)) new)
  | inr e ↦ subst (P q) (sym (update_at-other f p v q (λ h. ground arith))) old
]

-- Two changes of the value at one point.
pub update_at-twice {ℓ} :
    {A : Type ℓ} (f : ℕ → A) (p : ℕ) (g h : A → A) (q : ℕ)
    → update_at (update_at f p (h (f p))) p (g (update_at f p (h (f p)) p)) q
      ≡ (if q == p then g (h (f q)) else f q)
update_at-twice f p g h q = ground arith

-- The same, where each branch may use how the test came out.
pub if_cases {ℓ κ} :
    {A : Type ℓ} (P : A → Type κ) (b : Bool) (x y : A)
    → (b ≡ true → P x)
    → (b ≡ false → P y)
    → P (if b then x else y)
if_cases P true x y p q = p refl
if_cases P false x y p q = q refl
