-- ===== src/Base/Lists.antt =====
-- Lists measured and indexed by native numbers, under the library's names, and predicates on lists.
use Prim.Native.Nat.{ℕ, zero, suc, ◌+◌, ◌-◌, ◌≤◌, min}
use mathlib.Core.Path.{◌≡◌, refl, ap, subst}
use mathlib.Core.Bool.{Bool, false}
use mathlib.Core.List.{List, [], ◌∷◌, ◌++◌, map}
use mathlib.Core.Option.{Option, none, some, some-injective}
use native.Mathlib.Omega.{arith}
use addictol.Base.Tests.{if◌then◌else◌}

module _ {ℓ} {A : Type ℓ} where
  abbrev pub length : List A → ℕ
  length [] = 0
  length (x ∷ xs) = suc (length xs)

  abbrev pub get_elem? : List A → ℕ → Option A
  get_elem? [] i = none
  get_elem? (x ∷ xs) zero = some x
  get_elem? (x ∷ xs) (suc i) = get_elem? xs i

  abbrev pub get_or : List A → ℕ → A → A
  get_or [] i d = d
  get_or (x ∷ xs) zero d = x
  get_or (x ∷ xs) (suc i) d = get_or xs i d

  -- A write out of bounds changes nothing.
  abbrev pub set : List A → ℕ → A → List A
  set [] i v = []
  set (x ∷ xs) zero v = v ∷ xs
  set (x ∷ xs) (suc i) v = x ∷ set xs i v

  abbrev pub remove_at : List A → ℕ → List A
  remove_at [] i = []
  remove_at (x ∷ xs) zero = xs
  remove_at (x ∷ xs) (suc i) = x ∷ remove_at xs i

  abbrev pub take : ℕ → List A → List A
  take zero xs = []
  take (suc n) [] = []
  take (suc n) (x ∷ xs) = x ∷ take n xs

  abbrev pub drop : ℕ → List A → List A
  drop zero xs = xs
  drop (suc n) [] = []
  drop (suc n) (x ∷ xs) = drop n xs

  abbrev pub replicate : ℕ → A → List A
  replicate zero a = []
  replicate (suc n) a = a ∷ replicate n a

  -- The elements that pass a Boolean test.
  abbrev pub keep : (A → Bool) → List A → List A
  keep p [] = []
  keep p (x ∷ xs) = if p x then x ∷ keep p xs else keep p xs

  -- How many elements pass a Boolean test.
  abbrev pub count_if : (A → Bool) → List A → ℕ
  count_if p [] = 0
  count_if p (x ∷ xs) = (if p x then 1 else 0) + count_if p xs

  abbrev pub All {κ} : (A → Type κ) → List A → Type κ
  All P [] = Unit
  All P (x ∷ xs) = P x × All P xs

  pub append_nil : (xs : List A) → xs ++ [] ≡ xs
  append_nil [] = refl
  append_nil (x ∷ xs) = ap (λ (l : List A). x ∷ l) (append_nil xs)

  pub append_assoc : (xs ys zs : List A) → (xs ++ ys) ++ zs ≡ xs ++ (ys ++ zs)
  append_assoc [] ys zs = refl
  append_assoc (x ∷ xs) ys zs = ap (λ (l : List A). x ∷ l) (append_assoc xs ys zs)

  pub length-append : (xs ys : List A) → length (xs ++ ys) ≡ length xs + length ys
  length-append [] ys = omega arith
  length-append (x ∷ xs) ys = omega (arith, length-append xs ys)

  pub count_if-append :
      (p : A → Bool) (xs ys : List A) → count_if p (xs ++ ys) ≡ count_if p xs + count_if p ys
  count_if-append p [] ys = omega arith
  count_if-append p (x ∷ xs) ys = omega (arith, count_if-append p xs ys)

  pub count_if-remove_at :
      (p : A → Bool) (xs : List A) (i : ℕ) (x : A)
      → get_elem? xs i ≡ some x
      → count_if p xs ≡ (if p x then 1 else 0) + count_if p (remove_at xs i)
  count_if-remove_at p [] i x h = cc
  count_if-remove_at p (y ∷ xs) zero x h =
      ap (λ (o : Option A). elim o [ none ↦ 0 | some z ↦ if p z then 1 else 0 ] + count_if p xs) h
  count_if-remove_at p (y ∷ xs) (suc i) x h = omega (arith, count_if-remove_at p xs i x h)

  pub count_if-set :
      (p : A → Bool) (xs : List A) (i : ℕ) (x y : A)
      → get_elem? xs i ≡ some x
      → count_if p (set xs i y) + (if p x then 1 else 0) ≡ count_if p xs + (if p y then 1 else 0)
  count_if-set p [] i x y h = cc
  count_if-set p (z ∷ xs) zero x y h =
      let same =
        ap (λ (o : Option A). elim o as (λ _. ℕ) [ none ↦ 0 | some u ↦ if p u then 1 else 0 ]) h in
      omega (arith, same)
  count_if-set p (z ∷ xs) (suc i) x y h = omega (arith, count_if-set p xs i x y h)

  pub All-set {κ} :
      (P : A → Type κ) (xs : List A) (i : ℕ) (y : A) → All P xs → P y → All P (set xs i y)
  All-set P [] i y h k = h
  All-set P (x ∷ xs) zero y h k = (k, h.1)
  All-set P (x ∷ xs) (suc i) y h k = (h.0, All-set P xs i y h.1 k)

  pub All-get {κ} :
      (P : A → Type κ) (xs : List A) (i : ℕ) (x : A) → All P xs → get_elem? xs i ≡ some x → P x
  All-get P [] i x h e = cc
  All-get P (y ∷ xs) zero x h e = subst P (some-injective y x e) h.0
  All-get P (y ∷ xs) (suc i) x h e = All-get P xs i x h.1 e

  pub count_if-zero {κ} :
      (p : A → Bool) (P Q : A → Type κ) (xs : List A)
      → ((x : A) → P x → p x ≡ false → Q x)
      → count_if p xs ≡ 0
      → All P xs
      → All Q xs
  count_if-zero p P Q [] f e h = tt
  count_if-zero p P Q (x ∷ xs) f e h =
      (f x h.0 (ground (arith, e)), count_if-zero p P Q xs f (omega (arith, e)) h.1)

  pub count_if-none {κ} :
      (p : A → Bool) (P : A → Type κ) (xs : List A)
      → ((x : A) → P x → p x ≡ false)
      → All P xs
      → count_if p xs ≡ 0
  count_if-none p P [] f h = refl
  count_if-none p P (x ∷ xs) f h = let head = f x h.0 in ground (arith, count_if-none p P xs f h.1)

  pub remove_at-none : (xs : List A) (i : ℕ) → get_elem? xs i ≡ none → remove_at xs i ≡ xs
  remove_at-none [] i h = refl
  remove_at-none (x ∷ xs) zero h = cc
  remove_at-none (x ∷ xs) (suc i) h = ap (λ (l : List A). x ∷ l) (remove_at-none xs i h)

  pub count_if-le-length : (p : A → Bool) (xs : List A) → count_if p xs ≤ length xs
  count_if-le-length p [] = omega arith
  count_if-le-length p (x ∷ xs) = ground (arith, count_if-le-length p xs)

  pub All-append {κ} : (P : A → Type κ) (xs ys : List A) → All P xs → All P ys → All P (xs ++ ys)
  All-append P [] ys hx hy = hy
  All-append P (x ∷ xs) ys hx hy = (hx.0, All-append P xs ys hx.1 hy)

  pub All-map_imp {κ μ} :
      (P : A → Type κ) (Q : A → Type μ) (xs : List A) → ((x : A) → P x → Q x) → All P xs → All Q xs
  All-map_imp P Q [] f h = tt
  All-map_imp P Q (x ∷ xs) f h = (f x h.0, All-map_imp P Q xs f h.1)

  pub length-set : (xs : List A) (i : ℕ) (v : A) → length (set xs i v) ≡ length xs
  length-set [] i v = refl
  length-set (x ∷ xs) zero v = refl
  length-set (x ∷ xs) (suc i) v = ap suc (length-set xs i v)

  pub length-take : (n : ℕ) (xs : List A) → length (take n xs) ≡ min n (length xs)
  length-take zero xs = omega arith
  length-take (suc n) [] = omega arith
  length-take (suc n) (x ∷ xs) = omega (arith, length-take n xs)

  pub length-drop : (n : ℕ) (xs : List A) → length (drop n xs) ≡ length xs - n
  length-drop zero xs = omega arith
  length-drop (suc n) [] = omega arith
  length-drop (suc n) (x ∷ xs) = omega (arith, length-drop n xs)

module _ {ℓ κ} {A : Type ℓ} {B : Type κ} where
  pub length-map : (f : A → B) (xs : List A) → length (map f xs) ≡ length xs
  length-map f [] = refl
  length-map f (x ∷ xs) = ap suc (length-map f xs)
