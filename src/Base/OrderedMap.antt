-- ===== src/Base/OrderedMap.antt =====
-- `std::map`: an association list in the order of its keys. Keys are equal when neither is below
-- the other, as in C++.
use mathlib.Core.Path.{◌≡◌, refl}
use mathlib.Core.Logic.{◌≢◌}
use mathlib.Core.Bool.{Bool, true, false}
use mathlib.Core.Option.{Option, none, some}
use mathlib.Core.List.{List, [], ◌∷◌}
use Prim.Native.Nat.{ℕ}
use native.Mathlib.Omega.{arith}
use addictol.Base.Tests.{if◌then◌else◌, ltb}
use addictol.Base.Text.{Text, text_lt, text_lt_irrefl, text_lt_trans, text_lt_total}

pub record Order (K : Type 0) : Type 0 where
  pub lt : K → K → Bool
  pub lt_irrefl : (k : K) → lt k k ≡ false
  pub lt_trans : (i j k : K) → lt i j ≡ true → lt j k ≡ true → lt i k ≡ true
  pub lt_total : (j k : K) → lt j k ≡ false → lt k j ≡ false → j ≡ k

pub ltb_trans : (i j k : ℕ) → ltb i j ≡ true → ltb j k ≡ true → ltb i k ≡ true
ltb_trans i j k p q = ground arith

pub ltb_irrefl : (k : ℕ) → ltb k k ≡ false
ltb_irrefl k = ground arith

pub ltb_total : (j k : ℕ) → ltb j k ≡ false → ltb k j ≡ false → j ≡ k
ltb_total j k p q = ground arith

instance abbrev pub nat_order : Order ℕ
nat_order = record { lt = ltb; lt_irrefl = ltb_irrefl; lt_trans = ltb_trans; lt_total = ltb_total }

instance abbrev pub text_order : Order Text
text_order = record {
  lt = text_lt;
  lt_irrefl = text_lt_irrefl;
  lt_trans = text_lt_trans;
  lt_total = text_lt_total;
}

module _ {ℓ} {K : Type 0} {V : Type ℓ} ⦃o : Order K⦄ where
  unfoldable pub find : K → List (K × V) → Option V
  find k [] = none
  find k ((j, v) ∷ m) = if o.lt j k then find k m else if o.lt k j then none else some v

  -- An entry that is there stays.
  unfoldable pub try_emplace : K → V → List (K × V) → List (K × V)
  try_emplace k v [] = (k, v) ∷ []
  try_emplace k v ((j, w) ∷ m) =
      if o.lt j k
      then (j, w) ∷ try_emplace k v m
      else if o.lt k j
      then (k, v) ∷ (j, w) ∷ m
      else (j, w) ∷ m

  unfoldable pub insert_or_assign : K → V → List (K × V) → List (K × V)
  insert_or_assign k v [] = (k, v) ∷ []
  insert_or_assign k v ((j, w) ∷ m) =
      if o.lt j k
      then (j, w) ∷ insert_or_assign k v m
      else if o.lt k j
      then (k, v) ∷ (j, w) ∷ m
      else (k, v) ∷ m

  unfoldable pub erase : K → List (K × V) → List (K × V)
  erase k [] = []
  erase k ((j, w) ∷ m) = if o.lt j k then (j, w) ∷ erase k m else if o.lt k j then (j, w) ∷ m else m

  -- Every key is above `k`.
  abbrev pub Above : K → List (K × V) → Type 0
  Above k [] = Unit
  Above k ((j, v) ∷ m) = (o.lt k j ≡ true) × Above k m

  abbrev pub IsSorted : List (K × V) → Type 0
  IsSorted [] = Unit
  IsSorted ((k, v) ∷ m) = Above k m × IsSorted m

  pub Above-mono : (i k : K) (m : List (K × V)) → o.lt i k ≡ true → Above k m → Above i m
  Above-mono i k [] h a = tt
  Above-mono i k ((j, v) ∷ m) h a = (o.lt_trans i k j h a.0, Above-mono i k m h a.1)

  pub find-Above : (k : K) (m : List (K × V)) → Above k m → find k m ≡ none
  unfolding find
  find-Above k [] a = refl
  find-Above k ((j, v) ∷ m) a = ground (arith, a.0, o.lt_trans j k j, o.lt_irrefl j)

  try_emplace-Above :
      (i k : K) (v : V) (m : List (K × V))
      → o.lt i k ≡ true
      → Above i m
      → Above i (try_emplace k v m)
  unfolding try_emplace
  try_emplace-Above i k v [] h a = (h, tt)
  try_emplace-Above i k v ((j, w) ∷ m) h a = ground (arith, try_emplace-Above i k v m h a.1)

  pub try_emplace-IsSorted :
      (k : K) (v : V) (m : List (K × V)) → IsSorted m → IsSorted (try_emplace k v m)
  unfolding try_emplace
  try_emplace-IsSorted k v [] s = (tt, tt)
  try_emplace-IsSorted k v ((j, w) ∷ m) s = ground (
    arith,
    try_emplace-IsSorted k v m s.1,
    λ (h : o.lt j k ≡ true). try_emplace-Above j k v m h s.0,
    λ (h : o.lt k j ≡ true). Above-mono k j m h s.0,
  )

  erase-Above : (i k : K) (m : List (K × V)) → Above i m → Above i (erase k m)
  unfolding erase
  erase-Above i k [] a = tt
  erase-Above i k ((j, w) ∷ m) a = ground (arith, erase-Above i k m a.1)

  pub erase-IsSorted : (k : K) (m : List (K × V)) → IsSorted m → IsSorted (erase k m)
  unfolding erase
  erase-IsSorted k [] s = tt
  erase-IsSorted k ((j, w) ∷ m) s = ground (arith, erase-IsSorted k m s.1, erase-Above j k m s.0)

  -- Erasing the key of a fresh entry undoes its insertion.
  pub erase-try_emplace :
      (k : K) (v : V) (m : List (K × V)) → find k m ≡ none → erase k (try_emplace k v m) ≡ m
  unfolding find try_emplace erase
  erase-try_emplace k v [] h = ground (arith, o.lt_irrefl k)
  erase-try_emplace k v ((j, w) ∷ m) h = ground (arith, o.lt_irrefl k, erase-try_emplace k v m)

  pub find-try_emplace_self :
      (k : K) (v : V) (m : List (K × V)) → find k m ≡ none → find k (try_emplace k v m) ≡ some v
  unfolding find try_emplace
  find-try_emplace_self k v [] h = ground (arith, o.lt_irrefl k)
  find-try_emplace_self k v ((j, w) ∷ m) h =
      ground (arith, o.lt_irrefl k, find-try_emplace_self k v m)

  pub find-erase_self : (k : K) (m : List (K × V)) → IsSorted m → find k (erase k m) ≡ none
  unfolding find erase
  find-erase_self k [] s = refl
  find-erase_self k ((j, w) ∷ m) s = ground (
    arith,
    find-erase_self k m s.1,
    λ (h : k ≡ j). find-Above j m s.0,
    o.lt_total k j,
    find-Above k m,
  )

  pub find-insert_or_assign_self :
      (k : K) (v : V) (m : List (K × V)) → find k (insert_or_assign k v m) ≡ some v
  unfolding find insert_or_assign
  find-insert_or_assign_self k v [] = ground (arith, o.lt_irrefl k)
  find-insert_or_assign_self k v ((j, w) ∷ m) =
      ground (arith, o.lt_irrefl k, find-insert_or_assign_self k v m)

  pub erase-insert_or_assign :
      (k : K) (v : V) (m : List (K × V)) → find k m ≡ none → erase k (insert_or_assign k v m) ≡ m
  unfolding find insert_or_assign erase
  erase-insert_or_assign k v [] h = ground (arith, o.lt_irrefl k)
  erase-insert_or_assign k v ((j, w) ∷ m) h =
      ground (arith, o.lt_irrefl k, erase-insert_or_assign k v m)

  -- Writing back the value that a key had undoes another write.
  pub insert_or_assign_back :
      (k : K) (v w : V) (m : List (K × V))
      → find k m ≡ some w
      → insert_or_assign k w (insert_or_assign k v m) ≡ m
  unfolding find insert_or_assign
  insert_or_assign_back k v w [] h = cc
  insert_or_assign_back k v w ((j, u) ∷ m) h =
      ground (arith, o.lt_irrefl k, o.lt_total j k, insert_or_assign_back k v w m)

  pub find-erase_other :
      (j k : K) (m : List (K × V)) → IsSorted m → j ≢ k → find j (erase k m) ≡ find j m
  unfolding find erase
  find-erase_other j k [] s ne = refl
  find-erase_other j k ((i, w) ∷ m) s ne = ground (
    arith,
    find-erase_other j k m s.1 ne,
    find-Above j m,
    λ (h : o.lt j i ≡ true). Above-mono j i m h s.0,
    o.lt_total i k,
    o.lt_total i j,
  )

  pub find-insert_or_assign_other :
      (j k : K) (v : V) (m : List (K × V)) → j ≢ k → find j (insert_or_assign k v m) ≡ find j m
  unfolding find insert_or_assign
  find-insert_or_assign_other j k v [] ne = ground (arith, o.lt_total k j)
  find-insert_or_assign_other j k v ((i, w) ∷ m) ne = ground (
    arith,
    find-insert_or_assign_other j k v m ne,
    o.lt_total k j,
    o.lt_total i k,
    o.lt_trans i j k,
    o.lt_trans j k i,
    o.lt_irrefl j,
    o.lt_irrefl i,
    o.lt_trans i j i,
    o.lt_trans k i j,
  )
