-- ===== src/Zlib/Contract.antt =====
-- The bytes that the game's inflate must have: Contract, Matches and ValidateContract of
-- Addictol/Include/Zlib/AdZlibInflate.h.
use addictol.Base.{
  ℕ, zero, suc, ◌-◌, ◌≤◌, ◌≡◌, ◌↔◌, refl, sym, ap, ◌∙◌, Bool, true, false, List, [], ◌∷◌, ◌++◌,
  ◌==◌, leb, ◌&&◌, length, length-append, take, drop, arith,
}

abbrev pub mode_load_offset : ℕ
mode_load_offset = 0x78

abbrev pub mode_bounds_offset : ℕ
mode_bounds_offset = 0xA5

abbrev pub done_store_offset : ℕ
done_store_offset = 0x1569

abbrev pub reset_zero_offset : ℕ
reset_zero_offset = 0x1CBE

abbrev pub reset_store_offset : ℕ
reset_store_offset = 0x1CE5

abbrev pub prologue : List ℕ
prologue =
    0x89 ∷ 0x54 ∷ 0x24 ∷ 0x10 ∷ 0x48 ∷ 0x89 ∷ 0x4C ∷ 0x24 ∷ 0x08 ∷ 0x55 ∷ 0x41 ∷ 0x54 ∷ 0x41 ∷ 0x55
    ∷ 0x48 ∷ 0x8B ∷ 0xEC ∷ 0x48 ∷ 0x81 ∷ 0xEC ∷ 0x80 ∷ 0x00 ∷ 0x00 ∷ 0x00 ∷ 0x4C ∷ 0x8B ∷ 0xE1
    ∷ 0x48 ∷ 0x85 ∷ 0xC9 ∷ []

abbrev pub mode_load : List ℕ
mode_load = 0x41 ∷ 0x8B ∷ 0x45 ∷ 0x00 ∷ []

abbrev pub mode_bounds : List ℕ
mode_bounds = 0x83 ∷ 0xF8 ∷ 0x1E ∷ []

abbrev pub done_store : List ℕ
done_store = 0x41 ∷ 0xC7 ∷ 0x45 ∷ 0x00 ∷ 0x1C ∷ 0x00 ∷ 0x00 ∷ 0x00 ∷ []

abbrev pub reset_zero : List ℕ
reset_zero = 0x45 ∷ 0x33 ∷ 0xC0 ∷ []

abbrev pub reset_store : List ℕ
reset_store = 0x4C ∷ 0x89 ∷ 0x02 ∷ 0x44 ∷ 0x89 ∷ 0x42 ∷ 0x0C ∷ []

-- `std::equal` of the expected bytes with those of the code.
unfoldable pub equal : List ℕ → List ℕ → Bool
equal [] code = true
equal (x ∷ xs) [] = false
equal (x ∷ xs) (y ∷ ys) = x == y && equal xs ys

unfoldable pub matches : List ℕ → ℕ → List ℕ → Bool
unfolding equal
matches code offset expected =
    leb offset (length code)
    && leb (length expected) (length code - offset)
    && equal expected (drop offset code)

pub record ContractValidation : Type 0 where
  pub has_prologue : Bool
  pub has_mode_load : Bool
  pub has_mode_bounds : Bool
  pub has_done_store : Bool
  pub has_reset_zero : Bool
  pub has_reset_store : Bool

-- `operator bool`
abbrev pub is_valid : ContractValidation → Bool
is_valid v =
    v.has_prologue && v.has_mode_load && v.has_mode_bounds && v.has_done_store && v.has_reset_zero
    && v.has_reset_store

unfoldable pub validate_contract : List ℕ → ContractValidation
unfolding matches
validate_contract code = record {
  has_prologue = matches code 0 prologue;
  has_mode_load = matches code mode_load_offset mode_load;
  has_mode_bounds = matches code mode_bounds_offset mode_bounds;
  has_done_store = matches code done_store_offset done_store;
  has_reset_zero = matches code reset_zero_offset reset_zero;
  has_reset_store = matches code reset_store_offset reset_store;
}

-- The code has the expected bytes from an offset on.
abbrev pub Holds : List ℕ → ℕ → List ℕ → Type 0
Holds code offset expected =
    (before : List ℕ) × (after : List ℕ) × (code ≡ before ++ (expected ++ after))
    × (length before ≡ offset)

equal-append : (xs ys : List ℕ) → equal xs (xs ++ ys) ≡ true
unfolding equal
equal-append [] ys = refl
equal-append (x ∷ xs) ys = ground (arith, equal-append xs ys)

equal-rest : (xs ys : List ℕ) → equal xs ys ≡ true → (after : List ℕ) × (ys ≡ xs ++ after)
unfolding equal
equal-rest [] ys h = (ys, refl)
equal-rest (x ∷ xs) [] h = cc
equal-rest (x ∷ xs) (y ∷ ys) h =
    let same : y ≡ x = ground (arith, h) in
    let (after, rest) = equal-rest xs ys (ground (arith, h)) in
    (after, ap (λ (z : ℕ). z ∷ ys) same ∙ ap (λ (zs : List ℕ). x ∷ zs) rest)

drop-append : (xs ys : List ℕ) → drop (length xs) (xs ++ ys) ≡ ys
drop-append [] ys = refl
drop-append (x ∷ xs) ys = drop-append xs ys

take-drop : (n : ℕ) (xs : List ℕ) → take n xs ++ drop n xs ≡ xs
take-drop zero xs = refl
take-drop (suc n) [] = refl
take-drop (suc n) (x ∷ xs) = ap (λ (zs : List ℕ). x ∷ zs) (take-drop n xs)

length-take_le : (n : ℕ) (xs : List ℕ) → n ≤ length xs → length (take n xs) ≡ n
length-take_le zero xs h = refl
length-take_le (suc n) [] h = omega (arith, h)
length-take_le (suc n) (x ∷ xs) h = ap suc (length-take_le n xs (omega (arith, h)))

pub matches_iff :
    (code : List ℕ) (offset : ℕ) (expected : List ℕ)
    → (matches code offset expected ≡ true) ↔ Holds code offset expected
unfolding matches
matches_iff code offset expected = (
  λ h.
      let (after, rest) = equal-rest expected (drop offset code) (ground (arith, h)) in
      (
        take offset code,
        after,
        sym (take-drop offset code) ∙ ap (λ (zs : List ℕ). take offset code ++ zs) rest,
        length-take_le offset code (ground (arith, h)),
      ),
  λ (before, after, split, place).
      let size = length-append before (expected ++ after) in
      let more = length-append expected after in
      let whole = ap (λ (zs : List ℕ). length zs) split in
      let dropped : drop offset code ≡ expected ++ after =
        ap (λ (zs : List ℕ). drop offset zs) split
        ∙ ap (λ k. drop k (before ++ (expected ++ after))) (sym place)
        ∙ drop-append before (expected ++ after) in
      let same = ap (λ (zs : List ℕ). equal expected zs) dropped ∙ equal-append expected after in
      ground (arith, size, more, whole, place, same),
)

all_six :
    (a b c d e f : Bool)
    → ((a && b && c && d && e && f) ≡ true)
      ↔ ((a ≡ true) × (b ≡ true) × (c ≡ true) × (d ≡ true) × (e ≡ true) × (f ≡ true))
all_six true b c d e f = ground arith
all_six false b c d e f = ground arith

-- ValidateContract accepts code exactly if the code is split, at each of the six offsets, into the
-- bytes before, the expected bytes and the bytes after.
pub validate_contract_iff :
    (code : List ℕ)
    → (is_valid (validate_contract code) ≡ true) ↔ (
        Holds code 0 prologue
        × Holds code mode_load_offset mode_load
        × Holds code mode_bounds_offset mode_bounds
        × Holds code done_store_offset done_store
        × Holds code reset_zero_offset reset_zero
        × Holds code reset_store_offset reset_store)
unfolding validate_contract
validate_contract_iff code =
    let v = validate_contract code in
    let six =
      all_six v.has_prologue v.has_mode_load v.has_mode_bounds v.has_done_store v.has_reset_zero
        v.has_reset_store in
    (
      λ h.
          let each = six.0 h in
          (
            (matches_iff code 0 prologue).0 each.0,
            (matches_iff code mode_load_offset mode_load).0 each.1,
            (matches_iff code mode_bounds_offset mode_bounds).0 each.2,
            (matches_iff code done_store_offset done_store).0 each.3,
            (matches_iff code reset_zero_offset reset_zero).0 each.4,
            (matches_iff code reset_store_offset reset_store).0 each.5,
          ),
      λ h. six.1 (
        (matches_iff code 0 prologue).1 h.0,
        (matches_iff code mode_load_offset mode_load).1 h.1,
        (matches_iff code mode_bounds_offset mode_bounds).1 h.2,
        (matches_iff code done_store_offset done_store).1 h.3,
        (matches_iff code reset_zero_offset reset_zero).1 h.4,
        (matches_iff code reset_store_offset reset_store).1 h.5,
      ),
    )
