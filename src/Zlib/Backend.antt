-- ===== src/Zlib/Backend.antt =====
-- The table of backends and of reasons to fall back of Addictol/Include/Zlib/AdZlibBackend.h, and the
-- selection of Addictol/Source/Zlib/AdZlibBackend.cpp.
use addictol.Base.{
  ℕ, ◌+◌, ◌≡◌, ◌↔◌, subst, refl, ◌∙◌, true, List, [], ◌∷◌, Option, none, some, ◌==◌, if_cases,
  if◌then◌else◌,
}
use mathlib.Core.Option.{some-injective}
use addictol.Base.Text.{Text, bytes, text_eq, text_eq_iff}

pub data ZlibBackendKind : Type 0 where
  stock zlib zlib_ng isal hybrid_zlib_ng hybrid_isal : ZlibBackendKind

-- `static_cast<uint32_t>` of a kind.
abbrev pub kind_index : ZlibBackendKind → ℕ
kind_index stock = 0
kind_index zlib = 1
kind_index zlib_ng = 2
kind_index isal = 3
kind_index hybrid_zlib_ng = 4
kind_index hybrid_isal = 5

pub record ZlibBackendName : Type 0 where
  pub name : Text
  pub kind : ZlibBackendKind
  pub whole : Text
  pub streaming : Text

abbrev pub zlib_backend_names : List ZlibBackendName
zlib_backend_names =
    record { name = bytes "stock"; kind = stock; whole = bytes "none"; streaming = bytes "vanilla" }
    ∷ record { name = bytes "zlib"; kind = zlib; whole = bytes "none"; streaming = bytes "zlib" }
    ∷ record {
      name = bytes "zlib-ng";
      kind = zlib_ng;
      whole = bytes "none";
      streaming = bytes "zlib-ng";
    }
    ∷ record { name = bytes "isa-l"; kind = isal; whole = bytes "none"; streaming = bytes "isa-l" }
    ∷ record {
      name = bytes "hybrid-zlib-ng";
      kind = hybrid_zlib_ng;
      whole = bytes "libdeflate";
      streaming = bytes "zlib-ng";
    }
    ∷ record {
      name = bytes "hybrid-isa-l";
      kind = hybrid_isal;
      whole = bytes "libdeflate";
      streaming = bytes "isa-l";
    }
    ∷ []

abbrev pub default_zlib_backend : ZlibBackendKind
default_zlib_backend = hybrid_zlib_ng

unfoldable pub name_loop : ZlibBackendKind → List ZlibBackendName → Text
name_loop kind [] = bytes "unknown"
name_loop kind (row ∷ rows) =
    let later = name_loop kind rows in
    if kind_index row.kind == kind_index kind then row.name else later

unfoldable pub zlib_backend_kind_name : ZlibBackendKind → Text
unfolding name_loop
zlib_backend_kind_name kind = name_loop kind zlib_backend_names

unfoldable pub parse_loop : Text → List ZlibBackendName → Option ZlibBackendKind
parse_loop name [] = none
parse_loop name (row ∷ rows) =
    let later = parse_loop name rows in if text_eq row.name name then some row.kind else later

unfoldable pub parse_zlib_backend : Text → Option ZlibBackendKind
unfolding parse_loop
parse_zlib_backend name = parse_loop name zlib_backend_names

unfoldable pub zlib_backend_registry_id : ZlibBackendKind → ℕ
zlib_backend_registry_id kind = kind_index kind + 1

-- The backend that is selected for a name, which is also what is returned.
unfoldable pub resolve_zlib_backend_selection : Text → ZlibBackendKind
unfolding parse_zlib_backend
resolve_zlib_backend_selection name = elim (parse_zlib_backend name) [
  | none ↦ default_zlib_backend
  | some kind ↦ kind
]

parse-zlib_backend_kind_name :
    (kind : ZlibBackendKind) → parse_zlib_backend (zlib_backend_kind_name kind) ≡ some kind
unfolding parse_zlib_backend zlib_backend_kind_name text_eq
parse-zlib_backend_kind_name stock = refl
parse-zlib_backend_kind_name zlib = refl
parse-zlib_backend_kind_name zlib_ng = refl
parse-zlib_backend_kind_name isal = refl
parse-zlib_backend_kind_name hybrid_zlib_ng = refl
parse-zlib_backend_kind_name hybrid_isal = refl

zlib_backend_kind_name-parse :
    (kind : ZlibBackendKind) (name : Text)
    → parse_zlib_backend name ≡ some kind
    → zlib_backend_kind_name kind ≡ name
unfolding parse_zlib_backend zlib_backend_kind_name
zlib_backend_kind_name-parse kind name =
    let P : Option ZlibBackendKind → Type 0 =
      λ o. o ≡ some kind → zlib_backend_kind_name kind ≡ name in
    let found : (row : Text) (k : ZlibBackendKind)
        → zlib_backend_kind_name k ≡ row
        → text_eq row name ≡ true
        → P (some k) =
      λ row k named e h.
        subst (λ x. zlib_backend_kind_name x ≡ name) (some-injective k kind h)
          (named ∙ (text_eq_iff row name).0 e) in
    (if_cases P (text_eq (bytes "stock") name) _ _ (found (bytes "stock") stock refl) (λ e.
      (if_cases P (text_eq (bytes "zlib") name) _ _ (found (bytes "zlib") zlib refl) (λ e.
        (if_cases P (text_eq (bytes "zlib-ng") name) _ _ (found (bytes "zlib-ng") zlib_ng refl)
          (λ e.
            (if_cases P (text_eq (bytes "isa-l") name) _ _ (found (bytes "isa-l") isal refl) (λ e.
              (if_cases P (text_eq (bytes "hybrid-zlib-ng") name) _ _
                (found (bytes "hybrid-zlib-ng") hybrid_zlib_ng refl)
                (λ e.
                  (if_cases P (text_eq (bytes "hybrid-isa-l") name) _ _
                    (found (bytes "hybrid-isa-l") hybrid_isal refl) (λ e. (λ h. cc)))))))))))))

-- ParseZlibBackend gives a backend for a name exactly if the name is that of the backend.
pub parse_zlib_backend_iff :
    (kind : ZlibBackendKind) (name : Text)
    → (parse_zlib_backend name ≡ some kind) ↔ (zlib_backend_kind_name kind ≡ name)
parse_zlib_backend_iff kind name = (
  zlib_backend_kind_name-parse kind name,
  λ e. subst (λ n. parse_zlib_backend n ≡ some kind) e (parse-zlib_backend_kind_name kind),
)
