-- ===== src/Zlib/Tests.antt =====
-- The contract on short code, and the table of backends.
use addictol.Base.{◌≡◌, ◌↔◌, true, some}
use addictol.Base.Text.{bytes}
use addictol.Zlib.Contract.{
  is_valid, validate_contract, Holds, prologue, mode_load, mode_load_offset, mode_bounds,
  mode_bounds_offset, done_store, done_store_offset, reset_zero, reset_zero_offset, reset_store,
  reset_store_offset, validate_contract_iff,
}
use addictol.Zlib.Backend.{
  hybrid_isal, parse_zlib_backend, zlib_backend_kind_name, parse_zlib_backend_iff,
}

validate_contract_iff_example : (is_valid (validate_contract prologue) ≡ true) ↔ (
    Holds prologue 0 prologue
    × Holds prologue mode_load_offset mode_load
    × Holds prologue mode_bounds_offset mode_bounds
    × Holds prologue done_store_offset done_store
    × Holds prologue reset_zero_offset reset_zero
    × Holds prologue reset_store_offset reset_store)
validate_contract_iff_example = validate_contract_iff prologue

parse_zlib_backend_iff_example :
    (parse_zlib_backend (bytes "hybrid-isa-l") ≡ some hybrid_isal)
    ↔ (zlib_backend_kind_name hybrid_isal ≡ bytes "hybrid-isa-l")
parse_zlib_backend_iff_example = parse_zlib_backend_iff hybrid_isal (bytes "hybrid-isa-l")
