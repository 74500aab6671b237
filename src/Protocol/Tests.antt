-- ===== src/Protocol/Tests.antt =====
-- Runs of protocol.rs: requests that name one revision, and two.
use gaugemesh.Base.{◌≡◌, ◌↔◌, refl, true, none, some, ok, err}
use gaugemesh.Protocol.{
  v2025_11_25, header_body_disagreement, parse, parse_optional, agree, validate_request,
}
use gaugemesh.Protocol.Agreement.{Names, is_named, validate_request_lem}

disagrees : validate_request (some "2026-07-28") (some "2025-11-25") ≡ err header_body_disagreement
unfolding validate_request parse_optional parse agree
disagrees = refl

validate_request_lem_example : (validate_request (some "2025-11-25") none ≡ ok v2025_11_25) ↔ (
    Names v2025_11_25 (some "2025-11-25")
    × Names v2025_11_25 none
    × (is_named (some "2025-11-25") none ≡ true))
validate_request_lem_example = validate_request_lem (some "2025-11-25") none v2025_11_25
