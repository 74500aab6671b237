-- ===== src/Protocol.antt =====
-- crates/gaugemesh-core/src/protocol.rs: the revisions of MCP that a request may name.
pub mod Agreement
mod Tests
use gaugemesh.Base.{
  String, Bool, true, false, Option, none, some, Result, ok, err, ◌>>=◌, if◌then◌else◌, ◌==◌,
  string_eq,
}

abbrev pub mcp_2025_11_25 : String
mcp_2025_11_25 = "2025-11-25"

abbrev pub mcp_2026_07_28 : String
mcp_2026_07_28 = "2026-07-28"

pub data McpRevision : Type 0 where
  v2025_11_25 v2026_07_28 : McpRevision

pub data RevisionError : Type 0 where
  unsupported header_body_disagreement : RevisionError

abbrev pub same_revision : McpRevision → McpRevision → Bool
same_revision v2025_11_25 v2025_11_25 = true
same_revision v2025_11_25 v2026_07_28 = false
same_revision v2026_07_28 v2025_11_25 = false
same_revision v2026_07_28 v2026_07_28 = true

unfoldable pub parse : String → Result RevisionError McpRevision
parse value =
    if value == mcp_2025_11_25
    then ok v2025_11_25
    else if value == mcp_2026_07_28
    then ok v2026_07_28
    else err unsupported

unfoldable pub as_str : McpRevision → String
as_str v2025_11_25 = mcp_2025_11_25
as_str v2026_07_28 = mcp_2026_07_28

-- `map(parse).transpose()`
unfoldable pub parse_optional : Option String → Result RevisionError (Option McpRevision)
unfolding parse
parse_optional none = ok none
parse_optional (some value) = do revision ← parse value; ok (some revision)

unfoldable pub agree : Option McpRevision → Option McpRevision → Result RevisionError McpRevision
agree (some header) (some body) =
    if same_revision header body then ok header else err header_body_disagreement
agree (some header) none = ok header
agree none (some body) = ok body
agree none none = err unsupported

unfoldable pub validate_request : Option String → Option String → Result RevisionError McpRevision
unfolding parse_optional agree
validate_request header body = do
  header_revision ← parse_optional header
  body_revision ← parse_optional body
  agree header_revision body_revision
