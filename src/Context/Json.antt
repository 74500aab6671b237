-- ===== src/Context/Json.antt =====
-- The derived `Serialize` of the types of crates/gaugemesh-core/src/context.rs.
use gaugemesh.Base.{String, Option, none, some, List, [], ◌∷◌, map}
use gaugemesh.Digest.{
  Json, null, boolean, number, string, array, Hashing, json, items, Sha256Digest,
}
use gaugemesh.Capability.{
  CapabilityId, CapabilityKind, tool, resource, resource_template, prompt, model,
}
use gaugemesh.Context.{
  Principal, DelegationLink, SideEffectContract, SideEffectClass, read_only, idempotent_write,
  non_idempotent_write, DataClassification, public, internal, confidential, restricted,
  ProtocolRevision, mcp_2025_11_25, mcp_2026_07_28, open_ai_compatible_v1, internal_v1,
  RequestContext,
}

abbrev pub classification_name : DataClassification → String
classification_name public = "public"
classification_name internal = "internal"
classification_name confidential = "confidential"
classification_name restricted = "restricted"

abbrev pub side_effect_name : SideEffectClass → String
side_effect_name read_only = "read_only"
side_effect_name idempotent_write = "idempotent_write"
side_effect_name non_idempotent_write = "non_idempotent_write"

abbrev pub protocol_name : ProtocolRevision → String
protocol_name mcp_2025_11_25 = "mcp2025_11_25"
protocol_name mcp_2026_07_28 = "mcp2026_07_28"
protocol_name open_ai_compatible_v1 = "open_ai_compatible_v1"
protocol_name internal_v1 = "internal_v1"

abbrev pub kind_name : CapabilityKind → String
kind_name tool = "tool"
kind_name resource = "resource"
kind_name resource_template = "resource_template"
kind_name prompt = "prompt"
kind_name model = "model"

abbrev pub optional_text : Option String → Json
optional_text none = null
optional_text (some s) = string s

abbrev pub texts_array : List String → Json
texts_array ss = array (items (map string ss))

abbrev pub principal_json : Principal → Json
principal_json p = json (("id", string p.id) ∷ ("groups", texts_array p.groups) ∷ [])

abbrev pub contract_json : SideEffectContract → Json
contract_json c = json (
    ("class", string (side_effect_name c.class))
    ∷ ("idempotency_identity", optional_text c.idempotency_identity)
    ∷ ("compensation_allowed", boolean c.compensation_allowed)
    ∷ [])

module _ (h : Hashing) where
  abbrev pub digest_json : Sha256Digest → Json
  digest_json d = string (h.display d)

  abbrev pub digests_json : List Sha256Digest → Json
  digests_json ds = array (items (map digest_json ds))

  abbrev pub link_json : DelegationLink → Json
  link_json l = json (
      ("from", string l.from)
      ∷ ("to", string l.to)
      ∷ ("scope", texts_array l.scope)
      ∷ ("proof_digest", digest_json l.proof_digest)
      ∷ [])

  abbrev pub capability_json : CapabilityId → Json
  capability_json c = json (
      ("source", string c.source)
      ∷ ("kind", string (kind_name c.kind))
      ∷ ("native_identity_digest", digest_json c.native_identity_digest)
      ∷ ("schema_digest", digest_json c.schema_digest)
      ∷ ("revision", string c.revision)
      ∷ ("source_configuration_digest", digest_json c.source_configuration_digest)
      ∷ [])

  abbrev pub optional_capability : Option CapabilityId → Json
  optional_capability none = null
  optional_capability (some c) = capability_json c

  abbrev pub context_json : RequestContext → Json
  context_json c = json (
      ("request_id", string c.request_id)
      ∷ ("principal", principal_json c.principal)
      ∷ ("delegation", array (items (map link_json c.delegation)))
      ∷ ("tenant", string c.tenant)
      ∷ ("scope", texts_array c.scope)
      ∷ ("data_classification", string (classification_name c.data_classification))
      ∷ ("deadline", number c.deadline)
      ∷ ("monetary_budget", number c.monetary_budget)
      ∷ ("token_budget", number c.token_budget)
      ∷ ("retry_budget", number c.retry_budget)
      ∷ ("side_effect", contract_json c.side_effect)
      ∷ ("causal_root", string c.causal_root)
      ∷ ("causal_parent", optional_text c.causal_parent)
      ∷ ("trace_parent", string c.trace_parent)
      ∷ (
        "protocol",
        json (
            ("revision", string (protocol_name c.protocol.revision))
            ∷ ("peer_digest", digest_json c.protocol.peer_digest)
            ∷ []),
      )
      ∷ ("capability", optional_capability c.capability)
      ∷ ("schema_digest", digest_json c.schema_digest)
      ∷ ("route_policy_digest", digest_json c.route_policy_digest)
      ∷ ("data_provenance_digest", digest_json c.data_provenance_digest)
      ∷ ("causal_observations", digests_json c.causal_observations)
      ∷ ("route_decisions", digests_json c.route_decisions)
      ∷ ("policy_decisions", digests_json c.policy_decisions)
      ∷ ("retry_attempts", digests_json c.retry_attempts)
      ∷ ("budget_debits", digests_json c.budget_debits)
      ∷ [])
