-- ===== src/Context.antt =====
-- crates/gaugemesh-core/src/context.rs: the request context that every adapter carries.
-- Each newtype over a text or a number is that text or number. A `BTreeSet<String>` is the list
-- of its members in ascending order.
pub mod Equality
pub mod Json
pub mod Samples
use gaugemesh.Base.{
  ℕ, ◌≡◌, ◌↔◌, arith, true, eqb, Eq, String, Bool, Option, List, is_subset, string_eq, list_eq,
  option_eq,
}
use gaugemesh.Digest.{Sha256Digest}
use gaugemesh.Capability.{CapabilityId}

abbrev pub PrincipalId : Type 0
PrincipalId = String

abbrev pub TenantId : Type 0
TenantId = String

abbrev pub RequestId : Type 0
RequestId = String

abbrev pub CausalId : Type 0
CausalId = String

abbrev pub IdempotencyIdentity : Type 0
IdempotencyIdentity = String

abbrev pub CapabilityScope : Type 0
CapabilityScope = List String

pub record Principal : Type 0 where
  pub id : PrincipalId
  pub groups : List String

pub record DelegationLink : Type 0 where
  pub from : PrincipalId
  pub to : PrincipalId
  pub scope : CapabilityScope
  pub proof_digest : Sha256Digest

pub data DataClassification : Type 0 where
  public internal confidential restricted : DataClassification

pub data SideEffectClass : Type 0 where
  read_only idempotent_write non_idempotent_write : SideEffectClass

pub record SideEffectContract : Type 0 where
  pub class : SideEffectClass
  pub idempotency_identity : Option IdempotencyIdentity
  pub compensation_allowed : Bool

pub data ProtocolRevision : Type 0 where
  mcp_2025_11_25 mcp_2026_07_28 open_ai_compatible_v1 internal_v1 : ProtocolRevision

pub record ProtocolIdentity : Type 0 where
  pub revision : ProtocolRevision
  pub peer_digest : Sha256Digest

pub record RequestContext : Type 0 where
  pub request_id : RequestId
  pub principal : Principal
  pub delegation : List DelegationLink
  pub tenant : TenantId
  pub scope : CapabilityScope
  pub data_classification : DataClassification
  pub deadline : ℕ
  pub monetary_budget : ℕ
  pub token_budget : ℕ
  pub retry_budget : ℕ
  pub side_effect : SideEffectContract
  pub causal_root : CausalId
  pub causal_parent : Option CausalId
  pub trace_parent : String
  pub protocol : ProtocolIdentity
  pub capability : Option CapabilityId
  pub schema_digest : Sha256Digest
  pub route_policy_digest : Sha256Digest
  pub data_provenance_digest : Sha256Digest
  pub causal_observations : List Sha256Digest
  pub route_decisions : List Sha256Digest
  pub policy_decisions : List Sha256Digest
  pub retry_attempts : List Sha256Digest
  pub budget_debits : List Sha256Digest

-- `CapabilityScope::is_subset_of`
unfoldable pub is_subset_of : CapabilityScope → CapabilityScope → Bool
is_subset_of scope other = is_subset scope other

-- The variants' positions, by which the derived `Ord` and `PartialEq` compare.
abbrev pub classification_rank : DataClassification → ℕ
classification_rank public = 0
classification_rank internal = 1
classification_rank confidential = 2
classification_rank restricted = 3

abbrev pub side_effect_rank : SideEffectClass → ℕ
side_effect_rank read_only = 0
side_effect_rank idempotent_write = 1
side_effect_rank non_idempotent_write = 2

pub side_effect_rank_eq : (a b : SideEffectClass) → side_effect_rank a ≡ side_effect_rank b → a ≡ b
side_effect_rank_eq a b h = ground arith

pub side_effect_beq_iff :
    (a b : SideEffectClass) → (eqb (side_effect_rank a) (side_effect_rank b) ≡ true) ↔ (a ≡ b)
side_effect_beq_iff a b = ground arith

instance abbrev pub side_effect_eq : Eq SideEffectClass
side_effect_eq = record {
  same = λ a b. eqb (side_effect_rank a) (side_effect_rank b);
  same_iff = side_effect_beq_iff;
}
