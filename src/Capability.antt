-- ===== src/Capability.antt =====
-- crates/gaugemesh-core/src/capability.rs: the identity of a capability.
use gaugemesh.Base.{
  ℕ, String, ◌≡◌, ◌↔◌, Bool, true, ◌&&◌, arith, Eq, ◌==◌, eqb, pair_ord, string_ord, nat_ord,
  string_eq, nat_eq,
}
use text.Mathlib.TextEquality.{eq_iff}
use gaugemesh.Digest.{Sha256Digest}

abbrev pub SourceId : Type 0
SourceId = String

abbrev pub CapabilityRevision : Type 0
CapabilityRevision = String

pub data CapabilityKind : Type 0 where
  tool resource resource_template prompt model : CapabilityKind

pub record CapabilityId : Type 0 where
  pub source : SourceId
  pub kind : CapabilityKind
  pub native_identity_digest : Sha256Digest
  pub schema_digest : Sha256Digest
  pub revision : CapabilityRevision
  pub source_configuration_digest : Sha256Digest

-- The variants' positions, by which the derived `Ord` and `PartialEq` compare.
abbrev pub kind_rank : CapabilityKind → ℕ
kind_rank tool = 0
kind_rank resource = 1
kind_rank resource_template = 2
kind_rank prompt = 3
kind_rank model = 4

pub kind_rank_eq : (a b : CapabilityKind) → kind_rank a ≡ kind_rank b → a ≡ b
kind_rank_eq a b h = ground arith

abbrev pub kind_beq : CapabilityKind → CapabilityKind → Bool
kind_beq a b = eqb (kind_rank a) (kind_rank b)

pub kind_beq_iff : (a b : CapabilityKind) → (kind_beq a b ≡ true) ↔ (a ≡ b)
kind_beq_iff a b = ground arith

instance abbrev pub kind_eq : Eq CapabilityKind
kind_eq = record { same = kind_beq; same_iff = kind_beq_iff }

-- The derived `PartialEq`: all six fields.
unfoldable pub capability_beq : CapabilityId → CapabilityId → Bool
capability_beq a b =
    a.source == b.source
    && a.kind == b.kind
    && a.native_identity_digest == b.native_identity_digest
    && a.schema_digest == b.schema_digest
    && a.revision == b.revision
    && a.source_configuration_digest == b.source_configuration_digest

pub capability_beq_iff : (a b : CapabilityId) → (capability_beq a b ≡ true) ↔ (a ≡ b)
unfolding capability_beq
capability_beq_iff a b = ground (arith, eq_iff a.source b.source, eq_iff a.revision b.revision)

instance abbrev pub capability_eq : Eq CapabilityId
capability_eq = record { same = capability_beq; same_iff = capability_beq_iff }

abbrev pub CapabilityKey : Type 0
CapabilityKey =
    SourceId × (ℕ × (Sha256Digest × (Sha256Digest × (CapabilityRevision × Sha256Digest))))

-- The derived `Ord`: the fields in their order.
abbrev pub capability_key : CapabilityId → CapabilityKey
capability_key c = (
  c.source,
  (
    kind_rank c.kind,
    (c.native_identity_digest, (c.schema_digest, (c.revision, c.source_configuration_digest))),
  ),
)
