-- ===== src/Context/Equality.antt =====
-- The derived `PartialEq` of the records and variants of crates/gaugemesh-core/src/context.rs.
use gaugemesh.Base.{
  ◌≡◌, ◌↔◌, Bool, true, false, ◌&&◌, eqb, arith, Eq, ◌==◌, string_eq, nat_eq, list_eq, option_eq,
  list_beq_iff, option_beq_iff,
}
use text.Mathlib.TextEquality.{eq_iff}
use gaugemesh.Context.{
  Principal, DelegationLink, SideEffectContract, DataClassification, classification_rank,
  side_effect_eq, side_effect_beq_iff,
}

abbrev pub bool_beq : Bool → Bool → Bool
bool_beq true b = b
bool_beq false true = false
bool_beq false false = true

pub bool_beq_iff : (a b : Bool) → (bool_beq a b ≡ true) ↔ (a ≡ b)
bool_beq_iff a b = ground arith

instance abbrev pub bool_eq : Eq Bool
bool_eq = record { same = bool_beq; same_iff = bool_beq_iff }

abbrev pub principal_beq : Principal → Principal → Bool
principal_beq a b = a.id == b.id && a.groups == b.groups

pub principal_beq_iff : (a b : Principal) → (principal_beq a b ≡ true) ↔ (a ≡ b)
principal_beq_iff a b = ground (arith, eq_iff a.id b.id, list_beq_iff a.groups b.groups)

instance abbrev pub principal_eq : Eq Principal
principal_eq = record { same = principal_beq; same_iff = principal_beq_iff }

abbrev pub link_beq : DelegationLink → DelegationLink → Bool
link_beq a b =
    a.from == b.from && a.to == b.to && a.scope == b.scope && a.proof_digest == b.proof_digest

pub link_beq_iff : (a b : DelegationLink) → (link_beq a b ≡ true) ↔ (a ≡ b)
link_beq_iff a b =
    ground (arith, eq_iff a.from b.from, eq_iff a.to b.to, list_beq_iff a.scope b.scope)

instance abbrev pub link_eq : Eq DelegationLink
link_eq = record { same = link_beq; same_iff = link_beq_iff }

abbrev pub contract_beq : SideEffectContract → SideEffectContract → Bool
contract_beq a b =
    a.class == b.class
    && a.idempotency_identity == b.idempotency_identity
    && a.compensation_allowed == b.compensation_allowed

pub contract_beq_iff : (a b : SideEffectContract) → (contract_beq a b ≡ true) ↔ (a ≡ b)
contract_beq_iff a b = ground (
  arith,
  side_effect_beq_iff a.class b.class,
  option_beq_iff a.idempotency_identity b.idempotency_identity,
  bool_beq_iff a.compensation_allowed b.compensation_allowed,
)

instance abbrev pub contract_eq : Eq SideEffectContract
contract_eq = record { same = contract_beq; same_iff = contract_beq_iff }

pub classification_beq_iff :
    (a b : DataClassification)
    → (eqb (classification_rank a) (classification_rank b) ≡ true) ↔ (a ≡ b)
classification_beq_iff a b = ground arith

instance abbrev pub classification_eq : Eq DataClassification
classification_eq = record {
  same = λ a b. eqb (classification_rank a) (classification_rank b);
  same_iff = classification_beq_iff;
}
