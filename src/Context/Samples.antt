-- ===== src/Context/Samples.antt =====
-- A request context for the runs of the program's parts.
use gaugemesh.Base.{[], ◌∷◌, false, none}
use gaugemesh.Context.{RequestContext, internal, read_only, internal_v1}

abbrev pub sample_context : RequestContext
sample_context = record {
  request_id = "r";
  principal = record { id = "alice"; groups = [] };
  delegation = [];
  tenant = "a";
  scope = "read" ∷ [];
  data_classification = internal;
  deadline = 1000;
  monetary_budget = 100;
  token_budget = 200;
  retry_budget = 3;
  side_effect = record {
    class = read_only;
    idempotency_identity = none;
    compensation_allowed = false;
  };
  causal_root = "root";
  causal_parent = none;
  trace_parent = "t";
  protocol = record { revision = internal_v1; peer_digest = 1 };
  capability = none;
  schema_digest = 2;
  route_policy_digest = 3;
  data_provenance_digest = 4;
  causal_observations = 5 ∷ 6 ∷ [];
  route_decisions = [];
  policy_decisions = [];
  retry_attempts = [];
  budget_debits = [];
}
