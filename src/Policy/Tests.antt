-- ===== src/Policy/Tests.antt =====
-- Runs of policy.rs: a document of three rules.
use gaugemesh.Base.{
  ◌≡◌, refl, [], ◌∷◌, ok, heads_swapped, sort_by_key, string_ord, nat_ord, pair_ord,
}
use gaugemesh.Policy.{
  PolicyRule, PolicyDocument, CompiledPolicy, allow, deny, discovery, request_body, evaluate,
  compile, check_rules, check_rule, check_fields, check_values, check_reachable, lowest,
}
use gaugemesh.Policy.FirstMatch.{first_match, evaluate-compile}
use gaugemesh.Policy.RuleOrder.{compile-Rearranged}

abbrev tenant_rule : PolicyRule
tenant_rule = record {
  id = "tenant";
  phase = discovery;
  priority = 5;
  effect = allow;
  conditions = (record { field = "tenant.id"; equals = "a" }) ∷ [];
}

abbrev closing_rule : PolicyRule
closing_rule = record {
  id = "closing";
  phase = discovery;
  priority = 9;
  effect = deny;
  conditions = [];
}

abbrev body_rule : PolicyRule
body_rule = record {
  id = "body";
  phase = request_body;
  priority = 1;
  effect = allow;
  conditions =
      (record { field = "request.argument"; equals = "x" })
      ∷ (record { field = "tenant.id"; equals = "a" })
      ∷ [];
}

abbrev document : PolicyDocument
document = record { default = deny; rules = closing_rule ∷ tenant_rule ∷ body_rule ∷ [] }

abbrev policy : CompiledPolicy
policy = record {
  document = record { default = deny; rules = tenant_rule ∷ closing_rule ∷ body_rule ∷ [] };
}

compiles : compile document ≡ ok policy
unfolding compile check_rules check_rule check_fields check_values check_reachable sort_by_key
compiles = refl

allows_tenant_a : evaluate policy discovery (("tenant.id", "a") ∷ []) ≡ allow
unfolding evaluate lowest
allows_tenant_a = refl

evaluate-compile_example :
    evaluate policy discovery (("tenant.id", "a") ∷ [])
    ≡ first_match policy discovery (("tenant.id", "a") ∷ [])
evaluate-compile_example =
    evaluate-compile document policy discovery (("tenant.id", "a") ∷ []) compiles

compile-Rearranged_example :
    compile (record { default = deny; rules = tenant_rule ∷ closing_rule ∷ body_rule ∷ [] })
    ≡ ok policy
compile-Rearranged_example =
    compile-Rearranged document (tenant_rule ∷ closing_rule ∷ body_rule ∷ []) policy
      (heads_swapped closing_rule tenant_rule (body_rule ∷ [])) compiles
