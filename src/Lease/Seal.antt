-- ===== src/Lease/Seal.antt =====
-- The manifest digest of lease.rs covers every term of a lease.
use gaugemesh.Base.{
  ℕ, String, ◌≡◌, ◌≢◌, refl, sym, ◌∙◌, List, [], ◌∷◌, map, ok, ap, if◌then◌else◌, ◌==◌, string_eq,
}
use gaugemesh.Digest.{
  Json, string, number, array, Hashing, canonical_json, canonical_items, insert_field, json, items,
  Sha256Digest,
}
use gaugemesh.Capability.{
  CapabilityId, CapabilityKind, kind_rank, kind_rank_eq, tool, resource, resource_template, prompt,
  model,
}
use gaugemesh.Context.{
  PrincipalId, TenantId, SideEffectClass, side_effect_rank, side_effect_rank_eq, read_only,
  idempotent_write, non_idempotent_write,
}
use gaugemesh.Lease.{
  LeaseId, LeaseTerms, manifest_json, digest_of_terms, sorted_capabilities, issue_with_side_effects,
  authorize,
}
use gaugemesh.Context.Json.{kind_name, side_effect_name, capability_json}
use gaugemesh.Lease.Grants.{authorize_lem}

-- A list is known from the canonical array of its entries when an entry is known from its value.
items_inj :
    {A : Type 0} (f : A → Json)
    → ((x y : A) → canonical_json (f x) ≡ canonical_json (f y) → x ≡ y)
    → (xs ys : List A) → canonical_items (items (map f xs)) ≡ canonical_items (items (map f ys))
    → xs ≡ ys
unfolding canonical_items
items_inj f known [] [] e = refl
items_inj f known [] (y ∷ ys) e = cc
items_inj f known (x ∷ xs) [] e = cc
items_inj f known (x ∷ xs) (y ∷ ys) e =
    let heads = known x y (cc e) in let tails = items_inj f known xs ys (cc e) in cc (heads, tails)

-- The position of the variant with a name.
abbrev kind_of_name : String → ℕ
kind_of_name name =
    if name == "tool"
    then 0
    else if name == "resource"
    then 1
    else if name == "resource_template"
    then 2
    else if name == "prompt"
    then 3
    else 4

kind_of-kind_name : (k : CapabilityKind) → kind_of_name (kind_name k) ≡ kind_rank k
kind_of-kind_name tool = refl
kind_of-kind_name resource = refl
kind_of-kind_name resource_template = refl
kind_of-kind_name prompt = refl
kind_of-kind_name model = refl

kind_name_inj : (a b : CapabilityKind) → kind_name a ≡ kind_name b → a ≡ b
kind_name_inj a b e =
    kind_rank_eq a b (sym (kind_of-kind_name a) ∙ ap kind_of_name e ∙ kind_of-kind_name b)

abbrev effect_of_name : String → ℕ
effect_of_name name = if name == "read_only" then 0 else if name == "idempotent_write" then 1 else 2

effect_of-side_effect_name :
    (s : SideEffectClass) → effect_of_name (side_effect_name s) ≡ side_effect_rank s
effect_of-side_effect_name read_only = refl
effect_of-side_effect_name idempotent_write = refl
effect_of-side_effect_name non_idempotent_write = refl

side_effect_name_inj : (a b : SideEffectClass) → side_effect_name a ≡ side_effect_name b → a ≡ b
side_effect_name_inj a b e =
    side_effect_rank_eq a b
      (sym (effect_of-side_effect_name a) ∙ ap effect_of_name e ∙ effect_of-side_effect_name b)

string_json_inj : (s t : String) → canonical_json (string s) ≡ canonical_json (string t) → s ≡ t
unfolding canonical_json
string_json_inj s t e = cc e

side_effect_json_inj :
    (a b : SideEffectClass)
    → canonical_json (string (side_effect_name a)) ≡ canonical_json (string (side_effect_name b))
    → a ≡ b
side_effect_json_inj a b e =
    side_effect_name_inj a b (string_json_inj (side_effect_name a) (side_effect_name b) e)

CapabilityId-ext :
    (a b : CapabilityId)
    → a.source ≡ b.source
    → a.kind ≡ b.kind
    → a.native_identity_digest ≡ b.native_identity_digest
    → a.schema_digest ≡ b.schema_digest
    → a.revision ≡ b.revision
    → a.source_configuration_digest ≡ b.source_configuration_digest
    → a ≡ b
CapabilityId-ext a b p q r s t u = cc (p, q, r, s, t, u)

LeaseTerms-ext :
    (s t : LeaseTerms)
    → s.principal ≡ t.principal
    → s.tenant ≡ t.tenant
    → s.request_identity ≡ t.request_identity
    → s.capabilities ≡ t.capabilities
    → s.scope ≡ t.scope
    → s.expires_at_monotonic_ms ≡ t.expires_at_monotonic_ms
    → s.monetary_budget ≡ t.monetary_budget
    → s.token_budget ≡ t.token_budget
    → s.retry_budget ≡ t.retry_budget
    → s.side_effects ≡ t.side_effects
    → s ≡ t
LeaseTerms-ext s t a b c d e f g i j k = cc (a, b, c, d, e, f, g, i, j, k)

module _ (h : Hashing)
    (display_inj : (d e : Sha256Digest) → h.display d ≡ h.display e → d ≡ e) where
  -- The canonical form of a capability.
  abbrev ordered_capability : CapabilityId → Json
  ordered_capability c = json (
      ("kind", string (kind_name c.kind))
      ∷ ("native_identity_digest", string (h.display c.native_identity_digest))
      ∷ ("revision", string c.revision)
      ∷ ("schema_digest", string (h.display c.schema_digest))
      ∷ ("source", string c.source)
      ∷ ("source_configuration_digest", string (h.display c.source_configuration_digest))
      ∷ [])

  ordered_capability_lem :
      (c : CapabilityId) → canonical_json (capability_json h c) ≡ ordered_capability c
  unfolding canonical_json insert_field
  ordered_capability_lem c = refl

  ordered_capability_inj :
      (a b : CapabilityId) → ordered_capability a ≡ ordered_capability b → a ≡ b
  ordered_capability_inj a b e =
      CapabilityId-ext a b (cc e) (kind_name_inj a.kind b.kind (cc e))
        (display_inj a.native_identity_digest b.native_identity_digest (cc e))
        (display_inj a.schema_digest b.schema_digest (cc e)) (cc e)
        (display_inj a.source_configuration_digest b.source_configuration_digest (cc e))

  capability_json_inj :
      (a b : CapabilityId)
      → canonical_json (capability_json h a) ≡ canonical_json (capability_json h b)
      → a ≡ b
  capability_json_inj a b e =
      ordered_capability_inj a b (sym (ordered_capability_lem a) ∙ e ∙ ordered_capability_lem b)

  -- The canonical form of a manifest.
  abbrev ordered_manifest : LeaseTerms → Json
  ordered_manifest t = json (
      ("capabilities", array (canonical_items (items (map (capability_json h) t.capabilities))))
      ∷ ("expiresAtUnixMs", number t.expires_at_monotonic_ms)
      ∷ ("monetaryBudget", number t.monetary_budget)
      ∷ ("principal", string t.principal)
      ∷ ("requestIdentity", string t.request_identity)
      ∷ ("retryBudget", number t.retry_budget)
      ∷ ("scope", array (canonical_items (items (map string t.scope))))
      ∷ (
        "sideEffects",
        array (canonical_items (items (map (λ s. string (side_effect_name s)) t.side_effects))),
      )
      ∷ ("tenant", string t.tenant)
      ∷ ("tokenBudget", number t.token_budget)
      ∷ [])

  ordered_manifest_lem : (t : LeaseTerms) → canonical_json (manifest_json h t) ≡ ordered_manifest t
  unfolding canonical_json insert_field
  ordered_manifest_lem t = refl

  ordered_manifest_inj : (s t : LeaseTerms) → ordered_manifest s ≡ ordered_manifest t → s ≡ t
  ordered_manifest_inj s t e =
      let capabilities =
        items_inj (capability_json h) capability_json_inj s.capabilities t.capabilities (cc e) in
      let scopes = items_inj string string_json_inj s.scope t.scope (cc e) in
      let side_effects =
        items_inj (λ s. string (side_effect_name s)) side_effect_json_inj s.side_effects
          t.side_effects (cc e) in
      LeaseTerms-ext s t (cc e) (cc e) (cc e) capabilities scopes (cc e) (cc e) (cc e) (cc e)
        side_effects

  manifest_json_inj :
      (s t : LeaseTerms)
      → canonical_json (manifest_json h s) ≡ canonical_json (manifest_json h t)
      → s ≡ t
  manifest_json_inj s t e =
      ordered_manifest_inj s t (sym (ordered_manifest_lem s) ∙ e ∙ ordered_manifest_lem t)

  -- When the texts of digests tell them apart and the hash does not give the changed terms the
  -- digest of the issued ones, a lease whose terms were changed in any way after it was issued
  -- authorizes nothing.
  pub authorize-changed :
      (id : LeaseId) (t changed : LeaseTerms) (caller : PrincipalId) (from : TenantId)
      (wanted : CapabilityId) (now : ℕ)
      → (digest_of_terms h changed ≡ digest_of_terms h (sorted_capabilities t)
          → canonical_json (manifest_json h changed)
            ≡ canonical_json (manifest_json h (sorted_capabilities t)))
      → changed ≢ sorted_capabilities t
      → authorize h
          (record (issue_with_side_effects h id t) { terms = changed })
          caller
          from
          wanted
          now
        ≢ ok tt
  unfolding issue_with_side_effects
  authorize-changed id t changed caller from wanted now distinguishes other granted =
      let (_, _, _, sealed, _) =
        (authorize_lem h (record (issue_with_side_effects h id t) { terms = changed }) caller from
            wanted now).0
          granted in
      other (manifest_json_inj changed (sorted_capabilities t) (distinguishes sealed))
