-- ===== src/Federation/Merging.antt =====
-- What `merge` of federation.rs leaves to be found.
use gaugemesh.Base.{
  ◌≡◌, ◌↔◌, ◌⊎◌, refl, ◌∙◌, subst, arith, String, false, ◌||◌, Option, none, some, List, [], ◌∷◌,
  Result, ok, reject_if_ok, ok_or, ◌==◌, string_eq, get, insert, get-insert, HasUniqueKeys,
  Option-cases, Bool-cases, inl, inr,
}
use gaugemesh.Task.Shape.{is_some}
use gaugemesh.Federation.{
  Federation, FederationError, alias_collision, not_found, shares_key, extend, merge, find_tool,
  find_resource, find_prompt,
}

abbrev or_else : {V : Type 0} → Option V → Option V → Option V
or_else none other = other
or_else (some v) other = some v

none_of : {V : Type 0} (o : Option V) → is_some o ≡ false → o ≡ none
none_of none h = refl
none_of (some a) h = cc

module _ {V : Type 0} where
  get-extend :
      (mine other : List (String × V)) (key : String)
      → HasUniqueKeys other
      → get (extend mine other) key ≡ or_else (get other key) (get mine key)
  get-extend mine [] key u = refl
  get-extend mine ((k, v) ∷ rest) key u =
      get-extend (insert mine k v) rest key u.1 ∙ elim (Bool-cases (k == key)) [
        | inl same ↦
            let gone : get rest key ≡ none =
              subst (λ x. get rest x ≡ none) ((string_eq.same_iff k key).0 same) u.0 in
            ground (arith, same, gone, get-insert mine k key v)
        | inr apart ↦ ground (arith, apart, get-insert mine k key v)
      ]

  apart-get :
      (mine other : List (String × V)) (key : String) (v : V)
      → shares_key mine other ≡ false
      → get other key ≡ some v
      → get mine key ≡ none
  apart-get mine [] key v apart f = cc
  apart-get mine ((k, w) ∷ rest) key v apart f = elim (Bool-cases (k == key)) [
    | inl same ↦
        let missing : is_some (get mine k) ≡ false = ground (arith, apart) in
        subst (λ x. get mine x ≡ none) ((string_eq.same_iff k key).0 same)
          (none_of (get mine k) missing)
    | inr other ↦ apart-get mine rest key v (ground (arith, apart)) (ground (arith, other))
  ]

  -- A catalogue holds what two others hold.
  abbrev pub Unites : List (String × V) → List (String × V) → List (String × V) → Type 0
  Unites both mine other =
      (key : String) (v : V)
      → (get both key ≡ some v) ↔ ((get mine key ≡ some v) ⊎ (get other key ≡ some v))

  extend-Unites :
      (mine other : List (String × V))
      → HasUniqueKeys other
      → shares_key mine other ≡ false
      → Unites (extend mine other) mine other
  extend-Unites mine other u apart key v = elim (Option-cases (get other key)) [
    | inl missing ↦ (
      λ f. inl (ground (arith, f, missing, get-extend mine other key u)),
      λ p. elim p [
        | inl f ↦ ground (arith, f, missing, get-extend mine other key u)
        | inr f ↦ ground (arith, f, missing)
      ],
    )
    | inr (w, there) ↦
        let absent = apart-get mine other key w apart there in
        (
          λ f. inr (ground (arith, f, there, get-extend mine other key u)),
          λ p. elim p [
            | inl f ↦ ground (arith, f, absent)
            | inr f ↦ ground (arith, f, get-extend mine other key u)
          ],
        )
  ]

  found_iff :
      (o : Option V) (v : V)
      → (◌≡◌ {A = Result FederationError V} (ok_or o not_found) (ok v)) ↔ (o ≡ some v)
  found_iff none v = (λ h. cc, λ h. cc)
  found_iff (some w) v = (λ h. cc, λ h. cc)

-- A lookup finds in `both` what it finds in one of the others.
abbrev pub Finds :
    {V : Type 0}
    → (Federation → String → Result FederationError V)
    → Federation
    → Federation
    → Federation
    → Type 0
Finds {V = V} look both mine other =
    (key : String) (v : V)
    → (look both key ≡ ok v) ↔ ((look mine key ≡ ok v) ⊎ (look other key ≡ ok v))

-- No catalogue has two entries of one key.
abbrev pub AreMaps : Federation → Type 0
AreMaps f =
    HasUniqueKeys f.tools
    × HasUniqueKeys f.resources
    × HasUniqueKeys f.prompts
    × HasUniqueKeys f.templates

merge_ok :
    (mine other both : Federation)
    → AreMaps other
    → merge mine other ≡ ok both
    → Unites both.tools mine.tools other.tools
      × Unites both.resources mine.resources other.resources
      × Unites both.prompts mine.prompts other.prompts
      × Unites both.templates mine.templates other.templates
unfolding merge
merge_ok mine other both (tools, resources, prompts, templates) m =
    let (apart, e) =
      reject_if_ok
        (shares_key mine.tools other.tools
          || shares_key mine.resources other.resources
          || shares_key mine.prompts other.prompts
          || shares_key mine.templates other.templates)
        alias_collision _ m in
    let same : record {
      tools = extend mine.tools other.tools;
      resources = extend mine.resources other.resources;
      prompts = extend mine.prompts other.prompts;
      templates = extend mine.templates other.templates;
    }
        ≡ both =
      cc in
    subst
      (λ (f : Federation).
        Unites f.tools mine.tools other.tools
        × Unites f.resources mine.resources other.resources
        × Unites f.prompts mine.prompts other.prompts
        × Unites f.templates mine.templates other.templates)
      same
      (
        extend-Unites mine.tools other.tools tools (ground (arith, apart)),
        extend-Unites mine.resources other.resources resources (ground (arith, apart)),
        extend-Unites mine.prompts other.prompts prompts (ground (arith, apart)),
        extend-Unites mine.templates other.templates templates (ground (arith, apart)),
      )

module _ {V : Type 0} (of_key : Federation → String → Option V) where
  ok_or-Finds :
      (mine other both : Federation)
      → ((key : String) (v : V)
          → (of_key both key ≡ some v) ↔ ((of_key mine key ≡ some v) ⊎ (of_key other key ≡ some v)))
      → Finds (λ f key. ok_or (of_key f key) not_found) both mine other
  ok_or-Finds mine other both unites key v =
      let in_both = found_iff (of_key both key) v in
      let in_mine = found_iff (of_key mine key) v in
      let in_other = found_iff (of_key other key) v in
      let unite = unites key v in
      (
        λ h. elim (unite.0 (in_both.0 h)) [
          | inl f ↦ inl (in_mine.1 f)
          | inr f ↦ inr (in_other.1 f)
        ],
        λ p.
            in_both.1 (unite.1 (elim p [ inl h ↦ inl (in_mine.0 h) | inr h ↦ inr (in_other.0 h) ])),
      )

-- A merge that succeeds loses and invents nothing: each lookup by alias or address finds in the merged
-- federation exactly what it finds in one of the two, and the templates are those of both.
pub merge-Finds :
    (mine other both : Federation)
    → AreMaps other
    → merge mine other ≡ ok both
    → Finds find_tool both mine other
      × Finds find_resource both mine other
      × Finds find_prompt both mine other
      × Unites both.templates mine.templates other.templates
unfolding find_tool find_resource find_prompt
merge-Finds mine other both maps m =
    let (tools, resources, prompts, templates) = merge_ok mine other both maps m in
    (
      ok_or-Finds (λ f key. get f.tools key) mine other both tools,
      ok_or-Finds (λ f key. get f.resources key) mine other both resources,
      ok_or-Finds (λ f key. get f.prompts key) mine other both prompts,
      templates,
    )
