-- ===== src/Causal/Acyclic.antt =====
-- The graph of causal.rs stays acyclic, and its walk to the root ends.
use gaugemesh.Base.{
  ℕ, zero, suc, ◌<◌, ◌≡◌, ◌↔◌, refl, sym, ◌∙◌, ap, subst, arith, Bool, true, false, Option, none,
  some, List, [], ◌∷◌, ◌++◌, length, if◌then◌else◌, Bool-cases, inl, inr, or_false, contains, All,
  All-map, ok, reject_if_ok, reject_if_pass, >>_ok, >>_pass, ◌==◌, string_eq,
}
use text.Mathlib.TextEquality.{eq_iff}
use gaugemesh.Context.{CausalId}
use gaugemesh.Causal.{
  CausalObservation, CausalGraph, duplicate, missing_parent, cycle, has_node, parent_of, walk,
  walked, check_parent, append,
}

abbrev pub IsKnown : List (CausalId × Option CausalId) → Option CausalId → Type 0
IsKnown parents none = Unit
IsKnown parents (some id) = has_node parents id ≡ true

-- Every node is new among those before it, and its parent stands before it.
abbrev pub IsGrown : List (CausalId × Option CausalId) → Type 0
IsGrown [] = Unit
IsGrown ((k, p) ∷ rest) = (has_node rest k ≡ false) × IsKnown rest p × IsGrown rest

abbrev Agree : List (CausalId × Option CausalId) → List (CausalId × Option CausalId) → Type 0
Agree parents rest =
    (x : CausalId) → has_node rest x ≡ true → parent_of parents x ≡ parent_of rest x

not_seen :
    (rest : List (CausalId × Option CausalId)) (seen : List CausalId) (node : CausalId)
    → All (λ s. has_node rest s ≡ false) seen
    → has_node rest node ≡ true
    → contains seen node ≡ false
not_seen rest [] node h k = refl
not_seen rest (s ∷ seen) node h k = elim (Bool-cases (node == s)) [
  | inl same ↦
      let absent = subst (λ x. has_node rest x ≡ false) (sym ((eq_iff node s).0 same)) h.0 in
      ground (arith, absent, k)
  | inr other ↦ ground (arith, other, not_seen rest seen node h.1 k)
]

skip : {test : Bool} (p q : Option CausalId) → test ≡ false → (if test then p else q) ≡ q
skip p q other = rw other refl

Agree-rest :
    (parents rest : List (CausalId × Option CausalId)) (k : CausalId) (p : Option CausalId)
    → has_node rest k ≡ false
    → Agree parents ((k, p) ∷ rest)
    → Agree parents rest
Agree-rest parents rest k p absent agree x known = elim (Bool-cases (k == x)) [
  | inl same ↦
      let clash = subst (λ y. has_node rest y ≡ false) ((eq_iff k x).0 same) absent in
      ground (arith, clash, known)
  | inr other ↦
      let whole : has_node ((k, p) ∷ rest) x ≡ true = ground (arith, known) in
      agree x whole ∙ skip p (parent_of rest x) other
]

take : {test : Bool} (p q : Option CausalId) → test ≡ true → (if test then p else q) ≡ p
take p q holds = rw holds refl

module _ (parents : List (CausalId × Option CausalId)) (id : CausalId) (fuel : ℕ) where
  walk_step :
      (node : CausalId) (seen : List CausalId)
      → (node == id) ≡ false
      → contains seen node ≡ false
      → walk (suc fuel) parents id (some node) seen
        ≡ walk fuel parents id (parent_of parents node) (node ∷ seen)
  unfolding walk
  walk_step node seen other new = rw (other, new) refl

  -- The walk ends at a root, or goes on from the parent.
  to_root :
      (seen : List CausalId) (p : Option CausalId)
      → ((q : CausalId) → p ≡ some q → walk fuel parents id (some q) seen ≡ some (ok tt))
      → walk fuel parents id p seen ≡ some (ok tt)
  unfolding walk
  to_root seen none goes_on = refl
  to_root seen (some q) goes_on = goes_on q refl

walk_ends :
    (parents rest : List (CausalId × Option CausalId)) (id : CausalId) (fuel : ℕ) (node : CausalId)
    (seen : List CausalId)
    → IsGrown rest
    → Agree parents rest
    → has_node rest id ≡ false
    → All (λ s. has_node rest s ≡ false) seen
    → has_node rest node ≡ true
    → length rest < fuel
    → walk fuel parents id (some node) seen ≡ some (ok tt)
walk_ends parents [] id fuel node seen grown agree new unseen known enough = cc
walk_ends parents ((k, p) ∷ rest) id zero node seen grown agree new unseen known enough =
    absurd (ground (arith, enough))
walk_ends parents ((k, p) ∷ rest) id (suc fuel) node seen (fresh, older, grown) agree new unseen
      known enough =
    let later = Agree-rest parents rest k p fresh agree in
    let (apart, new_later) = or_false (k == id) (has_node rest id) new in
    let unseen_later = All-map seen (λ s q. (or_false (k == s) (has_node rest s) q).1) unseen in
    elim (Bool-cases (k == node)) [
      | inl same ↦
          let here : k ≡ node = (eq_iff k node).0 same in
          let fresh_node = subst (λ x. has_node rest x ≡ false) here fresh in
          let up : parent_of parents node ≡ p =
            agree node known ∙ take p (parent_of rest node) same in
          let other_id = subst (λ x. (x == id) ≡ false) here apart in
          walk_step parents id fuel node seen other_id
            (not_seen ((k, p) ∷ rest) seen node unseen known)
          ∙ ap (λ o. walk fuel parents id o (node ∷ seen)) up
          ∙ to_root parents id fuel (node ∷ seen) p (λ q e.
            walk_ends parents rest id fuel q (node ∷ seen) grown later new_later
              (fresh_node, unseen_later) (subst (IsKnown rest) e older) (ground (arith, enough)))
      | inr other ↦
          walk_ends parents rest id (suc fuel) node seen grown later new_later unseen_later
            (ground (arith, known, other)) (ground (arith, enough))
    ]

-- The walk of a new node to its root ends within the number of nodes, and meets no cycle.
walk_new :
    (parents : List (CausalId × Option CausalId)) (id parent : CausalId)
    → IsGrown parents
    → has_node parents id ≡ false
    → has_node parents parent ≡ true
    → walk (suc (length parents)) parents id (some parent) [] ≡ some (ok tt)
walk_new parents id parent grown new known =
    walk_ends parents parents id (suc (length parents)) parent [] grown (λ x k. refl) new tt known
      (ground arith)

-- An observation fits a graph: its node is new, and its parent, if it has one, is there.
abbrev pub Fits : CausalGraph → CausalObservation → Type 0
Fits g o = (has_node g.parents o.id ≡ false) × IsKnown g.parents o.parent

abbrev pub extended : CausalGraph → CausalObservation → CausalGraph
extended g o = record {
  parents = (o.id, o.parent) ∷ g.parents;
  observations = g.observations ++ o ∷ [];
}

others :
    (parents : List (CausalId × Option CausalId)) (a b : CausalId)
    → has_node parents a ≡ true
    → has_node parents b ≡ false
    → (a == b) ≡ false
others parents a b known new = elim (Bool-cases (a == b)) [
  | inl same ↦
      let clash = subst (λ x. has_node parents x ≡ true) ((eq_iff a b).0 same) known in
      ground (arith, clash, new)
  | inr other ↦ other
]

check_parent-IsKnown :
    (g : CausalGraph) (id : CausalId) (parent : Option CausalId)
    → IsGrown g.parents
    → has_node g.parents id ≡ false
    → IsKnown g.parents parent
    → check_parent g id parent ≡ ok tt
check_parent-IsKnown g id none grown new known = refl
check_parent-IsKnown g id (some parent) grown new known =
    reject_if_pass (parent == id) cycle _ (others g.parents parent id known new) (
      reject_if_pass (if has_node g.parents parent then false else true) missing_parent _
        (rw known refl) (ap walked (walk_new g.parents id parent grown new known)))

IsKnown-check_parent :
    (g : CausalGraph) (id : CausalId) (parent : Option CausalId)
    → check_parent g id parent ≡ ok tt
    → IsKnown g.parents parent
IsKnown-check_parent g id none h = tt
IsKnown-check_parent g id (some parent) h =
    let (_, h1) = reject_if_ok (parent == id) _ _ h in
    let (found, _) = reject_if_ok (if has_node g.parents parent then false else true) _ _ h1 in
    ground (arith, found)

-- In a graph that has grown node by node an observation is appended exactly when its node is new
-- and its parent, if it has one, is there; it becomes the last one. The walk to the root never
-- reports a cycle then, and its fuel is enough.
pub append_lem :
    (g : CausalGraph) (o : CausalObservation)
    → IsGrown g.parents
    → (append g o ≡ ok (extended g o)) ↔ Fits g o
unfolding append
append_lem g o grown = (
  (λ e.
      let (new, e1) = reject_if_ok (has_node g.parents o.id) _ _ e in
      let (checked, _) = >>_ok (check_parent g o.id o.parent) _ e1 in
      (new, IsKnown-check_parent g o.id o.parent checked)),
  (λ fits. reject_if_pass (has_node g.parents o.id) duplicate _ fits.0 (
      >>_pass (check_parent g o.id o.parent) _
        (check_parent-IsKnown g o.id o.parent grown fits.0 fits.1) refl)),
)

-- Appending keeps the graph acyclic: every parent stands before its node, and no node stands twice.
pub append-IsGrown :
    (g : CausalGraph) (o : CausalObservation) (g2 : CausalGraph)
    → IsGrown g.parents
    → append g o ≡ ok g2
    → IsGrown g2.parents
unfolding append
append-IsGrown g o g2 grown e =
    let (new, e1) = reject_if_ok (has_node g.parents o.id) _ _ e in
    let (checked, e2) = >>_ok (check_parent g o.id o.parent) _ e1 in
    let same : extended g o ≡ g2 = cc e2 in
    subst (λ x. IsGrown x.parents) same (new, IsKnown-check_parent g o.id o.parent checked, grown)
