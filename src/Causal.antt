-- ===== src/Causal.antt =====
-- crates/gaugemesh-core/src/causal.rs: the append-only graph of causal observations.
pub mod Acyclic
mod Tests
use gaugemesh.Base.{
  ℕ, zero, suc, String, Bool, true, false, ◌||◌, Option, none, some, List, [], ◌∷◌, ◌++◌, length,
  if◌then◌else◌, contains, Result, ok, err, ◌>>=◌, ◌>>◌, reject_if, ◌==◌, string_eq,
}
use gaugemesh.Digest.{Sha256Digest}
use gaugemesh.Context.{CausalId}

pub record CausalObservation : Type 0 where
  pub id : CausalId
  pub parent : Option CausalId
  pub kind : String
  pub evidence_digest : Sha256Digest

-- The map of parents, of which the latest entry stands first, and the observations in order.
pub record CausalGraph : Type 0 where
  pub parents : List (CausalId × Option CausalId)
  pub observations : List CausalObservation

pub data CausalError : Type 0 where
  duplicate missing_parent cycle : CausalError

abbrev pub empty_graph : CausalGraph
empty_graph = record { parents = []; observations = [] }

abbrev pub has_node : List (CausalId × Option CausalId) → CausalId → Bool
has_node [] id = false
has_node ((k, p) ∷ rest) id = k == id || has_node rest id

-- `self.parents.get(&node).cloned().flatten()`
abbrev pub parent_of : List (CausalId × Option CausalId) → CausalId → Option CausalId
parent_of [] id = none
parent_of ((k, p) ∷ rest) id = if k == id then p else parent_of rest id

-- The loop `while let Some(node) = cursor`; `none` when the fuel is used up.
unfoldable pub walk :
    ℕ
    → List (CausalId × Option CausalId)
    → CausalId
    → Option CausalId
    → List CausalId
    → Option (Result CausalError (Unit {0}))
walk fuel parents id none seen = some (ok tt)
walk zero parents id (some node) seen = none
walk (suc fuel) parents id (some node) seen =
    let rest = walk fuel parents id (parent_of parents node) (node ∷ seen) in
    if node == id || contains seen node then some (err cycle) else rest

abbrev pub walked : Option (Result CausalError (Unit {0})) → Result CausalError (Unit {0})
walked none = err cycle
walked (some r) = r

abbrev pub check_parent : CausalGraph → CausalId → Option CausalId → Result CausalError (Unit {0})
check_parent g id none = ok tt
check_parent g id (some parent) = do
  reject_if (parent == id) cycle
  reject_if (if has_node g.parents parent then false else true) missing_parent
  walked (walk (suc (length g.parents)) g.parents id (some parent) [])

unfoldable pub append : CausalGraph → CausalObservation → Result CausalError CausalGraph
unfolding walk
append g o = do
  reject_if (has_node g.parents o.id) duplicate
  check_parent g o.id o.parent
  ok (record { parents = (o.id, o.parent) ∷ g.parents; observations = g.observations ++ o ∷ [] })
