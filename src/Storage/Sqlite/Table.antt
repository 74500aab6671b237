-- ===== src/Storage/Sqlite/Table.antt =====
-- The table of task routes that holds what `MemoryTaskRoutes` of storage.rs holds.
use gaugemesh.Base.{
  suc, ◌≡◌, refl, ap, ◌∙◌, sym, subst, arith, Bool, true, false, none, some, List, [], ◌∷◌, ◌++◌,
  length, find, any, keep, All, Elem, find-Elem, find-none, All_elem, ◌==◌, string_eq, eq_self, get,
  insert, remove, count_values, HasUniqueKeys, Bool-cases, Option-cases, inl, inr,
}
use gaugemesh.Task.{TaskRouteRecord, PublicTaskId}
use gaugemesh.Task.Shape.{is_some}
use gaugemesh.Storage.Sqlite.{StoredTaskRoute, route_row, delete_rows, deleted_rows}

abbrev pub Routes : Type 0
Routes = List (PublicTaskId × TaskRouteRecord)

abbrev pub table : Routes → List StoredTaskRoute
table [] = []
table ((id, r) ∷ m) = route_row r ∷ table m

pub length-table : (m : Routes) → length (table m) ≡ length m
length-table [] = refl
length-table ((id, r) ∷ m) = ap suc (length-table m)

pub table-append :
    (m : Routes) (id : PublicTaskId) (r : TaskRouteRecord)
    → get m id ≡ none
    → table (insert m id r) ≡ table m ++ (route_row r ∷ [])
table-append [] id r f = refl
table-append ((i, q) ∷ m) id r f = elim (Bool-cases (i == id)) [
  | inl same ↦ ground (arith, same)
  | inr apart ↦
      rw apart (ap (λ rows. route_row q ∷ rows) (table-append m id r (ground (arith, apart))))
]

table-Elem :
    (m : Routes) (id : PublicTaskId) (r : TaskRouteRecord)
    → get m id ≡ some r
    → Elem (route_row r) (table m)
table-Elem [] id r f = cc
table-Elem ((i, q) ∷ m) id r f = elim (Bool-cases (i == id)) [
  | inl same ↦ let equal : q ≡ r = ground (arith, same) in inl (ap route_row (sym equal))
  | inr apart ↦ inr (table-Elem m id r (ground (arith, apart)))
]

abbrev IsListed : Routes → StoredTaskRoute → Type 0
IsListed m row =
    (id : PublicTaskId) × (r : TaskRouteRecord) × (get m id ≡ some r) × (row ≡ route_row r)

IsListed-later :
    (i : PublicTaskId) (q : TaskRouteRecord) (m : Routes) (row : StoredTaskRoute)
    → get m i ≡ none
    → IsListed m row
    → IsListed ((i, q) ∷ m) row
IsListed-later i q m row fresh (id, r, f, same) = elim (Bool-cases (i == id)) [
  | inl equal ↦
      let clash : get m id ≡ none =
        subst (λ j. get m j ≡ none) ((string_eq.same_iff i id).0 equal) fresh in
      let bad : none ≡ some r = sym clash ∙ f in cc
  | inr apart ↦ (id, r, ground (arith, apart, f), same)
]

IsListed-here :
    (i : PublicTaskId) (q : TaskRouteRecord) (m : Routes) (row : StoredTaskRoute)
    → row ≡ route_row q
    → IsListed ((i, q) ∷ m) row
IsListed-here i q m row here = (i, q, ground (arith, eq_self i), here)

table-IsListed :
    (m : Routes) (row : StoredTaskRoute) → HasUniqueKeys m → Elem row (table m) → IsListed m row
table-IsListed [] row h there = absurd there
table-IsListed ((i, q) ∷ m) row h there = elim there [
  | inl here ↦ IsListed-here i q m row here
  | inr later ↦ IsListed-later i q m row h.0 (table-IsListed m row h.1 later)
]

module _ (m : Routes) (h : HasUniqueKeys m) (p : StoredTaskRoute → Bool) where
  -- A test that holds of the row of one route finds that row.
  pub find-table :
      (id : PublicTaskId) (r : TaskRouteRecord)
      → get m id ≡ some r
      → p (route_row r) ≡ true
      → ((j : PublicTaskId) (q : TaskRouteRecord)
          → get m j ≡ some q
          → p (route_row q) ≡ true
          → j ≡ id)
      → find p (table m) ≡ some (route_row r)
  find-table id r f holds alone = elim (Option-cases (find p (table m))) [
    | inl missed ↦
        let fails : p (route_row r) ≡ false =
          All_elem (λ row. p row ≡ false) (table m) (find-none p (table m) missed)
            (table-Elem m id r f) in
        let bad : true ≡ false = sym holds ∙ fails in cc
    | inr (row, found) ↦
        let (passes, there) = find-Elem p (table m) found in
        let (j, q, g, same) = table-IsListed m row h there in
        let one : j ≡ id = alone j q g (subst (λ x. p x ≡ true) same passes) in
        let value : get m id ≡ some q = subst (λ x. get m x ≡ some q) one g in
        let equal : q ≡ r = cc in found ∙ ap (λ x. some x) (same ∙ ap route_row equal)
  ]

  pub find-table-none :
      ((j : PublicTaskId) (q : TaskRouteRecord) → get m j ≡ some q → p (route_row q) ≡ false)
      → find p (table m) ≡ none
  find-table-none fails = elim (Option-cases (find p (table m))) [
    | inl missed ↦ missed
    | inr (row, found) ↦
        let (passes, there) = find-Elem p (table m) found in
        let (j, q, g, same) = table-IsListed m row h there in
        let bad : true ≡ false = sym passes ∙ ap p same ∙ fails j q g in cc
  ]

module _ (p : StoredTaskRoute → Bool) (id : PublicTaskId) where
  -- The test holds of the row of the route `id` alone.
  abbrev pub IsOf : PublicTaskId × TaskRouteRecord → Type 0
  IsOf x = p (route_row x.1) ≡ (x.0 == id)

  pub delete_rows-table : (m : Routes) → All IsOf m → delete_rows p (table m) ≡ table (remove m id)
  delete_rows-table [] h = refl
  delete_rows-table ((i, q) ∷ m) h = elim (Bool-cases (i == id)) [
    | inl same ↦ rw (h.0, same) (delete_rows-table m h.1)
    | inr apart ↦ rw (h.0, apart) (ap (λ rows. route_row q ∷ rows) (delete_rows-table m h.1))
  ]

  deleted_rows-table-none :
      (m : Routes) → All IsOf m → get m id ≡ none → deleted_rows p (table m) ≡ 0
  deleted_rows-table-none [] h f = refl
  deleted_rows-table-none ((i, q) ∷ m) h f = elim (Bool-cases (i == id)) [
    | inl same ↦ ground (arith, same)
    | inr apart ↦ ground (arith, h.0, apart, deleted_rows-table-none m h.1 (ground (arith, apart)))
  ]

  pub deleted_rows-table :
      (m : Routes) (r : TaskRouteRecord)
      → HasUniqueKeys m
      → All IsOf m
      → get m id ≡ some r
      → deleted_rows p (table m) ≡ 1
  deleted_rows-table [] r u h f = cc
  deleted_rows-table ((i, q) ∷ m) r u h f = elim (Bool-cases (i == id)) [
    | inl same ↦
        let gone : get m id ≡ none =
          subst (λ j. get m j ≡ none) ((string_eq.same_iff i id).0 same) u.0 in
        ground (arith, h.0, same, deleted_rows-table-none m h.1 gone)
    | inr apart ↦ ground (arith, h.0, apart, deleted_rows-table m r u.1 h.1 (ground (arith, apart)))
  ]

pub any-table :
    (m : Routes) (id : PublicTaskId)
    → All (λ (x : PublicTaskId × TaskRouteRecord). x.1.public_task_id ≡ x.0) m
    → any (λ (row : StoredTaskRoute). row.public_task_id == id) (table m) ≡ is_some (get m id)
any-table [] id h = refl
any-table ((i, q) ∷ m) id h = elim (Bool-cases (i == id)) [
  | inl same ↦ ground (arith, h.0, same)
  | inr apart ↦ ground (arith, h.0, apart, any-table m id h.1)
]

pub count-table :
    (p : StoredTaskRoute → Bool) (q : TaskRouteRecord → Bool) (m : Routes)
    → ((r : TaskRouteRecord) → p (route_row r) ≡ q r)
    → length (keep p (table m)) ≡ count_values q m
count-table p q [] same = refl
count-table p q ((i, r) ∷ m) same = ground (arith, same r, count-table p q m same)
