-- ===== src/Base/Maps.antt =====
-- `BTreeMap` as a list of entries with their keys.
use Prim.Native.Nat.{ℕ, suc, ◌+◌, ◌≤◌}
use mathlib.Core.Path.{◌≡◌, refl, ap, sym, ◌∙◌}
use mathlib.Core.Logic.{◌⊎◌, inl, inr}
use mathlib.Core.Bool.{Bool, false}
use mathlib.Core.Option.{Option, none, some}
use mathlib.Core.List.{List, [], ◌∷◌}
use native.Mathlib.Omega.{arith}
use gaugemesh.Base.Tests.{if◌then◌else◌, Bool-cases}
use gaugemesh.Base.Lists.{length, All, All-map}
use gaugemesh.Base.Classes.{Eq, ◌==◌, eq_self}

module _ {ℓ κ} {K : Type ℓ} {V : Type κ} ⦃e : Eq K⦄ where
  abbrev pub get : List (K × V) → K → Option V
  get [] key = none
  get ((k, v) ∷ rest) key = if k == key then some v else get rest key

  -- `insert`: an entry of the key is replaced
  abbrev pub insert : List (K × V) → K → V → List (K × V)
  insert [] key value = (key, value) ∷ []
  insert ((k, v) ∷ rest) key value =
      if k == key then (k, value) ∷ rest else (k, v) ∷ insert rest key value

  abbrev pub remove : List (K × V) → K → List (K × V)
  remove [] key = []
  remove ((k, v) ∷ rest) key = if k == key then remove rest key else (k, v) ∷ remove rest key

  -- `values().filter(p).count()`
  abbrev pub count_values : (V → Bool) → List (K × V) → ℕ
  count_values p [] = 0
  count_values p ((k, v) ∷ rest) = (if p v then 1 else 0) + count_values p rest

  pub get-insert :
      (m : List (K × V)) (k j : K) (v : V)
      → get (insert m k v) j ≡ (if k == j then some v else get m j)
  get-insert [] k j v = refl
  get-insert ((i, w) ∷ m) k j v =
      ground (arith, e.same_iff i k, e.same_iff i j, e.same_iff k j, get-insert m k j v)

  pub get-remove :
      (m : List (K × V)) (k j : K) → get (remove m k) j ≡ (if k == j then none else get m j)
  get-remove [] k j = ground arith
  get-remove ((i, w) ∷ m) k j =
      ground (arith, e.same_iff i k, e.same_iff i j, e.same_iff k j, get-remove m k j)

  pub get-insert_self : (m : List (K × V)) (k : K) (v : V) → get (insert m k v) k ≡ some v
  get-insert_self m k v = ground (arith, get-insert m k k v, eq_self k)

  pub get-insert_other :
      (m : List (K × V)) (k j : K) (v : V) → (k == j) ≡ false → get (insert m k v) j ≡ get m j
  get-insert_other m k j v apart = ground (arith, get-insert m k j v)

  -- What a lookup after an insertion finds is the new value or an entry of another key.
  pub get-insert-some :
      (m : List (K × V)) (k j : K) (v w : V)
      → get (insert m k v) j ≡ some w
      → ((k ≡ j) × (v ≡ w)) ⊎ (((k == j) ≡ false) × (get m j ≡ some w))
  get-insert-some m k j v w h = elim (Bool-cases (k == j)) [
    | inl same ↦ inl ((e.same_iff k j).0 same, ground (arith, get-insert m k j v, same))
    | inr apart ↦ inr (apart, ground (arith, get-insert m k j v, apart))
  ]

  pub get-remove_self : (m : List (K × V)) (k : K) → get (remove m k) k ≡ none
  get-remove_self m k = ground (arith, get-remove m k k, eq_self k)

  pub get-remove_other :
      (m : List (K × V)) (k j : K) → (k == j) ≡ false → get (remove m k) j ≡ get m j
  get-remove_other m k j apart = ground (arith, get-remove m k j)

  pub get-remove-some :
      (m : List (K × V)) (k j : K) (w : V)
      → get (remove m k) j ≡ some w
      → ((k == j) ≡ false) × (get m j ≡ some w)
  get-remove-some m k j w h = elim (Bool-cases (k == j)) [
    | inl same ↦ ground (arith, get-remove m k j, same)
    | inr apart ↦ (apart, ground (arith, get-remove m k j, apart))
  ]

  -- Keys with different values are different.
  pub get_apart :
      ⦃f : Eq V⦄ (m : List (K × V)) (k j : K) (v w : V)
      → get m k ≡ some v
      → get m j ≡ some w
      → (v == w) ≡ false
      → (k == j) ≡ false
  get_apart ⦃f⦄ m k j v w p q apart = elim (Bool-cases (k == j)) [
    | inl same ↦ ground (arith, ap (get m) ((e.same_iff k j).0 same), f.same_iff v w)
    | inr different ↦ different
  ]

  pub length-insert : (m : List (K × V)) (k : K) (v : V) → length (insert m k v) ≤ length m + 1
  length-insert [] k v = omega arith
  length-insert ((i, w) ∷ m) k v = ground (arith, length-insert m k v)

  pub length-insert_present :
      (m : List (K × V)) (k : K) (v w : V) → get m k ≡ some w → length (insert m k v) ≡ length m
  length-insert_present [] k v w h = cc
  length-insert_present ((i, x) ∷ m) k v w h = ground (arith, length-insert_present m k v w)

  pub length-remove_le : (m : List (K × V)) (k : K) → length (remove m k) ≤ length m
  length-remove_le [] k = omega arith
  length-remove_le ((i, w) ∷ m) k = ground (arith, length-remove_le m k)

  pub length-remove :
      (m : List (K × V)) (k : K) (v : V) → get m k ≡ some v → suc (length (remove m k)) ≤ length m
  length-remove [] k v h = cc
  length-remove ((i, w) ∷ m) k v h = ground (arith, length-remove m k v, length-remove_le m k)

  pub count_values-insert :
      (p : V → Bool) (m : List (K × V)) (k : K) (v : V)
      → count_values p (insert m k v) ≤ count_values p m + 1
  count_values-insert p [] k v = ground arith
  count_values-insert p ((i, w) ∷ m) k v = ground (arith, count_values-insert p m k v)

  pub count_values-remove :
      (p : V → Bool) (m : List (K × V)) (k : K) → count_values p (remove m k) ≤ count_values p m
  count_values-remove p [] k = omega arith
  count_values-remove p ((i, w) ∷ m) k = ground (arith, count_values-remove p m k)

  -- No two entries have one key.
  abbrev pub HasUniqueKeys : List (K × V) → Type κ
  HasUniqueKeys [] = Unit
  HasUniqueKeys ((k, v) ∷ m) = (get m k ≡ none) × HasUniqueKeys m

  pub HasUniqueKeys-insert :
      (m : List (K × V)) (k : K) (v : V) → HasUniqueKeys m → HasUniqueKeys (insert m k v)
  HasUniqueKeys-insert [] k v h = (refl, tt)
  HasUniqueKeys-insert ((i, w) ∷ m) k v h = elim (Bool-cases (i == k)) [
    | inl same ↦ rw same h
    | inr apart ↦
        let other : (k == i) ≡ false = ground (arith, e.same_iff k i, e.same_iff i k) in
        rw apart (get-insert_other m k i v other ∙ h.0, HasUniqueKeys-insert m k v h.1)
  ]

  pub HasUniqueKeys-remove :
      (m : List (K × V)) (k : K) → HasUniqueKeys m → HasUniqueKeys (remove m k)
  HasUniqueKeys-remove [] k h = tt
  HasUniqueKeys-remove ((i, w) ∷ m) k h = elim (Bool-cases (i == k)) [
    | inl same ↦ rw same (HasUniqueKeys-remove m k h.1)
    | inr apart ↦
        let other : (k == i) ≡ false = ground (arith, e.same_iff k i, e.same_iff i k) in
        rw apart (get-remove_other m k i other ∙ h.0, HasUniqueKeys-remove m k h.1)
  ]

  pub HasUniqueKeys-get :
      (m : List (K × V)) → HasUniqueKeys m → All (λ (x : K × V). get m x.0 ≡ some x.1) m
  HasUniqueKeys-get [] h = tt
  HasUniqueKeys-get ((i, w) ∷ m) h =
      (ground (arith, eq_self i), All-map m (λ x there. later x there) (HasUniqueKeys-get m h.1))
    where
      later :
          (x : K × V) → get m x.0 ≡ some x.1 → (if i == x.0 then some w else get m x.0) ≡ some x.1
      later x there = elim (Bool-cases (i == x.0)) [
        | inl same ↦
            let clash : none ≡ some x.1 =
              sym h.0 ∙ ap (get m) ((e.same_iff i x.0).0 same) ∙ there in
            cc
        | inr apart ↦ rw apart there
      ]

  -- What holds of every lookup holds of every entry.
  pub HasUniqueKeys-All {ν} :
      (P : K × V → Type ν) (m : List (K × V))
      → HasUniqueKeys m
      → ((k : K) (v : V) → get m k ≡ some v → P (k, v))
      → All P m
  HasUniqueKeys-All P m h found = All-map m (λ x there. found x.0 x.1 there) (HasUniqueKeys-get m h)

  remove_absent : (m : List (K × V)) (k : K) → get m k ≡ none → remove m k ≡ m
  remove_absent [] k h = refl
  remove_absent ((i, w) ∷ m) k h = elim (Bool-cases (i == k)) [
    | inl same ↦ ground (arith, same)
    | inr apart ↦ ground (arith, apart, remove_absent m k (ground (arith, apart)))
  ]

  pub length-remove_unique :
      (m : List (K × V)) (k : K) (v : V)
      → HasUniqueKeys m
      → get m k ≡ some v
      → suc (length (remove m k)) ≡ length m
  length-remove_unique [] k v h f = cc
  length-remove_unique ((i, w) ∷ m) k v h f = elim (Bool-cases (i == k)) [
    | inl same ↦
        let gone : remove m i ≡ m = remove_absent m i h.0 in
        ground (arith, same, (e.same_iff i k).0 same, gone)
    | inr apart ↦ ground (arith, apart, length-remove_unique m k v h.1 (ground (arith, apart)))
  ]

  pub count_values-remove_skip :
      (p : V → Bool) (m : List (K × V)) (k : K) (v : V)
      → HasUniqueKeys m
      → get m k ≡ some v
      → p v ≡ false
      → count_values p (remove m k) ≡ count_values p m
  count_values-remove_skip p [] k v h f skip = cc
  count_values-remove_skip p ((i, w) ∷ m) k v h f skip = elim (Bool-cases (i == k)) [
    | inl same ↦
        let gone : remove m i ≡ m = remove_absent m i h.0 in
        ground (arith, same, (e.same_iff i k).0 same, gone, skip)
    | inr apart ↦
        ground (arith, apart, count_values-remove_skip p m k v h.1 (ground (arith, apart)) skip)
  ]
