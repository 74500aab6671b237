-- ===== src/Base/Dedup.antt =====
-- `dedup`: of two equal neighbours the later one goes. After `sort` this leaves an ascending list.
use mathlib.Core.Path.{◌≡◌, refl, subst}
use mathlib.Core.Logic.{inl, inr}
use mathlib.Core.Bool.{true, false}
use mathlib.Core.List.{List, [], ◌∷◌}
use native.Mathlib.Omega.{arith}
use gaugemesh.Base.Tests.{if◌then◌else◌, Bool-cases}
use gaugemesh.Base.Lists.{All, All-map, is_empty}
use gaugemesh.Base.Classes.{Eq, ◌==◌}
use gaugemesh.Base.Order.{Ord, less, less_trans, at_most_split}
use gaugemesh.Base.Sorting.{sort, sort_by_key, IsSorted, IsAscending, sort-All_inv}

module _ {ℓ} {A : Type ℓ} ⦃e : Eq A⦄ where
  -- `dedup()`, after an entry that was kept
  unfoldable pub dedup_after : A → List A → List A
  dedup_after x [] = []
  dedup_after x (y ∷ ys) = if x == y then dedup_after x ys else y ∷ dedup_after y ys

  unfoldable pub dedup : List A → List A
  unfolding dedup_after
  dedup [] = []
  dedup (x ∷ xs) = x ∷ dedup_after x xs

module _ {ℓ} {A : Type ℓ} ⦃e : Eq A⦄ where
  dedup_after-All {ν} : (P : A → Type ν) (x : A) (xs : List A) → All P xs → All P (dedup_after x xs)
  unfolding dedup_after
  dedup_after-All P x [] h = tt
  dedup_after-All P x (y ∷ ys) h = elim (Bool-cases (x == y)) [
    | inl same ↦ rw same (dedup_after-All P x ys h.1)
    | inr other ↦ rw other (h.0, dedup_after-All P y ys h.1)
  ]

  pub dedup-All {ν} : (P : A → Type ν) (xs : List A) → All P xs → All P (dedup xs)
  unfolding dedup
  dedup-All P [] h = tt
  dedup-All P (x ∷ xs) h = (h.0, dedup_after-All P x xs h.1)

module _ {A : Type 0} ⦃e : Eq A⦄ where
  dedup_after-All_inv {ν} :
      (P : A → Type ν) (x : A) (xs : List A) → P x → All P (dedup_after x xs) → All P xs
  unfolding dedup_after
  dedup_after-All_inv P x [] h k = tt
  dedup_after-All_inv P x (y ∷ ys) h k = elim (Bool-cases (x == y)) [
    | inl same ↦
        let equal : x ≡ y = (e.same_iff x y).0 same in
        (subst P equal h, dedup_after-All_inv P x ys h (rw same at k))
    | inr other ↦
        let parts : P y × All P (dedup_after y ys) = rw other at k in
        (parts.0, dedup_after-All_inv P y ys parts.0 parts.1)
  ]

  pub dedup-All_inv {ν} : (P : A → Type ν) (xs : List A) → All P (dedup xs) → All P xs
  unfolding dedup
  dedup-All_inv P [] h = tt
  dedup-All_inv P (x ∷ xs) h = (h.0, dedup_after-All_inv P x xs h.0 h.1)

module _ {ℓ} {A : Type ℓ} ⦃e : Eq A⦄ ⦃o : Ord A⦄ where
  dedup_after-IsAscending :
      (x : A) (xs : List A)
      → IsSorted (λ y. y) (x ∷ xs)
      → IsAscending (λ y. y) (x ∷ dedup_after x xs)
  unfolding dedup_after
  dedup_after-IsAscending x [] s = (tt, tt)
  dedup_after-IsAscending x (y ∷ ys) s = elim (Bool-cases (x == y)) [
    | inl same ↦ rw same (dedup_after-IsAscending x ys (s.0.1, s.1.1))
    | inr other ↦
        let rest : IsAscending (λ z. z) (y ∷ dedup_after y ys) = dedup_after-IsAscending y ys s.1 in
        let below : less x y ≡ true = ground (arith, e.same_iff x y, at_most_split x y) in
        rw other
          ((below, All-map (dedup_after y ys) (λ z q. less_trans x y z below q) rest.0), rest)
  ]

  pub dedup-IsAscending : (xs : List A) → IsSorted (λ y. y) xs → IsAscending (λ y. y) (dedup xs)
  unfolding dedup
  dedup-IsAscending [] s = tt
  dedup-IsAscending (x ∷ xs) s = dedup_after-IsAscending x xs s

  -- `sort(); dedup()` of a list that is not empty is not empty.
  pub dedup-sort_empty : (xs : List A) → is_empty (dedup (sort xs)) ≡ is_empty xs
  unfolding dedup sort
  dedup-sort_empty [] = refl
  dedup-sort_empty (x ∷ xs) = go (sort_by_key (λ y. y) (x ∷ xs)) refl
    where
      go :
          (ys : List A)
          → sort_by_key (λ y. y) (x ∷ xs) ≡ ys
          → is_empty (dedup (sort_by_key (λ y. y) (x ∷ xs))) ≡ false
      go [] f = absurd (sort-All_inv (λ y. y) (λ y. ⊥) (x ∷ xs) (rw f tt)).0
      go (y ∷ ys) f = rw (f, dedup) refl
