-- ===== src/Base/Sorting.antt =====
-- `slice::sort_by_key`, `dedup` and tests on `windows(2)`. Rust's sort is stable, so it is the
-- function that insertion sort computes.
use mathlib.Core.Path.{◌≡◌, refl, subst}
use mathlib.Core.Logic.{inl, inr}
use mathlib.Core.Bool.{Bool, true, false, ◌||◌}
use mathlib.Core.Option.{none, some}
use mathlib.Core.List.{List, [], ◌∷◌}
use native.Mathlib.Omega.{arith}
use gaugemesh.Base.Tests.{if◌then◌else◌, Bool-cases}
use gaugemesh.Base.Lists.{All, first, All-map}
use gaugemesh.Base.Classes.{Eq, ◌==◌}
use gaugemesh.Base.Order.{
  at_most_self, Ord, less, at_most, at_most_trans, at_most_total, less_trans, at_most_split,
  not-at_most-less,
}

module _ {ℓ} {A : Type ℓ} where
  -- `p` at some two neighbours: `windows(2).any(|pair| p(pair[0], pair[1]))`
  abbrev pub any_near : (A → A → Bool) → A → List A → Bool
  any_near p x [] = false
  any_near p x (y ∷ ys) = p x y || any_near p y ys

  abbrev pub any_window : (A → A → Bool) → List A → Bool
  any_window p [] = false
  any_window p (x ∷ xs) = any_near p x xs

module _ {ℓ κ} {A : Type ℓ} {K : Type κ} ⦃o : Ord K⦄ (key : A → K) where
  unfoldable pub insert_by_key : A → List A → List A
  insert_by_key x [] = x ∷ []
  insert_by_key x (y ∷ ys) = if at_most (key x) (key y) then x ∷ y ∷ ys else y ∷ insert_by_key x ys

  unfoldable pub sort_by_key : List A → List A
  unfolding insert_by_key
  sort_by_key [] = []
  sort_by_key (x ∷ xs) = insert_by_key x (sort_by_key xs)

  -- Every entry is at most the later ones.
  abbrev pub IsSorted : List A → Type κ
  IsSorted [] = Unit
  IsSorted (x ∷ xs) = All (λ y. at_most (key x) (key y) ≡ true) xs × IsSorted xs

  -- Every entry is less than the later ones.
  abbrev pub IsAscending : List A → Type κ
  IsAscending [] = Unit
  IsAscending (x ∷ xs) = All (λ y. less (key x) (key y) ≡ true) xs × IsAscending xs

  insert-All {ν} :
      (P : A → Type ν) (x : A) (xs : List A) → P x → All P xs → All P (insert_by_key x xs)
  unfolding insert_by_key
  insert-All P x [] h hs = (h, tt)
  insert-All P x (y ∷ ys) h hs = elim (Bool-cases (at_most (key x) (key y))) [
    | inl e ↦ rw e (h, hs)
    | inr e ↦ rw e (hs.0, insert-All P x ys h hs.1)
  ]

  pub sort-All {ν} : (P : A → Type ν) (xs : List A) → All P xs → All P (sort_by_key xs)
  unfolding sort_by_key
  sort-All P [] h = tt
  sort-All P (x ∷ xs) h = insert-All P x (sort_by_key xs) h.0 (sort-All P xs h.1)

  insert-All_inv {ν} :
      (P : A → Type ν) (x : A) (xs : List A) → All P (insert_by_key x xs) → P x × All P xs
  unfolding insert_by_key
  insert-All_inv P x [] h = (h.0, tt)
  insert-All_inv P x (y ∷ ys) h = elim (Bool-cases (at_most (key x) (key y))) [
    | inl e ↦ rw e at h
    | inr e ↦
        let parts : P y × All P (insert_by_key x ys) = rw e at h in
        let (first_one, others) = insert-All_inv P x ys parts.1 in (first_one, (parts.0, others))
  ]

  pub sort-All_inv {ν} : (P : A → Type ν) (xs : List A) → All P (sort_by_key xs) → All P xs
  unfolding sort_by_key
  sort-All_inv P [] h = tt
  sort-All_inv P (x ∷ xs) h =
      let (first_one, others) = insert-All_inv P x (sort_by_key xs) h in
      (first_one, sort-All_inv P xs others)

  insert-IsSorted : (x : A) (xs : List A) → IsSorted xs → IsSorted (insert_by_key x xs)
  unfolding insert_by_key
  insert-IsSorted x [] h = (tt, tt)
  insert-IsSorted x (y ∷ ys) h = elim (Bool-cases (at_most (key x) (key y))) [
    | inl e ↦ rw e ((e, All-map ys (λ z q. at_most_trans (key x) (key y) (key z) e q) h.0), h)
    | inr e ↦ rw e (
      insert-All (λ z. at_most (key y) (key z) ≡ true) x ys (at_most_total (key x) (key y) e) h.0,
      insert-IsSorted x ys h.1,
    )
  ]

  pub sort-IsSorted : (xs : List A) → IsSorted (sort_by_key xs)
  unfolding sort_by_key
  sort-IsSorted [] = tt
  sort-IsSorted (x ∷ xs) = insert-IsSorted x (sort_by_key xs) (sort-IsSorted xs)

  -- A sorted list with no two equal neighbours is ascending.
  pub IsAscending-of_sorted :
      ⦃e : Eq K⦄ (xs : List A)
      → IsSorted xs
      → any_window (λ a b. key a == key b) xs ≡ false
      → IsAscending xs
  IsAscending-of_sorted [] s w = tt
  IsAscending-of_sorted (x ∷ []) s w = (tt, tt)
  IsAscending-of_sorted ⦃e⦄ (x ∷ y ∷ ys) s w =
      let rest : IsAscending (y ∷ ys) = IsAscending-of_sorted (y ∷ ys) s.1 (ground arith) in
      let below : less (key x) (key y) ≡ true =
        ground (arith, e.same_iff (key x) (key y), at_most_split (key x) (key y)) in
      ((below, All-map ys (λ z q. less_trans (key x) (key y) (key z) below q) rest.0), rest)

  -- The test `pair[0] >= pair[1]` finds nothing in an ascending list.
  pub ascending_windows :
      (xs : List A) → IsAscending xs → any_window (λ a b. at_most (key b) (key a)) xs ≡ false
  ascending_windows [] h = refl
  ascending_windows (x ∷ []) h = refl
  ascending_windows (x ∷ y ∷ ys) h =
      ground (arith, not-at_most-less (key x) (key y), ascending_windows (y ∷ ys) h.1)

-- `sort()`: by the entry itself
module _ {ℓ} {A : Type ℓ} ⦃o : Ord A⦄ where
  unfoldable pub sort : List A → List A
  unfolding sort_by_key
  sort xs = sort_by_key (λ x. x) xs

  sorted_first :
      (m : A) (xs : List A)
      → IsSorted (λ x. x) xs
      → first xs ≡ some m
      → All (λ x. at_most m x ≡ true) xs
  sorted_first m [] h e = cc
  sorted_first m (x ∷ xs) h e =
      let same : x ≡ m = cc in
      subst (λ z. All (λ y. at_most z y ≡ true) (x ∷ xs)) same (at_most_self x, h.0)

  -- The first entry of the sorted list is at most every entry.
  pub first-sort_le :
      (xs : List A) (m : A) → first (sort xs) ≡ some m → All (λ x. at_most m x ≡ true) xs
  unfolding sort
  first-sort_le xs m e =
      sort-All_inv (λ x. x) (λ x. at_most m x ≡ true) xs
        (sorted_first m (sort_by_key (λ x. x) xs) (sort-IsSorted (λ x. x) xs) e)

  pub first-sort_all {ν} :
      (P : A → Type ν) (xs : List A) (m : A) → All P xs → first (sort xs) ≡ some m → P m
  unfolding sort
  first-sort_all P xs m h e = go (sort_by_key (λ x. x) xs) (sort-All (λ x. x) P xs h) e
    where
      go : (ys : List A) → All P ys → first ys ≡ some m → P m
      go [] k f = cc
      go (y ∷ ys) k f = let same : y ≡ m = cc in rw (← same) k.0

  -- Sorting a list that is not empty leaves a first entry.
  pub first-sort-none : (xs : List A) → first (sort xs) ≡ none → xs ≡ []
  unfolding sort
  first-sort-none xs e =
      empty xs (sort-All_inv (λ x. x) (λ x. ⊥) xs (nothing (sort_by_key (λ x. x) xs) e))
    where
      nothing : (ys : List A) → first ys ≡ none → All (λ y. ⊥) ys
      nothing [] f = tt
      nothing (y ∷ ys) f = cc

      empty : (ys : List A) → All (λ y. ⊥) ys → ys ≡ []
      empty [] h = refl
      empty (y ∷ ys) h = absurd h.0
