-- ===== src/Base/Rearranging.antt =====
-- Lists with the same entries in another order, and what does not see the order.
use mathlib.Core.Path.{◌≡◌, refl, sym, ◌∙◌, ap}
use mathlib.Core.Logic.{◌≢◌}
use mathlib.Core.Bool.{Bool, ◌||◌}
use mathlib.Core.List.{List, [], ◌∷◌}
use native.Mathlib.Omega.{arith}
use gaugemesh.Base.Lists.{All, any}
use gaugemesh.Base.Order.{Ord, at_most_total, at_most_antisym, at_most_trans}
use gaugemesh.Base.Sorting.{insert_by_key, sort_by_key}

pub data Rearranged {ℓ} {A : Type ℓ} : List A → List A → Type ℓ where
  as_is : (xs : List A) → Rearranged xs xs
  after_head : (x : A) {xs ys : List A} → Rearranged xs ys → Rearranged (x ∷ xs) (x ∷ ys)
  heads_swapped : (x y : A) (xs : List A) → Rearranged (x ∷ y ∷ xs) (y ∷ x ∷ xs)
  in_turn : {xs ys zs : List A} → Rearranged xs ys → Rearranged ys zs → Rearranged xs zs

module _ {ℓ} {A : Type ℓ} where
  pub any-Rearranged : (p : A → Bool) {xs ys : List A} → Rearranged xs ys → any p xs ≡ any p ys
  any-Rearranged p (as_is xs) = refl
  any-Rearranged p (after_head x r) = ap (λ b. p x || b) (any-Rearranged p r)
  any-Rearranged p (heads_swapped x y xs) = ground arith
  any-Rearranged p (in_turn r s) = any-Rearranged p r ∙ any-Rearranged p s

  pub All-Rearranged {ν} :
      (P : A → Type ν) {xs ys : List A} → Rearranged xs ys → All P xs → All P ys
  All-Rearranged P (as_is xs) h = h
  All-Rearranged P (after_head x r) h = (h.0, All-Rearranged P r h.1)
  All-Rearranged P (heads_swapped x y xs) h = (h.1.0, (h.0, h.1.1))
  All-Rearranged P (in_turn r s) h = All-Rearranged P s (All-Rearranged P r h)

module _ {ℓ κ} {A : Type ℓ} {K : Type κ} ⦃o : Ord K⦄ (key : A → K) where
  -- No two entries have the same key.
  abbrev pub HasDistinctKeys : List A → Type κ
  HasDistinctKeys [] = Unit
  HasDistinctKeys (x ∷ xs) = All (λ y. key x ≢ key y) xs × HasDistinctKeys xs

  pub HasDistinctKeys-Rearranged :
      {xs ys : List A} → Rearranged xs ys → HasDistinctKeys xs → HasDistinctKeys ys
  HasDistinctKeys-Rearranged (as_is xs) h = h
  HasDistinctKeys-Rearranged (after_head x r) h =
      (All-Rearranged (λ y. key x ≢ key y) r h.0, HasDistinctKeys-Rearranged r h.1)
  HasDistinctKeys-Rearranged (heads_swapped x y xs) h =
      (((λ e. h.0.0 (sym e)), h.1.0), (h.0.1, h.1.1))
  HasDistinctKeys-Rearranged (in_turn r s) h =
      HasDistinctKeys-Rearranged s (HasDistinctKeys-Rearranged r h)

  insert_by_key_comm :
      (x y : A) (xs : List A)
      → key x ≢ key y
      → insert_by_key key x (insert_by_key key y xs) ≡ insert_by_key key y (insert_by_key key x xs)
  unfolding insert_by_key
  insert_by_key_comm x y [] d =
      ground (arith, at_most_total (key x) (key y), at_most_antisym (key x) (key y))
  insert_by_key_comm x y (z ∷ zs) d = ground (
    arith,
    at_most_total (key x) (key y),
    at_most_antisym (key x) (key y),
    at_most_trans (key x) (key y) (key z),
    at_most_trans (key y) (key x) (key z),
    insert_by_key_comm x y zs d,
  )

  -- With distinct keys, sorting gives one list for every order of the input.
  pub sort_by_key-Rearranged :
      {xs ys : List A}
      → Rearranged xs ys
      → HasDistinctKeys xs
      → sort_by_key key xs ≡ sort_by_key key ys
  unfolding sort_by_key
  sort_by_key-Rearranged (as_is xs) h = refl
  sort_by_key-Rearranged (after_head x r) h =
      ap (insert_by_key key x) (sort_by_key-Rearranged r h.1)
  sort_by_key-Rearranged (heads_swapped x y xs) h =
      insert_by_key_comm x y (sort_by_key key xs) h.0.0
  sort_by_key-Rearranged (in_turn r s) h =
      sort_by_key-Rearranged r h ∙ sort_by_key-Rearranged s (HasDistinctKeys-Rearranged r h)
