-- ===== src/Base/Counts.antt =====
-- How many values of a map pass a test.
use Prim.Native.Nat.{ℕ, ◌+◌, ◌≤◌}
use mathlib.Core.Path.{◌≡◌, refl, subst}
use mathlib.Core.Bool.{Bool, true, false}
use mathlib.Core.Option.{none, some}
use mathlib.Core.Logic.{inl, inr}
use mathlib.Core.List.{List, [], ◌∷◌}
use native.Mathlib.Omega.{arith}
use gaugemesh.Base.Tests.{Bool-cases}
use gaugemesh.Base.Lists.{length, keep, All}
use gaugemesh.Base.Classes.{Eq, ◌==◌}
use gaugemesh.Base.Maps.{get, insert, count_values, HasUniqueKeys, HasUniqueKeys-All}

abbrev pub bit : Bool → ℕ
bit true = 1
bit false = 0

module _ {ℓ κ} {K : Type ℓ} {V : Type κ} ⦃e : Eq K⦄ where
  pub count_values-insert_present :
      (p : V → Bool) (m : List (K × V)) (k : K) (v w : V)
      → get m k ≡ some w
      → count_values p (insert m k v) + bit (p w) ≡ count_values p m + bit (p v)
  count_values-insert_present p [] k v w f = cc
  count_values-insert_present p ((i, x) ∷ m) k v w f = elim (Bool-cases (i == k)) [
    | inl same ↦ ground (arith, same)
    | inr apart ↦
        ground (arith, apart, count_values-insert_present p m k v w (ground (arith, apart)))
  ]

  pub count_values-insert_absent :
      (p : V → Bool) (m : List (K × V)) (k : K) (v : V)
      → get m k ≡ none
      → count_values p (insert m k v) ≡ count_values p m + bit (p v)
  count_values-insert_absent p [] k v f = ground arith
  count_values-insert_absent p ((i, x) ∷ m) k v f = elim (Bool-cases (i == k)) [
    | inl same ↦ ground (arith, same)
    | inr apart ↦ ground (arith, apart, count_values-insert_absent p m k v (ground (arith, apart)))
  ]

  pub count_values-get :
      (p : V → Bool) (m : List (K × V)) (k : K) (v : V)
      → get m k ≡ some v
      → p v ≡ true
      → 1 ≤ count_values p m
  count_values-get p [] k v f holds = cc
  count_values-get p ((i, x) ∷ m) k v f holds = elim (Bool-cases (i == k)) [
    | inl same ↦ ground (arith, same)
    | inr apart ↦ ground (arith, apart, count_values-get p m k v (ground (arith, apart)) holds)
  ]

  count_values-All :
      (p q : V → Bool) (m : List (K × V))
      → All (λ (x : K × V). p x.1 ≡ true → q x.1 ≡ true) m
      → count_values p m ≤ count_values q m
  count_values-All p q [] h = ground arith
  count_values-All p q ((i, x) ∷ m) h = elim (Bool-cases (p x)) [
    | inl holds ↦ ground (arith, holds, h.0 holds, count_values-All p q m h.1)
    | inr fails ↦ ground (arith, fails, count_values-All p q m h.1)
  ]

  -- A test that another one follows from counts no more.
  pub count_values-follows :
      (p q : V → Bool) (m : List (K × V))
      → HasUniqueKeys m
      → ((k : K) (v : V) → get m k ≡ some v → p v ≡ true → q v ≡ true)
      → count_values p m ≤ count_values q m
  count_values-follows p q m u follows =
      count_values-All p q m
        (HasUniqueKeys-All (λ (x : K × V). p x.1 ≡ true → q x.1 ≡ true) m u follows)

  count_values-false :
      (p : V → Bool) (m : List (K × V))
      → All (λ (x : K × V). p x.1 ≡ false) m
      → count_values p m ≡ 0
  count_values-false p [] h = refl
  count_values-false p ((i, x) ∷ m) h = ground (arith, h.0, count_values-false p m h.1)

  pub count_values-none :
      (p : V → Bool) (m : List (K × V))
      → HasUniqueKeys m
      → ((k : K) (v : V) → get m k ≡ some v → p v ≡ false)
      → count_values p m ≡ 0
  count_values-none p m u fails =
      count_values-false p m (HasUniqueKeys-All (λ (x : K × V). p x.1 ≡ false) m u fails)

  pub All-insert {ν} :
      (P : K × V → Type ν) (m : List (K × V)) (k : K) (v : V)
      → All P m
      → P (k, v)
      → All P (insert m k v)
  All-insert P [] k v h new = (new, tt)
  All-insert P ((i, x) ∷ m) k v h new = elim (Bool-cases (i == k)) [
    | inl same ↦ rw (same, (e.same_iff i k).0 same) (new, h.1)
    | inr apart ↦ rw apart (h.0, All-insert P m k v h.1 new)
  ]

  pub get-All {ν} :
      (P : V → Type ν) (m : List (K × V)) (k : K) (v : V)
      → All (λ (x : K × V). P x.1) m
      → get m k ≡ some v
      → P v
  get-All P [] k v h f = cc
  get-All P ((i, x) ∷ m) k v h f = elim (Bool-cases (i == k)) [
    | inl same ↦ let equal : x ≡ v = ground (arith, same) in subst P equal h.0
    | inr apart ↦ get-All P m k v h.1 (ground (arith, apart))
  ]

  pub All-keep {ν} :
      (P : K × V → Type ν) (f : K × V → Bool) (m : List (K × V)) → All P m → All P (keep f m)
  All-keep P f [] h = tt
  All-keep P f (x ∷ m) h = elim (Bool-cases (f x)) [
    | inl holds ↦ rw holds (h.0, All-keep P f m h.1)
    | inr fails ↦ rw fails (All-keep P f m h.1)
  ]

  pub get-keep :
      (f : K × V → Bool) (m : List (K × V)) (k : K) (v : V)
      → get m k ≡ some v
      → f (k, v) ≡ true
      → get (keep f m) k ≡ some v
  get-keep f [] k v g holds = cc
  get-keep f ((i, x) ∷ m) k v g holds = elim (Bool-cases (i == k)) [
    | inl same ↦
        let equal : x ≡ v = ground (arith, same) in
        let kept : f (i, x) ≡ true = rw ((e.same_iff i k).0 same, equal) holds in
        ground (arith, kept, same)
    | inr apart ↦ elim (Bool-cases (f (i, x))) [
      | inl kept ↦ ground (arith, kept, apart, get-keep f m k v (ground (arith, apart)) holds)
      | inr gone ↦ ground (arith, gone, get-keep f m k v (ground (arith, apart)) holds)
    ]
  ]

pub length-keep {ℓ} : {A : Type ℓ} (f : A → Bool) (m : List A) → length (keep f m) ≤ length m
length-keep f [] = ground arith
length-keep f (x ∷ m) = ground (arith, length-keep f m)
