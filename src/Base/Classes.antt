-- ===== src/Base/Classes.antt =====
-- `PartialEq` and `Ord` as interfaces, with the instances for numbers, texts, options and lists.
use Prim.Native.Nat.{ℕ}
use Prim.Native.String.{String}
use mathlib.Core.Path.{◌≡◌, refl, sym, subst}
use mathlib.Core.Logic.{◌↔◌, inl, inr}
use mathlib.Core.Bool.{Bool, true, false, not, ◌&&◌, ◌||◌}
use mathlib.Core.Option.{Option, none, some}
use mathlib.Core.List.{List, [], ◌∷◌, ◌++◌}
use native.Mathlib.Omega.{arith}
use text.Mathlib.Text.{◌==◌ as str_eq}
use text.Mathlib.TextEquality.{eq_iff}
use gaugemesh.Base.Tests.{eqb, eqb_iff, Bool-cases}

pub both : (a b : Bool) → (a && b) ≡ true → (a ≡ true) × (b ≡ true)
both true true h = (refl, refl)
both true false h = cc
both false b h = cc

-- A derived `PartialEq` decides the identity type.
pub record Eq {ℓ} (T : Type ℓ) : Type ℓ where
  pub same : T → T → Bool
  pub same_iff : (x y : T) → (same x y ≡ true) ↔ (x ≡ y)

infix 50 ◌!=◌ ◌==◌
abbrev pub ◌!=◌ {ℓ} : {T : Type ℓ} ⦃derived : Eq T⦄ → T → T → Bool
◌!=◌ ⦃derived⦄ x y = not (derived.same x y)

abbrev pub ◌==◌ {ℓ} : {T : Type ℓ} ⦃derived : Eq T⦄ → T → T → Bool
◌==◌ ⦃derived⦄ x y = derived.same x y

instance abbrev pub string_eq : Eq String
string_eq = record { same = str_eq; same_iff = eq_iff }

instance abbrev pub nat_eq : Eq ℕ
nat_eq = record { same = eqb; same_iff = eqb_iff }

module _ {ℓ} {A : Type ℓ} ⦃e : Eq A⦄ where
  abbrev pub option_beq : Option A → Option A → Bool
  option_beq none none = true
  option_beq none (some b) = false
  option_beq (some a) none = false
  option_beq (some a) (some b) = a == b

  pub option_beq_iff : (o p : Option A) → (option_beq o p ≡ true) ↔ (o ≡ p)
  option_beq_iff none none = (λ _. refl, λ _. refl)
  option_beq_iff none (some b) = (λ h. cc, λ h. cc)
  option_beq_iff (some a) none = (λ h. cc, λ h. cc)
  option_beq_iff (some a) (some b) =
      (λ h. cc ((e.same_iff a b).0 h), λ h. (e.same_iff a b).1 (cc h))

  abbrev pub list_beq : List A → List A → Bool
  list_beq [] [] = true
  list_beq [] (y ∷ ys) = false
  list_beq (x ∷ xs) [] = false
  list_beq (x ∷ xs) (y ∷ ys) = x == y && list_beq xs ys

  pub list_beq_iff : (xs ys : List A) → (list_beq xs ys ≡ true) ↔ (xs ≡ ys)
  list_beq_iff [] [] = (λ _. refl, λ _. refl)
  list_beq_iff [] (y ∷ ys) = (λ h. cc, λ h. cc)
  list_beq_iff (x ∷ xs) [] = (λ h. cc, λ h. cc)
  list_beq_iff (x ∷ xs) (y ∷ ys) = ground (arith, e.same_iff x y, list_beq_iff xs ys)

  -- `contains(&a)`
  abbrev pub contains : List A → A → Bool
  contains [] a = false
  contains (x ∷ xs) a = a == x || contains xs a

  -- `is_subset` of a set that is kept as a list
  abbrev pub is_subset : List A → List A → Bool
  is_subset [] ys = true
  is_subset (x ∷ xs) ys = contains ys x && is_subset xs ys

  -- `starts_with(prefix)`, the prefix second
  abbrev pub starts_with : List A → List A → Bool
  starts_with ys [] = true
  starts_with [] (x ∷ xs) = false
  starts_with (y ∷ ys) (x ∷ xs) = y == x && starts_with ys xs

module _ {ℓ} {A : Type ℓ} ⦃e : Eq A⦄ where
  instance abbrev pub option_eq : Eq (Option A)
  option_eq = record { same = option_beq; same_iff = option_beq_iff }

  instance abbrev pub list_eq : Eq (List A)
  list_eq = record { same = list_beq; same_iff = list_beq_iff }

  pub eq_self : (a : A) → (a == a) ≡ true
  eq_self a = (e.same_iff a a).1 refl

module _ {ℓ κ} {A : Type ℓ} {B : Type κ} ⦃d : Eq A⦄ ⦃e : Eq B⦄ where
  abbrev pub pair_beq : A × B → A × B → Bool
  pair_beq x y = x.0 == y.0 && x.1 == y.1

  pub pair_beq_iff : (x y : A × B) → (pair_beq x y ≡ true) ↔ (x ≡ y)
  pair_beq_iff x y = ground (arith, d.same_iff x.0 y.0, e.same_iff x.1 y.1)

  instance abbrev pub pair_eq : Eq (A × B)
  pair_eq = record { same = pair_beq; same_iff = pair_beq_iff }

module _ {ℓ} {A : Type ℓ} ⦃e : Eq A⦄ where
  is_subset-cons : (a : A) (xs ys : List A) → is_subset xs ys ≡ true → is_subset xs (a ∷ ys) ≡ true
  is_subset-cons a [] ys h = refl
  is_subset-cons a (x ∷ xs) ys h = ground (arith, h, is_subset-cons a xs ys)

  pub is_subset_self : (xs : List A) → is_subset xs xs ≡ true
  is_subset_self [] = refl
  is_subset_self (x ∷ xs) = ground (arith, eq_self x, is_subset-cons x xs xs (is_subset_self xs))

  pub starts_with_self : (xs : List A) → starts_with xs xs ≡ true
  starts_with_self [] = refl
  starts_with_self (x ∷ xs) = ground (arith, eq_self x, starts_with_self xs)

  pub starts_with_trans :
      (xs ys zs : List A)
      → starts_with ys xs ≡ true
      → starts_with zs ys ≡ true
      → starts_with zs xs ≡ true
  starts_with_trans [] ys zs h k = refl
  starts_with_trans (x ∷ xs) [] zs h k = cc
  starts_with_trans (x ∷ xs) (y ∷ ys) [] h k = cc
  starts_with_trans (x ∷ xs) (y ∷ ys) (z ∷ zs) h k =
      ground
        (arith, h, k, e.same_iff y x, e.same_iff z y, e.same_iff z x, starts_with_trans xs ys zs)

  pub starts_with-append : (xs ys : List A) → starts_with (xs ++ ys) xs ≡ true
  starts_with-append [] ys = refl
  starts_with-append (x ∷ xs) ys = ground (arith, eq_self x, starts_with-append xs ys)

  contains-is_subset :
      (xs ys : List A) (a : A)
      → is_subset xs ys ≡ true
      → contains xs a ≡ true
      → contains ys a ≡ true
  contains-is_subset [] ys a h k = cc
  contains-is_subset (x ∷ xs) ys a h k = elim (Bool-cases (a == x)) [
    | inl same ↦
        let (first_one, _) = both (contains ys x) (is_subset xs ys) h in
        subst (λ b. contains ys b ≡ true) (sym ((e.same_iff a x).0 same)) first_one
    | inr other ↦
        let (_, others) = both (contains ys x) (is_subset xs ys) h in
        contains-is_subset xs ys a others (ground (arith, k, other))
  ]

  pub is_subset_trans :
      (xs ys zs : List A) → is_subset xs ys ≡ true → is_subset ys zs ≡ true → is_subset xs zs ≡ true
  is_subset_trans [] ys zs h k = refl
  is_subset_trans (x ∷ xs) ys zs h k =
      let (first_one, others) = both (contains ys x) (is_subset xs ys) h in
      ground (arith, contains-is_subset ys zs x k first_one, is_subset_trans xs ys zs others k)
