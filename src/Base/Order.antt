-- ===== src/Base/Order.antt =====
-- Rust's `Ord`: a comparison with the laws of a total order, for numbers, texts and pairs.
use Prim.Native.Nat.{ℕ, compare as compare_ℕ, Ordering}
use Prim.Native.String.{String, [], ◌∷◌, then, compare}
use Prim.Native.String.compare
use mathlib.Core.Path.{◌≡◌, refl}
use mathlib.Core.Logic.{◌⊎◌}
use mathlib.Core.Bool.{Bool, true, false, not}
use native.Mathlib.Omega.{arith, compare-eq}
use text.Mathlib.TextEquality.{path_by_compare}
use text.Mathlib.TextPositions.{compare_refl}

abbrev pub flip_order : Ordering → Ordering
flip_order Ordering.lt = Ordering.gt
flip_order Ordering.eq = Ordering.eq
flip_order Ordering.gt = Ordering.lt

pub record Ord {ℓ} (A : Type ℓ) : Type ℓ where
  pub cmp : A → A → Ordering
  pub cmp_self : (a : A) → cmp a a ≡ Ordering.eq
  pub cmp_eq : (a b : A) → cmp a b ≡ Ordering.eq → a ≡ b
  pub cmp_flip : (a b : A) → cmp b a ≡ flip_order (cmp a b)
  pub cmp_trans :
      (a b c : A) → cmp a b ≡ Ordering.lt → cmp b c ≡ Ordering.lt → cmp a c ≡ Ordering.lt

pub nat_cmp_self : (a : ℕ) → compare_ℕ a a ≡ Ordering.eq
nat_cmp_self a = ground arith

pub nat_cmp_flip : (a b : ℕ) → compare_ℕ b a ≡ flip_order (compare_ℕ a b)
nat_cmp_flip a b = ground arith

pub nat_cmp_trans :
    (a b c : ℕ)
    → compare_ℕ a b ≡ Ordering.lt
    → compare_ℕ b c ≡ Ordering.lt
    → compare_ℕ a c ≡ Ordering.lt
nat_cmp_trans a b c h k = ground arith

pub string_cmp_flip : (s t : String) → compare t s ≡ flip_order (compare s t)
string_cmp_flip [] [] = refl
string_cmp_flip [] (d ∷ t) = cc (compare.nil-cons d t, compare.cons-nil d t)
string_cmp_flip (c ∷ s) [] = cc (compare.nil-cons c s, compare.cons-nil c s)
string_cmp_flip (c ∷ s) (d ∷ t) =
    ground (arith, compare.cons-cons c d s t, compare.cons-cons d c t s, string_cmp_flip s t)

pub string_cmp_trans :
    (s t u : String)
    → compare s t ≡ Ordering.lt
    → compare t u ≡ Ordering.lt
    → compare s u ≡ Ordering.lt
string_cmp_trans [] [] u h k = cc
string_cmp_trans [] (d ∷ t) [] h k = cc (compare.cons-nil d t)
string_cmp_trans [] (d ∷ t) (e ∷ u) h k = compare.nil-cons e u
string_cmp_trans (c ∷ s) [] u h k = cc (compare.cons-nil c s)
string_cmp_trans (c ∷ s) (d ∷ t) [] h k = cc (compare.cons-nil d t)
string_cmp_trans (c ∷ s) (d ∷ t) (e ∷ u) h k = ground (
  arith,
  compare.cons-cons c d s t,
  compare.cons-cons d e t u,
  compare.cons-cons c e s u,
  string_cmp_trans s t u,
)

instance abbrev pub nat_ord : Ord ℕ
nat_ord = record {
  cmp = compare_ℕ;
  cmp_self = nat_cmp_self;
  cmp_eq = compare-eq;
  cmp_flip = nat_cmp_flip;
  cmp_trans = nat_cmp_trans;
}

instance abbrev pub string_ord : Ord String
string_ord = record {
  cmp = compare;
  cmp_self = compare_refl;
  cmp_eq = path_by_compare;
  cmp_flip = string_cmp_flip;
  cmp_trans = string_cmp_trans;
}

-- The derived order of a tuple: the first component decides, then the second.
module _ {ℓ κ} {A : Type ℓ} {B : Type κ} ⦃o : Ord A⦄ ⦃p : Ord B⦄ where
  abbrev pub pair_cmp : A × B → A × B → Ordering
  pair_cmp (a, b) (c, d) = then (o.cmp a c) (p.cmp b d)

  pub pair_cmp_self : (x : A × B) → pair_cmp x x ≡ Ordering.eq
  pair_cmp_self (a, b) = cc (o.cmp_self a, p.cmp_self b)

  pub pair_cmp_eq : (x y : A × B) → pair_cmp x y ≡ Ordering.eq → x ≡ y
  pair_cmp_eq (a, b) (c, d) h = ground (arith, o.cmp_eq a c, p.cmp_eq b d)

  pub pair_cmp_flip : (x y : A × B) → pair_cmp y x ≡ flip_order (pair_cmp x y)
  pair_cmp_flip (a, b) (c, d) = ground (arith, o.cmp_flip a c, p.cmp_flip b d)

  pub pair_cmp_trans :
      (x y z : A × B)
      → pair_cmp x y ≡ Ordering.lt
      → pair_cmp y z ≡ Ordering.lt
      → pair_cmp x z ≡ Ordering.lt
  pair_cmp_trans (a, b) (c, d) (e, f) h k =
      ground (arith, o.cmp_eq a c, o.cmp_eq c e, o.cmp_self a, o.cmp_trans a c e, p.cmp_trans b d f)

  instance abbrev pub pair_ord : Ord (A × B)
  pair_ord = record {
    cmp = pair_cmp;
    cmp_self = pair_cmp_self;
    cmp_eq = pair_cmp_eq;
    cmp_flip = pair_cmp_flip;
    cmp_trans = pair_cmp_trans;
  }

-- `a < b` and `a <= b`
module _ {ℓ} {A : Type ℓ} ⦃o : Ord A⦄ where
  abbrev pub less : A → A → Bool
  less a b = elim (o.cmp a b) [ Ordering.lt ↦ true | _ ↦ false ]

  abbrev pub at_most : A → A → Bool
  at_most a b = elim (o.cmp a b) [ Ordering.gt ↦ false | _ ↦ true ]

  pub less_self : (a : A) → less a a ≡ false
  less_self a = ground (arith, o.cmp_self a)

  pub at_most_self : (a : A) → at_most a a ≡ true
  at_most_self a = ground (arith, o.cmp_self a)

  pub less_trans : (a b c : A) → less a b ≡ true → less b c ≡ true → less a c ≡ true
  less_trans a b c h k = ground (arith, o.cmp_trans a b c)

  pub at_most_trans : (a b c : A) → at_most a b ≡ true → at_most b c ≡ true → at_most a c ≡ true
  at_most_trans a b c h k = ground (arith, o.cmp_trans a b c, o.cmp_eq a b, o.cmp_eq b c)

  pub at_most_total : (a b : A) → at_most a b ≡ false → at_most b a ≡ true
  at_most_total a b h = ground (arith, o.cmp_flip a b)

  pub at_most_antisym : (a b : A) → at_most a b ≡ true → at_most b a ≡ true → a ≡ b
  at_most_antisym a b h k = ground (arith, o.cmp_flip a b, o.cmp_eq a b)

  pub less-at_most : (a b : A) → less a b ≡ true → at_most a b ≡ true
  less-at_most a b h = ground arith

  pub not-at_most-less : (a b : A) → at_most b a ≡ not (less a b)
  not-at_most-less a b = ground (arith, o.cmp_flip a b)

  pub at_most_split : (a b : A) → at_most a b ≡ true → (less a b ≡ true) ⊎ (a ≡ b)
  at_most_split a b h = ground (arith, o.cmp_eq a b)
