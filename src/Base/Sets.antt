-- ===== src/Base/Sets.antt =====
-- `BTreeSet` as an ascending list.
use mathlib.Core.Path.{◌≡◌, refl, sym, subst, ap, ◌∙◌}
use mathlib.Core.Logic.{◌⊎◌, inl, inr, ◌≢◌}
use mathlib.Core.Bool.{Bool, true}
use mathlib.Core.List.{List, [], ◌∷◌}
use Prim.Native.Nat.{ℕ, zero, suc, ◌≤◌, Ordering}
use native.Mathlib.Omega.{arith}
use gaugemesh.Base.Tests.{if◌then◌else◌}
use gaugemesh.Base.Lists.{length, All, All-map, Elem}
use gaugemesh.Base.Order.{Ord, less, less_trans}
use gaugemesh.Base.Sorting.{IsAscending}

module _ {A : Type 0} where
  -- `take(n)`, and `take_while(p)` for a test
  abbrev pub take : ℕ → List A → List A
  take zero xs = []
  take (suc n) [] = []
  take (suc n) (x ∷ xs) = x ∷ take n xs

  abbrev pub take_while : (A → Bool) → List A → List A
  take_while p [] = []
  take_while p (x ∷ xs) = if p x then x ∷ take_while p xs else []

  pub length-take-le : (n : ℕ) (xs : List A) → length (take n xs) ≤ n
  length-take-le zero xs = omega arith
  length-take-le (suc n) [] = omega arith
  length-take-le (suc n) (x ∷ xs) = omega (arith, length-take-le n xs)

module _ {A : Type 0} ⦃o : Ord A⦄ where
  abbrev pub set_insert : List A → A → List A
  set_insert [] x = x ∷ []
  set_insert (y ∷ ys) x = elim (o.cmp x y) [
    | Ordering.lt ↦ x ∷ y ∷ ys
    | Ordering.eq ↦ y ∷ ys
    | Ordering.gt ↦ y ∷ set_insert ys x
  ]

  abbrev pub set_remove : List A → A → List A
  set_remove [] x = []
  set_remove (y ∷ ys) x = elim (o.cmp x y) [ Ordering.eq ↦ ys | _ ↦ y ∷ set_remove ys x ]

  pub set_remove_head : (x : A) (xs : List A) → set_remove (x ∷ xs) x ≡ xs
  set_remove_head x xs = ground (arith, o.cmp_self x)

  set_insert-All {ν} :
      (P : A → Type ν) (xs : List A) (x : A) → P x → All P xs → All P (set_insert xs x)
  set_insert-All P [] x h hs = (h, tt)
  set_insert-All P (y ∷ ys) x h hs =
      elim (o.cmp x y)
        as (λ c. All P (elim c [
          | Ordering.lt ↦ x ∷ y ∷ ys
          | Ordering.eq ↦ y ∷ ys
          | Ordering.gt ↦ y ∷ set_insert ys x
        ])) [
          | Ordering.lt ↦ (h, hs)
          | Ordering.eq ↦ hs
          | Ordering.gt ↦ (hs.0, set_insert-All P ys x h hs.1)
        ]

  set_remove-All {ν} : (P : A → Type ν) (xs : List A) (x : A) → All P xs → All P (set_remove xs x)
  set_remove-All P [] x hs = tt
  set_remove-All P (y ∷ ys) x hs =
      elim (o.cmp x y) as (λ c. All P (elim c [ Ordering.eq ↦ ys | _ ↦ y ∷ set_remove ys x ])) [
        | Ordering.lt ↦ (hs.0, set_remove-All P ys x hs.1)
        | Ordering.eq ↦ hs.1
        | Ordering.gt ↦ (hs.0, set_remove-All P ys x hs.1)
      ]

  pub Elem-set_insert : (xs : List A) (x z : A) → Elem z (set_insert xs x) → (z ≡ x) ⊎ Elem z xs
  Elem-set_insert [] x z e = e
  Elem-set_insert (y ∷ ys) x z e = ground (arith, Elem-set_insert ys x z)

  pub Elem-set_insert_self : (xs : List A) (x : A) → Elem x (set_insert xs x)
  Elem-set_insert_self [] x = inl refl
  Elem-set_insert_self (y ∷ ys) x = ground (arith, o.cmp_eq x y, Elem-set_insert_self ys x)

  pub Elem-set_insert_old : (xs : List A) (x z : A) → Elem z xs → Elem z (set_insert xs x)
  Elem-set_insert_old [] x z e = absurd e
  Elem-set_insert_old (y ∷ ys) x z e = ground (arith, Elem-set_insert_old ys x z)

  not_below_self : (x : A) (xs : List A) → All (λ y. less x y ≡ true) xs → ¬ Elem x xs
  not_below_self x [] h e = e
  not_below_self x (y ∷ ys) h (inl e) = ground (arith, o.cmp_self x, ap (o.cmp x) e)
  not_below_self x (y ∷ ys) h (inr e) = not_below_self x ys h.1 e

  pub Elem-set_remove_other : (xs : List A) (x z : A) → z ≢ x → Elem z xs → Elem z (set_remove xs x)
  Elem-set_remove_other [] x z d e = absurd e
  Elem-set_remove_other (y ∷ ys) x z d e =
      ground (arith, o.cmp_eq x y, Elem-set_remove_other ys x z d)

  kept :
      (y : A) (ys : List A) (x z : A)
      → x ≢ y
      → (Elem z (set_remove ys x) → Elem z ys × (z ≢ x))
      → Elem z (y ∷ set_remove ys x)
      → Elem z (y ∷ ys) × (z ≢ x)
  kept y ys x z apart later (inl here) = (inl here, λ q. apart (sym q ∙ here))
  kept y ys x z apart later (inr there) = let (old, other) = later there in (inr old, other)

  pub Elem-set_remove :
      (xs : List A) (x z : A)
      → IsAscending (λ x. x) xs
      → Elem z (set_remove xs x)
      → Elem z xs × (z ≢ x)
  Elem-set_remove [] x z a e = absurd e
  Elem-set_remove (y ∷ ys) x z a e =
      (elim (o.cmp x y)
          as (λ c.
            o.cmp x y ≡ c
            → Elem z (elim c [ Ordering.eq ↦ ys | _ ↦ y ∷ set_remove ys x ])
            → Elem z (y ∷ ys) × (z ≢ x)) [
              | Ordering.lt ↦ λ below f.
                  kept y ys x z (λ q. ground (arith, below, o.cmp_self x, ap (o.cmp x) q))
                    (Elem-set_remove ys x z a.1) f
              | Ordering.eq ↦ λ same f. (
                inr f,
                λ q. not_below_self y ys a.0 (subst (λ w. Elem w ys) (q ∙ o.cmp_eq x y same) f),
              )
              | Ordering.gt ↦ λ above f.
                  kept y ys x z (λ q. ground (arith, above, o.cmp_self x, ap (o.cmp x) q))
                    (Elem-set_remove ys x z a.1) f
            ])
        refl e

  pub IsAscending-set_remove :
      (xs : List A) (x : A) → IsAscending (λ x. x) xs → IsAscending (λ x. x) (set_remove xs x)
  IsAscending-set_remove [] x a = tt
  IsAscending-set_remove (y ∷ ys) x a =
      elim (o.cmp x y)
        as (λ c. IsAscending (λ x. x) (elim c [ Ordering.eq ↦ ys | _ ↦ y ∷ set_remove ys x ])) [
          | Ordering.lt ↦
              (set_remove-All (λ z. less y z ≡ true) ys x a.0, IsAscending-set_remove ys x a.1)
          | Ordering.eq ↦ a.1
          | Ordering.gt ↦
              (set_remove-All (λ z. less y z ≡ true) ys x a.0, IsAscending-set_remove ys x a.1)
        ]

  pub IsAscending-set_insert :
      (xs : List A) (x : A) → IsAscending (λ x. x) xs → IsAscending (λ x. x) (set_insert xs x)
  IsAscending-set_insert [] x a = (tt, tt)
  IsAscending-set_insert (y ∷ ys) x a =
      (elim (o.cmp x y)
          as (λ c.
            o.cmp x y ≡ c
            → IsAscending (λ x. x)
                (elim c [
                  | Ordering.lt ↦ x ∷ y ∷ ys
                  | Ordering.eq ↦ y ∷ ys
                  | Ordering.gt ↦ y ∷ set_insert ys x
                ])) [
                  | Ordering.lt ↦ λ below.
                      let first_less : less x y ≡ true = ground (arith, below) in
                      ((first_less, All-map ys (λ z q. less_trans x y z first_less q) a.0), a)
                  | Ordering.eq ↦ λ same. a
                  | Ordering.gt ↦ λ above. (
                    set_insert-All (λ z. less y z ≡ true) ys x
                        (ground (arith, above, o.cmp_flip x y)) a.0,
                    IsAscending-set_insert ys x a.1,
                  )
                ])
        refl
