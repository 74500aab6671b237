-- ===== src/Digest/Equality.antt =====
-- The equality of JSON values, entry by entry in the order of their entries.
use gaugemesh.Base.{
  ◌≡◌, ◌↔◌, refl, arith, Bool, true, false, ◌&&◌, both, Eq, ◌==◌, string_eq, nat_eq,
}
use text.Mathlib.TextEquality.{eq_iff}
use gaugemesh.Digest.{
  Json, Fields, Items, null, boolean, number, string, array, object, nil, cons, end, field,
}

abbrev same_bool : Bool → Bool → Bool
same_bool true b = b
same_bool false true = false
same_bool false false = true

unfoldable mutual
  pub json_beq : Json → Json → Bool
  json_beq null null = true
  json_beq (boolean a) (boolean b) = same_bool a b
  json_beq (number m) (number n) = m == n
  json_beq (string s) (string t) = s == t
  json_beq (array xs) (array ys) = items_beq xs ys
  json_beq (object f) (object g) = fields_beq f g
  json_beq v w = false

  pub items_beq : Items → Items → Bool
  items_beq nil nil = true
  items_beq (cons x xs) (cons y ys) = json_beq x y && items_beq xs ys
  items_beq xs ys = false

  pub fields_beq : Fields → Fields → Bool
  fields_beq end end = true
  fields_beq (field k v f) (field j w g) = k == j && json_beq v w && fields_beq f g
  fields_beq f g = false

mutual
  unfolding json_beq items_beq fields_beq

  json_beq_sound : (v w : Json) → json_beq v w ≡ true → v ≡ w
  json_beq_sound null null e = refl
  json_beq_sound (boolean a) (boolean b) e = ground arith
  json_beq_sound (number m) (number n) e = ground arith
  json_beq_sound (string s) (string t) e = ground (arith, eq_iff s t)
  json_beq_sound (array xs) (array ys) e = ground (arith, items_beq_sound xs ys)
  json_beq_sound (object f) (object g) e = ground (arith, fields_beq_sound f g)
  json_beq_sound v w e = cc e

  items_beq_sound : (xs ys : Items) → items_beq xs ys ≡ true → xs ≡ ys
  items_beq_sound nil nil e = refl
  items_beq_sound (cons x xs) (cons y ys) e =
      ground (arith, json_beq_sound x y, items_beq_sound xs ys)
  items_beq_sound xs ys e = cc e

  fields_beq_sound : (f g : Fields) → fields_beq f g ≡ true → f ≡ g
  fields_beq_sound end end e = refl
  fields_beq_sound (field k v f) (field j w g) e =
      let (front, later) = both (k == j && json_beq v w) (fields_beq f g) e in
      let (keys, values) = both (k == j) (json_beq v w) front in
      cc ((eq_iff k j).0 keys, json_beq_sound v w values, fields_beq_sound f g later)
  fields_beq_sound f g e = cc e

mutual
  unfolding json_beq items_beq fields_beq

  json_beq_self : (v : Json) → json_beq v v ≡ true
  json_beq_self null = refl
  json_beq_self (boolean b) = ground arith
  json_beq_self (number n) = ground arith
  json_beq_self (string s) = ground (arith, eq_iff s s)
  json_beq_self (array xs) = items_beq_self xs
  json_beq_self (object f) = fields_beq_self f

  items_beq_self : (xs : Items) → items_beq xs xs ≡ true
  items_beq_self nil = refl
  items_beq_self (cons x xs) = ground (arith, json_beq_self x, items_beq_self xs)

  fields_beq_self : (f : Fields) → fields_beq f f ≡ true
  fields_beq_self end = refl
  fields_beq_self (field k v f) = ground (arith, eq_iff k k, json_beq_self v, fields_beq_self f)

pub json_beq_iff : (v w : Json) → (json_beq v w ≡ true) ↔ (v ≡ w)
json_beq_iff v w = (json_beq_sound v w, λ e. ground (arith, json_beq_self v, e))

instance abbrev pub json_eq : Eq Json
json_eq = record { same = json_beq; same_iff = json_beq_iff }
