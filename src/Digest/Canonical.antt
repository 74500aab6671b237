-- ===== src/Digest/Canonical.antt =====
-- `canonical_json` of digest.rs does not see the order of an object's entries.
use gaugemesh.Base.{
  String, ◌≡◌, ◌≢◌, refl, ap, ◌∙◌, string_ord, arith, string_cmp_flip, string_cmp_trans,
}
use text.Mathlib.TextEquality.{path_by_compare}
use gaugemesh.Digest.{
  Json, Fields, Items, array, object, nil, cons, end, field, Hashing, insert_field, canonical_json,
  canonical_items, canonical_fields, of_json,
}

-- The same entries in another order, at any depth of the value.
mutual
  pub data Reordered : Json → Json → Type 0 where
    same : (v : Json) → Reordered v v
    arrays : {xs ys : Items} → ReorderedItems xs ys → Reordered (array xs) (array ys)
    objects : {f g : Fields} → ReorderedFields f g → Reordered (object f) (object g)

  pub data ReorderedItems : Items → Items → Type 0 where
    none_left : ReorderedItems nil nil
    one_more :
        {x y : Json} {xs ys : Items}
        → Reordered x y
        → ReorderedItems xs ys
        → ReorderedItems (cons x xs) (cons y ys)

  pub data ReorderedFields : Fields → Fields → Type 0 where
    no_entry : ReorderedFields end end
    entry :
        {k : String} {v w : Json} {f g : Fields}
        → Reordered v w
        → ReorderedFields f g
        → ReorderedFields (field k v f) (field k w g)
    swap :
        (k j : String) (v w : Json) (f : Fields)
        → k ≢ j
        → ReorderedFields (field k v (field j w f)) (field j w (field k v f))
    chain : {f g h : Fields} → ReorderedFields f g → ReorderedFields g h → ReorderedFields f h

-- Two keys that differ are put in either order.
insert_field_comm :
    (k j : String) (v w : Json) (f : Fields)
    → k ≢ j
    → insert_field k v (insert_field j w f) ≡ insert_field j w (insert_field k v f)
unfolding insert_field
insert_field_comm k j v w end d = ground (arith, string_cmp_flip k j, path_by_compare k j)
insert_field_comm k j v w (field i x f) d = ground (
  arith,
  string_cmp_flip k j,
  path_by_compare k j,
  path_by_compare k i,
  path_by_compare j i,
  string_cmp_flip i j,
  string_cmp_flip i k,
  string_cmp_trans k i j,
  string_cmp_trans j i k,
  insert_field_comm k j v w f d,
)

mutual
  unfolding canonical_json

  canonical_of_Reordered : {v w : Json} → Reordered v w → canonical_json v ≡ canonical_json w
  canonical_of_Reordered (same v) = refl
  canonical_of_Reordered (arrays r) = ap array (canonical_of_items r)
  canonical_of_Reordered (objects r) = ap object (canonical_of_fields r)

  canonical_of_items :
      {xs ys : Items} → ReorderedItems xs ys → canonical_items xs ≡ canonical_items ys
  canonical_of_items none_left = refl
  canonical_of_items (one_more h r) = cc (canonical_of_Reordered h, canonical_of_items r)

  canonical_of_fields :
      {f g : Fields} → ReorderedFields f g → canonical_fields f ≡ canonical_fields g
  canonical_of_fields no_entry = refl
  canonical_of_fields (entry h r) = cc (canonical_of_Reordered h, canonical_of_fields r)
  canonical_of_fields (swap k j v w f d) = insert_field_comm k j _ _ _ d
  canonical_of_fields (chain r s) = canonical_of_fields r ∙ canonical_of_fields s

-- Values that differ only in the order of their objects' entries, at any depth, have the same
-- digest, whatever the hash function.
pub of_json-Reordered : (h : Hashing) (v w : Json) → Reordered v w → of_json h v ≡ of_json h w
unfolding of_json
of_json-Reordered h v w r = ap h.sha256 (canonical_of_Reordered r)
