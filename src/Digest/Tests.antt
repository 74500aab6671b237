-- ===== src/Digest/Tests.antt =====
-- Runs of digest.rs at concrete values.
use gaugemesh.Base.{String, ◌≡◌, ◌≢◌, refl, [], ◌∷◌}
use text.Mathlib.TextEquality.{eq_iff}
use gaugemesh.Digest.{Json, number, insert_field, canonical_json, json}

abbrev a_then_b : Json
a_then_b = json (("a", number 1) ∷ ("b", number 2) ∷ [])

abbrev b_then_a : Json
b_then_a = json (("b", number 2) ∷ ("a", number 1) ∷ [])

canonical_order : canonical_json b_then_a ≡ a_then_b
unfolding canonical_json insert_field
canonical_order = refl

a-ne-b : ◌≢◌ {A = String} "a" "b"
a-ne-b p = cc ((eq_iff "a" "b").1 p)
