-- ===== src/Digest.antt =====
-- crates/gaugemesh-core/src/digest.rs: JSON values, their canonical form and their digest.
-- A digest, `[u8; 32]` in the source, is the number that its bytes write in base 256, most
-- significant byte first: the derived order of the arrays is the order of these numbers.
pub mod Canonical
pub mod Equality
pub mod Samples
mod Tests
use gaugemesh.Base.{
  ℕ, String, Bool, true, false, List, [], ◌∷◌, Ordering, Ord, string_ord, if◌then◌else◌,
}

abbrev pub Sha256Digest : Type 0
Sha256Digest = ℕ

-- serde_json's `Value`. An object is the list of its entries, in the order in which they were put.
mutual
  pub data Json : Type 0 where
    null : Json
    boolean : Bool → Json
    number : ℕ → Json
    string : String → Json
    array : Items → Json
    object : Fields → Json

  pub data Items : Type 0 where
    nil : Items
    cons : Json → Items → Items

  pub data Fields : Type 0 where
    end : Fields
    field : String → Json → Fields → Fields

-- What the program takes from the crates serde_json, sha2 and hex.
pub record Hashing : Type 0 where
  -- `Sha256::digest(serde_json::to_vec(value))`
  pub sha256 : Json → Sha256Digest
  -- `serde_json::to_vec(value).len()`
  pub encoded_len : Json → ℕ
  -- the text of a digest, `sha256:` and its bytes in hexadecimal
  pub display : Sha256Digest → String

-- One entry of `collect()` into a `BTreeMap`, below the entries that follow it: a later entry of
-- the same key stays.
unfoldable pub insert_field : String → Json → Fields → Fields
insert_field k v end = field k v end
insert_field k v (field j w rest) = elim (Ord.cmp string_ord k j) [
  | Ordering.lt ↦ field k v (field j w rest)
  | Ordering.eq ↦ field j w rest
  | Ordering.gt ↦ field j w (insert_field k v rest)
]

unfoldable mutual
  pub canonical_json : Json → Json
  canonical_json (object fs) = object (canonical_fields fs)
  canonical_json (array xs) = array (canonical_items xs)
  canonical_json null = null
  canonical_json (boolean b) = boolean b
  canonical_json (number n) = number n
  canonical_json (string s) = string s

  pub canonical_items : Items → Items
  canonical_items nil = nil
  canonical_items (cons x xs) = cons (canonical_json x) (canonical_items xs)

  pub canonical_fields : Fields → Fields
  canonical_fields end = end
  canonical_fields (field k v rest) = insert_field k (canonical_json v) (canonical_fields rest)

unfoldable pub of_json : Hashing → Json → Sha256Digest
of_json h value = h.sha256 (canonical_json value)

-- The macro `json!({…})`, and `json!([…])`
abbrev pub fields : List (String × Json) → Fields
fields [] = end
fields ((k, v) ∷ rest) = field k v (fields rest)

abbrev pub json : List (String × Json) → Json
json entries = object (fields entries)

abbrev pub items : List Json → Items
items [] = nil
items (x ∷ xs) = cons x (items xs)
