-- ===== src/Digest/Samples.antt =====
-- A hash function for the runs of the program's parts.
use Prim.Native.String as Text
use gaugemesh.Base.{ℕ, zero, suc, ◌+◌, ◌≡◌, refl, String}
use gaugemesh.Digest.{
  Json, Fields, Items, null, boolean, number, string, array, object, nil, cons, end, field, Hashing,
}

-- A hash for the runs: the sum of the numbers in the value, weighted by position.
unfoldable mutual
  pub weigh : Json → ℕ
  weigh null = 1
  weigh (boolean b) = 2
  weigh (number n) = n + 3
  weigh (string s) = 4
  weigh (array xs) = weigh_items xs + 5
  weigh (object fs) = weigh_fields fs + 6

  pub weigh_items : Items → ℕ
  weigh_items nil = 0
  weigh_items (cons x xs) = weigh x + (weigh_items xs + weigh_items xs)

  pub weigh_fields : Fields → ℕ
  weigh_fields end = 0
  weigh_fields (field k v fs) = weigh v + (weigh_fields fs + weigh_fields fs)

abbrev pub sample_hashing : Hashing
sample_hashing = record { sha256 = weigh; encoded_len = weigh; display = λ d. "sha256:00" }

-- A text for each digest, by which it is known.
unfoldable pub tally : ℕ → String
tally zero = Text.[]
tally (suc n) = Text.◌∷◌ "1" (tally n)

pub tally_inj : (m n : ℕ) → tally m ≡ tally n → m ≡ n
unfolding tally
tally_inj zero zero e = refl
tally_inj zero (suc n) e = cc
tally_inj (suc m) zero e = cc
tally_inj (suc m) (suc n) e = let same = tally_inj m n (cc e) in cc same

abbrev pub tally_hashing : Hashing
tally_hashing = record { sha256 = weigh; encoded_len = weigh; display = tally }
