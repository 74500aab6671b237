-- ===== src/Base/Results.antt =====
-- `Result<A, E>`, with the `?` operator as `do`.
use mathlib.Core.Path.{◌≡◌, refl}
use mathlib.Core.Logic.{◌⊎◌, inl, inr}
use mathlib.Core.Bool.{Bool, true, false}
use mathlib.Core.Option.{Option, none, some}

pub data Result {ℓ} (E : Type 0) (T : Type ℓ) : Type ℓ where
  err : E → Result E T
  ok : T → Result E T

infixl 5 ◌>>◌ ◌>>=◌
abbrev pub ◌>>=◌ {ℓ κ} :
    {E : Type 0} {T : Type ℓ} {U : Type κ} → Result E T → (T → Result E U) → Result E U
err e >>= next = err e
ok t >>= next = next t

abbrev pub ◌>>◌ {ℓ} : {E : Type 0} {U : Type ℓ} → Result E (Unit {0}) → Result E U → Result E U
err e >> rest = err e
ok t >> rest = rest

-- `if test { return Err(e) }`
abbrev pub reject_if : {E : Type 0} → Bool → E → Result E (Unit {0})
reject_if false e = ok tt
reject_if true e = err e

-- `ok_or(e)`
abbrev pub ok_or {ℓ} : {E : Type 0} {T : Type ℓ} → Option T → E → Result E T
ok_or (some t) e = ok t
ok_or none e = err e

pub Result-cases :
    {E T : Type 0} (m : Result E T) → ((e : E) × (m ≡ err e)) ⊎ ((t : T) × (m ≡ ok t))
Result-cases (err e) = inl (e, refl)
Result-cases (ok t) = inr (t, refl)

-- What a successful step of a chain hands to the rest.
abbrev pub Steps {ℓ κ} :
    {E : Type 0} {T : Type ℓ} {U : Type κ} → Result E T → (T → Result E U) → U → Type (ℓ ⊔ κ)
Steps {T = T} m next u = (t : T) × (m ≡ ok t) × (next t ≡ ok u)

pub >>=_ok {ℓ κ} :
    {E : Type 0} {T : Type ℓ} {U : Type κ} (m : Result E T) (next : T → Result E U) {u : U}
    → (m >>= next) ≡ ok u
    → Steps m next u
>>=_ok (err e) next h = cc
>>=_ok (ok t) next h = (t, refl, h)

pub >>_ok {κ} :
    {E : Type 0} {U : Type κ} (m : Result E (Unit {0})) (rest : Result E U) {u : U}
    → (m >> rest) ≡ ok u
    → (m ≡ ok tt) × (rest ≡ ok u)
>>_ok (err e) rest h = cc
>>_ok (ok t) rest h = (refl, h)

pub reject_if_ok {κ} :
    {E : Type 0} {U : Type κ} (test : Bool) (e : E) (rest : Result E U) {u : U}
    → (reject_if test e >> rest) ≡ ok u
    → (test ≡ false) × (rest ≡ ok u)
reject_if_ok false e rest h = (refl, h)
reject_if_ok true e rest h = cc

pub ok_or_ok {ℓ} :
    {E : Type 0} {T : Type ℓ} (o : Option T) (e : E) {t : T} → ok_or o e ≡ ok t → o ≡ some t
ok_or_ok (some t) e h = cc
ok_or_ok none e h = cc

pub last_reject_if_ok : {E : Type 0} (test : Bool) (e : E) → reject_if test e ≡ ok tt → test ≡ false
last_reject_if_ok false e h = refl
last_reject_if_ok true e h = cc

pub ok_pair :
    {E A B : Type 0} (a c : A) (b d : B)
    → ◌≡◌ {A = Result E (A × B)} (ok (a, b)) (ok (c, d))
    → (c ≡ a) × (d ≡ b)
ok_pair a c b d h = (cc, cc)

pub reject_if_pass {κ} :
    {E : Type 0} {U : Type κ} (test : Bool) (e : E) (rest : Result E U) {u : U}
    → test ≡ false
    → rest ≡ ok u
    → (reject_if test e >> rest) ≡ ok u
reject_if_pass false e rest t r = r
reject_if_pass true e rest t r = cc

pub >>_pass {κ} :
    {E : Type 0} {U : Type κ} (m : Result E (Unit {0})) (rest : Result E U) {u : U}
    → m ≡ ok tt
    → rest ≡ ok u
    → (m >> rest) ≡ ok u
>>_pass (err e) rest p q = cc
>>_pass (ok t) rest p q = q

-- Which step of a chain failed.
pub >>=_err {ℓ κ} :
    {E : Type 0} {T : Type ℓ} {U : Type κ} (m : Result E T) (next : T → Result E U) {e : E}
    → (m >>= next) ≡ err e
    → (m ≡ err e) ⊎ ((t : T) × (m ≡ ok t) × (next t ≡ err e))
>>=_err (err d) next h = inl (cc)
>>=_err (ok t) next h = inr (t, refl, h)

pub >>_err {κ} :
    {E : Type 0} {U : Type κ} (m : Result E (Unit {0})) (rest : Result E U) {e : E}
    → (m >> rest) ≡ err e
    → (m ≡ err e) ⊎ ((m ≡ ok tt) × (rest ≡ err e))
>>_err (err d) rest h = inl (cc)
>>_err (ok t) rest h = inr (refl, h)
