-- ===== src/Security/Origins.antt =====
-- `ResolvedOrigin` of crates/gaugemesh-core/src/security.rs: which addresses a connection may have.
mod Tests
use gaugemesh.Base.{
  ℕ, ◌+◌, ◌-◌, ◌/◌, ◌%◌, ◌≤◌, ◌≡◌, ◌↔◌, refl, ap, sym, ◌∙◌, subst, arith, String, Bool, true, false,
  not, ◌&&◌, ◌||◌, Option, none, some, List, [], ◌∷◌, ltb, leb, any, contains, is_empty,
  is_empty_text, Elem, All, All-map, both, option_beq_iff, All_elem, any-All, any-false, Eq, Ord,
  pair_eq, pair_ord, nat_eq, nat_ord, string_eq, option_eq, sort, sort-All, dedup, dedup-All, find,
  find-none, find-Elem, Option-cases, inl, inr, Bool-cases, Result, ok, err, ◌>>=◌, ◌>>◌, reject_if,
  ok_or, ok_or_ok, reject_if_ok, last_reject_if_ok, >>=_ok, >>_ok, ◌==◌, ◌!=◌, eq_self,
  if◌then◌else◌,
}

-- An address is its version, 4 or 6, with the number that its bytes write: `IpAddr` orders by the
-- version first and then by the bytes.
abbrev pub IpAddr : Type 0
IpAddr = ℕ × ℕ

-- What the program takes from the crate url: the parts of a URL, the default port filled in
pub record Url : Type 0 where
  pub scheme : String
  pub username : String
  pub password : Option String
  pub host_str : Option String
  pub port_or_known_default : Option ℕ

pub record ResolvedOrigin : Type 0 where
  pub scheme : String
  pub host : String
  pub port : ℕ
  pub addresses : List IpAddr

pub data OriginError : Type 0 where
  scheme_denied credentials_denied host_required : OriginError
  address_is_denied : IpAddr → OriginError
  dns_empty dns_rebind redirect_denied : OriginError

-- `octets()[0]` and `octets()[1]` of a 32-bit address
abbrev pub octet_0 : ℕ → ℕ
octet_0 bits = bits / 16777216

abbrev pub octet_1 : ℕ → ℕ
octet_1 bits = (bits / 65536) % 256

abbrev pub is_private : ℕ → Bool
is_private bits =
    octet_0 bits == 10
    || (octet_0 bits == 172 && leb 16 (octet_1 bits) && leb (octet_1 bits) 31)
    || (octet_0 bits == 192 && octet_1 bits == 168)

unfoldable pub denied_v4 : ℕ → Bool → Bool
denied_v4 bits allow_private =
    bits == 0
    || octet_0 bits == 127
    || (octet_0 bits == 169 && octet_1 bits == 254)
    || (leb 224 (octet_0 bits) && leb (octet_0 bits) 239)
    || (not allow_private && is_private bits)

-- `segments()[0]` of a 128-bit address
abbrev pub segment_0 : ℕ → ℕ
segment_0 bits = bits / 5192296858534827628530496329220096

-- `n & !(m - 1)` on 16 bits, for a power m of two
abbrev pub clear_below : ℕ → ℕ → ℕ
clear_below n m = n - n % m

unfoldable pub denied_v6 : ℕ → Bool → Bool
denied_v6 bits allow_private =
    bits == 0
    || bits == 1
    || clear_below (segment_0 bits) 256 == 65280
    || clear_below (segment_0 bits) 64 == 65152
    || (not allow_private && clear_below (segment_0 bits) 512 == 64512)

unfoldable pub address_denied : IpAddr → Bool → Bool
unfolding denied_v4 denied_v6
address_denied address allow_private =
    if address.0 == 4 then denied_v4 address.1 allow_private else denied_v6 address.1 allow_private

-- The loop over the addresses returns at the first that is denied.
abbrev pub reject_denied : List IpAddr → Bool → Result OriginError (Unit {0})
reject_denied addresses allow_private =
    elim (find (λ address. address_denied address allow_private) addresses) [
      | none ↦ ok tt
      | some address ↦ err (address_is_denied address)
    ]

-- `lookup` is what the name service answers for a host and a port.
unfoldable pub resolve :
    (String → ℕ → Option (List IpAddr)) → Url → Bool → Result OriginError ResolvedOrigin
resolve lookup url allow_private = do
  reject_if (not (url.scheme == "http" || url.scheme == "https")) scheme_denied
  reject_if (not (is_empty_text url.username) || (url.password != none)) credentials_denied
  host ← ok_or url.host_str host_required
  port ← ok_or url.port_or_known_default host_required
  found ← ok_or (lookup host port) dns_empty
  let addresses = dedup (sort found)
  reject_if (is_empty addresses) dns_empty
  reject_denied addresses allow_private
  ok (record { scheme = url.scheme; host = host; port = port; addresses = addresses })

unfoldable pub validate_connected_peer : ResolvedOrigin → IpAddr → Result OriginError (Unit {0})
validate_connected_peer origin address =
    if contains origin.addresses address then ok tt else err dns_rebind

unfoldable pub validate_redirect : ResolvedOrigin → Url → Result OriginError (Unit {0})
validate_redirect origin target =
    if target.scheme == origin.scheme
      && target.host_str == some origin.host
      && target.port_or_known_default == some origin.port
    then ok tt
    else err redirect_denied

if_ok :
    (test : Bool) (e : OriginError) {u : Result OriginError (Unit {0})}
    → u ≡ ok tt
    → (if test then u else err e) ≡ ok tt
    → test ≡ true
if_ok true e v f = refl
if_ok false e v f = cc

contains-All :
    (P : IpAddr → Type 0) (xs : List IpAddr) (a : IpAddr) → All P xs → contains xs a ≡ true → P a
contains-All P [] a h e = cc
contains-All P (x ∷ xs) a h e = elim (Bool-cases (a == x)) [
  | inl same ↦ subst P (sym ((pair_eq.same_iff a x).0 same)) h.0
  | inr apart ↦ contains-All P xs a h.1 (ground (arith, e, apart))
]

-- What holds of an origin that was resolved from a URL
abbrev pub IsResolved : (String → ℕ → Option (List IpAddr)) → Url → Bool → ResolvedOrigin → Type 0
IsResolved lookup url allow_private origin =
    (origin.scheme ≡ url.scheme)
    × ((url.scheme == "http" || url.scheme == "https") ≡ true)
    × (url.host_str ≡ some origin.host)
    × (url.port_or_known_default ≡ some origin.port)
    × (found : List IpAddr) × (lookup origin.host origin.port ≡ some found)
    × (origin.addresses ≡ dedup (sort found))
    × (is_empty origin.addresses ≡ false)
    × All (λ address. address_denied address allow_private ≡ false) origin.addresses

resolve-IsResolved :
    (lookup : String → ℕ → Option (List IpAddr)) (url : Url) (allow_private : Bool)
    (origin : ResolvedOrigin)
    → resolve lookup url allow_private ≡ ok origin
    → IsResolved lookup url allow_private origin
unfolding resolve
resolve-IsResolved lookup url allow_private origin e =
    let (scheme, e1) = reject_if_ok (not (url.scheme == "http" || url.scheme == "https")) _ _ e in
    let (_, e2) =
      reject_if_ok (not (is_empty_text url.username) || (url.password != none)) _ _ e1 in
    let (host, a, e3) = >>=_ok (ok_or url.host_str host_required) _ e2 in
    let (port, b, e4) = >>=_ok (ok_or url.port_or_known_default host_required) _ e3 in
    let (found, c, e5) = >>=_ok (ok_or (lookup host port) dns_empty) _ e4 in
    let (filled, e6) = reject_if_ok (is_empty (dedup (sort found))) _ _ e5 in
    let (allowed, e7) = >>_ok (reject_denied (dedup (sort found)) allow_private) _ e6 in
    let same : record {
      scheme = url.scheme;
      host = host;
      port = port;
      addresses = dedup (sort found);
    }
        ≡ origin =
      cc e7 in
    subst (IsResolved lookup url allow_private) same (
      refl,
      ground (arith, scheme),
      ok_or_ok url.host_str host_required a,
      ok_or_ok url.port_or_known_default host_required b,
      found,
      ok_or_ok (lookup host port) dns_empty c,
      refl,
      filled,
      none_denied (dedup (sort found)) allowed,
    )
  where
    none_denied :
        (addresses : List IpAddr)
        → reject_denied addresses allow_private ≡ ok tt
        → All (λ address. address_denied address allow_private ≡ false) addresses
    none_denied addresses r =
        elim (Option-cases (find (λ address. address_denied address allow_private) addresses)) [
          | inl none_found ↦
              find-none (λ address. address_denied address allow_private) addresses none_found
          | inr (bad, f) ↦ ground (arith, r, f)
        ]

self_Elem : (xs : List IpAddr) → All (λ x. Elem x xs) xs
self_Elem [] = tt
self_Elem (x ∷ xs) = (inl refl, All-map xs (λ y e. inr e) (self_Elem xs))

accepted_redirect :
    (origin : ResolvedOrigin) (target : Url)
    → validate_redirect origin target ≡ ok tt
    → (target.scheme ≡ origin.scheme)
      × (target.host_str ≡ some origin.host)
      × (target.port_or_known_default ≡ some origin.port)
unfolding validate_redirect
accepted_redirect origin target r =
    let test : (target.scheme == origin.scheme
          && target.host_str == some origin.host
          && target.port_or_known_default == some origin.port)
        ≡ true =
      if_ok _ redirect_denied refl r in
    let (front, port) =
      both (target.scheme == origin.scheme && target.host_str == some origin.host)
        (target.port_or_known_default == some origin.port) test in
    let (scheme, host) =
      both (target.scheme == origin.scheme) (target.host_str == some origin.host) front in
    (
      (string_eq.same_iff target.scheme origin.scheme).0 scheme,
      (option_beq_iff target.host_str (some origin.host)).0 host,
      (option_beq_iff target.port_or_known_default (some origin.port)).0 port,
    )

-- A peer that passes for a resolved origin has an address that the name service gave for its host
-- when it was resolved, and none that is denied; and a redirect passes only to the same scheme, host and port.
pub validate_connected_peer-resolve :
    (lookup : String → ℕ → Option (List IpAddr)) (url target : Url) (allow_private : Bool)
    (origin : ResolvedOrigin) (peer : IpAddr)
    → resolve lookup url allow_private ≡ ok origin
    → validate_connected_peer origin peer ≡ ok tt
    → validate_redirect origin target ≡ ok tt
    → (found : List IpAddr) × (lookup origin.host origin.port ≡ some found)
      × Elem peer found
      × (address_denied peer allow_private ≡ false)
      × (target.scheme ≡ url.scheme)
      × (target.host_str ≡ url.host_str)
      × (target.port_or_known_default ≡ url.port_or_known_default)
unfolding validate_connected_peer sort
validate_connected_peer-resolve lookup url target allow_private origin peer e p r =
    let (same_scheme, _, host, port, found, l, addresses, _, allowed) =
      resolve-IsResolved lookup url allow_private origin e in
    let (scheme, target_host, target_port) = accepted_redirect origin target r in
    let listed = if_ok (contains origin.addresses peer) dns_rebind refl p in
    let known : All (λ x. Elem x found) origin.addresses =
      subst (λ l. All (λ x. Elem x found) l) (sym addresses)
        (dedup-All (λ x. Elem x found) (sort found)
          (sort-All (λ x. x) (λ x. Elem x found) found (self_Elem found))) in
    (
      found,
      l,
      contains-All (λ x. Elem x found) origin.addresses peer known listed,
      contains-All (λ x. address_denied x allow_private ≡ false) origin.addresses peer allowed
          listed,
      scheme ∙ same_scheme,
      target_host ∙ sym host,
      target_port ∙ sym port,
    )
