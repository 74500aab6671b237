-- ===== src/Security/Origins/Tests.antt =====
-- Origins of security.rs: a public address passes, and so does a loopback address of version 4 in
-- the form of version 6.
use gaugemesh.Base.{◌+◌, ◌≡◌, refl, true, false, none, some, List, [], ◌∷◌, Elem, ok, sort, dedup}
use gaugemesh.Security.Origins.{
  IpAddr, Url, ResolvedOrigin, address_denied, resolve, validate_connected_peer, validate_redirect,
  validate_connected_peer-resolve,
}

abbrev url : Url
url = record {
  scheme = "https";
  username = "";
  password = none;
  host_str = some "example.org";
  port_or_known_default = some 443;
}

-- 93.184.216.34
abbrev public_address : IpAddr
public_address = (4, 1572395042)

abbrev origin : ResolvedOrigin
origin = record {
  scheme = "https";
  host = "example.org";
  port = 443;
  addresses = public_address ∷ [];
}

resolves : resolve (λ host port. some (public_address ∷ [])) url false ≡ ok origin
unfolding resolve address_denied sort dedup
resolves = refl

validate_connected_peer-resolve_example :
    (found : List IpAddr) × (some (public_address ∷ []) ≡ some found)
    × Elem public_address found
    × (address_denied public_address false ≡ false)
    × (url.scheme ≡ url.scheme)
    × (url.host_str ≡ url.host_str)
    × (url.port_or_known_default ≡ url.port_or_known_default)
unfolding validate_connected_peer validate_redirect
validate_connected_peer-resolve_example =
    validate_connected_peer-resolve (λ host port. some (public_address ∷ [])) url url false origin
      public_address resolves refl refl

loopback_is_denied : address_denied (4, 2130706433) true ≡ true
unfolding address_denied
loopback_is_denied = refl

-- ::ffff:127.0.0.1
mapped_loopback_is_not : address_denied (6, 281470681743360 + 2130706433) false ≡ false
unfolding address_denied
mapped_loopback_is_not = refl
