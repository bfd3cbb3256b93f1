-- ===== src/Ssrf/Safe.antt =====
-- What an accepted destination resolves to.
use relationship_os.Base.{
  ◌⊎◌, refl, ℕ, String, true, false, ◌≡◌, ◌≢◌, Option, none, some, List, [], ◌∷◌, arith, All,
  Option-cases, inl, inr,
}
use relationship_os.Ssrf.{
  Lookup, addresses, gaierror, unicode_error, Ip, Network, in_network, blocked_cidrs, Url, Net,
  Verdict, is_accepted, is_blocked, check_ip, check_all, check_resolved, check_host,
  validate_destination_url, default_port, port_or,
}

-- Outside every network that is blocked, and by none of the address properties private.
pub record IsPublic (net : Net) (ip : Ip) : Type 0 where
  pub not_blocked : All (λ n. in_network ip n ≡ false) blocked_cidrs
  pub not_loopback : net.is_loopback ip ≡ false
  pub not_private : net.is_private ip ≡ false
  pub not_link_local : net.is_link_local ip ≡ false
  pub not_multicast : net.is_multicast ip ≡ false
  pub not_reserved : net.is_reserved ip ≡ false

-- A resolved text is an address, and a public one.
pub record ResolvesPublic (net : Net) (ip_str : String) : Type 0 where
  pub ip : Ip
  pub parses : net.ip_address ip_str ≡ some ip
  pub is_public : IsPublic net ip

is_blocked-All :
    (net : Net) (ip : Ip) (ns : List Network)
    → is_blocked net false ip ns ≡ false
    → All (λ n. in_network ip n ≡ false) ns
unfolding is_blocked
is_blocked-All net ip [] h = tt
is_blocked-All net ip (n ∷ ns) h = ground (arith, is_blocked-All net ip ns, h)

check_ip-IsPublic : (net : Net) (ip : Ip) → check_ip net false ip ≡ none → IsPublic net ip
unfolding check_ip
check_ip-IsPublic net ip h = record {
  not_blocked = is_blocked-All net ip blocked_cidrs (ground (arith, h));
  not_loopback = ground (arith, h);
  not_private = ground (arith, h);
  not_link_local = ground (arith, h);
  not_multicast = ground (arith, h);
  not_reserved = ground (arith, h);
}

check_ip-refuses :
    (net : Net) (ip : Ip) (v : Verdict) → check_ip net false ip ≡ some v → is_accepted v ≡ false
unfolding check_ip
check_ip-refuses net ip v h = ground (arith, h)

check_all-All :
    (net : Net) (ips : List String)
    → is_accepted (check_all net false ips) ≡ true
    → All (ResolvesPublic net) ips
unfolding check_all
check_all-All net [] h = tt
check_all-All net (s ∷ ips) h = elim (Option-cases (net.ip_address s)) [
  | inl e ↦ absurd (ground (arith, e, h))
  | inr (ip, e) ↦ elim (Option-cases (check_ip net false ip)) [
    | inl c ↦ (
      record { ip = ip; parses = e; is_public = check_ip-IsPublic net ip c },
      check_all-All net ips (ground (arith, e, c, h)),
    )
    | inr (v, c) ↦ absurd (ground (arith, e, c, h, check_ip-refuses net ip v c))
  ]
]

-- The part of an accepted address that its host decides.
pub record Resolution (net : Net) (parsed : Url) : Type 0 where
  pub port : Option ℕ
  pub ips : List String
  pub has_port : parsed.port ≡ some port
  pub resolves :
      net.getaddrinfo parsed.hostname (port_or port (default_port parsed.scheme)) ≡ addresses ips
  pub is_resolved : ips ≢ []
  pub all_public : All (ResolvesPublic net) ips

check_resolved-All :
    (net : Net) (ips : List String)
    → is_accepted (check_resolved net false ips) ≡ true
    → (ips ≢ []) × All (ResolvesPublic net) ips
check_resolved-All net [] h = cc
check_resolved-All net (s ∷ ips) h = ((λ p. cc), check_all-All net (s ∷ ips) h)

Lookup-cases :
    (l : Lookup)
    → ((l ≡ gaierror) ⊎ (l ≡ unicode_error)) ⊎ ((ips : List String) × (l ≡ addresses ips))
Lookup-cases (addresses ips) = inr (ips, refl)
Lookup-cases gaierror = inl (inl refl)
Lookup-cases unicode_error = inl (inr refl)

check_host-resolves :
    (net : Net) (parsed : Url)
    → is_accepted (check_host net false parsed) ≡ true
    → Resolution net parsed
check_host-resolves net parsed h = elim (Option-cases parsed.port) [
  | inl e ↦ absurd (ground (arith, e, h))
  | inr (port, e) ↦
      elim (Lookup-cases
        (net.getaddrinfo parsed.hostname (port_or port (default_port parsed.scheme)))) [
          | inl (inl g) ↦ absurd (ground (arith, e, g, h))
          | inl (inr g) ↦ absurd (ground (arith, e, g, h))
          | inr (ips, g) ↦
              let (some_ip, all) = check_resolved-All net ips (ground (arith, e, g, h)) in
              record {
                port = port;
                ips = ips;
                has_port = e;
                resolves = g;
                is_resolved = some_ip;
                all_public = all;
              }
        ]
]

-- A destination that is accepted when localhost is not allowed has a name that resolves, and every
-- address it resolves to is public.
pub validate_destination_url-resolves :
    (net : Net) (url : String)
    → is_accepted (validate_destination_url net false url) ≡ true
    → (parsed : Url) × (net.urlparse url ≡ some parsed) × Resolution net parsed
unfolding validate_destination_url
validate_destination_url-resolves net url h = elim (Option-cases (net.urlparse url)) [
  | inl e ↦ absurd (ground (arith, e, h))
  | inr (parsed, e) ↦ (parsed, e, check_host-resolves net parsed (ground (arith, e, h)))
]
