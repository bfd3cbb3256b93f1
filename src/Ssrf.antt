-- ===== src/Ssrf.antt =====
-- packages/shared/src/ssrf.py: where a webhook may point. `urllib.parse`, `socket` and the address
-- properties of `ipaddress` are an interface; the blocked networks and the checks are written out.
pub mod Safe
use relationship_os.Base.{
  ℕ, ◌+◌, ◌-◌, ◌*◌, ◌/◌, ◌^◌, String, Bool, true, false, not, ◌&&◌, ◌||◌, Option, none, some, List,
  [], ◌∷◌, ◌==◌, eqb, contains, if◌then◌else◌,
}

-- An address by its 32 or 128 bits.
pub data Ip : Type 0 where
  v4 v6 : ℕ → Ip

-- A network by its address and the length of its prefix.
pub data Network : Type 0 where
  net4 net6 : ℕ → ℕ → Network

abbrev ipv4 : ℕ → ℕ → ℕ → ℕ → ℕ
ipv4 a b c d = ((a * 256 + b) * 256 + c) * 256 + d

-- The first 16 bits of an address.
abbrev group : ℕ → ℕ
group a = a * 2 ^ 112

-- `BLOCKED_CIDRS`
abbrev pub blocked_cidrs : List Network
blocked_cidrs =
    net4 (ipv4 0 0 0 0) 8
    ∷ net4 (ipv4 10 0 0 0) 8
    ∷ net4 (ipv4 100 64 0 0) 10
    ∷ net4 (ipv4 127 0 0 0) 8
    ∷ net4 (ipv4 169 254 0 0) 16
    ∷ net4 (ipv4 172 16 0 0) 12
    ∷ net4 (ipv4 192 0 0 0) 24
    ∷ net4 (ipv4 192 0 2 0) 24
    ∷ net4 (ipv4 192 168 0 0) 16
    ∷ net4 (ipv4 198 18 0 0) 15
    ∷ net4 (ipv4 198 51 100 0) 24
    ∷ net4 (ipv4 203 0 113 0) 24
    ∷ net4 (ipv4 224 0 0 0) 4
    ∷ net4 (ipv4 240 0 0 0) 4
    ∷ net4 (ipv4 255 255 255 255) 32
    ∷ net6 1 128
    ∷ net6 0 128
    ∷ net6 (group 64512) 7
    ∷ net6 (group 65152) 10
    ∷ net6 (group 65280) 8
    ∷ []

-- `ip in network`
unfoldable pub in_network : Ip → Network → Bool
in_network (v4 a) (net4 b p) = eqb (a / 2 ^ (32 - p)) (b / 2 ^ (32 - p))
in_network (v6 a) (net6 b p) = eqb (a / 2 ^ (128 - p)) (b / 2 ^ (128 - p))
in_network (v4 a) (net6 b p) = false
in_network (v6 a) (net4 b p) = false

-- `port` is `none` where reading it raises `ValueError`.
pub record Url : Type 0 where
  pub scheme : String
  pub hostname : String
  pub port : Option (Option ℕ)

-- What `getaddrinfo` comes to: the addresses, a `gaierror`, or the `UnicodeError` of a name that it
-- cannot encode, which is a `ValueError`.
pub data Lookup : Type 0 where
  addresses : List String → Lookup
  gaierror unicode_error : Lookup

-- `none` is an exception: of `urlparse`, or a `ValueError`.
pub record Net : Type 0 where
  pub urlparse : String → Option Url
  pub lower : String → String
  pub getaddrinfo : String → ℕ → Lookup
  pub ip_address : String → Option Ip
  pub str : Ip → String
  pub is_loopback : Ip → Bool
  pub is_private : Ip → Bool
  pub is_link_local : Ip → Bool
  pub is_multicast : Ip → Bool
  pub is_reserved : Ip → Bool

-- The answer, or the `ValueError` of a port that is no number or of a name that cannot be encoded.
pub data Verdict : Type 0 where
  malformed unsupported_scheme no_hostname local_setting loopback_name unresolved : Verdict
  invalid_ip loopback private_ip link_local reserved blocked_subnet value_error : Verdict
  safe : Verdict

-- `(True, _)`
abbrev pub is_accepted : Verdict → Bool
is_accepted Verdict.safe = true
is_accepted Verdict.local_setting = true
is_accepted _ = false

abbrev pub default_port : String → ℕ
default_port scheme = if scheme == "https" then 443 else 80

-- `parsed.port or default`
abbrev pub port_or : Option ℕ → ℕ → ℕ
port_or none d = d
port_or (some p) d = if eqb p 0 then d else p

module _ (net : Net) (allow_localhost : Bool) where
  abbrev pub is_local : Ip → Bool
  is_local ip =
      allow_localhost && (net.is_loopback ip || contains ("127.0.0.1" ∷ "::1" ∷ []) (net.str ip))

  -- The loop over `BLOCKED_CIDRS`.
  unfoldable pub is_blocked : Ip → List Network → Bool
  is_blocked ip [] = false
  is_blocked ip (n ∷ ns) =
      let rest = is_blocked ip ns in
      if in_network ip n then (if is_local ip then rest else true) else rest

  -- The checks of one address; `none` where it passes them.
  unfoldable pub check_ip : Ip → Option Verdict
  check_ip ip =
      let subnets = if is_blocked ip blocked_cidrs then some Verdict.blocked_subnet else none in
      if net.is_loopback ip
      then (if not allow_localhost then some Verdict.loopback else subnets)
      else if net.is_private ip && not allow_localhost
      then some Verdict.private_ip
      else if net.is_link_local ip
      then some Verdict.link_local
      else if net.is_multicast ip || net.is_reserved ip
      then some Verdict.reserved
      else subnets

  -- The loop over the resolved addresses.
  unfoldable pub check_all : List String → Verdict
  check_all [] = Verdict.safe
  check_all (ip_str ∷ ips) =
      let rest = check_all ips in
      elim (net.ip_address ip_str) [
        | none ↦ Verdict.invalid_ip
        | some ip ↦ elim (check_ip ip) [ none ↦ rest | some verdict ↦ verdict ]
      ]

  abbrev pub check_resolved : List String → Verdict
  check_resolved [] = Verdict.unresolved
  check_resolved (ip_str ∷ ips) = check_all (ip_str ∷ ips)

  abbrev pub resolve : String → ℕ → Verdict
  resolve hostname port = elim (net.getaddrinfo hostname port) [
    | addresses ips ↦ check_resolved ips
    | gaierror ↦ Verdict.unresolved
    | unicode_error ↦ Verdict.value_error
  ]

  abbrev pub check_host : Url → Verdict
  check_host url =
      if url.hostname == ""
      then Verdict.no_hostname
      else if allow_localhost && contains ("localhost" ∷ "127.0.0.1" ∷ "::1" ∷ []) url.hostname
      then Verdict.local_setting
      else if contains ("localhost" ∷ "localhost.localdomain" ∷ "127.0.0.1" ∷ "::1" ∷ [])
          (net.lower url.hostname)
      then Verdict.loopback_name
      else elim url.port [
        | none ↦ Verdict.value_error
        | some port ↦ resolve url.hostname (port_or port (default_port url.scheme))
      ]

  unfoldable pub validate_destination_url : String → Verdict
  validate_destination_url url = elim (net.urlparse url) [
    | none ↦ Verdict.malformed
    | some parsed ↦
        if contains ("http" ∷ "https" ∷ []) parsed.scheme
        then check_host parsed
        else Verdict.unsupported_scheme
  ]
