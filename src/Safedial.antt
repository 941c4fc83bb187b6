-- ===== src/Safedial.antt =====
-- internal/safedial: the addresses that an outbound request may reach. `Net` holds what package net
-- and package strings provide; a URL stands with the parts that package net/url parses.
pub mod Client
pub mod Reach
use microagency.Base.{
  ℕ, Bool, true, false, not, Option, none, some, List, [], is_some, any, Text, codes, text_eq, ◌/◌,
  ◌&&◌, ◌||◌, ◌∷◌, ◌++◌, ◌==◌, if◌then◌else◌,
}

pub record Net (Ip : Type 0) : Type 0 where
  pub parse_ip : Text → Option Ip
  pub lookup_ip : Text → Option (List Ip)
  pub equal : Ip → Ip → Bool
  pub is_loopback : Ip → Bool
  pub is_link_local_unicast : Ip → Bool
  pub is_link_local_multicast : Ip → Bool
  pub is_private : Ip → Bool
  pub is_unspecified : Ip → Bool
  pub is_multicast : Ip → Bool
  pub is_interface_local_multicast : Ip → Bool
  -- The first two octets of an IPv4 address.
  pub to4 : Ip → Option (ℕ × ℕ)
  pub lower : Text → Text
  pub join_host_port : Text → Text → Text

pub record Url : Type 0 where
  pub scheme : Text
  pub host : Text
  pub hostname : Text
  pub port : Text
  pub has_user : Bool

-- `strings.TrimSuffix s "."`.
unfoldable pub trim_dot : Text → Text
trim_dot [] = []
trim_dot (c ∷ []) = if c == b'.' then [] else c ∷ []
trim_dot (c ∷ (d ∷ s)) = c ∷ trim_dot (d ∷ s)

-- The port of a URL, or the scheme's.
unfoldable pub effective_port : Url → Text
effective_port target =
    if text_eq target.port []
    then (if text_eq target.scheme (codes "https") then codes "443" else codes "80")
    else target.port

unfoldable pub is_http : Url → Bool
is_http target = text_eq target.scheme (codes "http") || text_eq target.scheme (codes "https")

-- An http(s) URL with a host and without credentials.
unfoldable pub is_plain : Url → Bool
unfolding is_http
is_plain target = is_http target && not (text_eq target.host []) && not target.has_user

module _ {Ip : Type 0} (n : Net Ip) where
  unfoldable pub is_internal : Option Ip → Bool
  is_internal none = true
  is_internal (some ip) =
      if n.is_loopback ip
        || n.is_link_local_unicast ip
        || n.is_link_local_multicast ip
        || n.is_private ip
        || n.is_unspecified ip
        || n.is_multicast ip
        || n.is_interface_local_multicast ip
      then true
      else elim (n.to4 ip) [ none ↦ false | some (a, b) ↦ (a == 100) && ((b / 64) == 1) ]

  -- The address of the metadata service parses.
  unfoldable pub is_metadata : Ip → Bool
  is_metadata ip = elim (n.parse_ip (codes "fd00:ec2::254")) [
    | none ↦ false
    | some metadata ↦ n.equal ip metadata
  ]

  unfoldable pub always_refused : Option Ip → Bool
  unfolding is_metadata
  always_refused none = true
  always_refused (some ip) =
      if n.is_link_local_unicast ip
        || n.is_link_local_multicast ip
        || n.is_unspecified ip
        || n.is_multicast ip
        || n.is_interface_local_multicast ip
      then true
      else is_metadata ip

  unfoldable pub canonical_origin : Url → Text
  unfolding trim_dot
  canonical_origin target =
      let host = n.lower (trim_dot target.hostname) in
      let port =
        if not (text_eq target.port [])
        then target.port
        else if text_eq target.scheme (codes "https")
        then codes "443"
        else if text_eq target.scheme (codes "http")
        then codes "80"
        else target.port in
      n.lower target.scheme ++ (codes "://" ++ n.join_host_port host port)

pub record Destination (Ip : Type 0) : Type 0 where
  pub host : Text
  pub ip : Option Ip
  pub port : Text

module _ {Ip : Type 0} (n : Net Ip) where
  -- `ParseDestination` on a URL that parses.
  unfoldable pub parse_destination : Url → Option (Destination Ip)
  unfolding is_http trim_dot effective_port always_refused
  parse_destination target =
      let host = n.lower (trim_dot target.hostname) in
      let ip = n.parse_ip host in
      if not (is_http target)
      then none
      else if text_eq host []
      then none
      else if is_some ip && always_refused n ip
      then none
      else some (record { host = host; ip = ip; port = effective_port target })

  -- The declared address itself, or another name of the same loopback host; a name permits what it
  -- resolves to.
  unfoldable pub permits : Destination Ip → Option Ip → Text → Bool
  permits d none port = false
  permits d (some ip) port = if not (text_eq port d.port) then false else elim d.ip [
    | some own ↦ if n.equal own ip then true else n.is_loopback own && n.is_loopback ip
    | none ↦ elim (n.lookup_ip d.host) [
      | none ↦ false
      | some resolved ↦ any (λ candidate. n.equal candidate ip) resolved
    ]
  ]

  unfoldable pub matches_url : Destination Ip → Url → Bool
  unfolding trim_dot effective_port
  matches_url d target =
      text_eq (n.lower (trim_dot target.hostname)) d.host && text_eq (effective_port target) d.port

  unfoldable pub permits_loopback_url : Destination Ip → Ip → Url → Bool
  unfolding effective_port
  permits_loopback_url d ip target = elim d.ip [
    | none ↦ false
    | some own ↦
        if n.is_loopback own && n.is_loopback ip
        then text_eq (effective_port target) d.port
        else false
  ]

  -- `validateTarget`, where the policy, if there is one, approves the URL or not.
  unfoldable pub validate_target : Option (Url → Bool) → Url → Bool
  unfolding is_plain is_internal
  validate_target policy target =
      let ip = n.parse_ip target.hostname in
      if not (is_plain target)
      then false
      else if is_some ip && is_internal n ip
      then false
      else elim policy [ none ↦ true | some approves ↦ approves target ]

  unfoldable pub validate_destination_target : Destination Ip → Url → Bool
  unfolding is_plain is_internal always_refused matches_url permits_loopback_url
  validate_destination_target d target =
      if not (is_plain target) then false else elim (n.parse_ip target.hostname) [
        | none ↦ true
        | some ip ↦
            if is_internal n (some ip)
            then not (always_refused n (some ip))
              && (matches_url d target || permits_loopback_url d ip target)
            else true
      ]

  -- The two checks of a concrete address, which is none if it does not split into host and port.
  unfoldable pub guard_control : Option (Text × Text) → Bool
  unfolding is_internal
  guard_control none = false
  guard_control (some (host, port)) = not (is_internal n (n.parse_ip host))

  unfoldable pub destination_guard : Destination Ip → Option (Text × Text) → Bool
  unfolding always_refused is_internal permits
  destination_guard d none = false
  destination_guard d (some (host, port)) =
      let ip = n.parse_ip host in
      if always_refused n ip
      then false
      else if not (is_internal n ip)
      then true
      else permits d ip port
