-- ===== src/Examples/Outbound.antt =====
-- Outbound requests over addresses of four octets.
use microagency.Base.{
  ℕ, Bool, true, false, none, some, [], length, All, Text, codes, text_eq, ◌≤◌, ◌≡◌, ◌||◌, ◌∷◌,
  ◌++◌, ◌==◌,
}
use microagency.Safedial.{
  Net, Url, Destination, canonical_origin, validate_target, validate_destination_target,
}
use microagency.Safedial.Client.{Hop, guarded_client, guarded_client_for_destination, fetch}
use microagency.Safedial.Reach.{IsPublic, IsPermitted, fetch-IsPublic, fetch-IsPermitted}

-- An address is the text of its octets; 10 is private, 169 link-local, 127 loopback.
first_octet : ℕ → Text → Bool
first_octet k [] = false
first_octet k (c ∷ s) = c == k

abbrev net : Net Text
net = record {
  parse_ip = λ t. some t;
  lookup_ip = λ t. none;
  equal = text_eq;
  is_loopback = first_octet 127;
  is_link_local_unicast = first_octet 169;
  is_link_local_multicast = λ ip. false;
  is_private = first_octet 10;
  is_unspecified = first_octet 0;
  is_multicast = first_octet 224;
  is_interface_local_multicast = λ ip. false;
  to4 = λ ip. none;
  lower = λ t. t;
  join_host_port = λ host port. host ++ (58 ∷ port);
}

abbrev site : Url
site = record {
  scheme = codes "https";
  host = 8 ∷ 8 ∷ 8 ∷ 8 ∷ [];
  hostname = 8 ∷ 8 ∷ 8 ∷ 8 ∷ [];
  port = [];
  has_user = false;
}

abbrev at_site : Hop
at_site = record { url = site; address = some (8 ∷ 8 ∷ 8 ∷ 8 ∷ [], codes "443") }

-- The name resolves to the metadata service on the second request.
abbrev rebound : Hop
rebound = record { url = site; address = some (169 ∷ 254 ∷ 169 ∷ 254 ∷ [], codes "443") }

abbrev sidecar : Destination Text
sidecar = record { host = codes "sidecar"; ip = some (10 ∷ 0 ∷ 0 ∷ 7 ∷ []); port = codes "443" }

fetch-IsPublic_example :
    All
      (λ hop.
        IsPublic net hop
        × (validate_target net none hop.url ≡ true)
        × ((false || text_eq (canonical_origin net hop.url) (canonical_origin net site)) ≡ true))
      (fetch net (guarded_client net none) at_site (rebound ∷ []))
    × (length (fetch net (guarded_client net none) at_site (rebound ∷ [])) ≤ 10)
fetch-IsPublic_example = fetch-IsPublic net none at_site (rebound ∷ [])

fetch-IsPermitted_example :
    All
      (λ hop.
        IsPermitted net sidecar hop
        × (validate_destination_target net sidecar hop.url ≡ true)
        × (canonical_origin net hop.url ≡ canonical_origin net site))
      (fetch net (guarded_client_for_destination net sidecar) at_site (rebound ∷ []))
    × (length (fetch net (guarded_client_for_destination net sidecar) at_site (rebound ∷ [])) ≤ 10)
fetch-IsPermitted_example = fetch-IsPermitted net sidecar at_site (rebound ∷ [])
