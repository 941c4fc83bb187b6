-- ===== src/Safedial/Reach.antt =====
-- internal/safedial: where a request can end up.
use microagency.Base.{
  ℕ, refl, inl, inr, Bool, true, false, not, Option, none, some, List, [], arith, Bool-cases,
  is_some, length, All, Text, text_eq, text_eq_refl, text_eq_iff, All-map, ◌+◌, ◌-◌, ◌≤◌, ◌≡◌, ◌⊎◌,
  ◌||◌, ◌∷◌,
}
use microagency.Safedial.{
  Net, Url, Destination, canonical_origin, validate_target, validate_destination_target,
  guard_control, destination_guard, is_internal, always_refused, permits,
}
use microagency.Safedial.Client.{
  Hop, Client, guarded_client, guarded_client_for_destination, check_redirect, round_trip, follow,
  fetch,
}

module _ {Ip : Type 0} (n : Net Ip) where
  -- The hop passed the checks of the client and stays at the origin where it must.
  abbrev Passed : Client → Url → Hop → Type 0
  Passed client origin hop =
      (client.validates hop.url ≡ true)
      × (client.guards hop.address ≡ true)
      × ((not client.same_origin
            || text_eq (canonical_origin n hop.url) (canonical_origin n origin))
          ≡ true)

  follow-Passed :
      (client : Client) (origin : Url) (via : ℕ) (hops : List Hop)
      → All (Passed client origin) (follow n client origin via hops)
        × (length (follow n client origin via hops) ≤ 10 - via)
  unfolding follow check_redirect round_trip
  follow-Passed client origin via [] = (tt, omega arith)
  follow-Passed client origin via (hop ∷ hops) =
      ground (arith, follow-Passed client origin (via + 1) hops)

  fetch-Passed :
      (client : Client) (first : Hop) (hops : List Hop)
      → All (Passed client first.url) (fetch n client first hops)
        × (length (fetch n client first hops) ≤ 10)
  unfolding fetch round_trip
  fetch-Passed client first hops =
      ground
        (arith, follow-Passed client first.url 1 hops, text_eq_refl (canonical_origin n first.url))

  -- The address parses and is not internal.
  abbrev pub IsPublic : Hop → Type 0
  IsPublic hop =
      (host : Text) × (port : Text) × (hop.address ≡ some (host, port))
      × (is_internal n (n.parse_ip host) ≡ false)

  -- The address parses, is never one that is always refused, and is public or permitted by the
  -- destination at its port.
  abbrev pub IsPermitted : Destination Ip → Hop → Type 0
  IsPermitted d hop =
      (host : Text) × (port : Text) × (hop.address ≡ some (host, port))
      × (always_refused n (n.parse_ip host) ≡ false)
      × ((is_internal n (n.parse_ip host) ≡ false)
          ⊎ ((permits n d (n.parse_ip host) port ≡ true) × (port ≡ d.port)))

  IsPublic-of :
      (hop : Hop) (a : Option (Text × Text))
      → hop.address ≡ a
      → guard_control n a ≡ true
      → IsPublic hop
  unfolding guard_control
  IsPublic-of hop none e g = absurd (cc)
  IsPublic-of hop (some (host, port)) e g = (host, port, e, ground arith)

  permits-port :
      (d : Destination Ip) (ip : Option Ip) (port : Text)
      → permits n d ip port ≡ true
      → port ≡ d.port
  unfolding permits
  permits-port d none port h = absurd (cc)
  permits-port d (some ip) port h = ground (arith, text_eq_iff port d.port)

  IsPermitted-of :
      (d : Destination Ip) (hop : Hop) (a : Option (Text × Text))
      → hop.address ≡ a
      → destination_guard n d a ≡ true
      → IsPermitted d hop
  unfolding destination_guard
  IsPermitted-of d hop none e g = absurd (cc)
  IsPermitted-of d hop (some (host, port)) e g = (
    host,
    port,
    e,
    ground arith,
    elim (Bool-cases (is_internal n (n.parse_ip host))) [
      | inl i ↦ inr (ground arith, permits-port d (n.parse_ip host) port (ground arith))
      | inr i ↦ inl i
    ],
  )

module _ {Ip : Type 0} (n : Net Ip) where
  -- Whatever a server redirects to and however names resolve, the guarded client goes to at most ten
  -- hops for a request, and dials only addresses that are not internal, only URLs that pass the check of
  -- targets, and without a policy only the first origin.
  pub fetch-IsPublic :
      (policy : Option (Url → Bool)) (first : Hop) (redirects : List Hop)
      → let dialed = fetch n (guarded_client n policy) first redirects in
        All
          (λ hop.
            IsPublic n hop
            × (validate_target n policy hop.url ≡ true)
            × ((is_some policy
                  || text_eq (canonical_origin n hop.url) (canonical_origin n first.url))
                ≡ true))
          dialed
        × (length dialed ≤ 10)
  unfolding guarded_client
  fetch-IsPublic policy first redirects =
      let (passed, few) = fetch-Passed n (guarded_client n policy) first redirects in
      (
        All-map _ _ _ (λ hop (v, g, o). (IsPublic-of n hop hop.address refl g, v, ground arith))
            passed,
        few,
      )

  -- Whatever a server redirects to and however names resolve, the client for an operator's
  -- destination goes to at most ten hops for a request, and dials never an address that is always refused, an
  -- internal one only if the destination permits it at its own port, and only the first origin.
  pub fetch-IsPermitted :
      (d : Destination Ip) (first : Hop) (redirects : List Hop)
      → let dialed = fetch n (guarded_client_for_destination n d) first redirects in
        All
          (λ hop.
            IsPermitted n d hop
            × (validate_destination_target n d hop.url ≡ true)
            × (canonical_origin n hop.url ≡ canonical_origin n first.url))
          dialed
        × (length dialed ≤ 10)
  unfolding guarded_client_for_destination
  fetch-IsPermitted d first redirects =
      let (passed, few) = fetch-Passed n (guarded_client_for_destination n d) first redirects in
      (
        All-map _ _ _
            (λ hop (v, g, o). (
              IsPermitted-of n d hop hop.address refl g,
              v,
              ground
                  (arith, text_eq_iff (canonical_origin n hop.url) (canonical_origin n first.url)),
            ))
            passed,
        few,
      )
