-- ===== src/Safedial/Client.antt =====
-- internal/safedial: the clients, which follow redirects. A hop is a URL with the address that is
-- about to be dialed for it, after resolution.
use microagency.Base.{
  ℕ, Bool, true, false, not, Option, List, [], leb, is_some, Text, text_eq, ◌+◌, ◌&&◌, ◌∷◌,
  if◌then◌else◌,
}
use microagency.Safedial.{
  Net, Url, Destination, canonical_origin, validate_target, validate_destination_target,
  guard_control, destination_guard,
}

pub record Hop : Type 0 where
  pub url : Url
  pub address : Option (Text × Text)

-- What a client checks: the URL of each request, the address of each dial, and whether a redirect
-- stays at the first origin.
pub record Client : Type 0 where
  pub validates : Url → Bool
  pub guards : Option (Text × Text) → Bool
  pub same_origin : Bool

module _ {Ip : Type 0} (n : Net Ip) where
  unfoldable pub guarded_client : Option (Url → Bool) → Client
  unfolding validate_target guard_control
  guarded_client policy = record {
    validates = validate_target n policy;
    guards = guard_control n;
    same_origin = not (is_some policy);
  }

  unfoldable pub guarded_client_for_destination : Destination Ip → Client
  unfolding validate_destination_target destination_guard
  guarded_client_for_destination d = record {
    validates = validate_destination_target n d;
    guards = destination_guard n d;
    same_origin = true;
  }

  -- `CheckRedirect` after that many requests, the first of which was for `origin`.
  unfoldable pub check_redirect : Client → Url → ℕ → Url → Bool
  unfolding canonical_origin
  check_redirect client origin via target =
      if leb 10 via
      then false
      else if client.same_origin
          && not (text_eq (canonical_origin n target) (canonical_origin n origin))
      then false
      else client.validates target

  -- `RoundTrip` and the dial. The address of a hop is any of those that the dialer tries for it: each
  -- passes `Control` by itself.
  unfoldable pub round_trip : Client → Hop → Bool
  round_trip client hop = client.validates hop.url && client.guards hop.address

  -- The hops that are dialed: the redirects until one is refused.
  unfoldable pub follow : Client → Url → ℕ → List Hop → List Hop
  unfolding check_redirect round_trip
  follow client origin via [] = []
  follow client origin via (hop ∷ hops) =
      let rest = follow client origin (via + 1) hops in
      if check_redirect client origin via hop.url && round_trip client hop then hop ∷ rest else []

  unfoldable pub fetch : Client → Hop → List Hop → List Hop
  unfolding round_trip follow
  fetch client first redirects =
      if round_trip client first then first ∷ follow client first.url 1 redirects else []
