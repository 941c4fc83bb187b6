-- ===== src/Mcp/Gateway/Visible.antt =====
-- internal/mcp/ambiguity.go: what a caller sees of the registry, and the connections that a caller cannot
-- tell apart.
use microagency.Base.{
  ℕ, Bool, true, false, not, Option, none, some, List, [], is_some, any, all, Text, text_eq,
  is_empty, ◌&&◌, ◌||◌, ◌∷◌, if◌then◌else◌,
}
use microagency.Base.Map.{Map}
use microagency.Mcp.Packages.{Packages}
use microagency.Mcp.Grant.{OperationGrant, ResourceGrant, effect_write}
use microagency.Mcp.Grant.Evaluate.{is_live}
use microagency.Mcp.Gateway.{Tool, Upstream, Registry}
use microagency.Mcp.Gateway.Tools.{find_tool, is_write_tool, is_high_assurance_write_tool}

unfoldable pub matching_grant : List OperationGrant → Text → Text → Text → Option OperationGrant
matching_grant [] key campaign tool = none
matching_grant (g ∷ gs) key campaign tool =
    if text_eq g.principal key && text_eq g.campaign campaign && text_eq g.tool tool
    then some g
    else matching_grant gs key campaign tool

abbrev pub is_owned_by_other : Upstream → Text → Bool
is_owned_by_other u key = not (text_eq u.owner []) && not (text_eq u.owner key)

-- The subject is the verified email of the caller, or empty.
unfoldable pub connection_visible_to : Upstream → Text → Text → Bool
connection_visible_to u key subject =
    not u.revoked
    && not (is_owned_by_other u key)
    && not (is_some u.delegation && text_eq subject [])

-- Both texts are equal or both are not.
abbrev pub same_bool : Bool → Bool → Bool
same_bool true b = b
same_bool false b = not b

unfoldable pub are_shared : List ResourceGrant → Bool
unfolding all
are_shared = all (λ (r : ResourceGrant). r.shared_writable)

-- Peers are connections with their labels.
abbrev pub Peer : Type 0
Peer = Text × Text

unfoldable pub label_distinguishes : Packages → Text → List Peer → Bool
unfolding any
label_distinguishes p label peers =
    not (text_eq label []) && not (any (λ ((_, other) : Peer). p.equal_fold other label) peers)

module _ (p : Packages) (high_assurance : Bool) (now : ℕ) where
  -- What a governed connection shows of one tool.
  unfoldable pub grant_shows : Upstream → Tool → OperationGrant → Bool
  unfolding is_live is_high_assurance_write_tool are_shared
  grant_shows u t g =
      let writes = text_eq g.effect effect_write in
      let shared = text_eq u.owner [] in
      not (high_assurance && not g.high_assurance)
      && not (shared && not g.allow_shared)
      && is_live p g now
      && same_bool writes (is_high_assurance_write_tool p t)
      && not (u.read_only && writes)
      && not (shared && writes && (is_empty g.resources || not (are_shared g.resources)))

  unfoldable pub tool_indexable : Upstream → Tool → Text → Text → Bool
  unfolding matching_grant grant_shows
  tool_indexable u t key campaign =
      if not high_assurance && is_empty u.grants
      then true
      else elim (matching_grant u.grants key campaign t.name) [
        | none ↦ false
        | some g ↦ grant_shows u t g
      ]

  unfoldable pub caller_tool_is_invocable : Upstream → Tool → Text → Text → Bool
  unfolding tool_indexable is_write_tool
  caller_tool_is_invocable u t key campaign =
      u.enabled && not (u.read_only && is_write_tool p t) && tool_indexable u t key campaign

  -- The test of the loop over the other connections.
  unfoldable pub is_peer : Upstream → Text → Text → Text → Text → Text → Upstream → Bool
  unfolding connection_visible_to caller_tool_is_invocable find_tool
  is_peer self key campaign subject name tool peer =
      text_eq peer.template self.template
      && connection_visible_to peer key subject
      && elim (find_tool peer.tools tool) [
        | none ↦ false
        | some t ↦ caller_tool_is_invocable peer t key campaign
      ]

  unfoldable pub peers_in : Upstream → Text → Text → Text → Text → Text → Map Upstream → List Peer
  unfolding is_peer
  peers_in self key campaign subject name tool [] = []
  peers_in self key campaign subject name tool ((other, peer) ∷ m) =
      let rest = peers_in self key campaign subject name tool m in
      if text_eq other name
      then rest
      else if is_peer self key campaign subject name tool peer
      then (other, peer.label) ∷ rest
      else rest

  -- The record that was copied before is still the one of the registry here. The peers stand in the order
  -- of the map; the source sorts them for its message.
  unfoldable pub indistinguishable_peers :
      Upstream → Text → Text → Text → Text → Text → Registry → List Peer
  unfolding peers_in caller_tool_is_invocable find_tool
  indistinguishable_peers u key campaign subject name tool reg =
      let found = peers_in u key campaign subject name tool reg.conns in
      if text_eq u.template [] || not u.enabled || u.revoked
      then []
      else elim (find_tool u.tools tool) [
        | none ↦ []
        | some t ↦ if caller_tool_is_invocable u t key campaign then found else []
      ]
