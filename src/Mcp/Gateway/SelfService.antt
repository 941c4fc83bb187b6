-- ===== src/Mcp/Gateway/SelfService.antt =====
-- internal/mcp/userconnections.go: `commitSelfServiceOAuth`, which ends the sign-in that a principal
-- started for a connection from a template.
use microagency.Base.{
  ℕ, inl, Bool, true, false, not, Option, none, some, [], is_some, Text, codes, text_eq, ◌⊎◌, ◌&&◌,
  ◌==◌, if◌then◌else◌,
}
use microagency.Base.Map
use microagency.Mcp.Gateway.{
  Conn, Listing, Upstream, Registry, RegistryError, already_registered, unknown_upstream,
  unreachable, generation_changed, template_changed,
}
use microagency.Mcp.Gateway.Operations.{amend, fail_if}

-- The fields of `oauthFlow` that the commit reads.
pub record Flow : Type 0 where
  pub name : Text
  pub discover : Bool
  pub reauth : Bool
  pub read_only : Bool
  pub owner : Text
  pub template : Text
  pub template_version : ℕ
  pub label : Text
  pub auth_generation : ℕ

-- A template as it is now.
pub record Template : Type 0 where
  pub disabled : Bool
  pub version : ℕ

unfoldable pub is_current : Flow → Option Template → Bool
is_current flow none = false
is_current flow (some t) = not t.disabled && (t.version == flow.template_version)

unfoldable pub self_service_upstream : Flow → Conn → Listing → Upstream
self_service_upstream flow conn listing = record {
  conn = conn;
  tools = listing.tools;
  enabled = not flow.discover;
  provenance = if flow.discover then codes "discovered" else codes "preloaded";
  read_only = flow.read_only;
  private_destination = false;
  audit_full_args = false;
  grants = [];
  owner = flow.owner;
  self_service = true;
  template = flow.template;
  revoked = false;
  label = flow.label;
  delegation = none;
  auth_generation = flow.auth_generation;
  minimize_suggested = listing.suggestion;
  last_ok = 0;
  last_err = [];
  last_err_at = 0;
}

unfoldable pub is_own : Flow → Upstream → Bool
is_own flow u = u.self_service && text_eq u.owner flow.owner && text_eq u.template flow.template

-- The record of a renewed sign-in; the flow must be for the same owner, template and generation.
unfoldable pub reauthorize : Flow → Conn → Listing → Upstream → Upstream ⊎ RegistryError
reauthorize flow conn listing u = fail_if (not (is_own flow u)) unknown_upstream (
    fail_if (not (u.auth_generation == flow.auth_generation)) generation_changed (
      inl (record u {
        conn = conn;
        tools = listing.tools;
        minimize_suggested = listing.suggestion;
        enabled = if u.revoked then true else u.enabled;
        revoked = false;
      })))

unfoldable pub commit_self_service_oauth :
    Flow → Option Template → Conn → Option Listing → Registry → Registry × Option RegistryError
unfolding is_current self_service_upstream reauthorize
commit_self_service_oauth flow template conn none reg = (reg, some unreachable)
commit_self_service_oauth flow template conn (some listing) reg =
    if not (is_current flow template)
    then (reg, some template_changed)
    else if flow.reauth
    then amend flow.name unknown_upstream (reauthorize flow conn listing) reg
    else if is_some (Map.get flow.name reg.conns)
    then (reg, some already_registered)
    else (
      record reg { conns = Map.put flow.name (self_service_upstream flow conn listing) reg.conns },
      none,
    )
