-- ===== src/Mcp/Gateway/Runs.antt =====
-- The sections of the registry's operations that run under its lock, in any order: the commit of an
-- operation that waited for the network may follow any others.
use microagency.Base.{ℕ, suc, Bool, false, Option, List, [], Text, text_eq, ◌∷◌, if◌then◌else◌}
use microagency.Mcp.Packages.{Packages}
use microagency.Mcp.Grant.{OperationGrant}
use microagency.Mcp.Gateway.{Conn, Listing, Registry, Mediation}
use microagency.Mcp.Gateway.SelfService.{Flow, Template, commit_self_service_oauth}
use microagency.Mcp.Gateway.Operations.{
  UpstreamOption, add_upstream, add_discovered, discover_upstream, commit_enable, commit_rebind,
  commit_refresh, set_upstream_owner, set_upstream_label, disable_upstream, revoke_upstream,
  set_upstream_read_only, set_upstream_audit_full_args, set_upstream_grants, remove_upstream,
  record_upstream_health, bump_usage,
}

pub data Op : Type 0 where
  add discover : Text → Conn → Option Listing → List UpstreamOption → Op
  add_metadata : Text → Conn → Listing → Text → List UpstreamOption → Op
  enable refresh : Text → Conn → Listing → Op
  rebind : Text → Conn → Listing → Option ℕ → Op
  sign_in : Flow → Option Template → Conn → Option Listing → Op
  give name_label : Text → Text → Op
  disable revoke remove call : Text → Op
  read_only full_args : Text → Bool → Op
  grant : Text → List OperationGrant → Op
  report : Text → Option Text → ℕ → Op

module _ (p : Packages) (m : Mediation) where
  unfoldable pub apply : Op → Registry → Registry
  unfolding add_upstream add_discovered discover_upstream commit_enable commit_rebind commit_refresh
  apply (add name conn listed options) reg = (add_upstream p m name conn listed options reg).0
  apply (discover name conn listed options) reg =
      (discover_upstream p m name conn listed options reg).0
  apply (add_metadata name conn listing source options) reg =
      (add_discovered p m name conn listing source options reg).0
  apply (enable name conn listing) reg = (commit_enable p m name conn listing reg).0
  apply (refresh name conn listing) reg = (commit_refresh name conn listing reg).0
  apply (rebind name conn listing expected) reg =
      (commit_rebind p m name conn listing expected reg).0
  apply (sign_in flow template conn listed) reg =
      (commit_self_service_oauth flow template conn listed reg).0
  apply (give name owner) reg = (set_upstream_owner name owner reg).0
  apply (name_label name label) reg = (set_upstream_label p name label reg).0
  apply (disable name) reg = (disable_upstream name reg).0
  apply (revoke name) reg = (revoke_upstream name reg).0
  apply (remove name) reg = (remove_upstream name reg).0
  apply (call name) reg = bump_usage name reg
  apply (read_only name on) reg = (set_upstream_read_only name on reg).0
  apply (full_args name on) reg = (set_upstream_audit_full_args name on reg).0
  apply (grant name grants) reg = (set_upstream_grants p name grants reg).0
  apply (report name err now) reg = record_upstream_health name err now reg

  unfoldable pub run : List Op → Registry → Registry
  unfolding apply
  run [] reg = reg
  run (op ∷ ops) reg = run ops (apply op reg)

-- The revocations of a connection in a run, and whether the run removes it.
abbrev pub revokes : Text → Op → Bool
revokes n (revoke name) = text_eq name n
revokes n _ = false

abbrev pub removes : Text → Op → Bool
removes n (remove name) = text_eq name n
removes n _ = false

unfoldable pub revocations : Text → List Op → ℕ
revocations n [] = 0
revocations n (op ∷ ops) = let rest = revocations n ops in if revokes n op then suc rest else rest
