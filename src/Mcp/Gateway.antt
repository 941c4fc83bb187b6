-- ===== src/Mcp/Gateway.antt =====
-- internal/mcp/gateway.go: the registry of upstream connections. The methods of a connection's client
-- are not modelled: what they return is an argument of the operation that calls them.
pub mod Tools
pub mod Labels
pub mod Operations
pub mod SelfService
pub mod Visible
pub mod Invoke
pub mod Gates
pub mod Hidden
pub mod Runs
pub mod Tracked
pub mod Generations
use microagency.Base.{ℕ, Bool, Option, List, Text}
use microagency.Base.Map.{Map}
use microagency.Mcp.Grant.{OperationGrant}

-- gateway.Tool and gateway.ToolAnnotations of internal/gateway/client.go.
pub record Annotations : Type 0 where
  pub read_only_hint : Option Bool
  pub destructive_hint : Option Bool

pub record Tool : Type 0 where
  pub name : Text
  pub description : Text
  pub input_schema : Text
  pub annotations : Option Annotations

-- A client, by its identity and its address.
pub record Conn : Type 0 where
  pub handle : ℕ
  pub endpoint : Text

-- The answer to tools/list, with the policy that is suggested for these tools.
pub record Listing : Type 0 where
  pub tools : List Tool
  pub suggestion : Option Text

-- `delegation` holds the cache of derived tokens. Times are 0 for Go's zero time.
pub record Upstream : Type 0 where
  pub conn : Conn
  pub tools : List Tool
  pub enabled : Bool
  pub provenance : Text
  pub read_only : Bool
  pub private_destination : Bool
  pub audit_full_args : Bool
  pub grants : List OperationGrant
  pub owner : Text
  pub self_service : Bool
  pub template : Text
  pub revoked : Bool
  pub label : Text
  pub delegation : Option (Map Text)
  pub auth_generation : ℕ
  pub minimize_suggested : Option Text
  pub last_ok : ℕ
  pub last_err : Text
  pub last_err_at : ℕ

pub record Registry : Type 0 where
  pub conns : Map Upstream
  pub usage : Map ℕ

-- The state of the enforced mediation of a workspace: none, one that does not load, or the host of the
-- gateway.
pub data Mediation : Type 0 where
  advisory broken : Mediation
  enforced : Text → Mediation

pub data RegistryError : Type 0 where
  bad_name already_registered private_self_service mediation_refused unknown_upstream :
      RegistryError
  upstream_revoked unreachable removed_meanwhile changed_meanwhile generation_changed :
      RegistryError
  bad_owner owner_immutable bad_label bad_grant duplicate_grant template_changed : RegistryError
