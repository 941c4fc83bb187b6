-- ===== src/Mcp/Gateway/Operations.antt =====
-- internal/mcp/gateway.go: the operations on the registry. An operation that talks to an upstream reads
-- a copy of the record first and commits under the lock when the upstream has answered: the two halves
-- are two functions, and other operations may come between them.
use mathlib.Core.Option
use microagency.Base.{
  ℕ, inl, inr, Bool, true, false, not, Option, none, some, List, [], is_some, Text, codes, text_eq,
  contains, trim_last, member, ◌+◌, ◌%◌, ◌^◌, ◌⊎◌, ◌&&◌, ◌||◌, ◌∷◌, ◌++◌, ◌==◌, if◌then◌else◌,
}
use microagency.Base.Map
use microagency.Base.Map.{Map}
use microagency.Auth.Identity.{split_principal_key}
use microagency.Mcp.Packages.{Packages}
use microagency.Mcp.Grant.{OperationGrant}
use microagency.Mcp.Grant.Validate.{validate_operation_grant}
use microagency.Mcp.Gateway.Labels.{validate_connection_label}
use microagency.Mcp.Gateway.{
  Conn, Listing, Upstream, Registry, Mediation, advisory, broken, enforced, RegistryError, bad_name,
  already_registered, private_self_service, mediation_refused, unknown_upstream, upstream_revoked,
  unreachable, removed_meanwhile, changed_meanwhile, generation_changed, bad_owner, owner_immutable,
  bad_label, bad_grant, duplicate_grant,
}

-- The options of a registration.
pub data UpstreamOption : Type 0 where
  with_owner : Text → UpstreamOption
  with_self_service : Text → UpstreamOption
  with_private_destination with_revoked : UpstreamOption
  with_label : Text → UpstreamOption
  with_delegation : Map Text → UpstreamOption

unfoldable pub apply_option : UpstreamOption → Upstream → Upstream
apply_option (with_owner key) u = record u { owner = key }
apply_option (with_self_service template) u = record u { self_service = true; template = template }
apply_option with_private_destination u = record u { private_destination = true }
apply_option with_revoked u = record u { revoked = true }
apply_option (with_label label) u = record u { label = label }
apply_option (with_delegation cache) u = record u { delegation = some cache }

unfoldable pub apply_options : List UpstreamOption → Upstream → Upstream
unfolding apply_option
apply_options [] u = u
apply_options (o ∷ os) u = apply_options os (apply_option o u)

-- The record of a registration before its options.
unfoldable pub new_upstream : Conn → Listing → Bool → Text → Upstream
new_upstream conn listing enabled provenance = record {
  conn = conn;
  tools = listing.tools;
  enabled = enabled;
  provenance = provenance;
  read_only = false;
  private_destination = false;
  audit_full_args = false;
  grants = [];
  owner = [];
  self_service = false;
  template = [];
  revoked = false;
  label = [];
  delegation = none;
  auth_generation = 0;
  minimize_suggested = listing.suggestion;
  last_ok = 0;
  last_err = [];
  last_err_at = 0;
}

unfoldable pub is_bad_name : Text → Bool
unfolding contains
is_bad_name name = text_eq name [] || contains name (codes "__")

-- The identity of two clients.
abbrev pub is_same_conn : Conn → Conn → Bool
is_same_conn a b = a.handle == b.handle

unfoldable pub drop_cache : Upstream → Upstream
drop_cache u = elim u.delegation [ none ↦ u | some cache ↦ record u { delegation = some [] } ]

-- A write to the record of a name, or the error for a name that is not there.
abbrev pub amend :
    Text
    → RegistryError
    → (Upstream → Upstream ⊎ RegistryError)
    → Registry
    → Registry × Option RegistryError
amend name missing f reg = elim (Map.get name reg.conns) [
  | none ↦ (reg, some missing)
  | some u ↦ elim (f u) [
    | inl v ↦ (record reg { conns = Map.put name v reg.conns }, none)
    | inr e ↦ (reg, some e)
  ]
]

-- An early return with an error.
unfoldable pub fail_if : Bool → RegistryError → Upstream ⊎ RegistryError → Upstream ⊎ RegistryError
fail_if true e rest = inr e
fail_if false e rest = rest

unfoldable pub normalize_host : Packages → Text → Text
unfolding trim_last
normalize_host p v = p.lower (trim_last b'.' (p.trim_space v))

-- A generation is expected and it is not this one.
unfoldable pub is_other_generation : Option ℕ → ℕ → Bool
is_other_generation none g = false
is_other_generation (some e) g = not (g == e)

module _ (p : Packages) (m : Mediation) where
  -- `ValidateUpstream` of internal/mediation/mediation.go, true if it has no error.
  unfoldable pub validate_upstream : Text → Text → Bool
  unfolding normalize_host
  validate_upstream gateway_host endpoint = elim (p.parse_url (p.trim_space endpoint)) [
    | none ↦ true
    | some u ↦
        if text_eq u.hostname []
          || not (text_eq u.scheme (codes "http") || text_eq u.scheme (codes "https"))
        then true
        else not (text_eq (normalize_host p u.hostname) gateway_host)
  ]

  unfoldable pub validate_mediation_endpoint : Text → Bool
  unfolding validate_upstream
  validate_mediation_endpoint endpoint = elim m [
    | advisory ↦ true
    | broken ↦ false
    | enforced gateway_host ↦ validate_upstream gateway_host endpoint
  ]

  unfoldable pub register_upstream :
      Text → Upstream → List UpstreamOption → Registry → Registry × Option RegistryError
  unfolding apply_options validate_mediation_endpoint
  register_upstream name u options reg =
      let v = apply_options options u in
      if is_some (Map.get name reg.conns)
      then (reg, some already_registered)
      else if v.private_destination && v.self_service
      then (reg, some private_self_service)
      else if v.enabled && not v.revoked && not (validate_mediation_endpoint v.conn.endpoint)
      then (reg, some mediation_refused)
      else (record reg { conns = Map.put name v reg.conns }, none)

  -- `AddUpstream` and `DiscoverUpstream` up to their call of tools/list.
  unfoldable pub begin_add : Text → Registry → Option RegistryError
  unfolding is_bad_name
  begin_add name reg =
      if is_bad_name name
      then some bad_name
      else if is_some (Map.get name reg.conns)
      then some already_registered
      else none

  -- The registration after tools/list, with none for an upstream that does not answer.
  unfoldable pub register_answered :
      Text → Option Upstream → List UpstreamOption → Registry → Registry × Option RegistryError
  unfolding register_upstream
  register_answered name none options reg = (reg, some unreachable)
  register_answered name (some u) options reg = register_upstream name u options reg

  unfoldable pub register_named :
      Text → Option Upstream → List UpstreamOption → Registry → Registry × Option RegistryError
  unfolding is_bad_name register_answered
  register_named name answer options reg =
      if is_bad_name name then (reg, some bad_name) else register_answered name answer options reg

  unfoldable pub add_upstream :
      Text
      → Conn
      → Option Listing
      → List UpstreamOption
      → Registry
      → Registry × Option RegistryError
  unfolding new_upstream register_named
  add_upstream name conn listed =
      register_named name
        (Option.map (λ listing. new_upstream conn listing true (codes "preloaded")) listed)

  unfoldable pub add_discovered :
      Text
      → Conn
      → Listing
      → Text
      → List UpstreamOption
      → Registry
      → Registry × Option RegistryError
  unfolding new_upstream register_named
  add_discovered name conn listing provenance =
      let source = if text_eq provenance [] then codes "discovered" else provenance in
      register_named name (some (new_upstream conn listing false source))

  unfoldable pub discover_upstream :
      Text
      → Conn
      → Option Listing
      → List UpstreamOption
      → Registry
      → Registry × Option RegistryError
  unfolding new_upstream register_named
  discover_upstream name conn listed =
      register_named name
        (Option.map (λ listing. new_upstream conn listing false (codes "discovered")) listed)

  -- The commit of `EnableUpstream` for a record that was copied before.
  unfoldable pub commit_enable : Text → Conn → Listing → Registry → Registry × Option RegistryError
  unfolding validate_mediation_endpoint
  commit_enable name conn listing = amend name removed_meanwhile (λ (u : Upstream).
      fail_if (not (is_same_conn u.conn conn)) changed_meanwhile (
        fail_if (not (validate_mediation_endpoint u.conn.endpoint)) mediation_refused (
          inl (record u {
            tools = listing.tools;
            minimize_suggested = listing.suggestion;
            enabled = true;
          }))))

  -- The commit of `rebindUpstream`; `expected` is the generation that the operation started from;
  -- the only call of it, in `RebindUpstream`, gives none.
  unfoldable pub commit_rebind :
      Text → Conn → Listing → Option ℕ → Registry → Registry × Option RegistryError
  unfolding validate_mediation_endpoint
  commit_rebind name conn listing expected = amend name removed_meanwhile (λ (u : Upstream).
      fail_if (is_other_generation expected u.auth_generation) generation_changed (
        fail_if (not (validate_mediation_endpoint conn.endpoint)) mediation_refused (
          inl (record u {
            conn = conn;
            tools = listing.tools;
            minimize_suggested = listing.suggestion;
            enabled = if u.revoked then true else u.enabled;
            revoked = false;
          }))))

-- What an operation that reads first is to do: an error, nothing, or a call of the copied client.
pub data Begun : Type 0 where
  failed : RegistryError → Begun
  nothing : Begun
  calling : Conn → Begun

unfoldable pub begin_enable : Text → Registry → Begun
begin_enable name reg = elim (Map.get name reg.conns) [
  | none ↦ failed unknown_upstream
  | some u ↦
      if u.revoked then failed upstream_revoked else if u.enabled then nothing else calling u.conn
]

unfoldable pub begin_refresh : Text → Registry → Begun
begin_refresh name reg = elim (Map.get name reg.conns) [
  | none ↦ failed unknown_upstream
  | some u ↦ if u.revoked then failed upstream_revoked else calling u.conn
]

unfoldable pub commit_refresh : Text → Conn → Listing → Registry → Registry × Option RegistryError
commit_refresh name conn listing = amend name removed_meanwhile (λ (u : Upstream).
    fail_if (not (is_same_conn u.conn conn)) changed_meanwhile
      (inl (record u { tools = listing.tools; minimize_suggested = listing.suggestion })))

unfoldable pub set_upstream_owner : Text → Text → Registry → Registry × Option RegistryError
unfolding split_principal_key
set_upstream_owner name owner reg =
    if not (text_eq owner []) && not (is_some (split_principal_key owner))
    then (reg, some bad_owner)
    else amend name unknown_upstream
        (λ (u : Upstream).
          fail_if (u.self_service && not (text_eq owner u.owner)) owner_immutable
            (inl (record u { owner = owner })))
        reg

unfoldable pub set_upstream_label :
    Packages → Text → Text → Registry → Registry × Option RegistryError
unfolding validate_connection_label
set_upstream_label p name label reg = elim (validate_connection_label p label) [
  | none ↦ (reg, some bad_label)
  | some checked ↦
      amend name unknown_upstream (λ (u : Upstream). inl (record u { label = checked })) reg
]

unfoldable pub disable_upstream : Text → Registry → Registry × Option RegistryError
unfolding drop_cache
disable_upstream name =
    amend name unknown_upstream (λ (u : Upstream). inl (drop_cache (record u { enabled = false })))

-- The generation is a uint64.
unfoldable pub revoke_upstream : Text → Registry → Registry × Option RegistryError
unfolding drop_cache
revoke_upstream name = amend name unknown_upstream (λ (u : Upstream). inl (
    drop_cache (record u {
      enabled = false;
      revoked = true;
      auth_generation = (u.auth_generation + 1) % 2 ^ 64;
    })))

unfoldable pub set_upstream_read_only : Text → Bool → Registry → Registry × Option RegistryError
set_upstream_read_only name ro =
    amend name unknown_upstream (λ (u : Upstream). inl (record u { read_only = ro }))

unfoldable pub set_upstream_audit_full_args :
    Text → Bool → Registry → Registry × Option RegistryError
set_upstream_audit_full_args name on =
    amend name unknown_upstream (λ (u : Upstream). inl (record u { audit_full_args = on }))

unfoldable pub remove_upstream : Text → Registry → Registry × Bool
remove_upstream name reg =
    if is_some (Map.get name reg.conns)
    then (record reg { conns = Map.remove name reg.conns }, true)
    else (reg, false)

abbrev pub grant_tuple : OperationGrant → Text
grant_tuple g = g.principal ++ (0 ∷ g.campaign ++ (0 ∷ g.tool))

-- The loop of `SetUpstreamGrants`: the validated grants, with the identifiers and tuples so far.
unfoldable pub validate_grants :
    Packages
    → Text
    → List Text
    → List Text
    → List OperationGrant
    → List OperationGrant ⊎ RegistryError
unfolding validate_operation_grant member
validate_grants p name ids tuples [] = inl []
validate_grants p name ids tuples (g ∷ gs) = elim (validate_operation_grant p g name) [
  | none ↦ inr bad_grant
  | some v ↦
      if member v.id ids || member (grant_tuple v) tuples
      then inr duplicate_grant
      else elim (validate_grants p name (v.id ∷ ids) (grant_tuple v ∷ tuples) gs) [
        | inl vs ↦ inl (v ∷ vs)
        | inr e ↦ inr e
      ]
]

unfoldable pub set_upstream_grants :
    Packages → Text → List OperationGrant → Registry → Registry × Option RegistryError
unfolding validate_grants
set_upstream_grants p name grants reg = elim (validate_grants p name [] [] grants) [
  | inr e ↦ (reg, some e)
  | inl validated ↦
      amend name unknown_upstream (λ (u : Upstream). inl (record u { grants = validated })) reg
]

-- The error of a call, or none for a success.
unfoldable pub stamp : Option Text → ℕ → Upstream → Upstream
stamp none now u = record u { last_ok = now }
stamp (some message) now u = record u { last_err = message; last_err_at = now }

-- A name that is not there is left alone.
unfoldable pub record_upstream_health : Text → Option Text → ℕ → Registry → Registry
unfolding stamp
record_upstream_health name call_err now reg =
    (amend name unknown_upstream (λ (u : Upstream). inl (stamp call_err now u)) reg).0

unfoldable pub bump_usage : Text → Registry → Registry
bump_usage name reg =
    let n : ℕ = elim (Map.get name reg.usage) [ none ↦ 0 | some n ↦ n ] in
    record reg { usage = Map.put name (n + 1) reg.usage }
