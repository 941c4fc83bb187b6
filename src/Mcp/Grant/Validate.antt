-- ===== src/Mcp/Grant/Validate.antt =====
-- internal/mcp/grant.go: `validateOperationGrant`, part by part. An error is none or false.
use microagency.Base.{
  ℕ, Bool, true, false, not, Option, none, some, List, [], map, ltb, leb, is_some, length, any, all,
  Text, codes, text_eq, is_empty, starts_with, contains, split_byte, trim_first, member, ◌*◌, ◌^◌,
  ◌&&◌, ◌||◌, ◌∷◌, ◌++◌, ◌==◌, if◌then◌else◌,
}
use microagency.Auth.Identity.{split_principal_key}
use microagency.Mcp.Packages.{Packages}
use microagency.Mcp.Grant.{
  OperationGrant, ArgumentGrant, ResourceGrant, UrlTargetGrant, effect_read, effect_write,
}
use microagency.Mcp.Grant.Urls.{parse_grant_origin, has_escaped_separator}

abbrev pub max_grant_entries : ℕ
max_grant_entries = 256

abbrev pub max_grant_requests : ℕ
max_grant_requests = 1000000

abbrev pub max_grant_bytes : ℕ
max_grant_bytes = 2 ^ 40

abbrev pub max_grant_rate_window : ℕ
max_grant_rate_window = 365 * 24 * 60 * 60

-- In a token of a pointer '~' stands before '0' or '1'.
unfoldable pub is_escaped_token : Text → Bool
is_escaped_token [] = true
is_escaped_token (c ∷ []) = not (c == b'~')
is_escaped_token (c ∷ (d ∷ s)) =
    (not (c == b'~') || (d == b'0') || (d == b'1')) && is_escaped_token (d ∷ s)

unfoldable pub validate_pointer : Text → Bool
unfolding is_escaped_token starts_with contains split_byte trim_first all
validate_pointer pointer =
    not (text_eq pointer [])
    && starts_with pointer (codes "/")
    && not (contains pointer (codes "//"))
    && all is_escaped_token (split_byte b'/' (trim_first b'/' pointer))

-- The tests of the identity of a trimmed grant.
unfoldable pub is_named : Text → OperationGrant → Bool
unfolding split_principal_key
is_named connection g =
    not (text_eq g.id [] || text_eq g.connection [] || text_eq g.tool [])
    && text_eq g.connection connection
    && (text_eq g.effect effect_read || text_eq g.effect effect_write)
    && not (text_eq g.principal [] || text_eq g.campaign [])
    && is_some (split_principal_key g.principal)

-- The budgets are positive, bounded, and hold one response.
unfoldable pub has_budgets : OperationGrant → Bool
has_budgets g =
    ltb 0 g.max_requests
    && ltb 0 g.max_bytes
    && ltb 0 g.max_response_bytes
    && ltb 0 g.rate.requests
    && ltb 0 g.rate.window_s
    && leb g.max_requests max_grant_requests
    && leb g.rate.requests max_grant_requests
    && leb g.max_bytes max_grant_bytes
    && ltb g.max_response_bytes g.max_bytes
    && leb g.rate.window_s max_grant_rate_window

unfoldable pub has_few_entries : OperationGrant → Bool
has_few_entries g =
    leb (length g.arguments) max_grant_entries
    && leb (length g.resources) max_grant_entries
    && leb (length g.url_targets) max_grant_entries
    && leb (length g.metadata) max_grant_entries

-- A rule constrains something.
unfoldable pub constrains : ArgumentGrant → Bool
constrains rule =
    not (is_empty rule.values && text_eq rule.pattern [] && text_eq rule.url_target [])

unfoldable pub is_known_target : List UrlTargetGrant → ArgumentGrant → Bool
is_known_target targets rule =
    text_eq rule.url_target [] || any (λ (t : UrlTargetGrant). text_eq t.id rule.url_target) targets

-- Exactly one of an argument and a value.
unfoldable pub has_source : ResourceGrant → Bool
has_source r = if text_eq r.argument [] then not (text_eq r.value []) else text_eq r.value []

abbrev pub resource_key : ResourceGrant → Text
resource_key r = r.kind ++ (0 ∷ r.namespace)

module _ (p : Packages) where
  unfoldable pub has_pattern : ArgumentGrant → Bool
  has_pattern rule =
      text_eq rule.pattern [] || (ltb 0 rule.max_bytes && p.pattern_compiles rule.pattern)

  unfoldable pub is_valid_rule : ArgumentGrant → Bool
  unfolding validate_pointer constrains has_pattern
  is_valid_rule rule =
      if validate_pointer rule.pointer then constrains rule && has_pattern rule else false

  -- The loop over the arguments; `seen` holds the pointers so far.
  unfoldable pub validate_arguments : List Text → List ArgumentGrant → Bool
  unfolding is_valid_rule member
  validate_arguments seen [] = true
  validate_arguments seen (rule ∷ rules) =
      let rest = validate_arguments (rule.pointer ∷ seen) rules in
      if member rule.pointer seen then false else if is_valid_rule rule then rest else false

  unfoldable pub is_path_prefix : Text → Bool
  unfolding has_escaped_separator contains starts_with
  is_path_prefix prefix =
      starts_with prefix (codes "/")
      && not (contains prefix (codes "//"))
      && not (has_escaped_separator (p.lower prefix))
      && text_eq (p.clean_path prefix) prefix

  unfoldable pub is_valid_target : UrlTargetGrant → Bool
  unfolding parse_grant_origin is_path_prefix all
  is_valid_target t =
      all (λ origin. is_some (parse_grant_origin p origin)) t.origins
      && all is_path_prefix t.paths
      && all (λ ((key, _) : Text × List Text). not (text_eq (p.trim_space key) [])) t.query

  unfoldable pub validate_targets : List Text → List UrlTargetGrant → Bool
  unfolding is_valid_target member
  validate_targets seen [] = true
  validate_targets seen (t ∷ ts) =
      not (text_eq t.id [])
      && not (member t.id seen)
      && not (is_empty t.origins)
      && is_valid_target t
      && validate_targets (t.id ∷ seen) ts

  unfoldable pub trim_resource : ResourceGrant → ResourceGrant
  trim_resource r = record r { kind = p.trim_space r.kind; namespace = p.trim_space r.namespace }

  -- The loop over the trimmed resources; `seen` holds their keys so far.
  unfoldable pub validate_resources : List Text → List ResourceGrant → Bool
  unfolding has_source validate_pointer member
  validate_resources seen [] = true
  validate_resources seen (r ∷ rs) =
      not (text_eq r.kind [] || text_eq r.namespace [])
      && has_source r
      && (text_eq r.argument [] || validate_pointer r.argument)
      && not (member (resource_key r) seen)
      && validate_resources (resource_key r ∷ seen) rs

  unfoldable pub trim_grant : OperationGrant → OperationGrant
  unfolding trim_resource
  trim_grant g = record g {
    id = p.trim_space g.id;
    connection = p.trim_space g.connection;
    tool = p.trim_space g.tool;
    principal = p.trim_space g.principal;
    campaign = p.trim_space g.campaign;
    resources = map trim_resource g.resources;
  }

  -- The expiry parses to a time that is not the zero time.
  unfoldable pub has_expiry : OperationGrant → Bool
  has_expiry g = elim (p.parse_time g.expires_at) [ none ↦ false | some at ↦ not (at == 0) ]

  -- The tests on a trimmed grant.
  unfoldable pub is_valid_grant : Text → OperationGrant → Bool
  unfolding is_named has_expiry has_budgets has_few_entries validate_arguments validate_targets
      is_known_target validate_resources all
  is_valid_grant connection g =
      let rest =
        is_named connection g
        && has_expiry g
        && has_budgets g
        && has_few_entries g
        && validate_targets [] g.url_targets
        && all (is_known_target g.url_targets) g.arguments
        && validate_resources [] g.resources in
      if validate_arguments [] g.arguments then rest else false

  unfoldable pub validate_operation_grant : OperationGrant → Text → Option OperationGrant
  unfolding trim_grant is_valid_grant
  validate_operation_grant g connection =
      let trimmed = trim_grant g in
      if text_eq g.version (codes "microagency.grant/v1") && is_valid_grant connection trimmed
      then some trimmed
      else none
