-- ===== src/Mcp/Grant/Evaluate.antt =====
-- internal/mcp/grant.go: `evaluateOperationGrant` and the walks over the arguments of a call. `decode`
-- is the JSON decoder on the text of the arguments, and `marshal` the JSON of a grant. One reason stands
-- for all errors of a loop.
use microagency.Base.{
  ℕ, Bool, true, false, not, Option, none, some, List, [], map, ltb, leb, length, take, all, Text,
  codes, text_eq, is_empty, replace_all, split_byte, trim_first, member, ◌+◌, ◌&&◌, ◌||◌, ◌∷◌, ◌++◌,
  ◌==◌, if◌then◌else◌,
}
use microagency.Mcp.Packages.{Packages}
use microagency.Mcp.Json.{
  Json, boolean, number, str, array, object, Items, last_item, item, Members, last_member,
  member_of, member_at, item_at, no_duplicate_keys,
}
use microagency.Mcp.Grant.{
  OperationGrant, ArgumentGrant, ResourceGrant, UrlTargetGrant, EvaluatedGrant, effect_write,
}
use microagency.Mcp.Grant.Urls.{looks_like_url, find_url_target, validate_granted_url}

-- The reason of a refusal, or the granted authority.
pub data Evaluation : Type 0 where
  denied : Text → Evaluation
  granted : EvaluatedGrant → Evaluation

-- '~' becomes "~0", then '/' becomes "~1"; and back.
unfoldable pub escape_token : Text → Text
unfolding replace_all
escape_token key = replace_all (codes "/") (codes "~1") (replace_all (codes "~") (codes "~0") key)

unfoldable pub unescape_token : Text → Text
unfolding replace_all
unescape_token raw = replace_all (codes "~0") (codes "~") (replace_all (codes "~1") (codes "/") raw)

-- The pointers that a grant governs.
unfoldable pub resource_pointers : List ResourceGrant → List Text
resource_pointers [] = []
resource_pointers (r ∷ rs) =
    let rest = resource_pointers rs in if text_eq r.argument [] then rest else r.argument ∷ rest

unfoldable pub governed_pointers : OperationGrant → List Text
unfolding resource_pointers
governed_pointers g =
    map (λ (r : ArgumentGrant). r.pointer) g.arguments ++ resource_pointers g.resources

abbrev pub child : Text → Text → Text
child pointer token = pointer ++ (b'/' ∷ token)

module _ (p : Packages) where
  -- The walk of `rejectUngovernedArguments`: true if it finds no error.
  unfoldable mutual
    unfolding member escape_token

    pub visit : List Text → Text → Json → Bool
    visit allowed pointer (array vs) =
        let rest = visit_items allowed pointer 0 vs in if member pointer allowed then true else rest
    visit allowed pointer (object ms) =
        let rest = visit_members allowed pointer ms in if member pointer allowed then true else rest
    visit allowed pointer _ = member pointer allowed

    pub visit_items : List Text → Text → ℕ → Items → Bool
    visit_items allowed pointer i last_item = true
    visit_items allowed pointer i (item v vs) =
        visit allowed (child pointer (p.itoa i)) v && visit_items allowed pointer (i + 1) vs

    pub visit_members : List Text → Text → Members → Bool
    visit_members allowed pointer last_member = true
    visit_members allowed pointer (member_of k v ms) =
        visit allowed (child pointer (escape_token k)) v && visit_members allowed pointer ms

  unfoldable pub step_into : Text → Json → Option Json
  unfolding unescape_token member_at item_at
  step_into raw (object ms) = member_at (unescape_token raw) ms
  step_into raw (array vs) = elim (p.atoi (unescape_token raw)) [
    | none ↦ none
    | some i ↦ item_at i vs
  ]
  step_into raw _ = none

  unfoldable pub follow : List Text → Json → Option Json
  unfolding step_into
  follow [] v = some v
  follow (raw ∷ raws) v = elim (step_into raw v) [ none ↦ none | some w ↦ follow raws w ]

  unfoldable pub pointer_value : Json → Text → Option Json
  unfolding follow split_byte trim_first
  pointer_value document pointer = follow (split_byte b'/' (trim_first b'/' pointer)) document

unfoldable pub scalar_string : Json → Option Text
scalar_string (str t) = some t
scalar_string (number t) = some t
scalar_string (boolean b) = some (if b then codes "true" else codes "false")
scalar_string _ = none

unfoldable pub scalar_strings : Items → Option (List Text)
unfolding scalar_string
scalar_strings last_item = some []
scalar_strings (item v vs) = elim (scalar_string v) [
  | none ↦ none
  | some t ↦ elim (scalar_strings vs) [ none ↦ none | some ts ↦ some (t ∷ ts) ]
]

-- No element also stands for an unsupported type.
unfoldable pub flatten_scalars : Json → List Text
unfolding scalar_string scalar_strings
flatten_scalars (array vs) = elim (scalar_strings vs) [ none ↦ [] | some ts ↦ ts ]
flatten_scalars v = elim (scalar_string v) [ none ↦ [] | some t ↦ t ∷ [] ]

-- A bound of 0 is none; an empty list allows all values.
unfoldable pub is_listed : ArgumentGrant → Text → Bool
unfolding member
is_listed rule value =
    ((rule.max_bytes == 0) || leb (length value) rule.max_bytes)
    && (is_empty rule.values || member value rule.values)

-- The tests of the caller, the operation and the expiry, in their order.
abbrev pub guarded : Bool → Bool → Bool → Evaluation → Evaluation
guarded false _ _ e = denied (codes "caller authority does not match grant ownership")
guarded true false _ e = denied (codes "operation is not granted")
guarded true true false e = denied (codes "grant expired")
guarded true true true e = e

unfoldable pub is_owner : OperationGrant → Text → Text → Bool
is_owner g caller_key campaign =
    text_eq caller_key g.principal && not (text_eq campaign []) && text_eq campaign g.campaign

-- The tests of the document in their order: whether its keys differ, its values are governed and the
-- arguments are within their rules, then the identifiers of the resources.
abbrev pub verdict :
    Bool
    → Bool
    → Bool
    → Option (List Text × List Text)
    → (List Text → List Text → EvaluatedGrant)
    → Evaluation
verdict false _ _ _ f = denied (codes "arguments are ambiguous")
verdict true false _ _ f = denied (codes "argument is not governed by the operation grant")
verdict true true false _ f = denied (codes "an argument is outside its constraint")
verdict true true true none f = denied (codes "resource argument is absent or not a scalar")
verdict true true true (some (ids, shared)) f = granted (f ids shared)

module _ (p : Packages) where
  unfoldable pub reaches_target : ArgumentGrant → List UrlTargetGrant → Text → Bool
  unfolding looks_like_url find_url_target validate_granted_url
  reaches_target rule targets value =
      if text_eq rule.url_target []
      then not (looks_like_url p value)
      else elim (find_url_target targets rule.url_target) [
        | none ↦ false
        | some target ↦ validate_granted_url p value target
      ]

  unfoldable pub is_allowed_value : ArgumentGrant → List UrlTargetGrant → Text → Bool
  unfolding is_listed reaches_target
  is_allowed_value rule targets value =
      is_listed rule value
      && (text_eq rule.pattern [] || p.pattern_matches rule.pattern value)
      && reaches_target rule targets value

  unfoldable pub validate_argument_value : Json → ArgumentGrant → List UrlTargetGrant → Bool
  unfolding flatten_scalars is_allowed_value all
  validate_argument_value v rule targets =
      not (is_empty (flatten_scalars v)) && all (is_allowed_value rule targets) (flatten_scalars v)

  -- What the loop over the argument rules tests of one rule.
  unfoldable pub check_argument : Json → List UrlTargetGrant → ArgumentGrant → Bool
  unfolding pointer_value validate_argument_value
  check_argument document targets rule = elim (pointer_value p document rule.pointer) [
    | none ↦ not rule.required
    | some v ↦ validate_argument_value v rule targets
  ]

  -- "res_" and the first 16 bytes of the digest.
  unfoldable pub opaque_resource_id : Text → Text → ResourceGrant → Text → Text
  opaque_resource_id principal campaign r value =
      codes "res_"
      ++ take 32 (
          p.sha256
            (principal ++ (0 ∷ campaign ++ (0 ∷ r.kind ++ (0 ∷ r.namespace ++ (0 ∷ value))))))

  -- The value that a resource names, with none for the two errors of an argument.
  unfoldable pub resource_value : Json → ResourceGrant → Option Text
  unfolding pointer_value scalar_string
  resource_value document r =
      if text_eq r.argument [] then some r.value else elim (pointer_value p document r.argument) [
        | none ↦ none
        | some raw ↦ elim (scalar_string raw) [
          | none ↦ none
          | some t ↦ if text_eq t [] then none else some t
        ]
      ]

  unfoldable pub resource_id : OperationGrant → ResourceGrant → Text → Text
  unfolding opaque_resource_id
  resource_id g r value =
      let owner = if r.shared_writable then codes "shared-writable" else g.principal in
      opaque_resource_id owner g.campaign r value

  -- The loop over the resources: their identifiers, and those that are shared and written.
  unfoldable pub check_resources :
      Json → OperationGrant → List ResourceGrant → Option (List Text × List Text)
  unfolding resource_value resource_id
  check_resources document g [] = some ([], [])
  check_resources document g (r ∷ rs) =
      let rest = check_resources document g rs in
      elim (resource_value document r) [
        | none ↦ none
        | some value ↦ elim rest [
          | none ↦ none
          | some (ids, shared) ↦
              let id = resource_id g r value in
              some (
                id ∷ ids,
                (if text_eq g.effect effect_write && r.shared_writable
                    then id ∷ shared
                    else shared),
              )
        ]
      ]

  unfoldable pub grant_digest : (OperationGrant → Text) → OperationGrant → Text
  grant_digest marshal g = p.sha256 (marshal g)

  -- The part of the evaluation after the document is read.
  unfoldable pub evaluate_document : (OperationGrant → Text) → OperationGrant → Json → Evaluation
  unfolding visit governed_pointers check_argument all check_resources no_duplicate_keys
      grant_digest
  evaluate_document marshal g document =
      verdict (no_duplicate_keys document) (visit p (governed_pointers g) [] document)
        (all (check_argument document g.url_targets) g.arguments)
        (check_resources document g g.resources)
        (λ ids shared. record {
          grant = g;
          digest = grant_digest marshal g;
          resource_ids = p.sort ids;
          shared_writable_ids = p.sort shared;
        })

  -- The expiry of a time that does not parse is the zero time.
  unfoldable pub is_live : OperationGrant → ℕ → Bool
  is_live g now = elim (p.parse_time g.expires_at) [ none ↦ false | some at ↦ ltb now at ]

  unfoldable pub evaluate_operation_grant :
      (Text → Option Json)
      → (OperationGrant → Text)
      → OperationGrant
      → Text
      → Text
      → Text
      → Text
      → ℕ
      → Evaluation
  unfolding is_owner is_live evaluate_document
  evaluate_operation_grant decode marshal g caller_key campaign tool args now =
      guarded (is_owner g caller_key campaign) (text_eq tool g.tool) (is_live g now)
        (elim (decode args) [
          | none ↦ denied (codes "arguments are not valid JSON")
          | some document ↦ evaluate_document marshal g document
        ])
