-- ===== src/Mcp/Grant/Governed.antt =====
-- A call that a grant authorizes carries no value that the grant does not govern.
use mathlib.Core.List.{Memᴰ}
use mathlib.Core.Path.{subst, subst⁻¹}
use microagency.Base.{
  ℕ, refl, sym, inl, inr, Bool, true, false, Option, none, some, List, [], map, arith, Bool-cases,
  Option-cases, all, Text, codes, text_eq, text_eq→eq, text_eq_iff, and_split, some-inj, if_some,
  if_true, all-Mem, member, ◌≡◌, ◌≢◌, ◌⊎◌, ◌∙◌, ◌∷◌, ◌++◌,
}
use microagency.Mcp.Packages.{Packages}
use microagency.Mcp.Json.{Json}
use microagency.Mcp.Grant.{
  OperationGrant, ArgumentGrant, ResourceGrant, UrlTargetGrant, EvaluatedGrant,
}
use microagency.Mcp.Grant.Validate.{
  validate_pointer, is_valid_rule, validate_arguments, trim_grant, is_valid_grant,
  validate_operation_grant,
}
use microagency.Mcp.Grant.Evaluate.{
  visit, pointer_value, check_argument, check_resources, resource_pointers, governed_pointers,
  validate_argument_value, resource_value, verdict, evaluate_document, evaluate_operation_grant,
  is_live, is_owner, guarded, Evaluation, denied, granted,
}
use microagency.Mcp.Grant.Pointers.{Under, is_digit, pointer_value-Under}
use microagency.Mcp.Grant.Walk.{IsScalar, scalar-governed}

abbrev RuleAt : List ArgumentGrant → Text → Type 0
RuleAt rules r = ((rule : ArgumentGrant) × Memᴰ rule rules × (rule.pointer ≡ r))

abbrev ResourceAt : List ResourceGrant → Text → Type 0
ResourceAt rs r = ((res : ResourceGrant) × Memᴰ res rs × (res.argument ≡ r) × (r ≢ []))

member-resources :
    (r : Text) (rs : List ResourceGrant) → member r (resource_pointers rs) ≡ true → ResourceAt rs r
unfolding member resource_pointers
member-resources r [] h = absurd (cc)
member-resources r (x ∷ rs) h = elim (Bool-cases (text_eq x.argument [])) [
  | inl y ↦ later (member-resources r rs (ground arith))
  | inr n ↦ elim (Bool-cases (text_eq x.argument r)) [
    | inl e ↦ (
      x,
      Memᴰ.head refl,
      text_eq→eq x.argument r e,
      ground (arith, text_eq_iff x.argument [], text_eq_iff x.argument r),
    )
    | inr f ↦ later (member-resources r rs (ground arith))
  ]
]
  where
    later : ResourceAt rs r → ResourceAt (x ∷ rs) r
    later (y, m, e, f) = (y, Memᴰ.tail m, e, f)

member-governed :
    (r : Text) (rules : List ArgumentGrant) (rs : List ResourceGrant)
    → member r (map (λ (x : ArgumentGrant). x.pointer) rules ++ resource_pointers rs) ≡ true
    → RuleAt rules r ⊎ ResourceAt rs r
unfolding member
member-governed r [] rs h = inr (member-resources r rs h)
member-governed r (x ∷ rules) rs h = elim (Bool-cases (text_eq x.pointer r)) [
  | inl y ↦ inl (x, Memᴰ.head refl, text_eq→eq x.pointer r y)
  | inr n ↦ elim (member-governed r rules rs (ground arith)) [
    | inl (rule, m, e) ↦ inl (rule, Memᴰ.tail m, e)
    | inr z ↦ inr z
  ]
]

module _ (p : Packages) where
  rule-checked :
      (d : Json) (targets : List UrlTargetGrant) (rule : ArgumentGrant) (v : Json)
      → check_argument p d targets rule ≡ true
      → pointer_value p d rule.pointer ≡ some v
      → validate_argument_value p v rule targets ≡ true
  unfolding check_argument
  rule-checked d targets rule v h e = ground arith

  resources-split :
      (d : Json) (g : OperationGrant) (x : ResourceGrant) (rs : List ResourceGrant)
      (out : List Text × List Text)
      → check_resources p d g (x ∷ rs) ≡ some out
      → ((t : Text) × (resource_value p d x ≡ some t))
        × ((o : List Text × List Text) × (check_resources p d g rs ≡ some o))
  unfolding check_resources
  resources-split d g x rs out h = elim (Option-cases (resource_value p d x)) [
    | inl n ↦ absurd (ground arith)
    | inr (t, e) ↦ elim (Option-cases (check_resources p d g rs)) [
      | inl n ↦ absurd (ground arith)
      | inr (o, f) ↦ ((t, e), (o, f))
    ]
  ]

  resource-checked :
      (d : Json) (g : OperationGrant) (rs : List ResourceGrant) (r : ResourceGrant)
      (out : List Text × List Text)
      → check_resources p d g rs ≡ some out
      → Memᴰ r rs
      → ((t : Text) × (resource_value p d r ≡ some t))
  resource-checked d g [] r out h m = elim m [ ]
  resource-checked d g (x ∷ rs) r out h (Memᴰ.head s) =
      subst⁻¹ (λ (y : ResourceGrant). (t : Text) × (resource_value p d y ≡ some t)) s
        (resources-split d g x rs out h).0
  resource-checked d g (x ∷ rs) r out h (Memᴰ.tail m) =
      let (o, f) = (resources-split d g x rs out h).1 in resource-checked d g rs r o f m

  rules-split :
      (seen : List Text) (x : ArgumentGrant) (rules : List ArgumentGrant)
      → validate_arguments p seen (x ∷ rules) ≡ true
      → (validate_pointer x.pointer ≡ true) × (validate_arguments p (x.pointer ∷ seen) rules ≡ true)
  unfolding validate_arguments is_valid_rule
  rules-split seen x rules h = ground arith

  rule-named :
      (seen : List Text) (rules : List ArgumentGrant) (rule : ArgumentGrant)
      → validate_arguments p seen rules ≡ true
      → Memᴰ rule rules
      → validate_pointer rule.pointer ≡ true
  rule-named seen [] rule h m = elim m [ ]
  rule-named seen (x ∷ rules) rule h (Memᴰ.head s) = rw s (rules-split seen x rules h).0
  rule-named seen (x ∷ rules) rule h (Memᴰ.tail m) =
      rule-named (x.pointer ∷ seen) rules rule (rules-split seen x rules h).1 m

  pointer-named : (q : Text) → validate_pointer q ≡ true → q ≢ []
  unfolding validate_pointer
  pointer-named [] h e = absurd (ground arith)
  pointer-named (c ∷ q) h e = absurd (cc)

  verdict-granted :
      (a b c : Bool) (o : Option (List Text × List Text))
      (f : List Text → List Text → EvaluatedGrant) (ev : EvaluatedGrant)
      → verdict a b c o f ≡ granted ev
      → (b ≡ true) × (c ≡ true) × ((out : List Text × List Text) × (o ≡ some out))
  verdict-granted false b c o f ev h = absurd (cc)
  verdict-granted true false c o f ev h = absurd (cc)
  verdict-granted true true false o f ev h = absurd (cc)
  verdict-granted true true true none f ev h = absurd (cc)
  verdict-granted true true true (some out) f ev h = (refl, refl, (out, refl))

  document-parts :
      (marshal : OperationGrant → Text) (g : OperationGrant) (d : Json) (ev : EvaluatedGrant)
      → evaluate_document p marshal g d ≡ granted ev
      → (visit p (governed_pointers g) [] d ≡ true)
        × (all (check_argument p d g.url_targets) g.arguments ≡ true)
        × ((out : List Text × List Text) × (check_resources p d g g.resources ≡ some out))
  unfolding evaluate_document
  document-parts marshal g d ev h = verdict-granted _ _ _ _ _ ev h

  -- What a grant requires of the value under one of its pointers.
  abbrev pub IsChecked : Json → OperationGrant → Text → Json → Type 0
  IsChecked d g r w =
      ((rule : ArgumentGrant) × Memᴰ rule g.arguments
        × (rule.pointer ≡ r)
        × (validate_argument_value p w rule g.url_targets ≡ true))
      ⊎ ((res : ResourceGrant) × Memᴰ res g.resources
          × (res.argument ≡ r)
          × ((t : Text) × (resource_value p d res ≡ some t)))

  module _ (atoi-itoa : (n : ℕ) → p.atoi (p.itoa n) ≡ some n)
      (itoa-digits : (n : ℕ) → all is_digit (p.itoa n) ≡ true) where
    document-IsChecked :
        (marshal : OperationGrant → Text) (g : OperationGrant) (d : Json) (ev : EvaluatedGrant)
        (q : Text) (v : Json)
        → evaluate_document p marshal g d ≡ granted ev
        → validate_arguments p [] g.arguments ≡ true
        → Under p [] d q v
        → IsScalar v
        → ((r : Text) × (w : Json) × Under p [] d r w × Under p r w q v × IsChecked d g r w)
    unfolding governed_pointers
    document-IsChecked marshal g d ev q v h n u s =
        let (walked, checked, (out, named)) = document-parts marshal g d ev h in
        let (r, w, m, above, below) = scalar-governed p (governed_pointers g) d q v u s walked in
        elim (member-governed r g.arguments g.resources m) [
          | inl (rule, i, e) ↦
              let there : pointer_value p d rule.pointer ≡ some w = rw e (
                pointer_value-Under p atoi-itoa itoa-digits d r w above
                  (λ z. pointer-named rule.pointer (rule-named [] g.arguments rule n i) (e ∙ z))) in
              (
                r,
                w,
                above,
                below,
                inl (
                  rule,
                  i,
                  e,
                  rule-checked d g.url_targets rule w
                      (all-Mem (check_argument p d g.url_targets) g.arguments rule checked i) there,
                ),
              )
          | inr (res, i, e, _) ↦ (
            r,
            w,
            above,
            below,
            inr (res, i, e, resource-checked d g g.resources res out named i),
          )
        ]

  valid-rules :
      (connection : Text) (g : OperationGrant)
      → is_valid_grant p connection g ≡ true
      → validate_arguments p [] g.arguments ≡ true
  unfolding is_valid_grant
  valid-rules connection g h = (if_true _ _ h).0

  rules-validated :
      (g₀ g : OperationGrant) (connection : Text)
      → validate_operation_grant p g₀ connection ≡ some g
      → validate_arguments p [] g.arguments ≡ true
  unfolding validate_operation_grant
  rules-validated g₀ g connection h =
      let (b, e) = if_some _ (trim_grant p g₀) g h in
      rw (sym e) (valid-rules connection (trim_grant p g₀) (and_split _ _ b).1)

  guarded-granted :
      (a b c : Bool) (e : Evaluation) (ev : EvaluatedGrant)
      → guarded a b c e ≡ granted ev
      → (a ≡ true) × (b ≡ true) × (c ≡ true) × (e ≡ granted ev)
  guarded-granted false b c e ev h = absurd (cc)
  guarded-granted true false c e ev h = absurd (cc)
  guarded-granted true true false e ev h = absurd (cc)
  guarded-granted true true true e ev h = (refl, refl, refl, h)

  decoded-granted :
      (o : Option Json) (f : Json → Evaluation) (ev : EvaluatedGrant)
      → (elim o [ none ↦ denied (codes "arguments are not valid JSON") | some d ↦ f d ])
        ≡ granted ev
      → ((d : Json) × (o ≡ some d) × (f d ≡ granted ev))
  decoded-granted none f ev h = absurd (cc)
  decoded-granted (some d) f ev h = (d, refl, h)

  module _ (decode : Text → Option Json) (marshal : OperationGrant → Text) where
    pub evaluate-parts :
        (g : OperationGrant) (caller_key campaign tool args : Text) (now : ℕ) (ev : EvaluatedGrant)
        → evaluate_operation_grant p decode marshal g caller_key campaign tool args now ≡ granted ev
        → (is_owner g caller_key campaign ≡ true)
          × (text_eq tool g.tool ≡ true)
          × (is_live p g now ≡ true)
          × ((d : Json) × (decode args ≡ some d) × (evaluate_document p marshal g d ≡ granted ev))
    unfolding evaluate_operation_grant
    evaluate-parts g caller_key campaign tool args now ev h =
        let (a, b, c, e) = guarded-granted _ _ _ _ ev h in (a, b, c, decoded-granted _ _ ev e)

  module _ (decode : Text → Option Json) (marshal : OperationGrant → Text)
      (atoi-itoa : (n : ℕ) → p.atoi (p.itoa n) ≡ some n)
      (itoa-digits : (n : ℕ) → all is_digit (p.itoa n) ≡ true) where
    -- If the evaluation of a validated grant authorizes a call, then the call is the owner's, in its
    -- campaign, for its tool and before its expiry, and every scalar anywhere in the decoded arguments is,
    -- or stands below, a value that one of the grant's pointers names and that this rule allows, or that
    -- one of its resources names. Decimal numbers are read as they are written.
    pub evaluate-IsChecked :
        (g₀ g : OperationGrant) (connection caller_key campaign tool args : Text) (now : ℕ)
        (ev : EvaluatedGrant) (d : Json) (q : Text) (v : Json)
        → validate_operation_grant p g₀ connection ≡ some g
        → evaluate_operation_grant p decode marshal g caller_key campaign tool args now ≡ granted ev
        → decode args ≡ some d
        → Under p [] d q v
        → IsScalar v
        → (is_owner g caller_key campaign ≡ true)
          × (tool ≡ g.tool)
          × (is_live p g now ≡ true)
          × ((r : Text) × (w : Json) × Under p [] d r w × Under p r w q v × IsChecked d g r w)
    evaluate-IsChecked g₀ g connection caller_key campaign tool args now ev d q v valid h read u s =
        let (a, b, c, (d', e, f)) =
          evaluate-parts decode marshal g caller_key campaign tool args now ev h in
        let same : d' ≡ d = some-inj (sym e ∙ read) in
        (
          a,
          text_eq→eq tool g.tool b,
          c,
          document-IsChecked atoi-itoa itoa-digits marshal g d ev q v
              (subst (λ (x : Json). evaluate_document p marshal g x ≡ granted ev) same f)
              (rules-validated g₀ g connection valid) u s,
        )
