-- ===== src/Mcp/Gateway/Tracked.antt =====
-- What one operation of internal/mcp/gateway.go and of commitSelfServiceOAuth may change in the record of
-- a connection.
use mathlib.Core.Option
use mathlib.Core.Path.{subst, subst⁻¹}
use microagency.Base.{
  ℕ, refl, sym, ap, inl, inr, Bool, true, false, not, Option, none, some, List, [], arith,
  Bool-cases, is_some, Text, codes, text_eq, text_eq→eq, text_eq_iff, some-inj, if_cases,
  option_cases, sum_cases, ◌+◌, ◌%◌, ◌^◌, ◌≡◌, ◌⊎◌, ◌∙◌, ◌&&◌, if◌then◌else◌,
}
use microagency.Base.Map
use microagency.Base.Map.{Map, get-put, get-remove}
use microagency.Mcp.Packages.{Packages}
use microagency.Mcp.Grant.{OperationGrant}
use microagency.Mcp.Gateway.{
  Conn, Listing, Upstream, Registry, Mediation, RegistryError, private_self_service,
  mediation_refused, unknown_upstream, already_registered, removed_meanwhile, owner_immutable,
  bad_owner,
}
use microagency.Auth.Identity.{split_principal_key}
use microagency.Mcp.Gateway.SelfService.{
  Flow, Template, commit_self_service_oauth, reauthorize, self_service_upstream,
}
use microagency.Mcp.Gateway.Operations.{
  amend, fail_if, UpstreamOption, drop_cache, register_upstream, register_answered, register_named,
  add_upstream, add_discovered, discover_upstream, new_upstream, commit_enable, commit_rebind,
  commit_refresh, set_upstream_owner, set_upstream_label, disable_upstream, revoke_upstream,
  set_upstream_read_only, set_upstream_audit_full_args, set_upstream_grants, validate_grants,
  remove_upstream, stamp, record_upstream_health, bump_usage, apply_options,
  validate_mediation_endpoint,
}
use microagency.Mcp.Gateway.Runs.{
  Op, add, discover, add_metadata, enable, refresh, rebind, sign_in, give, name_label, disable,
  revoke, remove, call, read_only, full_args, grant, report, apply, revokes, removes,
}

abbrev pub M : ℕ
M = 2 ^ 64

-- How the record of one connection may change in a step; the flag says that the step revokes it.
abbrev pub Changed : Bool → Upstream → Upstream → Type 0
Changed b u v =
    (v.auth_generation ≡ (if b then (u.auth_generation + 1) % M else u.auth_generation))
    × (v.self_service ≡ u.self_service)
    × (u.self_service ≡ true → v.owner ≡ u.owner)
    × (v.private_destination ≡ u.private_destination)

-- The same of the new record of an operation, or of its error.
data Settled (b : Bool) (u : Upstream) : Upstream ⊎ RegistryError → Type 0 where
  wrote : {v : Upstream} → Changed b u v → Settled b u (inl v)
  refused : {e : RegistryError} → b ≡ false → Settled b u (inr e)

of_wrote : {b : Bool} {u v : Upstream} → Settled b u (inl v) → Changed b u v
of_wrote (wrote c) = c

of_refused : {b : Bool} {u : Upstream} {e : RegistryError} → Settled b u (inr e) → b ≡ false
of_refused (refused c) = c

abbrev pub Tracked : Bool → Text → Upstream → Registry → Type 0
Tracked b n u reg = ((v : Upstream) × (Map.get n reg.conns ≡ some v) × Changed b u v)

-- The same of the result of an operation.
data Keeps (b : Bool) (n : Text) (u : Upstream) (r : Registry × Option RegistryError) : Type 0 where
  keeps : Tracked b n u r.0 → Keeps b n u r

tracked :
    {b : Bool} {n : Text} {u : Upstream} {r : Registry × Option RegistryError}
    → Keeps b n u r
    → Tracked b n u r.0
tracked (keeps t) = t

true≢false : true ≡ false → ⊥
true≢false e = cc

none-some : {u : Upstream} → none ≡ some u → ⊥
none-some e = cc

same : (u : Upstream) → Changed false u u
same u = (refl, refl, λ _. refl, refl)

unchanged : {b : Bool} (u : Upstream) → b ≡ false → Changed b u u
unchanged u e = subst⁻¹ (λ (c : Bool). Changed c u u) e (same u)

-- A refusal changes nothing.
refuse :
    {b : Bool} {u : Upstream} (c : Bool) (x : RegistryError) (s : Upstream ⊎ RegistryError)
    → b ≡ false
    → (c ≡ false → Settled b u s)
    → Settled b u (fail_if c x s)
unfolding fail_if
refuse true x s e f = refused e
refuse false x s e f = f refl

owner-Settled :
    {b : Bool} (owner : Text) (u : Upstream)
    → b ≡ false
    → Settled b u (
        fail_if
          (u.self_service && not (text_eq owner u.owner))
          owner_immutable
          (inl (record u { owner = owner })))
owner-Settled {b} owner u e =
    refuse _ _ _ e
      (λ c. wrote ((unchanged u e).0, refl, λ t. ground (arith, text_eq_iff owner u.owner), refl))

drop-Changed : (b : Bool) (u v : Upstream) → Changed b u v → Changed b u (drop_cache v)
unfolding drop_cache
drop-Changed b u v h = option_cases (Changed b u) v.delegation _ _ (λ _. h) (λ _ _. h)

stamp-Changed :
    (b : Bool) (u : Upstream) (x : Option Text) (now : ℕ) → b ≡ false → Changed b u (stamp x now u)
unfolding stamp
stamp-Changed b u none now e = unchanged u e
stamp-Changed b u (some message) now e = unchanged u e

reauthorize-Settled :
    {b : Bool} (flow : Flow) (conn : Conn) (listing : Listing) (u : Upstream)
    → b ≡ false
    → Settled b u (reauthorize flow conn listing u)
unfolding reauthorize
reauthorize-Settled {b} flow conn listing u e =
    refuse _ _ _ e (λ _. refuse _ _ _ e (λ _. wrote (unchanged u e)))

module _ (b : Bool) (n : Text) (u : Upstream) (reg : Registry)
    (h : Map.get n reg.conns ≡ some u) where
  kept : b ≡ false → Tracked b n u reg
  kept e = (u, h, unchanged u e)

  put-Tracked :
      (k : Text) (w : Upstream)
      → (text_eq k n ≡ true → Changed b u w)
      → (text_eq k n ≡ false → b ≡ false)
      → Tracked b n u (record reg { conns = Map.put k w reg.conns })
  put-Tracked k w y f = elim (Bool-cases (text_eq k n)) [
    | inl e ↦ (w, get-put k n w reg.conns ∙ ground arith, y e)
    | inr e ↦ (u, get-put k n w reg.conns ∙ (ground arith ∙ h), unchanged u (f e))
  ]

  amend-Tracked :
      (k : Text) (missing : RegistryError) (f : Upstream → Upstream ⊎ RegistryError)
      → (text_eq k n ≡ true → Settled b u (f u))
      → (text_eq k n ≡ false → b ≡ false)
      → Keeps b n u (amend k missing f reg)
  amend-Tracked k missing f y g =
      option_cases (Keeps b n u) (Map.get k reg.conns) _ _ (λ e. keeps (kept (absent e)))
        (λ w e.
          sum_cases (Keeps b n u) (f w) _ _
            (λ v i. keeps (put-Tracked k v (λ q. written w v e i q (y q)) g))
            (λ x i. keeps (kept (stopped w x e i))))
    where
      absent : Map.get k reg.conns ≡ none → b ≡ false
      absent e = elim (Bool-cases (text_eq k n)) [
        | inl q ↦
            absurd
              (none-some (sym e ∙ (ap (λ (t : Text). Map.get t reg.conns) (text_eq→eq k n q) ∙ h)))
        | inr q ↦ g q
      ]

      found : (w : Upstream) → Map.get k reg.conns ≡ some w → text_eq k n ≡ true → w ≡ u
      found w e q =
          some-inj (sym e ∙ (ap (λ (t : Text). Map.get t reg.conns) (text_eq→eq k n q) ∙ h))

      written :
          (w v : Upstream)
          → Map.get k reg.conns ≡ some w
          → f w ≡ inl v
          → text_eq k n ≡ true
          → Settled b u (f u)
          → Changed b u v
      written w v e i q s = of_wrote (subst (Settled b u) (ap f (sym (found w e q)) ∙ i) s)

      stopped :
          (w : Upstream) (x : RegistryError)
          → Map.get k reg.conns ≡ some w
          → f w ≡ inr x
          → b ≡ false
      stopped w x e i = elim (Bool-cases (text_eq k n)) [
        | inl q ↦ of_refused (subst (Settled b u) (ap f (sym (found w e q)) ∙ i) (y q))
        | inr q ↦ g q
      ]

  -- A name that is not there is another one.
  fresh : (k : Text) → is_some (Map.get k reg.conns) ≡ false → text_eq k n ≡ false
  fresh k e = elim (Bool-cases (text_eq k n)) [
    | inl q ↦ absurd (
        true≢false
          (sym (ap is_some (ap (λ (t : Text). Map.get t reg.conns) (text_eq→eq k n q) ∙ h)) ∙ e))
    | inr q ↦ q
  ]

  fresh-Tracked :
      (k : Text) (w : Upstream)
      → is_some (Map.get k reg.conns) ≡ false
      → b ≡ false
      → Tracked b n u (record reg { conns = Map.put k w reg.conns })
  fresh-Tracked k w f e = put-Tracked k w (λ q. absurd (true≢false (sym q ∙ fresh k f))) (λ _. e)

  register-Tracked :
      (p : Packages) (m : Mediation) (k : Text) (w : Upstream) (options : List UpstreamOption)
      → b ≡ false
      → Keeps b n u (register_upstream p m k w options reg)
  unfolding register_upstream
  register-Tracked p m k w options e =
      let v = apply_options options w in
      let done : Registry × Option RegistryError =
        (record reg { conns = Map.put k v reg.conns }, none) in
      let endpoint_ok = validate_mediation_endpoint p m v.conn.endpoint in
      if_cases (Keeps b n u) _ _ _ (λ _. keeps (kept e))
        (λ f.
          let last : Keeps b n u (
              if v.enabled && not v.revoked && not endpoint_ok
              then (reg, some mediation_refused)
              else done) =
            if_cases (Keeps b n u) _ _ _ (λ _. keeps (kept e))
              (λ _. keeps (fresh-Tracked k v f e)) in
          if_cases (Keeps b n u) (v.private_destination && v.self_service)
            (reg, some private_self_service) _ (λ _. keeps (kept e)) (λ _. last))

  named-Tracked :
      (p : Packages) (m : Mediation) (k : Text) (answer : Option Upstream)
      (options : List UpstreamOption)
      → b ≡ false
      → Keeps b n u (register_named p m k answer options reg)
  unfolding register_named register_answered
  named-Tracked p m k none options e =
      if_cases (Keeps b n u) _ _ _ (λ _. keeps (kept e)) (λ _. keeps (kept e))
  named-Tracked p m k (some w) options e =
      if_cases (Keeps b n u) _ _ _ (λ _. keeps (kept e)) (λ _. register-Tracked p m k w options e)

  sign_in-Tracked :
      (flow : Flow) (template : Option Template) (conn : Conn) (listed : Option Listing)
      → b ≡ false
      → Keeps b n u (commit_self_service_oauth flow template conn listed reg)
  unfolding commit_self_service_oauth
  sign_in-Tracked flow template conn none e = keeps (kept e)
  sign_in-Tracked flow template conn (some listing) e =
      let renewed : Keeps b n u
          (amend flow.name unknown_upstream (reauthorize flow conn listing) reg) =
        amend-Tracked flow.name unknown_upstream (reauthorize flow conn listing)
          (λ _. reauthorize-Settled flow conn listing u e) (λ _. e) in
      let made : Registry × Option RegistryError = (
        record reg {
          conns = Map.put flow.name (self_service_upstream flow conn listing) reg.conns;
        },
        none,
      ) in
      let added : Keeps b n u
          (if is_some (Map.get flow.name reg.conns) then (reg, some already_registered) else made) =
        if_cases (Keeps b n u) _ _ _ (λ _. keeps (kept e))
          (λ f. keeps (fresh-Tracked flow.name (self_service_upstream flow conn listing) f e)) in
      if_cases (Keeps b n u) _ _ _ (λ _. keeps (kept e))
        (λ _.
          if_cases (Keeps b n u) flow.reauth
            (amend flow.name unknown_upstream (reauthorize flow conn listing) reg) _ (λ _. renewed)
            (λ _. added))

  edit-Tracked :
      (k : Text) (missing : RegistryError) (g : Upstream → Upstream)
      → (text_eq k n ≡ true → Changed b u (g u))
      → (text_eq k n ≡ false → b ≡ false)
      → Tracked b n u (amend k missing (λ v. inl (g v)) reg).0
  edit-Tracked k missing g y f =
      tracked (amend-Tracked k missing (λ v. inl (g v)) (λ q. wrote (y q)) f)

  enable-Tracked :
      (p : Packages) (m : Mediation) (k : Text) (conn : Conn) (listing : Listing)
      → b ≡ false
      → Keeps b n u (commit_enable p m k conn listing reg)
  unfolding commit_enable
  enable-Tracked p m k conn listing e =
      amend-Tracked k removed_meanwhile _
        (λ _. refuse _ _ _ e (λ _. refuse _ _ _ e (λ _. wrote (unchanged u e)))) (λ _. e)

  refresh-Tracked :
      (k : Text) (conn : Conn) (listing : Listing)
      → b ≡ false
      → Keeps b n u (commit_refresh k conn listing reg)
  unfolding commit_refresh
  refresh-Tracked k conn listing e =
      amend-Tracked k removed_meanwhile _ (λ _. refuse _ _ _ e (λ _. wrote (unchanged u e)))
        (λ _. e)

  rebind-Tracked :
      (p : Packages) (m : Mediation) (k : Text) (conn : Conn) (listing : Listing) (x : Option ℕ)
      → b ≡ false
      → Keeps b n u (commit_rebind p m k conn listing x reg)
  unfolding commit_rebind
  rebind-Tracked p m k conn listing x e =
      amend-Tracked k removed_meanwhile _
        (λ _. refuse _ _ _ e (λ _. refuse _ _ _ e (λ _. wrote (unchanged u e)))) (λ _. e)

  owner-Tracked : (k owner : Text) → b ≡ false → Keeps b n u (set_upstream_owner k owner reg)
  unfolding set_upstream_owner
  owner-Tracked k owner e =
      let f : Upstream → Upstream ⊎ RegistryError = λ v.
        fail_if (v.self_service && not (text_eq owner v.owner)) owner_immutable
          (inl (record v { owner = owner })) in
      if_cases (Keeps b n u) (not (text_eq owner []) && not (is_some (split_principal_key owner)))
        (reg, some bad_owner) (amend k unknown_upstream f reg) (λ _. keeps (kept e))
        (λ _. amend-Tracked k unknown_upstream f (λ _. owner-Settled owner u e) (λ _. e))

  label-Tracked :
      (p : Packages) (k label : Text) → b ≡ false → Keeps b n u (set_upstream_label p k label reg)
  unfolding set_upstream_label
  label-Tracked p k label e =
      option_cases (Keeps b n u) _ _ _ (λ _. keeps (kept e))
        (λ l _. keeps (
          edit-Tracked k unknown_upstream (λ v. record v { label = l }) (λ _. unchanged u e)
            (λ _. e)))

  grants-Tracked :
      (p : Packages) (k : Text) (grants : List OperationGrant)
      → b ≡ false
      → Keeps b n u (set_upstream_grants p k grants reg)
  unfolding set_upstream_grants
  grants-Tracked p k grants e =
      sum_cases (Keeps b n u) (validate_grants p k [] [] grants) _ _
        (λ gs _. keeps (
          edit-Tracked k unknown_upstream (λ v. record v { grants = gs }) (λ _. unchanged u e)
            (λ _. e)))
        (λ _ _. keeps (kept e))

  disable-Tracked : (k : Text) → b ≡ false → Keeps b n u (disable_upstream k reg)
  unfolding disable_upstream
  disable-Tracked k e = keeps (
      edit-Tracked k unknown_upstream (λ v. drop_cache (record v { enabled = false }))
        (λ _. drop-Changed b u (record u { enabled = false }) (unchanged u e)) (λ _. e))

  revoke-Tracked : (k : Text) → text_eq k n ≡ b → Keeps b n u (revoke_upstream k reg)
  unfolding revoke_upstream
  revoke-Tracked k e = keeps (
      edit-Tracked k unknown_upstream
        (λ v. drop_cache (record v {
          enabled = false;
          revoked = true;
          auth_generation = (v.auth_generation + 1) % 2 ^ 64;
        }))
        (λ q.
          drop-Changed b u
            (record u {
              enabled = false;
              revoked = true;
              auth_generation = (u.auth_generation + 1) % 2 ^ 64;
            })
            (subst
              (λ (c : Bool). Changed c u (record u {
                enabled = false;
                revoked = true;
                auth_generation = (u.auth_generation + 1) % 2 ^ 64;
              }))
              (sym q ∙ e) (refl, refl, λ _. refl, refl)))
        (λ q. sym e ∙ q))

  remove-Tracked :
      (k : Text) → text_eq k n ≡ false → b ≡ false → Tracked b n u (remove_upstream k reg).0
  unfolding remove_upstream
  remove-Tracked k f e =
      if_cases (λ (r : Registry × Bool). Tracked b n u r.0) _ _ _
        (λ _. (u, get-remove k n reg.conns ∙ (ground arith ∙ h), unchanged u e)) (λ _. kept e)

  report-Tracked :
      (k : Text) (x : Option Text) (now : ℕ)
      → b ≡ false
      → Tracked b n u (record_upstream_health k x now reg)
  unfolding record_upstream_health
  report-Tracked k x now e =
      edit-Tracked k unknown_upstream (λ v. stamp x now v) (λ _. stamp-Changed b u x now e) (λ _. e)

  pub step-Tracked :
      (p : Packages) (m : Mediation) (op : Op)
      → revokes n op ≡ b
      → removes n op ≡ false
      → Tracked b n u (apply p m op reg)
  unfolding apply add_upstream add_discovered discover_upstream set_upstream_read_only
      set_upstream_audit_full_args bump_usage
  step-Tracked p m (add k conn listed options) e f = tracked (
      named-Tracked p m k
        (Option.map (λ listing. new_upstream conn listing true (codes "preloaded")) listed) options
        (sym e))
  step-Tracked p m (discover k conn listed options) e f = tracked (
      named-Tracked p m k
        (Option.map (λ listing. new_upstream conn listing false (codes "discovered")) listed)
        options (sym e))
  step-Tracked p m (add_metadata k conn listing source options) e f = tracked (
      named-Tracked p m k
        (some (
          new_upstream conn listing false
            (if text_eq source [] then codes "discovered" else source)))
        options (sym e))
  step-Tracked p m (enable k conn listing) e f = tracked (enable-Tracked p m k conn listing (sym e))
  step-Tracked p m (refresh k conn listing) e f = tracked (refresh-Tracked k conn listing (sym e))
  step-Tracked p m (rebind k conn listing x) e f =
      tracked (rebind-Tracked p m k conn listing x (sym e))
  step-Tracked p m (sign_in flow template conn listed) e f =
      tracked (sign_in-Tracked flow template conn listed (sym e))
  step-Tracked p m (give k owner) e f = tracked (owner-Tracked k owner (sym e))
  step-Tracked p m (name_label k label) e f = tracked (label-Tracked p k label (sym e))
  step-Tracked p m (disable k) e f = tracked (disable-Tracked k (sym e))
  step-Tracked p m (revoke k) e f = tracked (revoke-Tracked k e)
  step-Tracked p m (remove k) e f = remove-Tracked k f (sym e)
  step-Tracked p m (call k) e f = kept (sym e)
  step-Tracked p m (read_only k on) e f =
      edit-Tracked k unknown_upstream (λ v. record v { read_only = on }) (λ _. unchanged u (sym e))
        (λ _. sym e)
  step-Tracked p m (full_args k on) e f =
      edit-Tracked k unknown_upstream (λ v. record v { audit_full_args = on })
        (λ _. unchanged u (sym e)) (λ _. sym e)
  step-Tracked p m (grant k grants) e f = tracked (grants-Tracked p k grants (sym e))
  step-Tracked p m (report k x now) e f = report-Tracked k x now (sym e)
