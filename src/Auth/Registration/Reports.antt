-- ===== src/Auth/Registration/Reports.antt =====
-- internal/auth/clientregistration.go: how often a source that keeps knocking is reported.
use microagency.Base.{
  ℕ, refl, sym, ap, inl, inr, Bool, true, false, not, Option, some, List, [], arith, leb,
  Bool-cases, length, Text, text_eq, text_eq_refl, text_eq_iff, if_cases, option_cases, ◌+◌, ◌-◌,
  ◌<◌, ◌≡◌, ◌⊎◌, ◌∙◌, ◌||◌, ◌∷◌, if◌then◌else◌,
}
use mathlib.Core.Path.{subst}
use microagency.Base.Map
use microagency.Base.Map.{Map, get-put, get-retain, IsMap, retain-IsMap, put-IsMap}
use microagency.Auth.Registration.{
  AuthServer, Window, Limits, total_count, Admission, Metadata,
  effective_registration_limits_locked, persist_clients_locked, refuse, admit_window, swept,
  answer_registration, register, admit_registration_locked, is_accepted, hour,
}
use microagency.Auth.Registration.Bounds.{Arrival, run}
use microagency.Auth.Registration.Quiet.{Refused, rates-swept, admit-Quiet}

-- The refusal is on record in a table that holds each source once.
abbrev Kept : Text → ℕ → AuthServer → Type 0
Kept source since s = IsMap s.rates × Refused source since s

window-put :
    (other : Text) (w : Window) (total : ℕ) (l : Limits) (s : AuthServer)
    → (x : Window) × ((admit_window other w total l s).server.rates ≡ Map.put other x s.rates)
unfolding admit_window refuse
window-put other w total l s =
    let P = λ (a : Admission). (x : Window) × (a.server.rates ≡ Map.put other x s.rates) in
    if_cases P (leb l.per_source_per_hour w.count || leb l.per_hour total) _ _
      (λ _. (record w { refused = true }, refl))
      λ _.
        if_cases P (leb l.max_clients (length s.clients)) _ _
          (λ _. (record w { refused = true }, refl)) λ _. (record w { count = w.count + 1 }, refl)

-- An admission sweeps the table and writes for its source, or writes nothing.
admit-rates :
    (other : Text) (now : ℕ) (written : Bool) (s : AuthServer)
    → let t = swept now written s in
      let rates = (admit_registration_locked other now written s).server.rates in
      (rates ≡ t.rates) ⊎ ((x : Window) × (rates ≡ Map.put other x t.rates))
unfolding admit_registration_locked
admit-rates other now written s =
    let l = effective_registration_limits_locked s in
    let t = swept now written s in
    let new : Window = record { since = now; count = 0; refused = false } in
    let P = λ (a : Admission).
      (a.server.rates ≡ t.rates) ⊎ ((x : Window) × (a.server.rates ≡ Map.put other x t.rates)) in
    option_cases P (Map.get other t.rates) _ _
      (λ _.
        if_cases P (leb l.max_tracked_sources (length t.rates)) _ _ (λ _. inl refl)
          λ _. inr (window-put other new (total_count t.rates) l t))
      λ w _.
        inr
          (window-put other (if leb hour (now - w.since) then new else w) (total_count t.rates) l t)

swept-get :
    (source : Text) (since now : ℕ) (written : Bool) (s : AuthServer)
    → now - since < hour
    → Kept source since s
    → Kept source since (swept now written s)
swept-get source since now written s young (v, (w, g, e, h)) = (
  subst IsMap (sym (rates-swept now written s))
      (retain-IsMap (λ window. not (leb hour (now - window.since))) s.rates v),
  (
    w,
    ap (Map.get source) (rates-swept now written s)
        ∙ ground
            (arith, get-retain (λ window. not (leb hour (now - window.since))) source s.rates v),
    e,
    h,
  ),
)

-- Another source's attempt leaves the record alone, and the source's own keeps it.
admit-Kept :
    (source other : Text) (since now : ℕ) (written : Bool) (s : AuthServer)
    → now - since < hour
    → Kept source since s
    → Kept source since (admit_registration_locked other now written s).server
admit-Kept source other since now written s young (v, r) =
    let t = swept now written s in
    let (u, (w, g, e, h)) = swept-get source since now written s young (v, r) in
    elim (admit-rates other now written s) [
      | inl same ↦ (subst IsMap (sym same) u, (w, ap (Map.get source) same ∙ g, e, h))
      | inr (x, wrote) ↦ (
        subst IsMap (sym wrote) (put-IsMap other x t.rates u),
        elim (Bool-cases (text_eq other source)) [
          | inl own ↦
              subst (λ k. Refused source since (admit_registration_locked k now written s).server)
                (sym ((text_eq_iff other source).0 own))
                (admit-Quiet source since now written s v r young).1
          | inr away ↦ (
            w,
            ap (Map.get source) wrote ∙ ground (arith, get-put other source x t.rates, g, away),
            e,
            h,
          )
        ],
      )
    ]

-- A registration changes the table as its admission does, or not at all.
register-rates :
    (valid : Text → Bool) (source : Text) (body : Option Metadata) (id : Text) (now : ℕ)
    (written : Bool) (s : AuthServer)
    → let rates = (register valid source body id now written s).server.rates in
      (rates ≡ s.rates) ⊎ (rates ≡ (admit_registration_locked source now written s).server.rates)
unfolding register answer_registration persist_clients_locked
register-rates valid source body id now written s = ground arith

window-refused :
    (source : Text) (w x : Window) (total : ℕ) (l : Limits) (s : AuthServer)
    → is_accepted (admit_window source w total l s).outcome ≡ false
    → Map.get source (admit_window source w total l s).server.rates ≡ some x
    → x.refused ≡ true
unfolding admit_window refuse is_accepted
window-refused source w x total l s h g = ground (
  arith,
  get-put source source (record w { refused = true }) s.rates,
  get-put source source (record w { count = w.count + 1 }) s.rates,
  text_eq_refl source,
)

-- A refusal leaves its record, if the source is tracked.
admit-refused :
    (source : Text) (now : ℕ) (written : Bool) (s : AuthServer) (x : Window)
    → let a = admit_registration_locked source now written s in
      is_accepted a.outcome ≡ false → Map.get source a.server.rates ≡ some x → x.refused ≡ true
unfolding admit_registration_locked
admit-refused source now written s x =
    let l = effective_registration_limits_locked s in
    let t = swept now written s in
    let new : Window = record { since = now; count = 0; refused = false } in
    let P = λ (a : Admission).
      is_accepted a.outcome ≡ false → Map.get source a.server.rates ≡ some x → x.refused ≡ true in
    option_cases P (Map.get source t.rates) _ _
      (λ e.
        if_cases P (leb l.max_tracked_sources (length t.rates)) _ _
          (λ _. λ h g. absurd (ground (arith, e, g)))
          λ _. λ h g. window-refused source new x (total_count t.rates) l t h g)
      λ w _. λ h g.
        window-refused source (if leb hour (now - w.since) then new else w) x (total_count t.rates)
          l t h g

-- Every arrival comes inside the hour that began at the time.
abbrev pub AllInHour : ℕ → List Arrival → Type 0
AllInHour since [] = Unit
AllInHour since (a ∷ rest) = (a.now - since < 3600000000000) × AllInHour since rest

run-Kept :
    (valid : Text → Bool) (source : Text) (since : ℕ) (s : AuthServer) (rest : List Arrival)
    → AllInHour since rest
    → Kept source since s
    → Kept source since (run valid s rest)
unfolding run
run-Kept valid source since s [] h k = k
run-Kept valid source since s (a ∷ rest) h k =
    let next = (register valid a.source a.body a.id a.now a.written s).server in
    let kept : Kept source since next =
      elim (register-rates valid a.source a.body a.id a.now a.written s) [
        | inl e ↦ (subst IsMap (sym e) k.0, (k.1.0, ap (Map.get source) e ∙ k.1.1, k.1.2, k.1.3))
        | inr e ↦
            let (m, (w, g, b, c)) = admit-Kept source a.source since a.now a.written s h.0 k in
            (subst IsMap (sym e) m, (w, ap (Map.get source) e ∙ g, b, c))
      ] in
    run-Kept valid source since next rest h.1 kept

admit-IsMap :
    (source : Text) (now : ℕ) (written : Bool) (s : AuthServer)
    → IsMap s.rates
    → IsMap (admit_registration_locked source now written s).server.rates
admit-IsMap source now written s v =
    let u : IsMap (swept now written s).rates =
      subst IsMap (sym (rates-swept now written s))
        (retain-IsMap (λ window. not (leb hour (now - window.since))) s.rates v) in
    elim (admit-rates source now written s) [
      | inl e ↦ subst IsMap (sym e) u
      | inr (x, e) ↦ subst IsMap (sym e) (put-IsMap source x (swept now written s).rates u)
    ]

-- When an attempt of a source is refused and the source is tracked, then whatever registrations of
-- whichever sources follow inside the hour of its window, a further attempt of the source inside that
-- hour is either accepted or refused without a report: a source is reported once for its window.
pub refused-once :
    (valid : Text → Bool) (source : Text) (now later : ℕ) (written rewritten : Bool)
    (s : AuthServer) (w : Window) (rest : List Arrival)
    → let a = admit_registration_locked source now written s in
      IsMap s.rates
      → is_accepted a.outcome ≡ false
      → Map.get source a.server.rates ≡ some w
      → AllInHour w.since rest
      → later - w.since < 3600000000000
      → let b = admit_registration_locked source later rewritten (run valid a.server rest) in
        (is_accepted b.outcome || not b.reported) ≡ true
refused-once valid source now later written rewritten s w rest v h g inside young =
    let a = admit_registration_locked source now written s in
    let k = run-Kept valid source w.since a.server rest inside (
      admit-IsMap source now written s v,
      (w, g, refl, admit-refused source now written s w h g),
    ) in
    (admit-Quiet source w.since later rewritten (run valid a.server rest) k.0 k.1 young).0
