-- ===== src/Auth/Registration/Hourly.antt =====
-- internal/auth/clientregistration.go: how many registrations are accepted within an hour.
use microagency.Base.{
  ℕ, refl, sym, ap, inl, inr, Bool, true, false, not, Option, none, some, List, [], arith, leb,
  Option-cases, length, Text, text_eq, text_eq_iff, if_cases, option_cases, ◌+◌, ◌-◌, ◌≤◌, ◌<◌, ◌≡◌,
  ◌⊎◌, ◌∙◌, ◌||◌, ◌∷◌, ◌==◌, if◌then◌else◌,
}
use microagency.Base.Map
use microagency.Base.Map.{Map, AllValues, get-put, put-AllValues, get-AllValues}
use microagency.Auth.Registration.{
  AuthServer, Window, Limits, total_count, Admission, Metadata,
  effective_registration_limits_locked, persist_clients_locked, refuse, admit_window, swept,
  answer_registration, register, admit_registration_locked, is_accepted, hour,
}
use microagency.Auth.Registration.Rates.{total-put_new, total-put_old}
use microagency.Auth.Registration.Bounds.{Arrival, run, Bounded, run-Bounded}
use microagency.Auth.Registration.Quiet.{rates-swept}

unfoldable pub count_source : Text → List Text → ℕ
count_source source [] = 0
count_source source (s ∷ rest) = (if text_eq s source then 1 else 0) + count_source source rest

-- The sources whose registrations are answered with 201, in order.
unfoldable pub registered : (Text → Bool) → AuthServer → List Arrival → List Text
registered valid s [] = []
registered valid s (a ∷ rest) =
    let r = register valid a.source a.body a.id a.now a.written s in
    let later = registered valid r.server rest in
    if r.status == 201 then a.source ∷ later else later

-- What a source is counted for.
abbrev counted : Text → AuthServer → ℕ
counted source s = elim (Map.get source s.rates) [ none ↦ 0 | some w ↦ w.count ]

-- Every window began at the time or later.
abbrev pub AllSince : ℕ → AuthServer → Type 0
AllSince start s = AllValues (λ (w : Window). start ≤ w.since) s.rates

retain-all :
    (start now : ℕ) (m : Map Window)
    → now - start < 3600000000000
    → AllValues (λ (w : Window). start ≤ w.since) m
    → Map.retain (λ window. not (leb hour (now - window.since))) m ≡ m
unfolding Map.retain
retain-all start now [] young h = refl
retain-all start now ((k, w) ∷ m) young h = ground (arith, retain-all start now m young h.1, h.0)

-- One more of the source, or none.
abbrev Counts : ℕ → Text → Bool → AuthServer → AuthServer → Type 0
Counts start source taken s t =
    ((taken ≡ false) × (t.rates ≡ s.rates))
    ⊎ ((x : Window) × (t.rates ≡ Map.put source x s.rates)
        × (start ≤ x.since)
        × (x.count ≡ counted source s + (if taken then 1 else 0)))

window-Counts :
    (start : ℕ) (source : Text) (w : Window) (total : ℕ) (l : Limits) (s t : AuthServer)
    → t.rates ≡ s.rates
    → start ≤ w.since
    → w.count ≡ counted source s
    → let a = admit_window source w total l t in
      Counts start source (is_accepted a.outcome) s a.server
unfolding admit_window refuse is_accepted
window-Counts start source w total l s t e le c =
    let P = λ (a : Admission). Counts start source (is_accepted a.outcome) s a.server in
    let marked = record w { refused = true } in
    let raised = record w { count = w.count + 1 } in
    let put_same : (x : Window) → Map.put source x t.rates ≡ Map.put source x s.rates =
      λ x. ap (Map.put source x) e in
    if_cases P (leb l.per_source_per_hour w.count || leb l.per_hour total) _ _
      (λ _. inr (marked, put_same marked, le, omega (arith, c)))
      λ _.
        if_cases P (leb l.max_clients (length t.clients)) _ _
          (λ _. inr (marked, put_same marked, le, omega (arith, c)))
          λ _. inr (raised, put_same raised, le, omega (arith, c))

admit-Counts :
    (start : ℕ) (source : Text) (now : ℕ) (written : Bool) (s : AuthServer)
    → start ≤ now
    → now - start < 3600000000000
    → AllSince start s
    → let a = admit_registration_locked source now written s in
      Counts start source (is_accepted a.outcome) s a.server
unfolding admit_registration_locked is_accepted
admit-Counts start source now written s le young since =
    let l = effective_registration_limits_locked s in
    let t = swept now written s in
    let same : t.rates ≡ s.rates =
      rates-swept now written s ∙ retain-all start now s.rates young since in
    let new : Window = record { since = now; count = 0; refused = false } in
    let P = λ (a : Admission). Counts start source (is_accepted a.outcome) s a.server in
    let there : Map.get source t.rates ≡ Map.get source s.rates = ap (Map.get source) same in
    option_cases P (Map.get source t.rates) _ _
      (λ e.
        if_cases P (leb l.max_tracked_sources (length t.rates)) _ _ (λ _. inl (refl, same))
          λ _.
            window-Counts start source new (total_count t.rates) l s t same le
              (ground (arith, there, e)))
      λ w e.
        let g : Map.get source s.rates ≡ some w = sym there ∙ e in
        let from : start ≤ w.since =
          get-AllValues (λ (v : Window). start ≤ v.since) source w s.rates since g in
        let kept : (leb hour (now - w.since)) ≡ false = ground arith in
        window-Counts start source (if leb hour (now - w.since) then new else w)
          (total_count t.rates) l s t same (ground (arith, kept)) (ground (arith, kept, g))

-- A registration is answered with 201 if its admission accepts it.
register-Counts :
    (valid : Text → Bool) (source : Text) (body : Option Metadata) (id : Text) (now : ℕ)
    (written : Bool) (s : AuthServer)
    → let r = register valid source body id now written s in
      let a = admit_registration_locked source now written s in
      ((r.status == 201) ≡ false) × (r.server.rates ≡ s.rates)
      ⊎ ((r.status == 201) ≡ is_accepted a.outcome) × (r.server.rates ≡ a.server.rates)
unfolding register answer_registration persist_clients_locked
register-Counts valid source body id now written s = ground arith

-- The counts of the sources and of all of them move with what was accepted.
abbrev Moves : ℕ → Text → Bool → AuthServer → AuthServer → Type 0
Moves start source taken s t =
    AllSince start t
    × (total_count t.rates ≡ total_count s.rates + (if taken then 1 else 0))
    × ((other : Text)
        → counted other t
          ≡ counted other s + (if taken then (if text_eq source other then 1 else 0) else 0))

put-total :
    (source : Text) (x : Window) (s : AuthServer) (n : ℕ)
    → x.count ≡ counted source s + n
    → total_count (Map.put source x s.rates) ≡ total_count s.rates + n
put-total source x s n e = elim (Option-cases (Map.get source s.rates)) [
  | inl g ↦ ground (arith, g, e, (total-put_new source x s.rates g).0)
  | inr (w, g) ↦ ground (arith, g, e, (total-put_old source x w s.rates g).0)
]

Counts-Moves :
    (start : ℕ) (source : Text) (taken : Bool) (s t : AuthServer)
    → AllSince start s
    → Counts start source taken s t
    → Moves start source taken s t
Counts-Moves start source taken s t since (inl (not_taken, e)) =
    rw e (since, ground (arith, not_taken), λ other. ground (arith, not_taken))
Counts-Moves start source taken s t since (inr (x, e, le, c)) = rw e (
  put-AllValues (λ (w : Window). start ≤ w.since) source x s.rates le since,
  put-total source x s (if taken then 1 else 0) c,
  λ other. ground (arith, get-put source other x s.rates, text_eq_iff source other, c),
)

same-Moves :
    (start : ℕ) (source : Text) (s t : AuthServer)
    → AllSince start s
    → t.rates ≡ s.rates
    → Moves start source false s t
same-Moves start source s t since e = rw e (since, omega arith, λ other. omega arith)

Moves-rates :
    (start : ℕ) (source : Text) (taken : Bool) (s t u : AuthServer)
    → t.rates ≡ u.rates
    → Moves start source taken s u
    → Moves start source taken s t
Moves-rates start source taken s t u e m = rw e m

register-Moves :
    (valid : Text → Bool) (start : ℕ) (a : Arrival) (s : AuthServer)
    → start ≤ a.now
    → a.now - start < 3600000000000
    → AllSince start s
    → let r = register valid a.source a.body a.id a.now a.written s in
      Moves start a.source (r.status == 201) s r.server
register-Moves valid start a s le young since =
    let r = register valid a.source a.body a.id a.now a.written s in
    let adm = admit_registration_locked a.source a.now a.written s in
    elim (register-Counts valid a.source a.body a.id a.now a.written s) [
      | inl (not_taken, e) ↦ rw not_taken (same-Moves start a.source s r.server since e)
      | inr (same, e) ↦
          let m =
            Counts-Moves start a.source (is_accepted adm.outcome) s adm.server since
              (admit-Counts start a.source a.now a.written s le young since) in
          rw same (Moves-rates start a.source (is_accepted adm.outcome) s r.server adm.server e m)
    ]

-- The arrivals come inside the hour that begins at the time.
abbrev pub AllWithin : ℕ → List Arrival → Type 0
AllWithin start [] = Unit
AllWithin start (a ∷ rest) =
    ((start ≤ a.now) × (a.now - start < 3600000000000)) × AllWithin start rest

-- What the run adds to the counts.
abbrev Adds : AuthServer → List Text → AuthServer → Type 0
Adds s sources t =
    (total_count t.rates ≡ total_count s.rates + length sources)
    × ((source : Text) → counted source t ≡ counted source s + count_source source sources)

taken_Adds :
    (start : ℕ) (source : Text) (taken : Bool) (s t u : AuthServer) (sources : List Text)
    → Moves start source taken s t
    → Adds t sources u
    → Adds s (if taken then source ∷ sources else sources) u
unfolding count_source
taken_Adds start source true s t u sources (since, total, each) (a, b) =
    (omega (arith, total, a), λ other. omega (arith, each other, b other))
taken_Adds start source false s t u sources (since, total, each) (a, b) =
    (omega (arith, total, a), λ other. omega (arith, each other, b other))

run-Adds :
    (valid : Text → Bool) (start : ℕ) (s : AuthServer) (rest : List Arrival)
    → AllWithin start rest
    → AllSince start s
    → Adds s (registered valid s rest) (run valid s rest)
unfolding run registered count_source
run-Adds valid start s [] h since = (omega arith, λ source. omega arith)
run-Adds valid start s (a ∷ rest) h since =
    let r = register valid a.source a.body a.id a.now a.written s in
    let m = register-Moves valid start a s h.0.0 h.0.1 since in
    taken_Adds start a.source (r.status == 201) s r.server (run valid r.server rest)
      (registered valid r.server rest) m (run-Adds valid start r.server rest h.1 m.0)

counted-le :
    (l : Limits) (s : AuthServer) (source : Text)
    → Bounded l s
    → counted source s ≤ l.per_source_per_hour
counted-le l s source b = elim (Option-cases (Map.get source s.rates)) [
  | inl e ↦ ground (arith, e)
  | inr (w, e) ↦
      let le =
        get-AllValues (λ (v : Window). v.count ≤ l.per_source_per_hour) source w s.rates b.0 e in
      ground (arith, e, le)
]

-- Of the registrations that arrive inside an hour, at a server whose rate table has no window from
-- before it and holds its limits, no more are accepted from a source than its cap for an hour, and no
-- more from all sources together than the total cap; what the table counted before is included. At
-- the end no more sources are tracked than the cap on them, and no more clients are registered than
-- the cap on clients.
pub run-hourly :
    (valid : Text → Bool) (start : ℕ) (s : AuthServer) (rest : List Arrival)
    → let l = effective_registration_limits_locked s in
      Bounded l s
      → AllSince start s
      → AllWithin start rest
      → let accepted_from = registered valid s rest in
        (total_count s.rates + length accepted_from ≤ l.per_hour)
        × ((source : Text) → count_source source accepted_from ≤ l.per_source_per_hour)
        × (length (run valid s rest).rates ≤ l.max_tracked_sources)
        × (length (run valid s rest).clients ≤ l.max_clients)
run-hourly valid start s rest b since h =
    let l = effective_registration_limits_locked s in
    let t = run valid s rest in
    let (total, each) = run-Adds valid start s rest h since in
    let bound = run-Bounded valid s rest b in
    (
      omega (arith, total, bound.1),
      (λ source. omega (arith, each source, counted-le l t source bound)),
      bound.2,
      bound.3,
    )
