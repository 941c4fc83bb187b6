-- ===== src/Auth/Registration/Bounds.antt =====
-- internal/auth/clientregistration.go: the counters of the rate table and the caps.
use microagency.Base.{
  ℕ, refl, sym, ap, Bool, true, false, not, Option, none, some, List, [], arith, leb, length, Text,
  if_cases, option_cases, ◌+◌, ◌-◌, ◌≤◌, ◌<◌, ◌≡◌, ◌∙◌, ◌||◌, ◌∷◌, ◌==◌, if◌then◌else◌,
}
use mathlib.Core.Path.{subst}
use microagency.Base.Map
use microagency.Base.Map.{
  Map, AllValues, get-put, get-retain, length-retain-le, length-put-le, put-AllValues,
  retain-AllValues, get-AllValues, IsMap, put-IsMap, retain-IsMap,
}
use microagency.Auth.Registration.{
  AuthServer, Limits, Window, Client, Mode, bounded, off, Outcome, Admission, Metadata, Registered,
  refused_rate, refused_capacity, default_registration_limits, effective_registration_limits_locked,
  effective_registration_mode_locked, persist_clients_locked, stays, expire_unused_clients_locked,
  total_count, refuse, admit_window, swept, admit_registration_locked, answer_registration,
  is_accepted, register, acceptable, hour,
}
use microagency.Auth.Registration.Rates.{total-retain_le, total-put_new, total-put_old}

-- The rate table and the clients are within the limits.
abbrev pub Bounded : Limits → AuthServer → Type 0
Bounded l s =
    AllValues (λ (w : Window). w.count ≤ l.per_source_per_hour) s.rates
    × (total_count s.rates ≤ l.per_hour)
    × (length s.rates ≤ l.max_tracked_sources)
    × (length s.clients ≤ l.max_clients)

-- The limits in effect are the same.
abbrev SameLimits : AuthServer → AuthServer → Type 0
SameLimits s t = t.limits ≡ s.limits

persist-Bounded :
    (l : Limits) (written : Bool) (s : AuthServer)
    → Bounded l s
    → Bounded l (persist_clients_locked written s) × SameLimits s (persist_clients_locked written s)
unfolding persist_clients_locked
persist-Bounded l written s h = ground arith

expire-Bounded :
    (l : Limits) (now ttl : ℕ) (written : Bool) (s : AuthServer)
    → Bounded l s
    → Bounded l (expire_unused_clients_locked now ttl written s)
      × SameLimits s (expire_unused_clients_locked now ttl written s)
unfolding expire_unused_clients_locked
expire-Bounded l now ttl written s h = ground (
  arith,
  length-retain-le (stays now ttl) s.clients,
  persist-Bounded l written (record s { clients = Map.retain (stays now ttl) s.clients }),
)

swept-Bounded :
    (l : Limits) (now : ℕ) (written : Bool) (s : AuthServer)
    → Bounded l s
    → Bounded l (swept now written s) × SameLimits s (swept now written s)
unfolding swept
swept-Bounded l now written s h =
    let young = λ (w : Window). not (leb hour (now - w.since)) in
    ground (
      arith,
      retain-AllValues (λ (w : Window). w.count ≤ l.per_source_per_hour) young s.rates h.0,
      total-retain_le young s.rates,
      length-retain-le young s.rates,
      expire-Bounded l now (effective_registration_limits_locked s).unused_ttl written
          (record s { rates = Map.retain young s.rates }),
    )

-- An accepted admission leaves room for the client.
abbrev Admits : Limits → AuthServer → Admission → Type 0
Admits l s a =
    Bounded l a.server
    × SameLimits s a.server
    × (is_accepted a.outcome ≡ true → length a.server.clients < l.max_clients)

-- A window can be written for the source without passing the total or the size of the table.
abbrev Room : Limits → Text → Window → AuthServer → Type 0
Room l source w s =
    (v : Window)
    → (total_count (Map.put source v s.rates) + w.count ≤ total_count s.rates + v.count)
      × (length (Map.put source v s.rates) ≤ l.max_tracked_sources)

abbrev InSource : Limits → Window → Type 0
InSource l w = w.count ≤ l.per_source_per_hour

refuse-Admits :
    (l : Limits) (source : Text) (w : Window) (outcome : Outcome) (s : AuthServer)
    → Bounded l s
    → InSource l w
    → Room l source w s
    → is_accepted outcome ≡ false
    → Admits l s (refuse source w outcome s)
unfolding refuse
refuse-Admits l source w outcome s (counts, total, tracked, free) le room other =
    let marked = record w { refused = true } in
    (
      (
        put-AllValues (InSource l) source marked s.rates le counts,
        omega (arith, room marked),
        (room marked).1,
        free,
      ),
      refl,
      λ yes. absurd (ground arith),
    )

window-Admits :
    (l : Limits) (source : Text) (w : Window) (s : AuthServer)
    → Bounded l s
    → InSource l w
    → Room l source w s
    → Admits l s (admit_window source w (total_count s.rates) l s)
unfolding admit_window is_accepted
window-Admits l source w s h le room =
    let raised = record w { count = w.count + 1 } in
    if_cases (Admits l s)
      (leb l.per_source_per_hour w.count || leb l.per_hour (total_count s.rates)) _ _
      (λ _. refuse-Admits l source w refused_rate s h le room refl)
      λ below.
        if_cases (Admits l s) (leb l.max_clients (length s.clients)) _ _
          (λ _. refuse-Admits l source w refused_capacity s h le room refl)
          λ free. (
            (
              put-AllValues (InSource l) source raised s.rates (ground arith) h.0,
              ground (arith, room raised),
              (room raised).1,
              omega arith,
            ),
            refl,
            λ _. ground arith,
          )

old-Room :
    (l : Limits) (source : Text) (old w : Window) (s : AuthServer)
    → Bounded l s
    → Map.get source s.rates ≡ some old
    → w.count ≤ old.count
    → Room l source w s
old-Room l source old w s h g le v = ground (arith, total-put_old source v old s.rates g)

new-Room :
    (l : Limits) (source : Text) (w : Window) (s : AuthServer)
    → Map.get source s.rates ≡ none
    → w.count ≡ 0
    → length s.rates < l.max_tracked_sources
    → Room l source w s
new-Room l source w s g z room v = ground (arith, total-put_new source v s.rates g)

decided-Admits :
    (l : Limits) (source : Text) (now : ℕ) (t : AuthServer) (found : Option Window)
    → Map.get source t.rates ≡ found
    → Bounded l t
    → let new : Window = record { since = now; count = 0; refused = false } in
      Admits l t (elim found [
        | none ↦
            if leb l.max_tracked_sources (length t.rates)
            then record { server = t; outcome = refused_rate; reported = true }
            else admit_window source new (total_count t.rates) l t
        | some window ↦
            admit_window source
              (if leb hour (now - window.since) then new else window)
              (total_count t.rates)
              l
              t
      ])
unfolding is_accepted
decided-Admits l source now t none g h =
    let new : Window = record { since = now; count = 0; refused = false } in
    if_cases (Admits l t) (leb l.max_tracked_sources (length t.rates)) _ _
      (λ _. (h, refl, λ yes. absurd (cc)))
      λ room.
        window-Admits l source new t h (omega arith) (new-Room l source new t g refl (ground arith))
decided-Admits l source now t (some window) g h =
    let new : Window = record { since = now; count = 0; refused = false } in
    let chosen = if leb hour (now - window.since) then new else window in
    let le : chosen.count ≤ window.count = ground arith in
    let fits : InSource l window = get-AllValues (InSource l) source window t.rates h.0 g in
    window-Admits l source chosen t h (omega (arith, le, fits))
      (old-Room l source window chosen t h g le)

admit-Admits :
    (source : Text) (now : ℕ) (written : Bool) (s : AuthServer)
    → let l = effective_registration_limits_locked s in
      Bounded l s → Admits l s (admit_registration_locked source now written s)
unfolding admit_registration_locked
admit-Admits source now written s h =
    let l = effective_registration_limits_locked s in
    let t = swept now written s in
    let (ht, same) = swept-Bounded l now written s h in
    let (b, kept, room) = decided-Admits l source now t (Map.get source t.rates) refl ht in
    (b, kept ∙ same, room)

answer_registration-Bounded :
    (l : Limits) (source id : Text) (now : ℕ) (written : Bool) (m : Metadata) (s : AuthServer)
    (a : Admission)
    → Admits l s a
    → Bounded l (answer_registration source id now written m a).server
      × SameLimits s (answer_registration source id now written m a).server
unfolding answer_registration persist_clients_locked
answer_registration-Bounded l source id now written m s a h =
    let client : Client = record {
      redirect_uris = m.redirect_uris;
      name = m.name;
      created_at = now;
      used_at = 0;
    } in
    ground (arith, length-put-le id client a.server.clients)

mode_cases :
    (P : Registered → Type 0) (mode : Mode) (x y : Registered)
    → P x
    → P y
    → P (elim mode [ off ↦ x | bounded ↦ y ])
mode_cases P off x y hx hy = hx
mode_cases P bounded x y hx hy = hy

register-Bounded :
    (valid : Text → Bool) (source : Text) (body : Option Metadata) (id : Text) (now : ℕ)
    (written : Bool)
    → (s : AuthServer)
    → let l = effective_registration_limits_locked s in
      Bounded l s
      → Bounded l (register valid source body id now written s).server
        × SameLimits s (register valid source body id now written s).server
unfolding register
register-Bounded valid source body id now written s h =
    let P = λ (r : Registered).
      Bounded (effective_registration_limits_locked s) r.server × SameLimits s r.server in
    mode_cases P (effective_registration_mode_locked s) _ _ (h, refl)
      (option_cases P body _ _ (λ _. (h, refl))
        λ m _.
          if_cases P (acceptable valid m) _ _
            (λ _.
              answer_registration-Bounded (effective_registration_limits_locked s) source id now
                written m s (admit_registration_locked source now written s)
                (admit-Admits source now written s h))
            (λ _. (h, refl)))

-- A registration as it arrives.
pub record Arrival : Type 0 where
  pub source : Text
  pub body : Option Metadata
  pub id : Text
  pub now : ℕ
  pub written : Bool

unfoldable pub run : (Text → Bool) → AuthServer → List Arrival → AuthServer
unfolding register
run valid s [] = s
run valid s (a ∷ rest) =
    run valid (register valid a.source a.body a.id a.now a.written s).server rest

-- Whatever registrations arrive, and from whichever sources: if the limits in effect hold at first,
-- no source is counted for more registrations in its window than its cap, all sources together for
-- no more than the total cap, no more sources are tracked than the cap on them, and no more clients
-- are registered than the cap on clients.
pub run-Bounded :
    (valid : Text → Bool) (s : AuthServer) (rest : List Arrival)
    → Bounded (effective_registration_limits_locked s) s
    → Bounded (effective_registration_limits_locked s) (run valid s rest)
unfolding run effective_registration_limits_locked
run-Bounded valid s [] h = h
run-Bounded valid s (a ∷ rest) h =
    let (b, same) = register-Bounded valid a.source a.body a.id a.now a.written s h in
    let next = (register valid a.source a.body a.id a.now a.written s).server in
    let limits = λ (l : Limits). if l.max_clients == 0 then default_registration_limits else l in
    subst (λ l. Bounded l (run valid next rest)) (ap limits same)
      (run-Bounded valid next rest (subst (λ l. Bounded l next) (sym (ap limits same)) b))
