-- ===== src/Auth/Registration/Quiet.antt =====
-- internal/auth/clientregistration.go: a refusal on record, and the reports.
use microagency.Base.{
  ℕ, refl, sym, ap, Bool, true, not, some, arith, leb, length, Text, text_eq_refl, if_cases, ◌+◌,
  ◌-◌, ◌<◌, ◌≡◌, ◌∙◌, ◌||◌,
}
use mathlib.Core.Path.{subst}
use microagency.Base.Map
use microagency.Base.Map.{Map, get-put, get-retain, IsMap, retain-IsMap, put-IsMap}
use microagency.Auth.Registration.{
  AuthServer, Window, Limits, total_count, Admission, effective_registration_limits_locked,
  expire_unused_clients_locked, persist_clients_locked, refuse, admit_window, swept,
  admit_registration_locked, is_accepted, hour,
}

-- The source has a refusal on record in the window that began at this time.
abbrev pub Refused : Text → ℕ → AuthServer → Type 0
Refused source since s =
    (w : Window) × (Map.get source s.rates ≡ some w) × (w.since ≡ since) × (w.refused ≡ true)

-- What the sweep leaves of the table.
pub rates-swept :
    (now : ℕ) (written : Bool) (s : AuthServer)
    → (swept now written s).rates
      ≡ Map.retain (λ window. not (leb hour (now - window.since))) s.rates
unfolding swept expire_unused_clients_locked persist_clients_locked
rates-swept now written s = ground arith

-- What a refusal or an admission writes for the source is found there.
written-Refused :
    (source : Text) (since : ℕ) (w : Window) (s : AuthServer)
    → w.since ≡ since
    → w.refused ≡ true
    → Refused source since (record s { rates = Map.put source w s.rates })
written-Refused source since w s e h =
    (w, ground (arith, get-put source source w s.rates, text_eq_refl source), e, h)

-- A refusal in a window that has one on record is not reported, and the record stays.
abbrev Quiet : Text → ℕ → Admission → Type 0
Quiet source since a =
    ((is_accepted a.outcome || not a.reported) ≡ true) × Refused source since a.server

window-Quiet :
    (source : Text) (w : Window) (total : ℕ) (limits : Limits) (s : AuthServer)
    → w.refused ≡ true
    → Quiet source w.since (admit_window source w total limits s)
unfolding admit_window refuse is_accepted
window-Quiet source w total limits s h =
    let marked = record w { refused = true } in
    let raised = record w { count = w.count + 1 } in
    let again : Refused source w.since (record s { rates = Map.put source marked s.rates }) =
      written-Refused source w.since marked s refl refl in
    if_cases (Quiet source w.since)
      (leb limits.per_source_per_hour w.count || leb limits.per_hour total) _ _
      (λ _. (ground arith, again))
      λ _.
        if_cases (Quiet source w.since) (leb limits.max_clients (length s.clients)) _ _
          (λ _. (ground arith, again))
          λ _. (ground arith, written-Refused source w.since raised s refl h)

-- Once a refusal of the source is on record for a window, every further attempt of the source inside
-- that window's hour is either accepted or refused without a report, and the record stays for the
-- next attempt.
pub admit-Quiet :
    (source : Text) (since now : ℕ) (written : Bool) (s : AuthServer)
    → IsMap s.rates
    → Refused source since s
    → now - since < hour
    → let a = admit_registration_locked source now written s in
      ((is_accepted a.outcome || not a.reported) ≡ true) × Refused source since a.server
unfolding admit_registration_locked
admit-Quiet source since now written s v (w, g, e, h) young =
    let limits = effective_registration_limits_locked s in
    let t = swept now written s in
    let there : Map.get source t.rates ≡ some w =
      ap (Map.get source) (rates-swept now written s)
      ∙ ground
          (arith, get-retain (λ window. not (leb hour (now - window.since))) source s.rates v) in
    let same : admit_registration_locked source now written s
        ≡ admit_window source w (total_count t.rates) limits t =
      ground (arith, there) in
    subst (Quiet source since) (sym same) (
      subst (λ k. Quiet source k (admit_window source w (total_count t.rates) limits t)) e
        (window-Quiet source w (total_count t.rates) limits t h))
