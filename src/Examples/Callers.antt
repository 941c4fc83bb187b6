-- ===== src/Examples/Callers.antt =====
-- Principal keys, revoked identifiers, and client registrations.
use microagency.Base.{
  ℕ, refl, true, false, not, none, some, List, [], arith, length, Text, codes, text_eq, ◌+◌, ◌≤◌,
  ◌≡◌, ◌≢◌, ◌||◌, ◌∷◌,
}
use microagency.Base.Map
use microagency.Base.Map.{Map, IsMap}
use microagency.Auth.Identity.{
  principal_key, split_principal_key, escape_key_part, unescape_key_part,
}
use microagency.Auth.Identity.Laws.{
  split-principal_key, split_principal_key-canonical, principal_key_injective, unescape-escape,
}
use microagency.Auth.Revocation.{
  RevocationList, written, ok, consume, is_revoked, new_revocation_list,
}
use microagency.Auth.Revocation.Laws
use microagency.Auth.Revocation.Laws.{Op, checks, consumes, consume_once}
use microagency.Auth.Revocation.Persistence.{restart-is_revoked}
use microagency.Auth.Registration.{
  AuthServer, Metadata, effective_registration_limits_locked, admit_registration_locked,
  is_accepted, total_count,
}
use microagency.Auth.Registration.Bounds
use microagency.Auth.Registration.Bounds.{Arrival}
use microagency.Auth.Registration.Reports.{refused-once}
use microagency.Auth.Registration.Hourly.{registered, count_source, run-hourly}

abbrev issuer : Text
issuer = codes "https://idp/#1%"

abbrev subject : Text
subject = codes "ann"

cons-ne-nil : (c : ℕ) (s : Text) → c ∷ s ≢ []
cons-ne-nil c s e = ground (arith, e)

split-principal_key_example :
    split_principal_key (principal_key issuer subject) ≡ some (issuer, subject)
split-principal_key_example = split-principal_key issuer subject (cons-ne-nil _ _) (cons-ne-nil _ _)

split_principal_key-canonical_example :
    (codes "a#b" ≡ principal_key (codes "a") (codes "b")) × (codes "a" ≢ []) × (codes "b" ≢ [])
unfolding split_principal_key text_eq unescape_key_part escape_key_part
split_principal_key-canonical_example =
    split_principal_key-canonical (codes "a#b") (codes "a") (codes "b") refl

principal_key_injective_example : (issuer ≡ issuer) × (subject ≡ subject)
principal_key_injective_example = principal_key_injective issuer subject issuer subject refl

unescape-escape_example : unescape_key_part (escape_key_part issuer) ≡ issuer
unescape-escape_example = unescape-escape issuer

abbrev no_ids : RevocationList
no_ids = record { path = true; ids = []; file = none }

abbrev jti : Text
jti = codes "refresh-1"

consumed_at : (consume no_ids jti 900 100 written).1 ≡ ok true
unfolding consume text_eq Map.get Map.retain
consumed_at = refl

consume_once_example :
    let s =
      Laws.run
        (consume no_ids jti 900 100 written).0
        (checks (codes "other") 200 ∷ consumes (codes "refresh-2") 950 300 written ∷ []) in
    ((consume s jti 900 400 written).1 ≡ ok false) × ((is_revoked s jti 400).1 ≡ true)
consume_once_example =
    consume_once jti 900 no_ids 100 written written
      (checks (codes "other") 200 ∷ consumes (codes "refresh-2") 950 300 written ∷ []) 400 900 tt
      consumed_at (omega arith, (omega arith, tt)) (omega arith) (omega arith)

restart-is_revoked_example :
    (is_revoked
      (new_revocation_list true (consume no_ids jti 900 100 written).0.file 200)
      jti
      400).1
    ≡ true
restart-is_revoked_example =
    restart-is_revoked jti 900 no_ids 100 written 200 400 tt refl consumed_at (omega arith)
      (omega arith)

abbrev new_server : AuthServer
new_server = record {
  mode = none;
  limits = record {
    per_source_per_hour = 1;
    per_hour = 2;
    max_clients = 5;
    unused_ttl = 1000;
    max_tracked_sources = 2;
  };
  rates = [];
  clients = [];
  path = false;
  file = [];
}

abbrev metadata : Metadata
metadata = record {
  redirect_uris = codes "http://127.0.0.1/cb" ∷ [];
  client_name = codes "editor";
  name = codes "editor";
  token_endpoint_auth = [];
  grant_types = [];
  response_types = [];
  trailing = false;
}

abbrev arrivals : List Arrival
arrivals =
    record {
      source = codes "10.0.0.1";
      body = some metadata;
      id = codes "c1";
      now = 10;
      written = true;
    }
    ∷ record {
      source = codes "10.0.0.1";
      body = some metadata;
      id = codes "c2";
      now = 20;
      written = true;
    }
    ∷ []

run-hourly_example :
    let l = effective_registration_limits_locked new_server in
    let accepted_from = registered (λ _. true) new_server arrivals in
    (total_count new_server.rates + length accepted_from ≤ l.per_hour)
    × ((source : Text) → count_source source accepted_from ≤ l.per_source_per_hour)
    × (length (Bounds.run (λ _. true) new_server arrivals).rates ≤ l.max_tracked_sources)
    × (length (Bounds.run (λ _. true) new_server arrivals).clients ≤ l.max_clients)
run-hourly_example =
    run-hourly (λ _. true) 0 new_server arrivals
      (tt, unfold total_count in omega arith, omega arith, omega arith) tt
      ((omega arith, omega arith), ((omega arith, omega arith), tt))

-- The source has used up its cap.
abbrev full_server : AuthServer
full_server = record new_server {
  rates = (codes "10.0.0.1", record { since = 10; count = 1; refused = false }) ∷ [];
}

refused-once_example :
    let a = admit_registration_locked (codes "10.0.0.1") 30 true full_server in
    let b =
      admit_registration_locked
        (codes "10.0.0.1")
        40
        true
        (Bounds.run (λ _. true) a.server arrivals) in
    (is_accepted b.outcome || not b.reported) ≡ true
unfolding admit_registration_locked text_eq Map.get Map.put Map.retain is_accepted
refused-once_example =
    refused-once (λ _. true) (codes "10.0.0.1") 30 40 true true full_server
      (record { since = 10; count = 1; refused = true }) arrivals (refl, tt) refl refl
      (omega arith, (omega arith, tt)) (omega arith)
