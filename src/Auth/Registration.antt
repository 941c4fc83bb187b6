-- ===== src/Auth/Registration.antt =====
-- internal/auth/clientregistration.go, with the register handler of authserver.go: dynamic client
-- registration and its bounds. Times are nanoseconds, with 0 for Go's zero time. `written` says
-- whether the file of registrations could be written, `valid` is the check of a redirect URI.
pub mod Rates
pub mod Bounds
pub mod Quiet
pub mod Reports
pub mod Hourly
use microagency.Base.{
  ℕ, Bool, true, false, not, Option, none, some, List, [], ltb, leb, length, any, all, Text, codes,
  text_eq, ◌+◌, ◌-◌, ◌*◌, ◌&&◌, ◌||◌, ◌∷◌, ◌==◌, if◌then◌else◌,
}
use microagency.Base.Map
use microagency.Base.Map.{Map}

pub data Mode : Type 0 where
  bounded off : Mode

pub record Limits : Type 0 where
  pub per_source_per_hour : ℕ
  pub per_hour : ℕ
  pub max_clients : ℕ
  pub unused_ttl : ℕ
  pub max_tracked_sources : ℕ

abbrev pub hour : ℕ
hour = 3600000000000

unfoldable pub default_registration_limits : Limits
default_registration_limits = record {
  per_source_per_hour = 10;
  per_hour = 60;
  max_clients = 4096;
  unused_ttl = 24 * hour;
  max_tracked_sources = 4096;
}

pub record Window : Type 0 where
  pub since : ℕ
  pub count : ℕ
  pub refused : Bool

pub record Client : Type 0 where
  pub redirect_uris : List Text
  pub name : Text
  pub created_at : ℕ
  pub used_at : ℕ

-- The parts of `AuthServer` that registration uses. `mode` is none before a declaration; `path` says
-- whether a file is configured, and `file` is what it holds.
pub record AuthServer : Type 0 where
  pub mode : Option Mode
  pub limits : Limits
  pub rates : Map Window
  pub clients : Map Client
  pub path : Bool
  pub file : Map Client

pub data Outcome : Type 0 where
  accepted refused_disabled refused_rate refused_capacity : Outcome

unfoldable pub or_default : ℕ → ℕ → ℕ
or_default n default = if n == 0 then default else n

unfoldable pub set_client_registration : Mode → Limits → AuthServer → AuthServer
unfolding or_default default_registration_limits
set_client_registration mode limits s =
    let defaults = default_registration_limits in
    record s {
      mode = some mode;
      limits = record {
        per_source_per_hour = or_default limits.per_source_per_hour defaults.per_source_per_hour;
        per_hour = or_default limits.per_hour defaults.per_hour;
        max_clients = or_default limits.max_clients defaults.max_clients;
        unused_ttl = or_default limits.unused_ttl defaults.unused_ttl;
        max_tracked_sources = or_default limits.max_tracked_sources defaults.max_tracked_sources;
      };
    }

unfoldable pub effective_registration_mode_locked : AuthServer → Mode
effective_registration_mode_locked s = elim s.mode [ none ↦ bounded | some m ↦ m ]

unfoldable pub effective_registration_limits_locked : AuthServer → Limits
unfolding default_registration_limits
effective_registration_limits_locked s =
    if s.limits.max_clients == 0 then default_registration_limits else s.limits

unfoldable pub persist_clients_locked : Bool → AuthServer → AuthServer
persist_clients_locked written s = if s.path && written then record s { file = s.clients } else s

-- A client stays if it was used, if it has no time, or if it is young.
unfoldable pub stays : ℕ → ℕ → Client → Bool
stays now ttl client =
    if not (client.used_at == 0) || (client.created_at == 0)
    then true
    else not (leb ttl (now - client.created_at))

unfoldable pub expire_unused_clients_locked : ℕ → ℕ → Bool → AuthServer → AuthServer
unfolding stays persist_clients_locked
expire_unused_clients_locked now ttl written s =
    if ttl == 0
    then s
    else let left = Map.retain (stays now ttl) s.clients in
      let expired = record s { clients = left } in
      if ltb (length left) (length s.clients)
      then persist_clients_locked written expired
      else expired

unfoldable pub total_count : Map Window → ℕ
total_count [] = 0
total_count ((source, window) ∷ rest) = window.count + total_count rest

-- The state, the outcome, and whether it is reported.
pub record Admission : Type 0 where
  pub server : AuthServer
  pub outcome : Outcome
  pub reported : Bool

unfoldable pub refuse : Text → Window → Outcome → AuthServer → Admission
refuse source window outcome s = record {
  server = record s { rates = Map.put source (record window { refused = true }) s.rates };
  outcome = outcome;
  reported = not window.refused;
}

-- The decision on a source whose window is known or new.
unfoldable pub admit_window : Text → Window → ℕ → Limits → AuthServer → Admission
unfolding refuse
admit_window source window total limits s =
    if leb limits.per_source_per_hour window.count || leb limits.per_hour total
    then refuse source window refused_rate s
    else if leb limits.max_clients (length s.clients)
    then refuse source window refused_capacity s
    else record {
      server = record s {
        rates = Map.put source (record window { count = window.count + 1 }) s.rates;
      };
      outcome = accepted;
      reported = true;
    }

-- The sweep that comes first.
unfoldable pub swept : ℕ → Bool → AuthServer → AuthServer
unfolding expire_unused_clients_locked effective_registration_limits_locked
swept now written s =
    let limits = effective_registration_limits_locked s in
    expire_unused_clients_locked now limits.unused_ttl written
      (record s { rates = Map.retain (λ window. not (leb hour (now - window.since))) s.rates })

unfoldable pub admit_registration_locked : Text → ℕ → Bool → AuthServer → Admission
unfolding swept admit_window total_count effective_registration_limits_locked
admit_registration_locked source now written s =
    let limits = effective_registration_limits_locked s in
    let t = swept now written s in
    let total = total_count t.rates in
    let new : Window = record { since = now; count = 0; refused = false } in
    elim (Map.get source t.rates) [
      | none ↦
          if leb limits.max_tracked_sources (length t.rates)
          then record { server = t; outcome = refused_rate; reported = true }
          else admit_window source new total limits t
      | some window ↦
          admit_window source (if leb hour (now - window.since) then new else window) total limits t
    ]

unfoldable pub mark_client_used_locked : Text → ℕ → Bool → AuthServer → AuthServer
unfolding persist_clients_locked
mark_client_used_locked id now written s = elim (Map.get id s.clients) [
  | none ↦ s
  | some client ↦
      if not (client.used_at == 0)
      then s
      else persist_clients_locked written
          (record s { clients = Map.put id (record client { used_at = now }) s.clients })
]

-- The decoded metadata of a request: `trailing` says that more JSON follows, `name` is the display
-- name that stands in for a blank one.
pub record Metadata : Type 0 where
  pub redirect_uris : List Text
  pub client_name : Text
  pub name : Text
  pub token_endpoint_auth : Text
  pub grant_types : List Text
  pub response_types : List Text
  pub trailing : Bool

pub record Event : Type 0 where
  pub outcome : Outcome
  pub client_id : Text
  pub source : Text
  pub client_name : Text

-- The state, the HTTP status, and the event for the audit log.
pub record Registered : Type 0 where
  pub server : AuthServer
  pub status : ℕ
  pub event : Option Event

unfoldable pub only_supported : List Text → List Text → Bool
only_supported allowed values = all (λ v. any (text_eq v) allowed) values

unfoldable pub distinct_valid : (Text → Bool) → List Text → List Text → Bool
distinct_valid valid seen [] = true
distinct_valid valid seen (uri ∷ rest) =
    let others = distinct_valid valid (uri ∷ seen) rest in
    if not (valid uri) || any (text_eq uri) seen then false else others

unfoldable pub acceptable : (Text → Bool) → Metadata → Bool
unfolding only_supported distinct_valid
acceptable valid m =
    if (length m.redirect_uris == 0) || ltb 8 (length m.redirect_uris)
    then false
    else if m.trailing
        || ltb 200 (length m.client_name)
        || (not (text_eq m.token_endpoint_auth [])
            && not (text_eq m.token_endpoint_auth (codes "none")))
        || not
            (only_supported (codes "authorization_code" ∷ codes "refresh_token" ∷ []) m.grant_types)
        || not (only_supported (codes "code" ∷ []) m.response_types)
    then false
    else distinct_valid valid [] m.redirect_uris

unfoldable pub is_accepted : Outcome → Bool
is_accepted accepted = true
is_accepted _ = false

-- What `register` does with an admission.
unfoldable pub answer_registration : Text → Text → ℕ → Bool → Metadata → Admission → Registered
unfolding persist_clients_locked is_accepted
answer_registration source id now written m a =
    let client : Client = record {
      redirect_uris = m.redirect_uris;
      name = m.name;
      created_at = now;
      used_at = 0;
    } in
    if is_accepted a.outcome
    then record {
      server =
          persist_clients_locked written
            (record a.server { clients = Map.put id client a.server.clients });
      status = 201;
      event =
          some
            (record { outcome = accepted; client_id = id; source = source; client_name = m.name });
    }
    else record {
      server = a.server;
      status = 429;
      event =
          if a.reported
          then some (record {
            outcome = a.outcome;
            client_id = [];
            source = source;
            client_name = m.name;
          })
          else none;
    }

-- `register` for a POST; `body` is none where it does not decode, `id` is the new client's.
unfoldable pub register :
    (Text → Bool) → Text → Option Metadata → Text → ℕ → Bool → AuthServer → Registered
unfolding admit_registration_locked answer_registration acceptable
    effective_registration_mode_locked
register valid source body id now written s =
    let bad : Registered = record { server = s; status = 400; event = none } in
    elim (effective_registration_mode_locked s) [
      | off ↦ record {
        server = s;
        status = 403;
        event = some (record {
          outcome = refused_disabled;
          client_id = [];
          source = source;
          client_name = [];
        });
      }
      | bounded ↦ elim body [
        | none ↦ bad
        | some m ↦
            if acceptable valid m
            then answer_registration source id now written m
                (admit_registration_locked source now written s)
            else bad
      ]
    ]
