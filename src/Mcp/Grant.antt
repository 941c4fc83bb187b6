-- ===== src/Mcp/Grant.antt =====
-- internal/mcp/grant.go: the authority that an operator gives to one operation of one caller.
pub mod Urls
pub mod Validate
pub mod Evaluate
pub mod Pointers
pub mod Walk
pub mod Governed
use microagency.Base.{ℕ, Bool, List, Text, codes}
use microagency.Base.Map.{Map}

pub record ArgumentGrant : Type 0 where
  pub pointer : Text
  pub required : Bool
  pub values : List Text
  pub pattern : Text
  pub max_bytes : ℕ
  pub url_target : Text

pub record ResourceGrant : Type 0 where
  pub kind : Text
  pub namespace : Text
  pub argument : Text
  pub value : Text
  pub shared_writable : Bool

pub record UrlTargetGrant : Type 0 where
  pub id : Text
  pub origins : List Text
  pub paths : List Text
  pub query : Map (List Text)
  pub redirect : Bool

pub record RateGrant : Type 0 where
  pub requests : ℕ
  pub window_s : ℕ

pub record OperationGrant : Type 0 where
  pub version : Text
  pub id : Text
  pub connection : Text
  pub tool : Text
  pub effect : Text
  pub principal : Text
  pub campaign : Text
  pub expires_at : Text
  pub arguments : List ArgumentGrant
  pub resources : List ResourceGrant
  pub url_targets : List UrlTargetGrant
  pub max_requests : ℕ
  pub max_bytes : ℕ
  pub max_response_bytes : ℕ
  pub rate : RateGrant
  pub metadata : Map Text
  pub allow_shared : Bool
  pub high_assurance : Bool

pub record EvaluatedGrant : Type 0 where
  pub grant : OperationGrant
  pub digest : Text
  pub resource_ids : List Text
  pub shared_writable_ids : List Text

abbrev pub effect_read : Text
effect_read = codes "read"

abbrev pub effect_write : Text
effect_write = codes "write"
